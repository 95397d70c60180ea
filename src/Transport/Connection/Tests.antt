-- ===== src/Transport/Connection/Tests.antt =====
-- Frames of one byte over concrete streams, and a connection that falls silent.
use borderless.Base.{suc, ◌≡◌, refl, true, false, List, [], ◌∷◌, none, some, length}
use borderless.Core.Node.{Bytes}
use borderless.Transport.Error.{Error}
use borderless.Transport.Frame.{Stream, write_framed}
use borderless.Transport.Connection.{Codec, IsLossless, send_frame, writer, reader}
use borderless.Transport.Connection.Sequence.{reader-writer}
use borderless.Transport.Connection.Lock
use borderless.Transport.Connection.Lock.{
  Link, Act, lock_to_read, lock_to_write, queue, fresh, run, act, readers_first_deadlock,
}

-- Bytes as they are.
abbrev plain : Codec Bytes
plain = record { encode = λ bytes. some bytes; decode = λ bytes. some bytes }

plain-IsLossless : IsLossless plain
plain-IsLossless a bytes e = cc

abbrev start : Stream
start = record { incoming = []; outgoing = []; broken = false }

abbrev frames : List Bytes
frames = (5 ∷ []) ∷ (6 ∷ 7 ∷ []) ∷ []

abbrev wire : Bytes
wire = 1 ∷ 0 ∷ 0 ∷ 0 ∷ 5 ∷ 2 ∷ 0 ∷ 0 ∷ 0 ∷ 6 ∷ 7 ∷ []

written : writer plain frames start ≡ (record start { outgoing = wire }, true)
unfolding writer send_frame write_framed
written = refl

reader-writer_example :
    reader plain (suc (length frames)) (record start { incoming = wire }) ≡ (frames, some Error.io)
reader-writer_example =
    reader-writer plain plain-IsLossless frames start (record start { outgoing = wire })
      (record start { incoming = wire }) written refl refl

abbrev silent : Link
silent = record {
  left = record { holder = some Lock.reading; arrived = 0; queued = 2; received = 0 };
  right = record { holder = some Lock.reading; arrived = 0; queued = 0; received = 0 };
}

goes_silent :
    run (fresh 1 0) ((true, lock_to_read) ∷ (false, lock_to_read) ∷ (true, queue) ∷ [])
    ≡ some silent
unfolding run
goes_silent = refl

cannot_write :
    run (fresh 1 0) ((true, lock_to_read) ∷ (false, lock_to_read) ∷ (true, lock_to_write) ∷ [])
    ≡ none
unfolding run
cannot_write = refl

readers_first_deadlock_example : (silent.left.received ≡ 0) × (silent.right.received ≡ 0)
readers_first_deadlock_example = readers_first_deadlock 1 0 ((true, queue) ∷ []) silent goes_silent
