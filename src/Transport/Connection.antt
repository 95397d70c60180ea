-- ===== src/Transport/Connection.antt =====
-- `Connection::send_frame` and `recv_frame` of crates/transport/src/connection.rs, and the loops of
-- the runtimes that call them. The postcard codec is a parameter.
pub mod Sequence
pub mod Lock
mod Tests
use Prim.Native.String.{String}
use borderless.Base.{
  ℕ, zero, suc, Bool, true, false, List, [], ◌∷◌, ◌++◌, Option, none, some, Result, ok, err, ◌>>=◌,
  or_fail, ◌≡◌,
}
use borderless.Core.Node.{Bytes}
use borderless.Transport.Error.{Error}
use borderless.Transport.Frame.{Stream, read_framed, write_framed}

-- `borderless_core::encode` and `decode` at a type.
pub record Codec (A : Type 0) : Type 0 where
  pub encode : A → Option Bytes
  pub decode : Bytes → Option A

-- What the program relies on: an encoding decodes to the value.
abbrev pub IsLossless : {A : Type 0} → Codec A → Type 0
IsLossless {A} c = (a : A) (bytes : Bytes) → c.encode a ≡ some bytes → c.decode bytes ≡ some a

module _ {A : Type 0} (c : Codec A) where
  unfoldable pub send_frame : A → Stream → Result Error Stream
  send_frame frame s = do
    bytes ← or_fail (c.encode frame) (Error.codec "encode")
    write_framed bytes s

  unfoldable pub recv_frame : Stream → Result Error (A × Stream)
  recv_frame s = do
    (bytes, s) ← read_framed s
    frame ← or_fail (c.decode bytes) (Error.codec "decode")
    ok (frame, s)

  -- The writer task: the frames of the channel, until a send fails and the connection is closed.
  unfoldable pub writer : List A → Stream → Stream × Bool
  writer [] s = (s, true)
  writer (frame ∷ frames) s = elim (send_frame frame s) [
    | err e ↦ (s, false)
    | ok s' ↦ writer frames s'
  ]

  -- The reader task: what `recv_frame` returns until it fails, in at most so many turns of the loop.
  unfoldable pub reader : ℕ → Stream → List A × Option Error
  reader zero s = ([], none)
  reader (suc n) s = elim (recv_frame s) [
    | err e ↦ ([], some e)
    | ok (frame, s') ↦ let (frames, end) = reader n s' in (frame ∷ frames, end)
  ]
