-- ===== src/Transport/Frame.antt =====
-- The framed byte stream of crates/transport/src/connection.rs. A stream is what is left to read
-- before its end, what was written, and whether a write fails. A call that fails returns the stream
-- as it was.
pub mod Roundtrip
mod Tests
use Prim.Native.String.{String}
use borderless.Base.{
  ℕ, suc, ◌+◌, ◌*◌, ◌/◌, ◌%◌, ◌^◌, Bool, List, [], ◌∷◌, ◌++◌, ltb, leb, if◌then◌else◌, length, take,
  drop, Result, ok, err, ◌>>=◌, ◌>>◌, fail_if,
}
use borderless.Core.Node.{Bytes}
use borderless.Transport.Error.{Error}

pub record Stream : Type 0 where
  pub incoming : Bytes
  pub outgoing : Bytes
  pub broken : Bool

-- `MAX_FRAME`
abbrev pub max_frame : ℕ
max_frame = 64 * 1024 * 1024

-- The limit of `read_hello`.
abbrev pub max_hello : ℕ
max_hello = 16 * 1024

-- `u32::to_le_bytes` after `as u32`
abbrev pub to_le_bytes : ℕ → Bytes
to_le_bytes n = n % 256 ∷ (n / 256) % 256 ∷ (n / 256 ^ 2) % 256 ∷ (n / 256 ^ 3) % 256 ∷ []

-- `u32::from_le_bytes`
abbrev pub from_le_bytes : Bytes → ℕ
from_le_bytes [] = 0
from_le_bytes (b ∷ bs) = b + 256 * from_le_bytes bs

-- `read_exact`
unfoldable pub read_exact : ℕ → Stream → Result Error (Bytes × Stream)
read_exact n s =
    if leb n (length s.incoming)
    then ok (take n s.incoming, record s { incoming = drop n s.incoming })
    else err Error.io

-- `write_all` and `flush`
unfoldable pub write_all : Bytes → Stream → Result Error Stream
write_all bs s = if s.broken then err Error.io else ok (record s { outgoing = s.outgoing ++ bs })

-- `read_framed` and the framing of `read_hello`, which differ in the limit and the message.
unfoldable pub read_limited : ℕ → String → Stream → Result Error (Bytes × Stream)
unfolding read_exact
read_limited limit message s = do
  (len_buf, s) ← read_exact 4 s
  let len = from_le_bytes len_buf
  fail_if (ltb limit len) (Error.codec message)
  read_exact len s

unfoldable pub read_framed : Stream → Result Error (Bytes × Stream)
unfolding read_limited
read_framed s = read_limited max_frame "frame too large" s

unfoldable pub write_framed_raw : Bytes → Stream → Result Error Stream
unfolding write_all
write_framed_raw payload s = do s ← write_all (to_le_bytes (length payload)) s; write_all payload s

unfoldable pub write_framed : Bytes → Stream → Result Error Stream
unfolding write_framed_raw
write_framed payload s = do
  fail_if (ltb max_frame (length payload)) (Error.codec "frame too large")
  write_framed_raw payload s
