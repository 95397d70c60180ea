-- ===== src/Transport/Frame/Roundtrip.antt =====
-- A frame that is written is read back, and the rest of the stream is left.
use Prim.Native.String.{String}
use borderless.Base.{
  ℕ, ◌≡◌, refl, ◌∙◌, ◌≤◌, ◌<◌, ◌^◌, true, false, ◌++◌, append_assoc, length, length-append,
  take-append, drop-append, ok, err, ltb, if◌then◌else◌, arith, ◌↔◌, ◌⊎◌, inl, inr, Bool-cases,
}
use borderless.Core.Node.{Bytes}
use borderless.Transport.Error.{Error}
use borderless.Transport.Frame.{
  Stream, to_le_bytes, from_le_bytes, max_frame, read_exact, write_all, read_limited, read_framed,
  write_framed, write_framed_raw,
}

pub from_le_bytes-to_le_bytes : (n : ℕ) → n < 2 ^ 32 → from_le_bytes (to_le_bytes n) ≡ n
from_le_bytes-to_le_bytes n h = omega arith

-- The bytes of a frame.
abbrev pub framed : Bytes → Bytes
framed payload = to_le_bytes (length payload) ++ payload

module _ (bs rest : Bytes) (s : Stream) (h : s.incoming ≡ bs ++ rest) where
  pub read_exact-append : read_exact (length bs) s ≡ ok (bs, record s { incoming = rest })
  unfolding read_exact
  read_exact-append =
      rw
        (
          h,
          take-append (length bs) bs rest refl,
          drop-append (length bs) bs rest refl,
          length-append bs rest,
        )
        (ground arith)

pub read_limited-framed :
    (limit : ℕ) (message : String) (payload rest : Bytes) (s : Stream)
    → limit < 2 ^ 32
    → length payload ≤ limit
    → s.incoming ≡ framed payload ++ rest
    → read_limited limit message s ≡ ok (payload, record s { incoming = rest })
unfolding read_limited
read_limited-framed limit message payload rest s hl hp h =
    rw
      (
        read_exact-append (to_le_bytes (length payload)) (payload ++ rest) s
            (h ∙ append_assoc (to_le_bytes (length payload)) payload rest),
        from_le_bytes-to_le_bytes (length payload) (omega arith),
        read_exact-append payload rest (record s { incoming = payload ++ rest }) refl,
      )
      (ground arith)

pub write_framed_raw-framed :
    (payload : Bytes) (s : Stream)
    → s.broken ≡ false
    → write_framed_raw payload s ≡ ok (record s { outgoing = s.outgoing ++ framed payload })
unfolding write_framed_raw write_all
write_framed_raw-framed payload s h =
    rw (h, append_assoc s.outgoing (to_le_bytes (length payload)) payload)

pub write_framed_lem :
    (payload : Bytes) (s : Stream)
    → write_framed payload s ≡ (
        if ltb max_frame (length payload)
        then err (Error.codec "frame too large")
        else if s.broken
        then err Error.io
        else ok (record s { outgoing = s.outgoing ++ framed payload }))
unfolding write_framed write_framed_raw write_all
write_framed_lem payload s = elim (Bool-cases s.broken) [
  | inl b ↦ rw b (ground arith)
  | inr b ↦ rw (write_framed_raw-framed payload s b, b) (ground arith)
]

-- A successful write appends some bytes to the stream, and nothing but these: from a stream that
-- begins with them a read returns the payload and leaves exactly what follows them.
pub read_framed-write_framed :
    (payload : Bytes) (s s' : Stream)
    → write_framed payload s ≡ ok s'
    → (bytes : Bytes) × (s' ≡ record s { outgoing = s.outgoing ++ bytes })
      × ((t : Stream) (rest : Bytes)
          → t.incoming ≡ bytes ++ rest
          → read_framed t ≡ ok (payload, record t { incoming = rest }))
unfolding read_framed
read_framed-write_framed payload s s' h = (
  framed payload,
  ground (arith, write_framed_lem payload s),
  λ t rest e.
      read_limited-framed max_frame "frame too large" payload rest t (omega arith)
        (ground (arith, write_framed_lem payload s)) e,
)

-- A write fails exactly when the payload is longer than the limit or the stream is broken.
pub write_framed-fails :
    (payload : Bytes) (s : Stream)
    → ((e : Error) × (write_framed payload s ≡ err e))
      ↔ ((max_frame < length payload) ⊎ (s.broken ≡ true))
write_framed-fails payload s = ground (arith, write_framed_lem payload s)
