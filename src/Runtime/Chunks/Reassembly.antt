-- ===== src/Runtime/Chunks/Reassembly.antt =====
-- What the receiver of a fetch response puts together again.
use borderless.Base.{
  ℕ_discrete, ℕ, zero, suc, ◌+◌, ◌-◌, ◌*◌, ◌%◌, ◌^◌, ◌≤◌, ◌<◌, ◌≡◌, refl, ◌∙◌, sym, List, [], ◌∷◌,
  ◌++◌, length, drop, length-take, length-drop, take-append-drop, arith,
}
use borderless.Core.Node.{Bytes}
use borderless.Core.Wire.{WireFrame}
use borderless.Runtime.Chunks.{
  chunks, number_chunks, chunk_fetch_response, div_ceil, fetch_chunk_size,
}

-- The bytes that a receiver appends for a frame.
unfoldable pub payload_of : WireFrame → Bytes
payload_of (WireFrame.fetch_response hash i total bytes) = bytes
payload_of _ = []

unfoldable pub reassemble : List WireFrame → Bytes
reassemble [] = []
reassemble (f ∷ fs) = payload_of f ++ reassemble fs

unfoldable pub concat : List Bytes → Bytes
concat [] = []
concat (c ∷ cs) = c ++ concat cs

concat-chunks :
    (n size : ℕ) (bytes : Bytes)
    → length bytes ≤ n
    → 0 < size
    → concat (chunks n size bytes) ≡ bytes
unfolding concat chunks
concat-chunks zero size [] h s = refl
concat-chunks zero size (b ∷ bs) h s = absurd (omega arith)
concat-chunks (suc n) size [] h s = refl
concat-chunks (suc n) size (b ∷ bs) h s =
    rw (concat-chunks n size (drop size (b ∷ bs)) (omega (arith, length-drop size (b ∷ bs))) s)
      (take-append-drop size (b ∷ bs))

reassemble-number_chunks :
    (hash : Bytes) (total i : ℕ) (cs : List Bytes)
    → reassemble (number_chunks hash total i cs) ≡ concat cs
unfolding reassemble payload_of concat number_chunks
reassemble-number_chunks hash total i [] = refl
reassemble-number_chunks hash total i (c ∷ cs) = rw (reassemble-number_chunks hash total (suc i) cs)

-- A response to a payload that is not empty.
response-chunks :
    (hash bytes : Bytes)
    → 0 < length bytes
    → chunk_fetch_response hash bytes
      ≡ number_chunks hash
          (div_ceil (length bytes) fetch_chunk_size % 2 ^ 32)
          0
          (chunks (length bytes) fetch_chunk_size bytes)
unfolding chunk_fetch_response
response-chunks hash bytes h = ground arith

response-nil :
    (hash bytes : Bytes)
    → length bytes ≡ 0
    → chunk_fetch_response hash bytes ≡ WireFrame.fetch_response hash 0 1 [] ∷ []
unfolding chunk_fetch_response
response-nil hash bytes h = ground arith

nil-length : (bytes : Bytes) → length bytes ≡ 0 → bytes ≡ []
nil-length [] h = refl
nil-length (b ∷ bs) h = absurd (omega arith)

-- The bytes of a response's frames, put together in the order in which they are sent, are the payload.
pub reassemble-chunk_fetch_response :
    (hash bytes : Bytes) → reassemble (chunk_fetch_response hash bytes) ≡ bytes
unfolding reassemble payload_of
reassemble-chunk_fetch_response hash bytes = elim (ℕ_discrete (length bytes) 0) [
  | yes e ↦ rw (response-nil hash bytes e) (sym (nil-length bytes e))
  | no n ↦ rw (response-chunks hash bytes (omega arith)) (
      reassemble-number_chunks hash _ 0 (chunks (length bytes) fetch_chunk_size bytes)
      ∙ concat-chunks (length bytes) fetch_chunk_size bytes (omega arith) (omega arith))
]

-- The frames of a response to a hash from an index on: each names the hash and the total, has the next
-- index, and holds at most so many bytes. After the last one the index is the total.
pub data Numbered (size : ℕ) (hash : Bytes) (total : ℕ) : ℕ → List WireFrame → Type 0 where
  done : Numbered size hash total total []
  next :
      {i : ℕ} {bytes : Bytes} {fs : List WireFrame}
      → length bytes ≤ size
      → Numbered size hash total (suc i) fs
      → Numbered size hash total i (WireFrame.fetch_response hash i total bytes ∷ fs)

add_zero : (n : ℕ) → n + 0 ≡ n
add_zero n = omega arith

small_index : (i : ℕ) → i < 2 ^ 32 → i % 2 ^ 32 ≡ i
small_index i h = omega arith

div_ceil-step :
    (n : ℕ)
    → 0 < n
    → div_ceil n fetch_chunk_size ≡ suc (div_ceil (n - fetch_chunk_size) fetch_chunk_size)
div_ceil-step n h = omega arith

number_chunks-Numbered :
    (size : ℕ)
    → ((n : ℕ) → 0 < n → div_ceil n size ≡ suc (div_ceil (n - size) size))
    → div_ceil 0 size ≡ 0
    → 0 < size
    → (hash : Bytes) (n i total : ℕ) (bytes : Bytes) → length bytes ≤ n
    → total < 2 ^ 32
    → total ≡ i + div_ceil (length bytes) size
    → Numbered size hash total i (number_chunks hash total i (chunks n size bytes))
unfolding number_chunks chunks
number_chunks-Numbered size step none s hash zero i total [] h t e =
    rw e (rw (none, add_zero i) done)
number_chunks-Numbered size step none s hash (suc n) i total [] h t e =
    rw e (rw (none, add_zero i) done)
number_chunks-Numbered size step none s hash zero i total (b ∷ bs) h t e = absurd (omega arith)
number_chunks-Numbered size step none s hash (suc n) i total (b ∷ bs) h t e =
    let len = length-drop size (b ∷ bs) in
    let more = step (length (b ∷ bs)) (omega arith) in
    rw (small_index i (omega arith)) (
      next (omega (arith, length-take size (b ∷ bs))) (
        number_chunks-Numbered size step none s hash n (suc i) total (drop size (b ∷ bs))
          (omega arith) t (e ∙ rw (more, len) (omega arith))))

-- The frames of a response to a payload of at most 2^32 - 1 chunks have the indices 0, 1, … up to the total that
-- each of them names, which is at least one; each holds at most a chunk.
pub chunk_fetch_response-Numbered :
    (hash bytes : Bytes)
    → length bytes ≤ (2 ^ 32 - 1) * fetch_chunk_size
    → (total : ℕ) × (0 < total)
      × Numbered fetch_chunk_size hash total 0 (chunk_fetch_response hash bytes)
chunk_fetch_response-Numbered hash bytes h = elim (ℕ_discrete (length bytes) 0) [
  | yes e ↦ (1, omega arith, rw (response-nil hash bytes e) (next (omega arith) done))
  | no n ↦ (
    div_ceil (length bytes) fetch_chunk_size % 2 ^ 32,
    (omega arith),
    rw (response-chunks hash bytes (omega arith)) (
        number_chunks-Numbered fetch_chunk_size div_ceil-step (omega arith) (omega arith) hash
          (length bytes) 0 (div_ceil (length bytes) fetch_chunk_size % 2 ^ 32) bytes (omega arith)
          (omega arith) (omega arith)),
  )
]
