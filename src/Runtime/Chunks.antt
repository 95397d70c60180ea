-- ===== src/Runtime/Chunks.antt =====
-- `chunk_fetch_response` of crates/cli/src/runtime/server.rs.
pub mod Reassembly
mod Tests
use borderless.Base.{
  ℕ, zero, suc, ◌+◌, ◌-◌, ◌*◌, ◌/◌, ◌%◌, ◌^◌, List, [], ◌∷◌, ◌==◌, if◌then◌else◌, length, take,
  drop,
}
use borderless.Core.Node.{Bytes}
use borderless.Core.Wire.{WireFrame}

-- `FETCH_CHUNK_SIZE`
abbrev pub fetch_chunk_size : ℕ
fetch_chunk_size = 256 * 1024

-- `slice::chunks`, in at most so many pieces.
unfoldable pub chunks : ℕ → ℕ → Bytes → List Bytes
chunks zero size bytes = []
chunks (suc n) size [] = []
chunks (suc n) size (b ∷ bs) = take size (b ∷ bs) ∷ chunks n size (drop size (b ∷ bs))

-- `enumerate` and the `map` to frames; an index is cast to `u32`.
unfoldable pub number_chunks : Bytes → ℕ → ℕ → List Bytes → List WireFrame
number_chunks hash total i [] = []
number_chunks hash total i (chunk ∷ rest) =
    WireFrame.fetch_response hash (i % 2 ^ 32) total chunk ∷ number_chunks hash total (suc i) rest

-- `div_ceil`
abbrev pub div_ceil : ℕ → ℕ → ℕ
div_ceil a b = (a + (b - 1)) / b

unfoldable pub chunk_fetch_response : Bytes → Bytes → List WireFrame
unfolding chunks number_chunks
chunk_fetch_response hash bytes =
    if length bytes == 0
    then WireFrame.fetch_response hash 0 1 [] ∷ []
    else number_chunks hash (div_ceil (length bytes) fetch_chunk_size % 2 ^ 32) 0
        (chunks (length bytes) fetch_chunk_size bytes)
