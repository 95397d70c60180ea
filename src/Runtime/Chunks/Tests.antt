-- ===== src/Runtime/Chunks/Tests.antt =====
-- Responses to concrete requests.
use borderless.Base.{◌≡◌, refl, [], ◌∷◌}
use borderless.Core.Node.{Bytes}
use borderless.Core.Wire.{WireFrame}
use borderless.Runtime.Chunks.{chunks, chunk_fetch_response}
use borderless.Runtime.Chunks.Reassembly.{reassemble, reassemble-chunk_fetch_response}

abbrev payload : Bytes
payload = 1 ∷ 2 ∷ 3 ∷ 4 ∷ 5 ∷ []

in_twos : chunks 5 2 payload ≡ (1 ∷ 2 ∷ []) ∷ (3 ∷ 4 ∷ []) ∷ (5 ∷ []) ∷ []
unfolding chunks
in_twos = refl

of_nothing : chunk_fetch_response (7 ∷ []) [] ≡ WireFrame.fetch_response (7 ∷ []) 0 1 [] ∷ []
unfolding chunk_fetch_response
of_nothing = refl

reassemble-chunk_fetch_response_example :
    reassemble (chunk_fetch_response (7 ∷ []) payload) ≡ payload
reassemble-chunk_fetch_response_example = reassemble-chunk_fetch_response (7 ∷ []) payload
