-- ===== src/Transport/Sas/Tests.antt =====
-- Digits of concrete keys.
use borderless.Base.{◌≡◌, refl, [], ◌∷◌}
use borderless.Core.Node.{Blake3}
use borderless.Transport.Sas.{sort_pair, fold_bytes, to_string_padded}

-- A hash that gives its input back.
abbrev echo_hash : Blake3
echo_hash = record { hash = λ bs. bs }

padded_42 : to_string_padded (record { number = 42 }) ≡ 0 ∷ 0 ∷ 0 ∷ 0 ∷ 4 ∷ 2 ∷ []
unfolding to_string_padded
padded_42 = refl

sorted_pair : sort_pair (2 ∷ 1 ∷ []) (1 ∷ 9 ∷ []) ≡ (1 ∷ 9 ∷ [], 2 ∷ 1 ∷ [])
unfolding sort_pair
sorted_pair = refl

folded : fold_bytes 0 (1 ∷ 2 ∷ 3 ∷ 4 ∷ []) ≡ 16909060
unfolding fold_bytes
folded = refl
