-- ===== src/Transport/Sas/Digits.antt =====
-- Both peers compute the same digits, which fit six places.
use borderless.Base.{ℕ, ◌≡◌, refl, ◌+◌, ◌*◌, true, false, List, [], ◌∷◌, arith}
use borderless.Core.Node.{Bytes, Blake3}
use borderless.Transport.Sas.{lex_le, sort_pair, sas_digits, to_string_padded}

lex_le-total : (xs ys : Bytes) → lex_le xs ys ≡ false → lex_le ys xs ≡ true
unfolding lex_le
lex_le-total [] ys h = cc
lex_le-total (a ∷ xs) [] h = refl
lex_le-total (a ∷ xs) (b ∷ ys) h = ground (arith, lex_le-total xs ys)

lex_le-antisym : (xs ys : Bytes) → lex_le xs ys ≡ true → lex_le ys xs ≡ true → xs ≡ ys
unfolding lex_le
lex_le-antisym [] [] h k = refl
lex_le-antisym [] (b ∷ ys) h k = cc
lex_le-antisym (a ∷ xs) [] h k = cc
lex_le-antisym (a ∷ xs) (b ∷ ys) h k = ground (arith, lex_le-antisym xs ys)

pub sort_pair_comm : (xs ys : Bytes) → sort_pair xs ys ≡ sort_pair ys xs
unfolding sort_pair
sort_pair_comm xs ys = ground (arith, lex_le-total xs ys, lex_le-total ys xs, lex_le-antisym xs ys)

-- The two peers, who each put their own key first, derive the same digits, whatever the hash is.
pub sas_digits_comm :
    (h : Blake3) (pk_a pk_b salt : Bytes)
    → sas_digits h pk_a pk_b salt ≡ sas_digits h pk_b pk_a salt
unfolding sas_digits
sas_digits_comm h pk_a pk_b salt = rw (sort_pair_comm pk_a pk_b)

-- The number whose decimal digits these are.
abbrev pub of_digits : ℕ → List ℕ → ℕ
of_digits n [] = n
of_digits n (d ∷ ds) = of_digits (n * 10 + d) ds

-- The six digits that are shown are those of the number: no leading digit is lost.
pub of_digits-sas_digits :
    (h : Blake3) (pk_a pk_b salt : Bytes)
    → of_digits 0 (to_string_padded (sas_digits h pk_a pk_b salt))
      ≡ (sas_digits h pk_a pk_b salt).number
unfolding sas_digits to_string_padded
of_digits-sas_digits h pk_a pk_b salt = omega arith
