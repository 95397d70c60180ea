-- ===== src/Transport/Sas.antt =====
-- crates/transport/src/sas.rs: the short authentication string. The BLAKE3 hasher is a parameter.
pub mod Digits
mod Tests
use borderless.Base.{
  ℕ, suc, ◌+◌, ◌*◌, ◌/◌, ◌%◌, ◌^◌, Bool, true, false, ltb, ◌==◌, List, [], ◌∷◌, ◌++◌, take,
  if◌then◌else◌,
}
use borderless.Core.Node.{Bytes, Blake3}

pub record ShortAuthString : Type 0 where
  pub number : ℕ

-- `b"borderless/sas/v0"`
abbrev pub sas_label : Bytes
sas_label =
    98 ∷ 111 ∷ 114 ∷ 100 ∷ 101 ∷ 114 ∷ 108 ∷ 101 ∷ 115 ∷ 115 ∷ 47 ∷ 115 ∷ 97 ∷ 115 ∷ 47 ∷ 118 ∷ 48
    ∷ []

-- `<=` on byte arrays
unfoldable pub lex_le : Bytes → Bytes → Bool
lex_le [] ys = true
lex_le (a ∷ xs) [] = false
lex_le (a ∷ xs) (b ∷ ys) = if a == b then lex_le xs ys else ltb a b

unfoldable pub sort_pair : Bytes → Bytes → Bytes × Bytes
unfolding lex_le
sort_pair pk_a pk_b = if lex_le pk_a pk_b then (pk_a, pk_b) else (pk_b, pk_a)

-- The loop over the first four bytes of the digest.
unfoldable pub fold_bytes : ℕ → Bytes → ℕ
fold_bytes int [] = int
fold_bytes int (b ∷ ys) = fold_bytes ((int * 256 % 2 ^ 32 + b) % 2 ^ 32) ys

unfoldable pub sas_digits : Blake3 → Bytes → Bytes → Bytes → ShortAuthString
unfolding sort_pair fold_bytes
sas_digits h pk_a pk_b salt =
    let (lo, hi) = sort_pair pk_a pk_b in
    let digest = h.hash (sas_label ++ lo ++ hi ++ salt) in
    record { number = fold_bytes 0 (take 4 digest) % 1000000 }

-- `format!("{:06}")`: the decimal digits, at least six of them, as numbers. The value is below 10^6.
unfoldable pub to_string_padded : ShortAuthString → List ℕ
to_string_padded s =
    (s.number / 100000) % 10
    ∷ (s.number / 10000) % 10
    ∷ (s.number / 1000) % 10
    ∷ (s.number / 100) % 10
    ∷ (s.number / 10) % 10
    ∷ s.number % 10
    ∷ []
