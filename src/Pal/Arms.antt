-- ===== src/Pal/Arms.antt =====
-- A Rust `match` on a number with an arm for each of some numbers: the first arm that fits.
use borderless.Base.{
  ◌⊎◌, leb, ℕ, ◌≡◌, refl, Bool, true, false, ◌&&◌, Option, none, some, List, [], ◌∷◌, ◌==◌, ==_iff,
  if◌then◌else◌, Bool-cases, inl, inr, arith,
}

unfoldable pub match_arms : {A : Type 0} → ℕ → List (ℕ × A) → Option A
match_arms x [] = none
match_arms x ((k, a) ∷ arms) = let rest = match_arms x arms in if x == k then some a else rest

-- A test of every arm.
unfoldable pub all_arms : {A : Type 0} → (ℕ → A → Bool) → List (ℕ × A) → Bool
all_arms p [] = true
all_arms p ((k, a) ∷ arms) = p k a && all_arms p arms

and_left : (a b : Bool) → (a && b) ≡ true → a ≡ true
and_left true b h = refl
and_left false b h = cc

and_right : (a b : Bool) → (a && b) ≡ true → b ≡ true
and_right true b h = h
and_right false b h = cc

-- What the arm that was taken passes.
pub match_arms-passes :
    {A : Type 0} (p : ℕ → A → Bool) (arms : List (ℕ × A)) (x : ℕ) (a : A)
    → all_arms p arms ≡ true
    → match_arms x arms ≡ some a
    → p x a ≡ true
unfolding match_arms all_arms
match_arms-passes p [] x a h e = cc
match_arms-passes p ((k, b) ∷ arms) x a h e = elim (Bool-cases (x == k)) [
  | inl y ↦ ground (arith, ==_iff x k, and_left (p k b) (all_arms p arms))
  | inr n ↦ match_arms-passes p arms x a (and_right (p k b) (all_arms p arms) h) (ground arith)
]

-- `if let Some(k) = f(x) { return Some(k) }` before more of a function.
unfoldable pub or_else : {A : Type 0} → Option A → Option A → Option A
or_else none o = o
or_else (some a) o = some a

pub or_else-some :
    {A : Type 0} (o p : Option A) (a : A) → or_else o p ≡ some a → (o ≡ some a) ⊎ (p ≡ some a)
unfolding or_else
or_else-some none p a h = inr h
or_else-some (some b) p a h = inl h

-- `(lo..=hi).contains(&x)`
unfoldable pub within : ℕ → ℕ → ℕ → Bool
within lo hi x = leb lo x && leb x hi
