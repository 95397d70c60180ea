-- ===== src/Base/Results.antt =====
-- Rust's `Result`, with `?` as the bind of a `do` block.
use mathlib.Core.Path.{◌≡◌, refl}
use mathlib.Core.Logic.{◌⊎◌, inl, inr}
use mathlib.Core.Option.{Option, none, some}
use mathlib.Core.Bool.{Bool, true, false}

pub data Result (E A : Type 0) : Type 0 where
  ok : A → Result E A
  err : E → Result E A

infixl 5 ◌>>=◌ ◌>>◌
abbrev pub ◌>>=◌ : {E A B : Type 0} → Result E A → (A → Result E B) → Result E B
err e >>= next = err e
ok got >>= next = next got

abbrev pub ◌>>◌ : {E B : Type 0} → Result E (Unit {0}) → Result E B → Result E B
m >> k = m >>= λ _. k

-- `if c { return Err(e) }`
abbrev pub fail_if : {E : Type 0} → Bool → E → Result E (Unit {0})
fail_if true e = err e
fail_if false e = ok tt

-- `ok_or`
abbrev pub or_fail : {E A : Type 0} → Option A → E → Result E A
or_fail none e = err e
or_fail (some a) e = ok a

-- A chain that succeeds has a first step that succeeds.
pub >>=-eq-ok :
    {E A B : Type 0} {out : B} (step : Result E A) (next : A → Result E B)
    → (step >>= next) ≡ ok out
    → (got : A) × (step ≡ ok got) × (next got ≡ ok out)
>>=-eq-ok (err e) next run = cc
>>=-eq-ok (ok got) next run = (got, refl, run)

pub Result-cases :
    {E A : Type 0} (m : Result E A) → ((e : E) × (m ≡ err e)) ⊎ ((a : A) × (m ≡ ok a))
Result-cases (ok a) = inr (a, refl)
Result-cases (err e) = inl (e, refl)

pub ok_inj : {E A : Type 0} {a b : A} → Path (Result E A) (ok a) (ok b) → a ≡ b
ok_inj h = cc

-- A guard that was passed.
pub passed :
    {E B : Type 0} (c : Bool) (e : E) (k : Result E B) {b : B}
    → (fail_if c e >> k) ≡ ok b
    → (c ≡ false) × (k ≡ ok b)
passed true e k h = cc
passed false e k h = (refl, h)

pub passed_last : {E : Type 0} (c : Bool) (e : E) → fail_if c e ≡ ok tt → c ≡ false
passed_last true e h = cc
passed_last false e h = refl

-- `map_err` to a message that does not look at the error.
abbrev pub map_err : {E F A : Type 0} → F → Result E A → Result F A
map_err f (ok a) = ok a
map_err f (err e) = err f

pub map_err-passed :
    {E F B : Type 0} (f : F) (r : Result E (Unit {0})) (k : Result F B) {b : B}
    → (map_err f r >> k) ≡ ok b
    → (r ≡ ok tt) × (k ≡ ok b)
map_err-passed f (ok tt) k h = (refl, h)
map_err-passed f (err e) k h = cc

pub >>-eq-ok :
    {E B : Type 0} (m : Result E (Unit {0})) (k : Result E B) {b : B}
    → (m >> k) ≡ ok b
    → (m ≡ ok tt) × (k ≡ ok b)
>>-eq-ok (ok tt) k h = (refl, h)
>>-eq-ok (err e) k h = cc
