-- ===== src/Clipboard/Lazy/Invariant.antt =====
-- The invariant of the store: the order lists each stored hash once, and `total_bytes` is the sum of
-- the sizes.
use borderless.Base.{
  ℕ, ◌+◌, ◌-◌, ◌≡◌, refl, ite, Bool, true, false, Option, none, some, List, [], ◌∷◌, ◌++◌, arith,
  length,
}
use borderless.Base.Dict.{
  Dict, lookup, insert, remove, lookup-insert, lookup-remove, lookup-insert_self,
}
use borderless.Core.Node.{Bytes, Bytes-discrete}

-- Is the hash in the list?
abbrev pub listed : Bytes → List Bytes → Bool
listed h [] = false
listed h (x ∷ xs) = ite (Bytes-discrete x h) true (listed h xs)

abbrev pub Distinct : List Bytes → Type 0
Distinct [] = Unit {0}
Distinct (x ∷ xs) = (listed x xs ≡ false) × Distinct xs

abbrev pub is_some : Option Bytes → Bool
is_some none = false
is_some (some _) = true

abbrev pub size_of : Option Bytes → ℕ
size_of none = 0
size_of (some v) = length v

-- The sizes of the entries that the list names.
abbrev pub sum_sizes : Dict Bytes Bytes → List Bytes → ℕ
sum_sizes m [] = 0
sum_sizes m (h ∷ hs) = size_of (lookup Bytes-discrete h m) + sum_sizes m hs

pub record IsValid (m : Dict Bytes Bytes) (order : List Bytes) (total : ℕ) : Type 0 where
  pub distinct : Distinct order
  pub indexed : (h : Bytes) → listed h order ≡ is_some (lookup Bytes-discrete h m)
  pub counted : total ≡ sum_sizes m order

pub sum_sizes-remove :
    (m : Dict Bytes Bytes) (h : Bytes) (hs : List Bytes)
    → listed h hs ≡ false
    → sum_sizes (remove Bytes-discrete h m) hs ≡ sum_sizes m hs
sum_sizes-remove m h [] e = refl
sum_sizes-remove m h (x ∷ xs) e =
    ground (arith, lookup-remove Bytes-discrete x h m, sum_sizes-remove m h xs)

pub sum_sizes-insert :
    (m : Dict Bytes Bytes) (h v : Bytes) (hs : List Bytes)
    → listed h hs ≡ false
    → sum_sizes (insert Bytes-discrete h v m) hs ≡ sum_sizes m hs
sum_sizes-insert m h v [] e = refl
sum_sizes-insert m h v (x ∷ xs) e =
    ground (arith, lookup-insert Bytes-discrete x h v m, sum_sizes-insert m h v xs)

pub sum_sizes-append :
    (m : Dict Bytes Bytes) (xs ys : List Bytes)
    → sum_sizes m (xs ++ ys) ≡ sum_sizes m xs + sum_sizes m ys
sum_sizes-append m [] ys = omega arith
sum_sizes-append m (x ∷ xs) ys = omega (arith, sum_sizes-append m xs ys)

pub listed-append :
    (h x : Bytes) (xs : List Bytes)
    → listed h (xs ++ (x ∷ [])) ≡ ite (Bytes-discrete x h) true (listed h xs)
listed-append h x [] = refl
listed-append h x (y ∷ ys) = ground (arith, listed-append h x ys)

pub Distinct-append :
    (x : Bytes) (xs : List Bytes) → listed x xs ≡ false → Distinct xs → Distinct (xs ++ (x ∷ []))
Distinct-append x [] e d = (refl, tt)
Distinct-append x (y ∷ ys) e d = ground (arith, listed-append y x ys, Distinct-append x ys)

-- The oldest entry goes, with its bytes.
pub pop-IsValid :
    (m : Dict Bytes Bytes) (oldest : Bytes) (rest : List Bytes) (total : ℕ)
    → IsValid m (oldest ∷ rest) total
    → IsValid
        (remove Bytes-discrete oldest m)
        rest
        (total - size_of (lookup Bytes-discrete oldest m))
pop-IsValid m oldest rest total v = record {
  distinct = v.distinct.1;
  indexed = λ h. ground (arith, v.indexed h, v.distinct, lookup-remove Bytes-discrete h oldest m);
  counted = omega (arith, v.counted, sum_sizes-remove m oldest rest v.distinct.0);
}

-- A new entry comes last.
pub push-IsValid :
    (m : Dict Bytes Bytes) (order : List Bytes) (total : ℕ) (h bytes : Bytes)
    → listed h order ≡ false
    → IsValid m order total
    → IsValid (insert Bytes-discrete h bytes m) (order ++ (h ∷ [])) (total + length bytes)
push-IsValid m order total h bytes new v = record {
  distinct = Distinct-append h order new v.distinct;
  indexed = λ k.
      ground
        (arith, v.indexed k, listed-append k h order, lookup-insert Bytes-discrete k h bytes m);
  counted = ground (
    arith,
    v.counted,
    sum_sizes-append (insert Bytes-discrete h bytes m) order (h ∷ []),
    sum_sizes-insert m h bytes order new,
    lookup-insert_self Bytes-discrete h bytes m,
  );
}
