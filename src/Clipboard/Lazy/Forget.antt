-- ===== src/Clipboard/Lazy/Forget.antt =====
-- `remove` on a valid store.
use borderless.Base.{
  ◌+◌, ◌≡◌, refl, inl, inr, ite, true, false, none, List, [], ◌∷◌, arith, Option-cases,
}
use borderless.Base.Dict.{Dict, lookup, remove, lookup-remove}
use borderless.Core.Node.{Bytes, Bytes-discrete}
use borderless.Clipboard.Lazy.{Inner, get, forget, retain_ne}
use borderless.Clipboard.Lazy.Invariant.{listed, Distinct, size_of, sum_sizes, sum_sizes-remove}
use borderless.Clipboard.Lazy.Evict.{IsStore}

retain_ne-unlisted :
    (hash : Bytes) (hs : List Bytes) → listed hash hs ≡ false → retain_ne hash hs ≡ hs
unfolding retain_ne
retain_ne-unlisted hash [] l = refl
retain_ne-unlisted hash (x ∷ xs) l = ground (arith, retain_ne-unlisted hash xs)

listed-retain_ne :
    (k hash : Bytes) (hs : List Bytes)
    → listed k (retain_ne hash hs) ≡ ite (Bytes-discrete hash k) false (listed k hs)
unfolding retain_ne
listed-retain_ne k hash [] = ground arith
listed-retain_ne k hash (x ∷ xs) = ground (arith, listed-retain_ne k hash xs)

retain_ne-Distinct : (hash : Bytes) (hs : List Bytes) → Distinct hs → Distinct (retain_ne hash hs)
unfolding retain_ne
retain_ne-Distinct hash [] d = tt
retain_ne-Distinct hash (x ∷ xs) d =
    ground (arith, retain_ne-Distinct hash xs, listed-retain_ne x hash xs)

sum_sizes-retain_ne :
    (m : Dict Bytes Bytes) (hash : Bytes) (hs : List Bytes)
    → Distinct hs
    → listed hash hs ≡ true
    → sum_sizes (remove Bytes-discrete hash m) (retain_ne hash hs)
        + size_of (lookup Bytes-discrete hash m)
      ≡ sum_sizes m hs
unfolding retain_ne
sum_sizes-retain_ne m hash [] d l = cc
sum_sizes-retain_ne m hash (x ∷ xs) d l = ground (
  arith,
  retain_ne-unlisted hash xs,
  sum_sizes-remove m hash xs,
  lookup-remove Bytes-discrete x hash m,
  sum_sizes-retain_ne m hash xs,
)

-- Forgetting a hash keeps the store valid, removes that entry and no other, and never adds bytes.
pub forget-IsStore :
    (hash : Bytes) (g : Inner)
    → IsStore g
    → IsStore (forget hash g)
      × ((k : Bytes) → get (forget hash g) k ≡ ite (Bytes-discrete hash k) none (get g k))
      × ((forget hash g).total_bytes + size_of (get g hash) ≡ g.total_bytes)
unfolding forget get
forget-IsStore hash g v = elim (Option-cases (get g hash)) [
  | inl absent ↦ rw (absent, forget) (v, λ k. ground arith, ground arith)
  | inr (bytes, found) ↦
      rw (found, forget)
        (
          record {
            distinct = retain_ne-Distinct hash g.order v.distinct;
            indexed = λ k. ground (
              arith,
              v.indexed k,
              listed-retain_ne k hash g.order,
              lookup-remove Bytes-discrete k hash g.by_hash,
            );
            counted = ground (
              arith,
              v.counted,
              v.indexed hash,
              sum_sizes-retain_ne g.by_hash hash g.order v.distinct,
            );
          },
          λ k. lookup-remove Bytes-discrete k hash g.by_hash,
          ground (
            arith,
            v.counted,
            v.indexed hash,
            sum_sizes-retain_ne g.by_hash hash g.order v.distinct,
          ),
        )
]
