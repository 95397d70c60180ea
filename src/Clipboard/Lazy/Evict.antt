-- ===== src/Clipboard/Lazy/Evict.antt =====
-- Eviction: the oldest entries go until the new one fits, and what stays is a valid store.
use borderless.Base.{
  ℕ, ◌+◌, ◌-◌, ◌^◌, ◌≤◌, ◌<◌, ◌≡◌, refl, ◌⊎◌, inl, inr, true, none, List, [], ◌∷◌, arith,
  Bool-cases, ltb,
}
use borderless.Base.Dict.{Dict, lookup, remove, lookup-remove}
use borderless.Core.Node.{Bytes, Bytes-discrete}
use borderless.Clipboard.Lazy.{Inner, get, drop_entry, evict, add_usize}
use borderless.Clipboard.Lazy.Invariant.{IsValid, listed, size_of, pop-IsValid}

-- The store is indexed by its order and counts its bytes.
abbrev pub IsStore : Inner → Type 0
IsStore g = IsValid g.by_hash g.order g.total_bytes

-- `xs` is `ys` without some first items.
pub data Suffix : List Bytes → List Bytes → Type 0 where
  whole : (xs : List Bytes) → Suffix xs xs
  behind : (x : Bytes) {xs ys : List Bytes} → Suffix xs ys → Suffix xs (x ∷ ys)

-- What the eviction loop leaves of the store `g` for `len` more bytes.
pub record Evicted (len : ℕ) (g r : Inner) : Type 0 where
  pub valid : IsStore r
  pub same_cap : r.cap ≡ g.cap
  pub newest : Suffix r.order g.order
  pub room : (r.order ≡ []) ⊎ (r.total_bytes + len ≤ r.cap)
  pub smaller : r.total_bytes ≤ g.total_bytes
  pub kept : (h : Bytes) → listed h r.order ≡ true → get r h ≡ get g h
  pub gone : (h : Bytes) → get g h ≡ none → get r h ≡ none

abbrev store : Dict Bytes Bytes → List Bytes → ℕ → ℕ → Inner
store m order total cap = record { by_hash = m; order = order; total_bytes = total; cap = cap }

abbrev popped : Dict Bytes Bytes → Bytes → List Bytes → ℕ → ℕ → Inner
popped m oldest rest total cap =
    store (remove Bytes-discrete oldest m) rest (total - size_of (lookup Bytes-discrete oldest m))
      cap

drop_entry-popped :
    (m : Dict Bytes Bytes) (oldest : Bytes) (rest : List Bytes) (total cap : ℕ)
    → IsValid m (oldest ∷ rest) total
    → drop_entry oldest (store m rest total cap) ≡ popped m oldest rest total cap
unfolding drop_entry
drop_entry-popped m oldest rest total cap v = ground (arith, v.indexed oldest)

evict-none :
    (len : ℕ) (m : Dict Bytes Bytes) (total cap : ℕ)
    → IsValid m [] total
    → Evicted len (store m [] total cap) (store m [] total cap)
evict-none len m total cap v = record {
  valid = v;
  same_cap = refl;
  newest = whole [];
  room = inl refl;
  smaller = omega arith;
  kept = λ h e. refl;
  gone = λ h e. e;
}

evict-stop :
    (len : ℕ) (m : Dict Bytes Bytes) (order : List Bytes) (total cap : ℕ)
    → IsValid m order total
    → total + len ≤ cap
    → Evicted len (store m order total cap) (store m order total cap)
evict-stop len m order total cap v fits = record {
  valid = v;
  same_cap = refl;
  newest = whole order;
  room = inr fits;
  smaller = omega arith;
  kept = λ h e. refl;
  gone = λ h e. e;
}

-- A suffix names no more hashes.
listed-Suffix :
    (h : Bytes) {xs ys : List Bytes} → Suffix xs ys → listed h xs ≡ true → listed h ys ≡ true
listed-Suffix h (whole xs) e = e
listed-Suffix h (behind x s) e = ground (arith, listed-Suffix h s e)

evict-more :
    (len : ℕ) (m : Dict Bytes Bytes) (oldest : Bytes) (rest : List Bytes) (total cap : ℕ)
    (r : Inner)
    → IsValid m (oldest ∷ rest) total
    → Evicted len (popped m oldest rest total cap) r
    → Evicted len (store m (oldest ∷ rest) total cap) r
unfolding get
evict-more len m oldest rest total cap r v e = record {
  valid = e.valid;
  same_cap = e.same_cap;
  newest = behind oldest e.newest;
  room = e.room;
  smaller = omega (arith, e.smaller);
  kept = λ h l. ground (
    arith,
    e.kept h l,
    listed-Suffix h e.newest l,
    v.distinct,
    lookup-remove Bytes-discrete h oldest m,
  );
  gone = λ h absent. ground (arith, e.gone h, lookup-remove Bytes-discrete h oldest m);
}

pub evict-Evicted :
    (len : ℕ) (m : Dict Bytes Bytes) (order : List Bytes) (total cap : ℕ)
    → IsValid m order total
    → total + len < 2 ^ 64
    → Evicted len (store m order total cap) (evict len order (store m order total cap))
unfolding evict
evict-Evicted len m [] total cap v room = evict-none len m total cap v
evict-Evicted len m (oldest ∷ rest) total cap v room =
    elim (Bool-cases (ltb cap (add_usize total len))) [
      | inl full ↦
          rw (full, drop_entry-popped m oldest rest total cap v)
            (evict-more len m oldest rest total cap _ v (
              evict-Evicted len (remove Bytes-discrete oldest m) rest _ cap
                (pop-IsValid m oldest rest total v) (omega arith)))
      | inr fits ↦ rw fits (evict-stop len m (oldest ∷ rest) total cap v (ground arith))
    ]
