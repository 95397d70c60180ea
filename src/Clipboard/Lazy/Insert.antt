-- ===== src/Clipboard/Lazy/Insert.antt =====
-- `insert` and `remove` on a valid store.
use borderless.Base.{
  ℕ, ◌+◌, ◌^◌, ◌≤◌, ◌<◌, ◌≡◌, refl, inl, inr, none, [], ◌∷◌, ◌++◌, arith, length, Option-cases,
}
use borderless.Base.Dict.{lookup, insert}
use borderless.Core.Node.{Bytes, Bytes-discrete, Blake3}
use borderless.Clipboard.Lazy.{Inner, get, contains, insert_new, insert_bytes, add_usize, with_cap}
use borderless.Clipboard.Lazy.Invariant.{IsValid, push-IsValid}
use borderless.Clipboard.Lazy.Evict.{IsStore, Evicted, evict-Evicted}

pub with_cap-IsStore : (cap : ℕ) → IsStore (with_cap cap)
unfolding with_cap lookup
with_cap-IsStore limit = record { distinct = tt; indexed = λ h. refl; counted = refl }

module _ (hash bytes : Bytes) (g r : Inner) (e : Evicted (length bytes) g r) where
  append_total :
      g.total_bytes + length bytes < 2 ^ 64
      → add_usize r.total_bytes (length bytes) ≡ r.total_bytes + length bytes
  append_total room = omega (arith, e.smaller)

  append-IsValid :
      g.total_bytes + length bytes < 2 ^ 64
      → get g hash ≡ none
      → IsValid
          (insert Bytes-discrete hash bytes r.by_hash)
          (r.order ++ (hash ∷ []))
          (add_usize r.total_bytes (length bytes))
  unfolding get
  append-IsValid room new = rw (append_total room) (
      push-IsValid r.by_hash r.order r.total_bytes hash bytes
        (ground (arith, e.valid.indexed hash, e.gone hash new)) e.valid)

  -- What fits under the cap by itself ends under it.
  append-le-cap :
      g.total_bytes + length bytes < 2 ^ 64
      → length bytes ≤ g.cap
      → add_usize r.total_bytes (length bytes) ≤ r.cap
  append-le-cap room fits = ground (arith, append_total room, e.valid.counted, e.room, e.same_cap)

  -- What does not leaves nothing else.
  append_alone : g.cap < length bytes → r.order ≡ []
  append_alone large = ground (arith, e.room, e.same_cap)

pub insert_bytes-IsStore :
    (b : Blake3) (bytes : Bytes) (g : Inner)
    → IsStore g
    → g.total_bytes + length bytes < 2 ^ 64
    → length bytes ≤ g.cap
    → g.total_bytes ≤ g.cap
    → let g' = (insert_bytes b bytes g).0 in
      IsStore g' × (g'.total_bytes ≤ g'.cap) × (g'.cap ≡ g.cap)
unfolding insert_bytes contains
insert_bytes-IsStore b bytes g v room fits within = elim (Option-cases (get g (b.hash bytes))) [
  | inl new ↦
      let e = evict-Evicted (length bytes) g.by_hash g.order g.total_bytes g.cap v room in
      rw (new, insert_bytes, contains)
        (
          append-IsValid (b.hash bytes) bytes g _ e room new,
          append-le-cap (b.hash bytes) bytes g _ e room fits,
          e.same_cap,
        )
  | inr (old, found) ↦ rw (found, insert_bytes, contains) (v, within, refl)
]

-- New bytes larger than the cap are stored all the same: they push out every other entry, and the
-- store holds more than its cap.
pub insert_bytes_oversized :
    (b : Blake3) (bytes : Bytes) (g : Inner)
    → IsStore g
    → g.total_bytes + length bytes < 2 ^ 64
    → get g (b.hash bytes) ≡ none
    → g.cap < length bytes
    → let g' = (insert_bytes b bytes g).0 in
      (g'.order ≡ b.hash bytes ∷ []) × (g'.total_bytes ≡ length bytes) × (g'.cap < g'.total_bytes)
unfolding insert_bytes contains insert_new
insert_bytes_oversized b bytes g v room new large =
    let e = evict-Evicted (length bytes) g.by_hash g.order g.total_bytes g.cap v room in
    rw (new, insert_bytes, contains)
      (ground (
        arith,
        append_alone (b.hash bytes) bytes g _ e large,
        e.valid.counted,
        append_total (b.hash bytes) bytes g _ e room,
        e.same_cap,
      ))
