-- ===== src/Clipboard/Lazy.antt =====
-- `LazyStore` of crates/clipboard/src/lazy.rs, with `produce_image` and `serve_fetch`. A method is
-- one step on the locked `Inner`. `blake3::hash` is an argument; `usize` has 64 bits, and its `+`
-- wraps.
pub mod Invariant
pub mod Evict
pub mod Fetch
pub mod Insert
pub mod Forget
mod Tests
use borderless.Base.{
  ℕ, ◌+◌, ◌-◌, ◌*◌, ◌%◌, ◌^◌, ite, Option, none, some, List, [], ◌∷◌, ◌++◌, Bool, true, false, leb,
  ltb, if◌then◌else◌, length,
}
use borderless.Base.Dict.{Dict, lookup, insert, remove}
use borderless.Core.Clipboard.{ClipItem, ImageFormat, LazyPayload}
use borderless.Core.Node.{Bytes, Bytes-discrete, Blake3}

abbrev pub inline_threshold : ℕ
inline_threshold = 256 * 1024

abbrev pub default_total_cap : ℕ
default_total_cap = 256 * 1024 * 1024

-- `order` is the insertion order, oldest first.
pub record Inner : Type 0 where
  pub by_hash : Dict Bytes Bytes
  pub order : List Bytes
  pub total_bytes : ℕ
  pub cap : ℕ

unfoldable pub with_cap : ℕ → Inner
with_cap cap = record { by_hash = []; order = []; total_bytes = 0; cap = cap }

unfoldable pub new : Inner
unfolding with_cap
new = with_cap default_total_cap

abbrev pub add_usize : ℕ → ℕ → ℕ
add_usize a b = (a + b) % 2 ^ 64

unfoldable pub get : Inner → Bytes → Option Bytes
get g hash = lookup Bytes-discrete hash g.by_hash

unfoldable pub contains : Inner → Bytes → Bool
unfolding get
contains g hash = elim (get g hash) [ none ↦ false | some _ ↦ true ]

-- `g.by_hash.remove(&hash)` with the change of `total_bytes` when an entry was there.
unfoldable pub drop_entry : Bytes → Inner → Inner
unfolding get
drop_entry hash g = elim (get g hash) [
  | none ↦ g
  | some removed ↦ record g {
    by_hash = remove Bytes-discrete hash g.by_hash;
    total_bytes = g.total_bytes - length removed;
  }
]

-- `while g.total_bytes + len > g.cap`: each round pops the head of the order, on which it recurs.
unfoldable pub evict : ℕ → List Bytes → Inner → Inner
unfolding drop_entry
evict len [] g = record g { order = [] }
evict len (oldest ∷ rest) g =
    let more = evict len rest (drop_entry oldest (record g { order = rest })) in
    if ltb g.cap (add_usize g.total_bytes len) then more else record g { order = oldest ∷ rest }

unfoldable pub insert_new : Bytes → Bytes → Inner → Inner
unfolding evict
insert_new hash bytes g =
    let g' : Inner = evict (length bytes) g.order g in
    record g' {
      by_hash = insert Bytes-discrete hash bytes g'.by_hash;
      order = g'.order ++ (hash ∷ []);
      total_bytes = add_usize g'.total_bytes (length bytes);
    }

-- `LazyStore::insert` returns the hash.
unfoldable pub insert_bytes : Blake3 → Bytes → Inner → Inner × Bytes
unfolding contains insert_new
insert_bytes b bytes g =
    let hash : Bytes = b.hash bytes in
    if contains g hash then (g, hash) else (insert_new hash bytes g, hash)

-- `order.retain(|h| h != hash)`
unfoldable pub retain_ne : Bytes → List Bytes → List Bytes
retain_ne hash [] = []
retain_ne hash (h ∷ hs) = ite (Bytes-discrete h hash) (retain_ne hash hs) (h ∷ retain_ne hash hs)

-- `LazyStore::remove`
unfoldable pub forget : Bytes → Inner → Inner
unfolding get retain_ne
forget hash g = elim (get g hash) [
  | none ↦ g
  | some bytes ↦ record g {
    by_hash = remove Bytes-discrete hash g.by_hash;
    total_bytes = g.total_bytes - length bytes;
    order = retain_ne hash g.order;
  }
]

unfoldable pub produce_image : Blake3 → Inner → Bytes → ImageFormat → Inner × ClipItem
unfolding insert_bytes
produce_image b store bytes format =
    let hash : Bytes = b.hash bytes in
    if leb (length bytes) inline_threshold
    then (store, ClipItem.image format hash (LazyPayload.inline bytes))
    else (
      (insert_bytes b bytes store).0,
      ClipItem.image format hash (LazyPayload.on_demand hash (length bytes % 2 ^ 64)),
    )

unfoldable pub serve_fetch : Inner → LazyPayload → Option Bytes
unfolding get
serve_fetch store (LazyPayload.inline b) = some b
serve_fetch store (LazyPayload.on_demand hash _) = get store hash
