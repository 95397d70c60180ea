-- ===== src/Clipboard/Lazy/Fetch.antt =====
-- What a peer gets back for a payload that this node has announced.
use borderless.Base.{
  ◌^◌, ◌%◌, ◌≡◌, refl, Option, some, arith, length, Bool-cases, inl, inr, none, leb, ap, ◌∙◌,
}
use borderless.Base.Dict.{lookup-insert_self}
use borderless.Core.Clipboard.{ClipItem, ImageFormat, LazyPayload}
use borderless.Core.Node.{Bytes, Bytes-discrete, Blake3}
use borderless.Clipboard.Lazy.{
  Inner, get, contains, insert_new, insert_bytes, evict, produce_image, serve_fetch,
  inline_threshold,
}

-- The two payloads of one hash are one payload: BLAKE3 has no collision among them.
abbrev pub NoCollision : Blake3 → Inner → Bytes → Type 0
NoCollision b g bytes = (v : Bytes) → get g (b.hash bytes) ≡ some v → v ≡ bytes

get-insert_new : (hash bytes : Bytes) (g : Inner) → get (insert_new hash bytes g) hash ≡ some bytes
unfolding get insert_new
get-insert_new hash bytes g =
    lookup-insert_self Bytes-discrete hash bytes (evict (length bytes) g.order g).by_hash

get-insert :
    (b : Blake3) (bytes : Bytes) (g : Inner) (o : Option Bytes)
    → get g (b.hash bytes) ≡ o
    → NoCollision b g bytes
    → get (insert_bytes b bytes g).0 (b.hash bytes) ≡ some bytes
unfolding insert_bytes contains
get-insert b bytes g none e h =
    rw (e, insert_bytes, contains) (get-insert_new (b.hash bytes) bytes g)
get-insert b bytes g (some v) e h = rw (e, insert_bytes, contains) (e ∙ ap some (h v e))

-- Bytes that are stored can be fetched at once by the returned hash, which is theirs, whether they
-- were there before or not, and however much the insertion evicts; other stored bytes must not
-- share their hash.
pub get-insert_bytes :
    (b : Blake3) (bytes : Bytes) (g : Inner)
    → NoCollision b g bytes
    → ((insert_bytes b bytes g).1 ≡ b.hash bytes)
      × (get (insert_bytes b bytes g).0 (b.hash bytes) ≡ some bytes)
unfolding insert_bytes
get-insert_bytes b bytes g h = (ground arith, get-insert b bytes g (get g (b.hash bytes)) refl h)

-- The payload of an image item.
unfoldable pub payload_of : ClipItem → Option LazyPayload
payload_of (ClipItem.image _ _ p) = some p
payload_of _ = none

-- An image is served from the store that announced it: the item holds its format, its hash and a
-- payload that `serve_fetch` resolves to the bytes, on both sides of the inline threshold.
pub serve_fetch-produce_image :
    (b : Blake3) (store : Inner) (bytes : Bytes) (format : ImageFormat)
    → NoCollision b store bytes
    → (p : LazyPayload) × ((produce_image b store bytes format).1
        ≡ ClipItem.image format (b.hash bytes) p)
      × (serve_fetch (produce_image b store bytes format).0 p ≡ some bytes)
unfolding produce_image serve_fetch
serve_fetch-produce_image b store bytes format h =
    elim (Bool-cases (leb (length bytes) inline_threshold)) [
      | inl small ↦ (LazyPayload.inline bytes, rw small, refl)
      | inr large ↦ (
        LazyPayload.on_demand (b.hash bytes) (length bytes % 2 ^ 64),
        rw large,
        rw large (get-insert_bytes b bytes store h).1,
      )
    ]
