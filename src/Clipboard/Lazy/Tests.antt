-- ===== src/Clipboard/Lazy/Tests.antt =====
-- Stores of a few bytes.
use borderless.Base.{ℕ, ◌+◌, ◌<◌, ◌≡◌, refl, ite, Option, none, some, List, [], ◌∷◌, length, arith}
use borderless.Core.Clipboard.{ClipItem, LazyPayload, png}
use borderless.Core.Node.{Bytes, Bytes-discrete, Blake3}
use borderless.Clipboard.Lazy.{Inner, with_cap, get, insert_bytes, produce_image, serve_fetch}
use borderless.Clipboard.Lazy.Evict.{IsStore}
use borderless.Clipboard.Lazy.Insert.{insert_bytes-IsStore, with_cap-IsStore}
use borderless.Clipboard.Lazy.Fetch.{NoCollision, get-insert_bytes, serve_fetch-produce_image}

-- A hash that gives its input back: no two payloads share one.
abbrev echo_hash : Blake3
echo_hash = record { hash = λ bs. bs }

abbrev empty : Inner
empty = with_cap 4

abbrev one : Bytes
one = 1 ∷ 1 ∷ 1 ∷ []

abbrev two : Bytes
two = 2 ∷ 2 ∷ []

-- The second insertion evicts the first entry.
evicted_first : get (insert_bytes echo_hash two (insert_bytes echo_hash one empty).0).0 one ≡ none
unfolding get borderless.Base.Dict.lookup insert_bytes with_cap borderless.Base.Dict.insert
    Bytes-discrete borderless.Base.ℕ_discrete borderless.Base.Dict.remove
evicted_first = refl

counted : (insert_bytes echo_hash two (insert_bytes echo_hash one empty).0).0.total_bytes ≡ 2
unfolding insert_bytes borderless.Base.Dict.lookup with_cap borderless.Base.Dict.insert
    Bytes-discrete borderless.Base.ℕ_discrete
counted = refl

empty-IsStore : IsStore empty
empty-IsStore = with_cap-IsStore 4

abbrev filled : Inner
filled = (insert_bytes echo_hash one empty).0

filled-IsStore : IsStore filled
unfolding with_cap
filled-IsStore =
    (insert_bytes-IsStore echo_hash one empty empty-IsStore (omega arith) (omega arith)
      (omega arith)).0

fresh : get filled two ≡ none
unfolding get borderless.Base.Dict.lookup insert_bytes with_cap borderless.Base.Dict.insert
    Bytes-discrete borderless.Base.ℕ_discrete
fresh = refl

no_collision : NoCollision echo_hash filled two
no_collision v e = absurd (ground (arith, fresh))

get-insert_bytes_example :
    ((insert_bytes echo_hash two filled).1 ≡ two)
    × (get (insert_bytes echo_hash two filled).0 two ≡ some two)
get-insert_bytes_example = get-insert_bytes echo_hash two filled no_collision

serve_fetch-produce_image_example :
    (p : LazyPayload) × ((produce_image echo_hash filled two png).1 ≡ ClipItem.image png two p)
    × (serve_fetch (produce_image echo_hash filled two png).0 p ≡ some two)
serve_fetch-produce_image_example = serve_fetch-produce_image echo_hash filled two png no_collision
