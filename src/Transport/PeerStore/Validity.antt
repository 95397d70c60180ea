-- ===== src/Transport/PeerStore/Validity.antt =====
-- The entries of a store: no key twice, and each key is the one that its entry spells.
use Prim.Native.String.{String}
use borderless.Base.{
  ok_inj, not, fail_if, or_fail, ◌>>=◌, ◌>>◌, ℕ, ◌≡◌, refl, sym, inl, inr, Bool, true, false, List,
  [], ◌∷◌, Option, none, some, Option-cases, length, arith, ok,
}
use borderless.Base.Dict.{Dict, lookup, insert, remove, lookup-insert, lookup-remove}
use borderless.Core.Node.{Bytes, Bytes-discrete}
use borderless.Transport.Error.{Error}
use borderless.Transport.PeerStore.{
  Formats, KnownPeer, PeerStore, Disk, key_of, keyed, collect, open_store, insert_peer, remove_peer,
}

-- No key twice.
unfoldable pub IsDistinct : Dict Bytes KnownPeer → Type 0
IsDistinct [] = Unit
IsDistinct ((k, p) ∷ m) = (lookup Bytes-discrete k m ≡ none) × IsDistinct m

unfoldable pub IsKeyed : Formats → Dict Bytes KnownPeer → Type 0
IsKeyed f [] = Unit
IsKeyed f ((k, p) ∷ m) = (key_of f p ≡ some k) × IsKeyed f m

unfoldable pub IsValid : Formats → PeerStore → Type 0
IsValid f store = IsKeyed f store.by_pubkey × IsDistinct store.by_pubkey

insert-IsDistinct :
    (k : Bytes) (p : KnownPeer) (m : Dict Bytes KnownPeer)
    → IsDistinct m
    → IsDistinct (insert Bytes-discrete k p m)
unfolding IsDistinct insert lookup
insert-IsDistinct k p [] h = (refl, tt)
insert-IsDistinct k p ((j, q) ∷ m) h =
    ground (arith, insert-IsDistinct k p m, lookup-insert Bytes-discrete j k p m)

remove-IsDistinct :
    (k : Bytes) (m : Dict Bytes KnownPeer) → IsDistinct m → IsDistinct (remove Bytes-discrete k m)
unfolding IsDistinct remove
remove-IsDistinct k [] h = tt
remove-IsDistinct k ((j, q) ∷ m) h =
    ground (arith, remove-IsDistinct k m, lookup-remove Bytes-discrete j k m)

module _ (f : Formats) where
  insert-IsKeyed :
      (k : Bytes) (p : KnownPeer) (m : Dict Bytes KnownPeer)
      → key_of f p ≡ some k
      → IsKeyed f m
      → IsKeyed f (insert Bytes-discrete k p m)
  unfolding IsKeyed insert
  insert-IsKeyed k p [] e h = (e, tt)
  insert-IsKeyed k p ((j, q) ∷ m) e h = ground (arith, insert-IsKeyed k p m)

  remove-IsKeyed :
      (k : Bytes) (m : Dict Bytes KnownPeer) → IsKeyed f m → IsKeyed f (remove Bytes-discrete k m)
  unfolding IsKeyed remove
  remove-IsKeyed k [] h = tt
  remove-IsKeyed k ((j, q) ∷ m) h = ground (arith, remove-IsKeyed k m)

  keyed-IsKeyed : (ps : List KnownPeer) → IsKeyed f (keyed f ps)
  unfolding IsKeyed keyed
  keyed-IsKeyed [] = tt
  keyed-IsKeyed (p ∷ ps) = elim (Option-cases (key_of f p)) [
    | inl e ↦ rw (e, keyed) (keyed-IsKeyed ps)
    | inr (k, e) ↦ rw (e, keyed) (e, keyed-IsKeyed ps)
  ]

  collect-IsValid :
      (acc m : Dict Bytes KnownPeer)
      → IsKeyed f m
      → IsKeyed f acc
      → IsDistinct acc
      → IsKeyed f (collect acc m) × IsDistinct (collect acc m)
  unfolding IsKeyed collect
  collect-IsValid acc [] h k d = (k, d)
  collect-IsValid acc ((j, p) ∷ m) h k d =
      collect-IsValid (insert Bytes-discrete j p acc) m h.1 (insert-IsKeyed j p acc h.0 k)
        (insert-IsDistinct j p acc d)

  parsed-IsValid :
      (parsed : Option (List KnownPeer)) (readable : Bool) (store : PeerStore)
      → (do
        fail_if (not readable) Error.io
        ps ← or_fail parsed (Error.toml "")
        ok (record { by_pubkey = collect [] (keyed f ps) }))
        ≡ ok store
      → IsValid f store
  unfolding IsValid IsKeyed IsDistinct
  parsed-IsValid parsed false store h = cc
  parsed-IsValid none true store h = cc
  parsed-IsValid (some ps) true store h =
      rw (sym (ok_inj h)) (collect-IsValid [] (keyed f ps) (keyed-IsKeyed ps) tt tt)

  file-IsValid :
      (file : Option String) (readable writable : Bool) (store : PeerStore)
      → open_store f (record { file = file; readable = readable; writable = writable }) ≡ ok store
      → IsValid f store
  unfolding open_store IsValid IsKeyed IsDistinct
  file-IsValid none readable writable store h = rw (sym (ok_inj h)) (tt, tt)
  file-IsValid (some raw) readable writable store h =
      parsed-IsValid (f.from_str raw) readable store h

  encoded-IsKeyed :
      (k : Bytes) (name : String) (now : ℕ)
      → length k ≡ 32
      → f.hex_decode (f.hex_encode k) ≡ some k
      → key_of f (record { name = name; pubkey = f.hex_encode k; paired_at = now }) ≡ some k
  unfolding key_of
  encoded-IsKeyed k name now h e = rw (e, key_of) (rw h)

  -- Whatever the file holds, a store that opens has no key twice, and every key in it has 32 bytes
  -- and is the one that its entry spells in hexadecimal.
  pub open_store-IsValid :
      (disk : Disk) (store : PeerStore) → open_store f disk ≡ ok store → IsValid f store
  open_store-IsValid disk store h = file-IsValid disk.file disk.readable disk.writable store h

  pub insert_peer-IsValid :
      (store : PeerStore) (disk : Disk) (k : Bytes) (name : String) (now : ℕ)
      → length k ≡ 32
      → f.hex_decode (f.hex_encode k) ≡ some k
      → IsValid f store
      → IsValid f (insert_peer f store disk k name now).0
  unfolding IsValid insert_peer
  insert_peer-IsValid store disk k name now h e v = (
    insert-IsKeyed k _ store.by_pubkey (encoded-IsKeyed k name now h e) v.0,
    insert-IsDistinct k _ store.by_pubkey v.1,
  )

  pub remove_peer-IsValid :
      (store : PeerStore) (disk : Disk) (k : Bytes)
      → IsValid f store
      → IsValid f (remove_peer f store disk k).0
  unfolding IsValid remove_peer
  remove_peer-IsValid store disk k v =
      (remove-IsKeyed k store.by_pubkey v.0, remove-IsDistinct k store.by_pubkey v.1)
