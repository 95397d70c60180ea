-- ===== src/Transport/PeerStore/Reopen.antt =====
-- What is left of a store when the program starts again.
use Prim.Native.String.{String}
use borderless.Base.{
  if◌then◌else◌, ℕ, ◌≡◌, refl, ap, ◌∙◌, inl, inr, ite, Bool, true, false, List, [], ◌∷◌, Option,
  none, some, Option-cases, length, arith, Result, ok, err,
}
use borderless.Base.Dict.{Dict, lookup, insert, lookup-insert, lookup-insert_self, lookup-remove}
use borderless.Core.Node.{Bytes, Bytes-discrete}
use borderless.Transport.Error.{Error}
use borderless.Transport.PeerStore.{
  Formats, KnownPeer, PeerStore, Disk, get, is_known, keyed, collect, values, flush, open_store,
  insert_peer, remove_peer,
}
use borderless.Transport.PeerStore.Validity.{
  IsDistinct, IsKeyed, IsValid, insert_peer-IsValid, remove_peer-IsValid,
}

-- What the program relies on: a printed file is parsed to what was printed.
abbrev pub IsLossless : Formats → Type 0
IsLossless f =
    (ps : List KnownPeer) (raw : String)
    → f.to_string_pretty ps ≡ some raw
    → f.from_str raw ≡ some ps

lookup-collect :
    (j : Bytes) (acc m : Dict Bytes KnownPeer)
    → IsDistinct m
    → lookup Bytes-discrete j (collect acc m)
      ≡ elim (lookup Bytes-discrete j m) [ none ↦ lookup Bytes-discrete j acc | some p ↦ some p ]
unfolding collect lookup IsDistinct
lookup-collect j acc [] d = refl
lookup-collect j acc ((k, p) ∷ m) d = ground (
  arith,
  lookup-collect j (insert Bytes-discrete k p acc) m d.1,
  lookup-insert Bytes-discrete j k p acc,
)

lookup-collect_empty :
    (j : Bytes) (m : Dict Bytes KnownPeer)
    → IsDistinct m
    → lookup Bytes-discrete j (collect [] m) ≡ lookup Bytes-discrete j m
unfolding lookup
lookup-collect_empty j m d = ground (arith, lookup-collect j [] m d)

module _ (f : Formats) where
  keyed-values : (m : Dict Bytes KnownPeer) → IsKeyed f m → keyed f (values f m) ≡ m
  unfolding keyed values IsKeyed
  keyed-values [] h = refl
  keyed-values ((k, p) ∷ m) h = rw (h.0, keyed, keyed-values m h.1)

  -- `flush` by whether the file can be written and whether the map can be printed.
  flush_lem :
      (store : PeerStore) (file : Option String) (readable writable : Bool) (o : Option String)
      → f.to_string_pretty (values f store.by_pubkey) ≡ o
      → flush f store (record { file = file; readable = readable; writable = writable }) ≡ (
          if writable
          then elim o [
            | none ↦ (
              record { file = file; readable = readable; writable = writable },
              err (Error.toml ""),
            )
            | some raw ↦
                (record { file = some raw; readable = readable; writable = writable }, ok tt)
          ]
          else (record { file = file; readable = readable; writable = writable }, err Error.io))
  unfolding flush
  flush_lem store file readable true none e = rw e
  flush_lem store file readable true (some raw) e = rw e
  flush_lem store file readable false o e = refl

  flushed :
      (store : PeerStore) (disk disk' : Disk)
      → flush f store disk ≡ (disk', ok tt)
      → (raw : String) × (f.to_string_pretty (values f store.by_pubkey) ≡ some raw)
        × (disk' ≡ record disk { file = some raw })
  flushed store disk disk' h = elim (Option-cases (f.to_string_pretty (values f store.by_pubkey))) [
    | inl e ↦ absurd (ground (arith, flush_lem store disk.file disk.readable disk.writable none e))
    | inr (raw, e) ↦
        (raw, e, ground (arith, flush_lem store disk.file disk.readable disk.writable (some raw) e))
  ]

  pub reopen :
      (store : PeerStore) (disk disk' : Disk)
      → IsLossless f
      → IsValid f store
      → disk.readable ≡ true
      → flush f store disk ≡ (disk', ok tt)
      → (again : PeerStore) × (open_store f disk' ≡ ok again)
        × ((j : Bytes) → get again j ≡ get store j)
  unfolding open_store get IsValid
  reopen store disk disk' lossless v r h =
      let (raw, p, d) = flushed store disk disk' h in
      (
        record { by_pubkey = collect [] store.by_pubkey },
        rw (d, r, lossless (values f store.by_pubkey) raw p, keyed-values store.by_pubkey v.0),
        λ j. lookup-collect_empty j store.by_pubkey v.1,
      )

  -- After a call of `insert` that succeeds, a store that is opened from the file knows the new peer,
  -- under its name, and every other peer as before.
  pub insert_peer-reopen :
      (store store' : PeerStore) (disk disk' : Disk) (k : Bytes) (name : String) (now : ℕ)
      → IsLossless f
      → f.hex_decode (f.hex_encode k) ≡ some k
      → IsValid f store
      → length k ≡ 32
      → disk.readable ≡ true
      → insert_peer f store disk k name now ≡ (store', disk', ok tt)
      → (again : PeerStore) × (open_store f disk' ≡ ok again)
        × ((j : Bytes)
            → get again j
              ≡ ite
                  (Bytes-discrete k j)
                  (some (record { name = name; pubkey = f.hex_encode k; paired_at = now }))
                  (get store j))
  unfolding insert_peer get
  insert_peer-reopen store store' disk disk' k name now lossless hex v h r e =
      let (again, o, g) =
        reopen (insert_peer f store disk k name now).0 disk disk' lossless
          (insert_peer-IsValid f store disk k name now h hex v) r
          (ap (λ (x : PeerStore × Disk × Result Error (Unit {0})). (x.1, x.2)) e) in
      (again, o, λ j. g j ∙ lookup-insert Bytes-discrete j k _ store.by_pubkey)

  -- After a call of `remove` that succeeds, a store that is opened from the file does not know the
  -- peer, and every other peer as before.
  pub remove_peer-reopen :
      (store store' : PeerStore) (disk disk' : Disk) (k : Bytes)
      → IsLossless f
      → IsValid f store
      → disk.readable ≡ true
      → remove_peer f store disk k ≡ (store', disk', ok tt)
      → (again : PeerStore) × (open_store f disk' ≡ ok again)
        × ((j : Bytes) → get again j ≡ ite (Bytes-discrete k j) none (get store j))
  unfolding remove_peer get
  remove_peer-reopen store store' disk disk' k lossless v r e =
      let (again, o, g) =
        reopen (remove_peer f store disk k).0 disk disk' lossless
          (remove_peer-IsValid f store disk k v) r
          (ap (λ (x : PeerStore × Disk × Result Error (Unit {0})). (x.1, x.2)) e) in
      (again, o, λ j. g j ∙ lookup-remove Bytes-discrete j k store.by_pubkey)

  -- A call of `insert` on a disk that cannot be written fails, and yet the store knows the peer from
  -- then on, while the file stays as it was.
  pub insert_peer_unsaved :
      (store : PeerStore) (disk : Disk) (k : Bytes) (name : String) (now : ℕ)
      → disk.writable ≡ false
      → (store' : PeerStore) × (insert_peer f store disk k name now ≡ (store', disk, err Error.io))
        × (is_known store' k ≡ true)
  unfolding insert_peer is_known get
  insert_peer_unsaved store disk k name now w = (
    (insert_peer f store disk k name now).0,
    (rw (w, flush)),
    (rw (is_known, get, lookup-insert_self Bytes-discrete k _ store.by_pubkey)),
  )
