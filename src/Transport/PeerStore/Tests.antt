-- ===== src/Transport/PeerStore/Tests.antt =====
-- A store on a concrete disk, in a format that can only print no peer or one peer whose key is spelled
-- by the empty string.
use Prim.Native.String.{String, [], ◌∷◌}
use borderless.Base.{
  ℕ, zero, suc, ◌≡◌, refl, sym, ap, ite, Bool, true, false, List, [], ◌∷◌, Option, none, some,
  replicate, length, Result, ok, err,
}
use borderless.Core.Node.{Bytes, Bytes-discrete}
use borderless.Transport.PeerStore.{
  Formats, KnownPeer, PeerStore, Disk, get, is_known, open_store, insert_peer, remove_peer,
}
use borderless.Transport.PeerStore.Validity.{IsValid, IsKeyed, IsDistinct}
use borderless.Transport.PeerStore.Reopen.{IsLossless, insert_peer-reopen}

abbrev key : Bytes
key = replicate 32 7

unfoldable print_peer : String → String → ℕ → Option String
print_peer name [] zero = some ("p" ∷ name)
print_peer name [] (suc n) = none
print_peer name (c ∷ s) n = none

unfoldable print_peers : List KnownPeer → Option String
unfolding print_peer
print_peers [] = some ""
print_peers (p ∷ []) = print_peer p.name p.pubkey p.paired_at
print_peers (p ∷ q ∷ ps) = none

unfoldable parse_peers : String → Option (List KnownPeer)
parse_peers [] = some []
parse_peers (c ∷ name) = some (record { name = name; pubkey = ""; paired_at = 0 } ∷ [])

abbrev toy : Formats
toy = record {
  to_string_pretty = print_peers;
  from_str = parse_peers;
  hex_encode = λ bytes. "";
  hex_decode = λ s. some (replicate 32 7);
}

some_inj : {a b : String} → some a ≡ some b → a ≡ b
some_inj h = cc

print_peer-parse :
    (name pubkey : String) (n : ℕ) (raw : String)
    → print_peer name pubkey n ≡ some raw
    → parse_peers raw ≡ some (record { name = name; pubkey = pubkey; paired_at = n } ∷ [])
unfolding print_peer parse_peers
print_peer-parse name [] zero raw h = rw (sym (some_inj h)) refl
print_peer-parse name [] (suc n) raw h = cc
print_peer-parse name (c ∷ s) n raw h = cc

toy-IsLossless : IsLossless toy
unfolding print_peers parse_peers
toy-IsLossless [] raw h = rw (sym (some_inj h)) refl
toy-IsLossless (p ∷ []) raw h = print_peer-parse p.name p.pubkey p.paired_at raw h
toy-IsLossless (p ∷ q ∷ ps) raw h = cc

abbrev empty_disk : Disk
empty_disk = record { file = none; readable = true; writable = true }

abbrev empty : PeerStore
empty = record { by_pubkey = [] }

abbrev mac : KnownPeer
mac = record { name = "mac"; pubkey = ""; paired_at = 0 }

abbrev paired : PeerStore
paired = record { by_pubkey = (replicate 32 7, mac) ∷ [] }

abbrev disk_mac : Disk
disk_mac = record empty_disk { file = some "pmac" }

inserted : insert_peer toy empty empty_disk key "mac" 0 ≡ (paired, disk_mac, ok tt)
unfolding insert_peer print_peers print_peer borderless.Base.Dict.insert
inserted = refl

removed : remove_peer toy paired disk_mac key ≡ (empty, record empty_disk { file = some "" }, ok tt)
unfolding remove_peer print_peers borderless.Base.Dict.remove Bytes-discrete
    borderless.Base.ℕ_discrete
removed = refl

opened : open_store toy disk_mac ≡ ok paired
unfolding open_store parse_peers borderless.Transport.PeerStore.key_of borderless.Base.Dict.insert
opened = refl

empty-IsValid : IsValid toy empty
unfolding IsValid IsKeyed IsDistinct
empty-IsValid = (tt, tt)

insert_peer-reopen_example :
    (again : PeerStore) × (open_store toy disk_mac ≡ ok again)
    × ((j : Bytes) → get again j ≡ ite (Bytes-discrete key j) (some mac) (get empty j))
insert_peer-reopen_example =
    insert_peer-reopen toy empty paired empty_disk disk_mac key "mac" 0 toy-IsLossless refl
      empty-IsValid refl refl inserted
