-- ===== src/Transport/PeerStore.antt =====
-- crates/transport/src/peer_store.rs: trust on first use, persisted. The `toml` and `hex` crates are
-- parameters. The path does not change, so the disk is what that one file holds and whether it can
-- be read and written. The map's order is that of the list.
pub mod Validity
pub mod Reopen
mod Tests
use Prim.Native.String.{String}
use borderless.Base.{
  ℕ, suc, ◌≡◌, Bool, true, false, not, List, [], ◌∷◌, map, Option, none, some, ◌==◌, if◌then◌else◌,
  length, Result, ok, err, ◌>>=◌, ◌>>◌, fail_if, or_fail,
}
use borderless.Base.Dict.{Dict, lookup, insert, remove}
use borderless.Core.Node.{Bytes, Bytes-discrete}
use borderless.Transport.Error.{Error}

pub record KnownPeer : Type 0 where
  pub name : String
  pub pubkey : String
  pub paired_at : ℕ

-- The crates `toml`, at the type `StoreFile`, and `hex`.
pub record Formats : Type 0 where
  pub to_string_pretty : List KnownPeer → Option String
  pub from_str : String → Option (List KnownPeer)
  pub hex_encode : Bytes → String
  pub hex_decode : String → Option Bytes

pub record Disk : Type 0 where
  pub file : Option String
  pub readable : Bool
  pub writable : Bool

pub record PeerStore : Type 0 where
  pub by_pubkey : Dict Bytes KnownPeer

unfoldable pub get : PeerStore → Bytes → Option KnownPeer
get store pubkey = lookup Bytes-discrete pubkey store.by_pubkey

unfoldable pub is_known : PeerStore → Bytes → Bool
unfolding get
is_known store pubkey = elim (get store pubkey) [ none ↦ false | some peer ↦ true ]

unfoldable pub len : PeerStore → ℕ
len store = length store.by_pubkey

unfoldable pub is_empty : PeerStore → Bool
is_empty store = length store.by_pubkey == 0

-- `collect` into a map: a later entry of the same key replaces an earlier one.
unfoldable pub collect : Dict Bytes KnownPeer → Dict Bytes KnownPeer → Dict Bytes KnownPeer
collect acc [] = acc
collect acc ((k, p) ∷ entries) = collect (insert Bytes-discrete k p acc) entries

module _ (f : Formats) where
  -- The closure of `filter_map`: the key of an entry, of exactly 32 bytes.
  unfoldable pub key_of : KnownPeer → Option Bytes
  key_of p = elim (f.hex_decode p.pubkey) [
    | none ↦ none
    | some bytes ↦ if length bytes == 32 then some bytes else none
  ]

  unfoldable pub keyed : List KnownPeer → Dict Bytes KnownPeer
  keyed [] = []
  keyed (p ∷ ps) = elim (key_of p) [ none ↦ keyed ps | some k ↦ (k, p) ∷ keyed ps ]

  -- `PeerStore::open`
  unfoldable pub open_store : Disk → Result Error PeerStore
  unfolding collect keyed
  open_store disk = elim disk.file [
    | none ↦ ok (record { by_pubkey = [] })
    | some raw ↦ do
      fail_if (not disk.readable) Error.io
      parsed ← or_fail (f.from_str raw) (Error.toml "")
      ok (record { by_pubkey = collect [] (keyed parsed) })
  ]

  unfoldable pub values : Dict Bytes KnownPeer → List KnownPeer
  values [] = []
  values ((k, p) ∷ m) = p ∷ values m

  unfoldable pub flush : PeerStore → Disk → Disk × Result Error (Unit {0})
  unfolding values
  flush store disk =
      if disk.writable
      then elim (f.to_string_pretty (values store.by_pubkey)) [
        | none ↦ (disk, err (Error.toml ""))
        | some raw ↦ (record disk { file = some raw }, ok tt)
      ]
      else (disk, err Error.io)

  -- `PeerStore::insert`: the map is changed before the file is written.
  unfoldable pub insert_peer :
      PeerStore → Disk → Bytes → String → ℕ → PeerStore × Disk × Result Error (Unit {0})
  unfolding flush
  insert_peer store disk pubkey name paired_at =
      let peer : KnownPeer = record {
        name = name;
        pubkey = f.hex_encode pubkey;
        paired_at = paired_at;
      } in
      let store : PeerStore = record {
        by_pubkey = insert Bytes-discrete pubkey peer store.by_pubkey;
      } in
      let (disk, result) = flush store disk in (store, disk, result)

  -- `PeerStore::remove`
  unfoldable pub remove_peer : PeerStore → Disk → Bytes → PeerStore × Disk × Result Error (Unit {0})
  unfolding flush
  remove_peer store disk pubkey =
      let store : PeerStore = record { by_pubkey = remove Bytes-discrete pubkey store.by_pubkey } in
      let (disk, result) = flush store disk in (store, disk, result)
