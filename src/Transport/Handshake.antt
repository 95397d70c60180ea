-- ===== src/Transport/Handshake.antt =====
-- `handshake` of crates/transport/src/connection.rs. The exporter material of the TLS session and the
-- time are arguments; the peer store is taken with its disk and given back, on every branch.
pub mod Admission
pub mod Authentic
pub mod Complete
mod Tests
use Prim.Native.String.{String}
use borderless.Base.{
  ℕ, ◌≡◌, Bool, true, false, not, List, [], ◌∷◌, ◌++◌, Option, none, some, ◌==◌, ite, if◌then◌else◌,
  length, Result, ok, err, ◌>>=◌, ◌>>◌, fail_if, or_fail, map_err,
}
use borderless.Core.Node.{
  Bytes, Bytes-discrete, Blake3, NodeId, from_pubkey, ProtocolVersion, protocol_v0,
}
use borderless.Transport.Error.{Error}
use borderless.Transport.Frame.{Stream, read_limited, write_framed_raw, max_hello}
use borderless.Transport.Connection.{Codec}
use borderless.Transport.Identity.{Ed25519, Identity, pubkey, sign, verify_signature}
use borderless.Transport.PeerStore.{Formats, PeerStore, Disk, is_known, insert_peer}

pub record SignedHello : Type 0 where
  pub pubkey : Bytes
  pub name : String
  pub max_protocol : ProtocolVersion
  pub signature : Bytes

pub record Connection : Type 0 where
  pub inner : Stream
  pub peer_pubkey : Bytes
  pub peer_name : String
  pub peer_node_id : NodeId

-- `HELLO_BIND_LABEL`: `b"borderless/hello/v0"`
abbrev pub hello_bind_label : Bytes
hello_bind_label =
    98 ∷ 111 ∷ 114 ∷ 100 ∷ 101 ∷ 114 ∷ 108 ∷ 101 ∷ 115 ∷ 115 ∷ 47 ∷ 104 ∷ 101 ∷ 108 ∷ 108 ∷ 111 ∷ 47
    ∷ 118 ∷ 48 ∷ []

-- `Some(expected)` that is not the peer's key.
unfoldable pub mismatch : Option Bytes → Bytes → Bool
mismatch none key = false
mismatch (some expected) key = ite (Bytes-discrete expected key) false true

-- The crates that the handshake calls.
pub record Crates : Type 0 where
  pub ed25519 : Ed25519
  pub blake3 : Blake3
  pub formats : Formats
  pub hellos : Codec SignedHello

module _ (c : Crates) where
  unfoldable pub read_hello : Stream → Result Error (SignedHello × Stream)
  read_hello s = do
    (payload, s) ← read_limited max_hello "hello too large" s
    hello ← or_fail (c.hellos.decode payload) (Error.codec "hello decode")
    ok (hello, s)

  -- Who starts sends before reading, the other one reads before sending.
  unfoldable pub exchange : Bool → Bytes → Stream → Result Error (SignedHello × Stream)
  unfolding read_hello
  exchange true ours s = do s ← write_framed_raw ours s; read_hello s
  exchange false ours s = do (peer, s) ← read_hello s; s ← write_framed_raw ours s; ok (peer, s)

  -- The checks of the peer's hello: the signature over the session, and the pinned key.
  unfoldable pub check_peer : Bytes → Option Bytes → SignedHello → Result Error (Unit {0})
  unfolding verify_signature mismatch
  check_peer binding expected peer = do
    fail_if (not (length peer.signature == 64)) (Error.identity "bad signature length")
    map_err (Error.identity "peer hello sig")
        (verify_signature c.ed25519 peer.pubkey binding peer.signature)
    fail_if (mismatch expected peer.pubkey) (Error.pairing "expected node")

  unfoldable pub our_hello : Identity → Bytes → String → SignedHello
  unfolding pubkey sign
  our_hello identity binding name = record {
    pubkey = pubkey c.ed25519 identity;
    name = name;
    max_protocol = protocol_v0;
    signature = sign c.ed25519 identity binding;
  }

  -- The part that holds the lock of the peer store.
  unfoldable pub admit :
      Bool → SignedHello → ℕ → PeerStore → Disk → PeerStore × Disk × Result Error (Unit {0})
  unfolding is_known insert_peer
  admit accept_new_peers peer now store disk =
      if is_known store peer.pubkey
      then (store, disk, ok tt)
      else if not accept_new_peers
      then (store, disk, err (Error.pairing "unknown peer"))
      else insert_peer c.formats store disk peer.pubkey peer.name now

  -- The hello of the peer, once it is read and checked.
  unfoldable pub greet :
      Identity → String → Bytes → Option Bytes → Bool → Stream → Result Error (SignedHello × Stream)
  unfolding exchange check_peer our_hello
  greet identity name exporter expected is_initiator s = do
    let binding = hello_bind_label ++ exporter
    ours ← or_fail (c.hellos.encode (our_hello identity binding name)) (Error.codec "hello encode")
    (peer, s) ← exchange is_initiator ours s
    check_peer binding expected peer
    ok (peer, s)

  -- The end of `handshake`: the peer is admitted, and the connection is made.
  unfoldable pub connect :
      Bool
      → SignedHello
      → ℕ
      → PeerStore
      → Disk
      → Stream
      → PeerStore × Disk × Result Error Connection
  unfolding admit
  connect accept_new_peers peer now store disk s =
      let (store, disk, admitted) = admit accept_new_peers peer now store disk in
      (
        store,
        disk,
        do
          admitted
          ok (record {
            inner = s;
            peer_pubkey = peer.pubkey;
            peer_name = peer.name;
            peer_node_id = from_pubkey c.blake3 peer.pubkey;
          }),
      )

  unfoldable pub handshake :
      Identity
      → String
      → (exporter : Bytes) → (accept_new_peers : Bool) → (expected : Option Bytes)
      → (is_initiator : Bool) → (now : ℕ) → PeerStore
      → Disk
      → Stream
      → PeerStore × Disk × Result Error Connection
  unfolding greet connect
  handshake identity name exporter accept_new_peers expected is_initiator now store disk s =
      elim (greet identity name exporter expected is_initiator s) [
        | err e ↦ (store, disk, err e)
        | ok (peer, s) ↦ connect accept_new_peers peer now store disk s
      ]
