-- ===== src/Transport/Handshake/Tests.antt =====
-- Handshakes on concrete streams, with signatures that are always accepted and hellos that are named by
-- one byte.
use Prim.Native.String.{String, [], ◌∷◌}
use borderless.Base.{
  ℕ, zero, suc, ◌≡◌, refl, sym, ap, Bool, true, false, List, [], ◌∷◌, ◌++◌, Option, none, some,
  replicate, length, take, drop, take-append, drop-append, Result, ok, err, arith,
}
use borderless.Core.Node.{Bytes, NodeId, Blake3, from_pubkey, protocol_v0}
use borderless.Transport.Frame.{Stream}
use borderless.Transport.Frame.Roundtrip.{framed}
use borderless.Transport.Identity.{Ed25519, Identity}
use borderless.Transport.Connection.{Codec, IsLossless}
use borderless.Transport.PeerStore.{PeerStore, Disk, is_known}
use borderless.Transport.Handshake.{
  SignedHello, Connection, Crates, hello_bind_label, our_hello, mismatch, handshake,
}
use borderless.Transport.Handshake.Admission.{IsAdmitted}
use borderless.Transport.Handshake.Authentic.{IsAuthentic, handshake-IsAuthentic}
use borderless.Transport.Handshake.Complete.{IsSigning, handshake-honest}

abbrev toy_keys : Ed25519
toy_keys = record {
  verifying_key = λ secret. secret;
  sign = λ secret message. replicate 64 0;
  is_key = λ key. true;
  verify = λ key message signature. true;
}

toy_keys-IsSigning : IsSigning toy_keys
toy_keys-IsSigning = record {
  is_key = λ s. refl;
  length_signature = λ s m. refl;
  verifies = λ s m. refl;
}

some_inj : {a b : Bytes} → some a ≡ some b → a ≡ b
some_inj h = cc

-- A hello without a name: the length of the key, the key, the version and the signature.
unfoldable encode_hello : String → Bytes → ℕ → Bytes → Option Bytes
encode_hello [] key version signature = some (length key ∷ (key ++ (version ∷ signature)))
encode_hello (c ∷ s) key version signature = none

unfoldable decode_rest : Bytes → Bytes → Option SignedHello
decode_rest key [] = none
decode_rest key (version ∷ signature) = some (record {
  pubkey = key;
  name = "";
  max_protocol = record { number = version };
  signature = signature;
})

unfoldable decode_hello : Bytes → Option SignedHello
unfolding decode_rest
decode_hello [] = none
decode_hello (n ∷ bytes) = decode_rest (take n bytes) (drop n bytes)

abbrev hellos : Codec SignedHello
hellos = record {
  encode = λ h. encode_hello h.name h.pubkey h.max_protocol.number h.signature;
  decode = decode_hello;
}

decode-encode :
    (name : String) (key : Bytes) (version : ℕ) (signature bytes : Bytes)
    → encode_hello name key version signature ≡ some bytes
    → decode_hello bytes
      ≡ some (record {
        pubkey = key;
        name = name;
        max_protocol = record { number = version };
        signature = signature;
      })
unfolding encode_hello decode_hello
decode-encode [] key version signature bytes h = rw (
  sym (some_inj h),
  take-append (length key) key (version ∷ signature) refl,
  drop-append (length key) key (version ∷ signature) refl,
)
decode-encode (c ∷ s) key version signature bytes h = cc

hellos-IsLossless : IsLossless hellos
hellos-IsLossless a bytes h =
    decode-encode a.name a.pubkey a.max_protocol.number a.signature bytes h

abbrev crates : Crates
crates = record {
  ed25519 = toy_keys;
  blake3 = record { hash = λ bytes. bytes };
  formats = record {
    to_string_pretty = λ ps. none;
    from_str = λ raw. none;
    hex_encode = λ bytes. "";
    hex_decode = λ s. none;
  };
  hellos = hellos;
}

abbrev alice : Identity
alice = record { signing = replicate 32 1 }

abbrev bob : Identity
bob = record { signing = replicate 32 2 }

abbrev exporter : Bytes
exporter = replicate 32 9

abbrev hello_bytes : ℕ → Bytes
hello_bytes n = 32 ∷ (replicate 32 n ++ (0 ∷ replicate 64 0))

-- Alice has paired with Bob.
abbrev store : PeerStore
store = record {
  by_pubkey = (replicate 32 2, record { name = "bob"; pubkey = ""; paired_at = 0 }) ∷ [];
}

abbrev disk : Disk
disk = record { file = none; readable = true; writable = true }

-- What Bob sends, and then one more byte.
abbrev from_bob : Stream
from_bob = record { incoming = framed (hello_bytes 2) ++ (5 ∷ []); outgoing = []; broken = false }

abbrev connected : Connection
connected = record {
  inner = record { incoming = 5 ∷ []; outgoing = [] ++ framed (hello_bytes 1); broken = false };
  peer_pubkey = replicate 32 2;
  peer_name = "";
  peer_node_id = from_pubkey crates.blake3 (replicate 32 2);
}

known : is_known store (replicate 32 2) ≡ true
unfolding is_known borderless.Base.Dict.lookup borderless.Core.Node.Bytes-discrete
    borderless.Base.ℕ_discrete
known = refl

our_bytes :
    crates.hellos.encode (our_hello crates alice (hello_bind_label ++ exporter) "")
    ≡ some (hello_bytes 1)
unfolding our_hello encode_hello
our_bytes = refl

their_bytes :
    crates.hellos.encode (our_hello crates bob (hello_bind_label ++ exporter) "")
    ≡ some (hello_bytes 2)
unfolding our_hello encode_hello
their_bytes = refl

pinned : mismatch (some (replicate 32 2)) (replicate 32 2) ≡ false
unfolding mismatch borderless.Core.Node.Bytes-discrete borderless.Base.ℕ_discrete
pinned = refl

handshake-honest_example :
    handshake crates alice "" exporter false (some (replicate 32 2)) true 0 store disk from_bob
    ≡ (store, disk, ok connected)
unfolding borderless.Transport.Identity.pubkey
handshake-honest_example =
    handshake-honest crates hellos-IsLossless toy_keys-IsSigning alice bob "" "" exporter false
      (some (replicate 32 2)) true 0 store disk (hello_bytes 1) (hello_bytes 2) (5 ∷ []) from_bob
      our_bytes their_bytes (omega arith) pinned known refl refl

shaken :
    handshake crates alice "" exporter false none true 0 store disk from_bob
    ≡ (store, disk, ok connected)
unfolding handshake encode_hello decode_hello borderless.Transport.Frame.write_framed_raw
    borderless.Transport.Frame.read_limited borderless.Base.Dict.lookup
    borderless.Core.Node.Bytes-discrete borderless.Base.ℕ_discrete
shaken = refl

handshake-IsAuthentic_example :
    IsAuthentic crates (hello_bind_label ++ exporter) none connected.peer_pubkey
    × (connected.peer_node_id ≡ from_pubkey crates.blake3 connected.peer_pubkey)
    × IsAdmitted false connected.peer_pubkey store store
handshake-IsAuthentic_example =
    handshake-IsAuthentic crates alice "" exporter false none true 0 store store disk disk from_bob
      connected shaken
