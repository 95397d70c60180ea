-- ===== src/Transport/Handshake/Complete.antt =====
-- Two honest nodes that are paired with each other get their connection.
use Prim.Native.String.{String}
use borderless.Base.{ℕ, ◌≡◌, ◌≤◌, ◌∙◌, Bool, true, false, ◌++◌, Option, some, length, ok, arith}
use borderless.Core.Node.{Bytes, from_pubkey}
use borderless.Transport.Frame.{Stream, max_hello}
use borderless.Transport.Frame.Roundtrip.{framed, read_limited-framed, write_framed_raw-framed}
use borderless.Transport.Identity.{Ed25519, Identity, pubkey, sign, verify_signature}
use borderless.Transport.Connection.{IsLossless}
use borderless.Transport.PeerStore.{PeerStore, Disk, is_known}
use borderless.Transport.Handshake.{
  SignedHello, Crates, hello_bind_label, mismatch, read_hello, exchange, check_peer, our_hello,
  greet, connect, handshake,
}
use borderless.Transport.Handshake.Admission.{admit_lem, handshake_greeted}

-- What the program relies on of Ed25519: a signature that a key makes is accepted for that key.
pub record IsSigning (e : Ed25519) : Type 0 where
  pub is_key : (secret : Bytes) → e.is_key (e.verifying_key secret) ≡ true
  pub length_signature : (secret message : Bytes) → length (e.sign secret message) ≡ 64
  pub verifies :
      (secret message : Bytes)
      → e.verify (e.verifying_key secret) message (e.sign secret message) ≡ true

module _ (c : Crates) (lossless : IsLossless c.hellos) (signing : IsSigning c.ed25519) where
  check_peer-our_hello :
      (them : Identity) (binding : Bytes) (name : String) (expected : Option Bytes)
      → mismatch expected (pubkey c.ed25519 them) ≡ false
      → check_peer c binding expected (our_hello c them binding name) ≡ ok tt
  unfolding check_peer our_hello verify_signature pubkey sign
  check_peer-our_hello them binding name expected m = rw (
    signing.length_signature them.signing binding,
    signing.is_key them.signing,
    signing.verifies them.signing binding,
    m,
  )

  read_hello-framed :
      (hello : SignedHello) (payload rest : Bytes) (s : Stream)
      → c.hellos.encode hello ≡ some payload
      → length payload ≤ max_hello
      → s.incoming ≡ framed payload ++ rest
      → read_hello c s ≡ ok (hello, record s { incoming = rest })
  unfolding read_hello
  read_hello-framed hello payload rest s e h i = rw (
    read_limited-framed max_hello "hello too large" payload rest s (omega arith) h i,
    lossless hello payload e,
  )

  exchange-framed :
      (is_initiator : Bool) (hello : SignedHello) (ours theirs rest : Bytes) (s : Stream)
      → c.hellos.encode hello ≡ some theirs
      → length theirs ≤ max_hello
      → s.broken ≡ false
      → s.incoming ≡ framed theirs ++ rest
      → exchange c is_initiator ours s
        ≡ ok (hello, record s { incoming = rest; outgoing = s.outgoing ++ framed ours })
  unfolding exchange
  exchange-framed true hello ours theirs rest s e h b i = rw (
    write_framed_raw-framed ours s b,
    read_hello-framed hello theirs rest (record s { outgoing = s.outgoing ++ framed ours }) e h i,
  )
  exchange-framed false hello ours theirs rest s e h b i = rw (
    read_hello-framed hello theirs rest s e h i,
    write_framed_raw-framed ours (record s { incoming = rest }) b,
  )

  greet-honest :
      (me them : Identity) (name their_name : String) (exporter : Bytes) (expected : Option Bytes)
      (is_initiator : Bool) (ours theirs rest : Bytes) (s : Stream)
      → c.hellos.encode (our_hello c me (hello_bind_label ++ exporter) name) ≡ some ours
      → c.hellos.encode (our_hello c them (hello_bind_label ++ exporter) their_name) ≡ some theirs
      → length theirs ≤ max_hello
      → mismatch expected (pubkey c.ed25519 them) ≡ false
      → s.broken ≡ false
      → s.incoming ≡ framed theirs ++ rest
      → greet c me name exporter expected is_initiator s
        ≡ ok (
          our_hello c them (hello_bind_label ++ exporter) their_name,
          record s { incoming = rest; outgoing = s.outgoing ++ framed ours },
        )
  unfolding greet
  greet-honest me them name their_name exporter expected is_initiator ours theirs rest s eo et h m b
        i =
      rw (
        eo,
        exchange-framed is_initiator (our_hello c them (hello_bind_label ++ exporter) their_name)
            ours theirs rest s et h b i,
        check_peer-our_hello them (hello_bind_label ++ exporter) their_name expected m,
      )

  connect-known :
      (accept : Bool) (peer : SignedHello) (now : ℕ) (store : PeerStore) (disk : Disk) (s : Stream)
      → is_known store peer.pubkey ≡ true
      → connect c accept peer now store disk s ≡ (
        store,
        disk,
        ok (record {
          inner = s;
          peer_pubkey = peer.pubkey;
          peer_name = peer.name;
          peer_node_id = from_pubkey c.blake3 peer.pubkey;
        }),
      )
  unfolding connect
  connect-known accept peer now store disk s k = rw (admit_lem c accept true peer now store disk k)

  -- One side: it knows the other's key and pins no key but that one, and the other's hello over the
  -- same session is what it reads. The handshake then gives a connection with the other's key and
  -- name, the store stays, and what was written is the own hello.
  pub handshake-honest :
      (me them : Identity) (name their_name : String) (exporter : Bytes) (accept : Bool)
      (expected : Option Bytes) (is_initiator : Bool) (now : ℕ) (store : PeerStore) (disk : Disk)
      (ours theirs rest : Bytes) (s : Stream)
      → c.hellos.encode (our_hello c me (hello_bind_label ++ exporter) name) ≡ some ours
      → c.hellos.encode (our_hello c them (hello_bind_label ++ exporter) their_name) ≡ some theirs
      → length theirs ≤ max_hello
      → mismatch expected (pubkey c.ed25519 them) ≡ false
      → is_known store (pubkey c.ed25519 them) ≡ true
      → s.broken ≡ false
      → s.incoming ≡ framed theirs ++ rest
      → handshake c me name exporter accept expected is_initiator now store disk s ≡ (
        store,
        disk,
        ok (record {
          inner = record s { incoming = rest; outgoing = s.outgoing ++ framed ours };
          peer_pubkey = pubkey c.ed25519 them;
          peer_name = their_name;
          peer_node_id = from_pubkey c.blake3 (pubkey c.ed25519 them);
        }),
      )
  unfolding our_hello
  handshake-honest me them name their_name exporter accept expected is_initiator now store disk ours
        theirs rest s eo et h m k b i =
      handshake_greeted c me name exporter accept expected is_initiator now store disk s _ _ (
        greet-honest me them name their_name exporter expected is_initiator ours theirs rest s eo et
          h m b i)
      ∙ connect-known accept (our_hello c them (hello_bind_label ++ exporter) their_name) now store
          disk _ k
