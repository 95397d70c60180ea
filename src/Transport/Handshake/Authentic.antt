-- ===== src/Transport/Handshake/Authentic.antt =====
-- Who is on the other side of a connection that `handshake` returns.
use Prim.Native.String.{String}
use borderless.Base.{
  ℕ, ◌≡◌, refl, ap, sym, ◌∙◌, inl, inr, Bool, true, false, not, ◌++◌, Option, none, some, ◌==◌,
  length, Result-cases, ok, >>=-eq-ok, passed, passed_last, map_err-passed, ok_inj, or_fail, arith,
}
use borderless.Core.Node.{Bytes, from_pubkey}
use borderless.Transport.Error.{Error}
use borderless.Transport.Frame.{Stream}
use borderless.Transport.Identity.{Ed25519, Identity, verify_signature}
use borderless.Transport.PeerStore.{PeerStore, Disk}
use borderless.Transport.Handshake.{
  SignedHello, Connection, Crates, hello_bind_label, mismatch, exchange, check_peer, our_hello,
  greet, handshake,
}
use borderless.Transport.Handshake.Admission.{
  IsAdmitted, admit-ok, handshake_refused, handshake_greeted, connected,
}

-- What is checked of a peer's hello over the session's material.
pub record IsAuthentic (c : Crates) (binding : Bytes) (expected : Option Bytes) (pubkey : Bytes)
    : Type 0 where
  pub is_signed :
      (signature : Bytes) × (length signature ≡ 64)
      × (c.ed25519.is_key pubkey ≡ true)
      × (c.ed25519.verify pubkey binding signature ≡ true)
  pub is_pinned : (key : Bytes) → expected ≡ some key → key ≡ pubkey

verify_signature-ok :
    (e : Ed25519) (pubkey message sig : Bytes)
    → verify_signature e pubkey message sig ≡ ok tt
    → (e.is_key pubkey ≡ true) × (e.verify pubkey message sig ≡ true)
unfolding verify_signature
verify_signature-ok e pubkey message sig h =
    let (k, rest) = passed (not (e.is_key pubkey)) (Error.identity "bad pubkey") _ h in
    (
      ground (arith, k),
      ground (
        arith,
        passed_last (not (e.verify pubkey message sig)) (Error.identity "signature") rest,
      ),
    )

unmatched :
    (expected : Option Bytes) (key pubkey : Bytes)
    → mismatch expected pubkey ≡ false
    → expected ≡ some key
    → key ≡ pubkey
unfolding mismatch
unmatched none key pubkey h e = cc
unmatched (some k) key pubkey h e = ground arith

module _ (c : Crates) where
  check_peer-ok :
      (binding : Bytes) (expected : Option Bytes) (peer : SignedHello)
      → check_peer c binding expected peer ≡ ok tt
      → IsAuthentic c binding expected peer.pubkey
  unfolding check_peer mismatch
  check_peer-ok binding expected peer h =
      let (l, h₁) =
        passed (not (length peer.signature == 64)) (Error.identity "bad signature length") _ h in
      let (v, h₂) =
        map_err-passed (Error.identity "peer hello sig")
          (verify_signature c.ed25519 peer.pubkey binding peer.signature) _ h₁ in
      let (k, w) = verify_signature-ok c.ed25519 peer.pubkey binding peer.signature v in
      record {
        is_signed = (peer.signature, ground (arith, l), k, w);
        is_pinned = λ key e. unmatched expected key peer.pubkey (passed_last _ _ h₂) e;
      }

  greet-ok :
      (identity : Identity) (name : String) (exporter : Bytes) (expected : Option Bytes)
      (is_initiator : Bool) (s s' : Stream) (peer : SignedHello)
      → greet c identity name exporter expected is_initiator s ≡ ok (peer, s')
      → IsAuthentic c (hello_bind_label ++ exporter) expected peer.pubkey
  unfolding greet
  greet-ok identity name exporter expected is_initiator s s' peer h =
      let binding = hello_bind_label ++ exporter in
      let (ours, eo, h₁) =
        >>=-eq-ok
          (or_fail (c.hellos.encode (our_hello c identity binding name))
            (Error.codec "hello encode"))
          _ h in
      let (q, ex, h₂) = >>=-eq-ok (exchange c is_initiator ours s) _ h₁ in
      let (u, ck, h₃) = >>=-eq-ok (check_peer c binding expected q.0) _ h₂ in
      rw (sym (ap (λ (x : SignedHello × Stream). x.0) (ok_inj h₃)))
        (check_peer-ok binding expected q.0 ck)

  -- A connection that a handshake returns is to a peer that signed this session's exporter material
  -- with the key that the connection names, and that key is the pinned one if there is one. Its
  -- identifier is the one of that key. The peer store knew the key and has not changed, or new peers
  -- are accepted and it knows the key now.
  pub handshake-IsAuthentic :
      (identity : Identity) (name : String) (exporter : Bytes) (accept : Bool)
      (expected : Option Bytes) (is_initiator : Bool) (now : ℕ) (store store' : PeerStore)
      (disk disk' : Disk) (s : Stream) (conn : Connection)
      → handshake c identity name exporter accept expected is_initiator now store disk s
        ≡ (store', disk', ok conn)
      → IsAuthentic c (hello_bind_label ++ exporter) expected conn.peer_pubkey
        × (conn.peer_node_id ≡ from_pubkey c.blake3 conn.peer_pubkey)
        × IsAdmitted accept conn.peer_pubkey store store'
  unfolding handshake
  handshake-IsAuthentic identity name exporter accept expected is_initiator now store store' disk
        disk' s conn h =
      elim (Result-cases (greet c identity name exporter expected is_initiator s)) [
        | inl (e, g) ↦ absurd (
            ground (
              arith,
              handshake_refused c identity name exporter accept expected is_initiator now store disk
                  s e g,
            ))
        | inr ((peer, s'), g) ↦
            let (admitted, p) = connected c accept peer now store store' disk disk' s' conn (
              sym (
                handshake_greeted c identity name exporter accept expected is_initiator now store
                  disk s s' peer g)
              ∙ h) in
            (
              rw p (greet-ok identity name exporter expected is_initiator s s' peer g),
              (rw p refl),
              (rw p (admit-ok c accept peer now store store' disk disk' admitted)),
            )
      ]
