-- ===== src/Transport/Handshake/Admission.antt =====
-- How a handshake ends once the hellos are exchanged: the peer store, and the connection.
use Prim.Native.String.{String}
use borderless.Base.{
  ℕ, ◌≡◌, ap, sym, ◌∙◌, ◌⊎◌, inl, inr, Bool, true, false, not, Option, if◌then◌else◌, Result,
  Bool-cases, Result-cases, ok, err, >>-eq-ok, ok_inj, arith,
}
use borderless.Base.Dict.{lookup-insert_self}
use borderless.Core.Node.{Bytes, Bytes-discrete, from_pubkey}
use borderless.Transport.Error.{Error}
use borderless.Transport.Frame.{Stream}
use borderless.Transport.Identity.{Identity}
use borderless.Transport.PeerStore.{PeerStore, Disk, is_known, get, insert_peer}
use borderless.Transport.Handshake.{
  SignedHello, Connection, Crates, admit, greet, connect, handshake,
}

-- How the peer store came to know the key: it did before, and nothing changed; or new peers are
-- accepted, and it does now.
unfoldable pub IsAdmitted : Bool → Bytes → PeerStore → PeerStore → Type 0
IsAdmitted accept_new_peers pubkey store store' =
    ((is_known store pubkey ≡ true) × (store' ≡ store))
    ⊎ ((is_known store pubkey ≡ false)
        × (accept_new_peers ≡ true)
        × (is_known store' pubkey ≡ true))

module _ (c : Crates) where
  -- `admit` by whether the key is known and whether new peers are accepted.
  pub admit_lem :
      (accept known : Bool) (peer : SignedHello) (now : ℕ) (store : PeerStore) (disk : Disk)
      → is_known store peer.pubkey ≡ known
      → admit c accept peer now store disk ≡ (
          if known
          then (store, disk, ok tt)
          else if not accept
          then (store, disk, err (Error.pairing "unknown peer"))
          else insert_peer c.formats store disk peer.pubkey peer.name now)
  unfolding admit
  admit_lem accept known peer now store disk e = rw e

  inserted-is_known :
      (store : PeerStore) (disk : Disk) (k : Bytes) (name : String) (now : ℕ)
      → is_known (insert_peer c.formats store disk k name now).0 k ≡ true
  unfolding insert_peer is_known get
  inserted-is_known store disk k name now =
      rw (insert_peer, is_known, get, lookup-insert_self Bytes-discrete k _ store.by_pubkey)

  pub admit-ok :
      (accept : Bool) (peer : SignedHello) (now : ℕ) (store store' : PeerStore) (disk disk' : Disk)
      → admit c accept peer now store disk ≡ (store', disk', ok tt)
      → IsAdmitted accept peer.pubkey store store'
  unfolding IsAdmitted
  admit-ok accept peer now store store' disk disk' h =
      elim (Bool-cases (is_known store peer.pubkey)) [
        | inl k ↦ inl (k, ground (arith, admit_lem accept true peer now store disk k))
        | inr k ↦ elim (Bool-cases accept) [
          | inl a ↦ inr (
            k,
            a,
            ground (
              arith,
              admit_lem accept false peer now store disk k,
              inserted-is_known store disk peer.pubkey peer.name now,
            ),
          )
          | inr a ↦ absurd (ground (arith, admit_lem accept false peer now store disk k))
        ]
      ]

  -- `handshake` by what the exchange of the hellos gives.
  pub handshake_refused :
      (identity : Identity) (name : String) (exporter : Bytes) (accept : Bool)
      (expected : Option Bytes) (is_initiator : Bool) (now : ℕ) (store : PeerStore) (disk : Disk)
      (s : Stream) (e : Error)
      → greet c identity name exporter expected is_initiator s ≡ err e
      → handshake c identity name exporter accept expected is_initiator now store disk s
        ≡ (store, disk, err e)
  unfolding handshake
  handshake_refused identity name exporter accept expected is_initiator now store disk s e h =
      rw (h, handshake)

  pub handshake_greeted :
      (identity : Identity) (name : String) (exporter : Bytes) (accept : Bool)
      (expected : Option Bytes) (is_initiator : Bool) (now : ℕ) (store : PeerStore) (disk : Disk)
      (s s' : Stream) (peer : SignedHello)
      → greet c identity name exporter expected is_initiator s ≡ ok (peer, s')
      → handshake c identity name exporter accept expected is_initiator now store disk s
        ≡ connect c accept peer now store disk s'
  unfolding handshake
  handshake_greeted identity name exporter accept expected is_initiator now store disk s s' peer h =
      rw (h, handshake)

  pub connected :
      (accept : Bool) (peer : SignedHello) (now : ℕ) (store store' : PeerStore) (disk disk' : Disk)
      (s : Stream) (conn : Connection)
      → connect c accept peer now store disk s ≡ (store', disk', ok conn)
      → (admit c accept peer now store disk ≡ (store', disk', ok tt))
        × (conn ≡ record {
          inner = s;
          peer_pubkey = peer.pubkey;
          peer_name = peer.name;
          peer_node_id = from_pubkey c.blake3 peer.pubkey;
        })
  unfolding connect
  connected accept peer now store store' disk disk' s conn h =
      let x = admit c accept peer now store disk in
      let (m, k) =
        >>-eq-ok x.2 _ (ap (λ (y : PeerStore × Disk × Result Error Connection). y.2) h) in
      (λ i. ((h i).0, (h i).1, m i), sym (ok_inj k))

  admit_strict :
      (peer : SignedHello) (now : ℕ) (store : PeerStore) (disk : Disk)
      → (r : Result Error (Unit {0})) × (admit c false peer now store disk ≡ (store, disk, r))
  admit_strict peer now store disk = elim (Bool-cases (is_known store peer.pubkey)) [
    | inl k ↦ (ok tt, admit_lem false true peer now store disk k)
    | inr k ↦ (err (Error.pairing "unknown peer"), admit_lem false false peer now store disk k)
  ]

  connect_strict :
      (peer : SignedHello) (now : ℕ) (store : PeerStore) (disk : Disk) (s : Stream)
      → connect c false peer now store disk s
        ≡ (store, disk, (connect c false peer now store disk s).2)
  unfolding connect
  connect_strict peer now store disk s =
      let (r, e) = admit_strict peer now store disk in
      λ i. ((e i).0, (e i).1, (connect c false peer now store disk s).2)

  -- A handshake that does not accept new peers leaves the peer store and its file as they are,
  -- whatever the peer sends and however the handshake ends.
  pub handshake_strict :
      (identity : Identity) (name : String) (exporter : Bytes) (expected : Option Bytes)
      (is_initiator : Bool) (now : ℕ) (store : PeerStore) (disk : Disk) (s : Stream)
      → (result : Result Error Connection) × (handshake c identity name exporter false expected
            is_initiator now store disk s
          ≡ (store, disk, result))
  handshake_strict identity name exporter expected is_initiator now store disk s =
      elim (Result-cases (greet c identity name exporter expected is_initiator s)) [
        | inl (e, g) ↦ (
          err e,
          handshake_refused identity name exporter false expected is_initiator now store disk s e g,
        )
        | inr ((peer, s'), g) ↦ (
          (connect c false peer now store disk s').2,
          handshake_greeted identity name exporter false expected is_initiator now store disk s s'
                peer g
              ∙ connect_strict peer now store disk s',
        )
      ]
