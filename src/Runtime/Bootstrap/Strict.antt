-- ===== src/Runtime/Bootstrap/Strict.antt =====
-- A hub that does not accept new peers.
use mathlib.Core.Path.{subst}
use borderless.Base.{
  ℕ, ◌≡◌, refl, sym, ap, ◌∙◌, inl, inr, Bool, true, false, not, List, [], ◌∷◌, ◌++◌, none, Result,
  ok, err, >>=-eq-ok, passed, ok_inj, All,
}
use borderless.Core.Node.{Bytes}
use borderless.Cli.Config.{Config}
use borderless.Transport.Endpoint.{Attempt, Listener, accept}
use borderless.Transport.Error.{Error}
use borderless.Transport.Handshake.{Crates, Connection, hello_bind_label}
use borderless.Transport.Handshake.Admission.{IsAdmitted, handshake_strict}
use borderless.Transport.Handshake.Authentic.{IsAuthentic, handshake-IsAuthentic}
use borderless.Transport.Identity.{KeyFile}
use borderless.Transport.PeerStore.{PeerStore, Disk, is_known}
use borderless.Runtime.Bootstrap.{
  ServerRuntime, Serving, bootstrap_hub, open_state, exporter_of, on_accepted, on_attempt,
  accept_loop, serving,
}

module _ (c : Crates) where
  -- A connection to a known peer that has signed the session's exporter material.
  abbrev pub IsTrusted : PeerStore → Bytes × Connection → Type 0
  IsTrusted peers (exporter, conn) =
      (is_known peers conn.peer_pubkey ≡ true)
      × IsAuthentic c (hello_bind_label ++ exporter) none conn.peer_pubkey

  accept_strict :
      (l : Listener) (a : Attempt) (now : ℕ) (peers : PeerStore) (disk : Disk)
      → l.config.accept_new_peers ≡ false
      → (result : Result Error Connection) × (accept c l a now peers disk ≡ (peers, disk, result))
  unfolding accept
  accept_strict l Attempt.no_tcp now peers disk h = (err Error.io, refl)
  accept_strict l Attempt.no_tls now peers disk h = (err (Error.tls "accept tls"), refl)
  accept_strict l Attempt.no_exporter now peers disk h = (err (Error.tls "exporter"), refl)
  accept_strict l (Attempt.session exporter s) now peers disk h =
      rw h (handshake_strict c l.identity l.config.name exporter none false now peers disk s)

  accept-IsTrusted :
      (l : Listener) (a : Attempt) (now : ℕ) (peers : PeerStore) (disk : Disk) (conn : Connection)
      → l.config.accept_new_peers ≡ false
      → accept c l a now peers disk ≡ (peers, disk, ok conn)
      → IsTrusted peers (exporter_of c a, conn)
  unfolding accept IsAdmitted
  accept-IsTrusted l Attempt.no_tcp now peers disk conn h run = absurd (cc)
  accept-IsTrusted l Attempt.no_tls now peers disk conn h run = absurd (cc)
  accept-IsTrusted l Attempt.no_exporter now peers disk conn h run = absurd (cc)
  accept-IsTrusted l (Attempt.session exporter s) now peers disk conn h run =
      let (authentic, _, admitted) =
        handshake-IsAuthentic c l.identity l.config.name exporter l.config.accept_new_peers none
          false now peers peers disk disk s conn run in
      elim admitted [ inl (known, _) ↦ (known, authentic) | inr (_, accepts, _) ↦ absurd (cc) ]

  -- What a strict hub keeps: its peers, its file, and that it trusts every connection.
  pub record IsStrict (peers : PeerStore) (disk : Disk) (s : Serving c) : Type 0 where
    pub same_peers : s.peers ≡ peers
    pub same_disk : s.disk ≡ disk
    pub trusted : All (IsTrusted peers) s.accepted

  All-snoc :
      (peers : PeerStore) (xs : List (Bytes × Connection)) (x : Bytes × Connection)
      → All (IsTrusted peers) xs
      → IsTrusted peers x
      → All (IsTrusted peers) (xs ++ (x ∷ []))
  All-snoc peers [] x hs h = (h, tt)
  All-snoc peers (y ∷ ys) x hs h = (hs.0, All-snoc peers ys x hs.1 h)

  on_accepted-IsStrict :
      (exporter : Bytes) (s : Serving c) (result : Result Error Connection)
      → All (IsTrusted s.peers) s.accepted
      → ((conn : Connection) → result ≡ ok conn → IsTrusted s.peers (exporter, conn))
      → IsStrict s.peers s.disk (on_accepted c exporter (s.peers, s.disk, result) s)
  unfolding on_accepted
  on_accepted-IsStrict exporter s (err e) trusted t = record {
    same_peers = refl;
    same_disk = refl;
    trusted = trusted;
  }
  on_accepted-IsStrict exporter s (ok conn) trusted t = record {
    same_peers = refl;
    same_disk = refl;
    trusted = All-snoc s.peers s.accepted (exporter, conn) trusted (t conn refl);
  }

  on_attempt-IsStrict :
      (l : Listener) (now : ℕ) (a : Attempt) (s : Serving c)
      → l.config.accept_new_peers ≡ false
      → All (IsTrusted s.peers) s.accepted
      → IsStrict s.peers s.disk (on_attempt c l (now, a) s)
  unfolding on_attempt
  on_attempt-IsStrict l now a s h trusted =
      let (result, e) = accept_strict l a now s.peers s.disk h in
      subst (λ r. IsStrict s.peers s.disk (on_accepted c (exporter_of c a) r s)) (sym e)
        (on_accepted-IsStrict (exporter_of c a) s result trusted (λ conn good.
          accept-IsTrusted l a now s.peers s.disk conn h (e ∙ ap (λ r. (s.peers, s.disk, r)) good)))

  accept_loop-IsStrict :
      (l : Listener) (attempts : List (ℕ × Attempt)) (peers : PeerStore) (disk : Disk)
      (s : Serving c)
      → l.config.accept_new_peers ≡ false
      → IsStrict peers disk s
      → IsStrict peers disk (accept_loop c l attempts s)
  unfolding accept_loop
  accept_loop-IsStrict l [] peers disk s h v = v
  accept_loop-IsStrict l ((now, a) ∷ attempts) peers disk s h v =
      let trusted = subst (λ p. All (IsTrusted p) s.accepted) (sym v.same_peers) v.trusted in
      let w = on_attempt-IsStrict l now a s h trusted in
      accept_loop-IsStrict l attempts peers disk (on_attempt c l (now, a) s) h (record {
        same_peers = w.same_peers ∙ v.same_peers;
        same_disk = w.same_disk ∙ v.same_disk;
        trusted =
            subst (λ p. All (IsTrusted p) (on_attempt c l (now, a) s).accepted) v.same_peers
              w.trusted;
      })

  -- The listener of a hub that the flag and the configuration start as a strict one.
  bootstrap_hub-strict :
      (secret : Bytes) (key_file : KeyFile) (disk : Disk) (can_bind : Bool) (cfg : Config)
      (r : ServerRuntime)
      → cfg.hub_.accept_new_peers ≡ false
      → bootstrap_hub c secret key_file disk can_bind cfg none ≡ ok r
      → r.listener.config.accept_new_peers ≡ false
  unfolding bootstrap_hub
  bootstrap_hub-strict secret key_file disk can_bind cfg r strict run =
      let ((identity, k, peers), opened, rest) =
        >>=-eq-ok (open_state c secret key_file disk) _ run in
      let (bound, made) = passed (not can_bind) Error.io _ rest in
      ap (λ (x : ServerRuntime). x.listener.config.accept_new_peers) (sym (ok_inj made)) ∙ strict

  -- A hub that is started without the flag, on a configuration that does not accept new peers, keeps
  -- its peers: whatever attempts come in, its peer store and the file stay as they were at the start,
  -- and every connection for which it starts a session is to a peer that the store knew at the start
  -- and that has signed the exporter material of its own TLS session.
  pub bootstrap_hub-IsStrict :
      (secret : Bytes) (key_file : KeyFile) (disk : Disk) (can_bind : Bool) (cfg : Config)
      (r : ServerRuntime) (attempts : List (ℕ × Attempt))
      → cfg.hub_.accept_new_peers ≡ false
      → bootstrap_hub c secret key_file disk can_bind cfg none ≡ ok r
      → IsStrict r.peers disk (accept_loop c r.listener attempts (serving c r disk))
  unfolding serving
  bootstrap_hub-IsStrict secret key_file disk can_bind cfg r attempts strict run =
      accept_loop-IsStrict r.listener attempts r.peers disk (serving c r disk)
        (bootstrap_hub-strict secret key_file disk can_bind cfg r strict run)
        (record { same_peers = refl; same_disk = refl; trusted = tt })
