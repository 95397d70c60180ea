-- ===== src/Runtime/Bootstrap/Pinned.antt =====
-- A spoke that pins its hub.
use Prim.Native.String.{String}
use mathlib.Core.Path.{subst}
use borderless.Base.{
  ℕ, ◌≡◌, refl, sym, ap, ◌∙◌, Bool, true, Option, some, ==_iff, length, Result, ok, err, ◌>>=◌,
  >>=-eq-ok, ok_inj, arith,
}
use borderless.Core.Node.{Bytes}
use borderless.Cli.Config.{Config}
use borderless.Transport.Endpoint.{Attempt, Connector, dial}
use borderless.Transport.Error.{Error}
use borderless.Transport.Handshake.{Crates, Connection}
use borderless.Transport.Handshake.Authentic.{handshake-IsAuthentic}
use borderless.Transport.Identity.{KeyFile}
use borderless.Transport.PeerStore.{PeerStore, Disk}
use borderless.Runtime.Bootstrap.{
  ClientRuntime, bootstrap_spoke, open_state, expected_pubkey, with_context,
}
use borderless.Runtime.Spoke.{parse_pubkey}

parse_pubkey-ok :
    (decode : String → Option Bytes) (s : String) (key : Bytes)
    → parse_pubkey decode s ≡ ok key
    → (decode s ≡ some key) × (length key ≡ 32)
unfolding parse_pubkey
parse_pubkey-ok decode s key run = ground (arith, ==_iff (length key) 32)

module _ (c : Crates) where
  dial-pinned :
      (k : Connector) (key : Bytes) (accept : Bool) (a : Attempt) (now : ℕ)
      (peers peers' : PeerStore) (disk disk' : Disk) (conn : Connection)
      → dial c k (some key) accept a now peers disk ≡ (peers', disk', ok conn)
      → key ≡ conn.peer_pubkey
  unfolding dial
  dial-pinned k key accept Attempt.no_tcp now peers peers' disk disk' conn run = absurd (cc)
  dial-pinned k key accept Attempt.no_tls now peers peers' disk disk' conn run = absurd (cc)
  dial-pinned k key accept Attempt.no_exporter now peers peers' disk disk' conn run = absurd (cc)
  dial-pinned k key accept (Attempt.session exporter s) now peers peers' disk disk' conn run =
      (handshake-IsAuthentic c k.identity k.name exporter accept (some key) true now peers peers'
          disk disk' s conn run).0.is_pinned
        key refl

  bootstrap_spoke-ok :
      (decode : String → Option Bytes) (secret : Bytes) (key_file : KeyFile) (disk : Disk)
      (cfg : Config) (addr s : String) (accept : Bool) (r : ClientRuntime)
      → bootstrap_spoke c decode secret key_file disk cfg addr (some s) accept ≡ ok r
      → (key : Bytes) × (decode s ≡ some key)
        × (length key ≡ 32)
        × (r.expected_server_pubkey ≡ some key)
  unfolding bootstrap_spoke expected_pubkey
  bootstrap_spoke-ok decode secret key_file disk cfg addr s accept r run =
      let ((identity, k, peers), opened, rest) =
        >>=-eq-ok (with_context (open_state c secret key_file disk)) _ run in
      let (o, parsed, made) = >>=-eq-ok (do key ← parse_pubkey decode s; ok (some key)) _ rest in
      let (key, p, e) = >>=-eq-ok (parse_pubkey decode s) (λ key. ok (some key)) parsed in
      let (decoded, sized) = parse_pubkey-ok decode s key p in
      (
        key,
        decoded,
        sized,
        ap (λ (x : ClientRuntime). x.expected_server_pubkey) (sym (ok_inj made)) ∙ sym (ok_inj e),
      )

  -- The outcome of a dial is a connection to a peer with this key, or none.
  abbrev pub ReachesOnly : Bytes → PeerStore × Disk × Result Error Connection → Type 0
  ReachesOnly key (peers, disk, ok conn) = conn.peer_pubkey ≡ key
  ReachesOnly key (peers, disk, err _) = Unit {0}

  dial-ReachesOnly :
      (k : Connector) (key : Bytes) (accept : Bool) (a : Attempt) (now : ℕ) (peers : PeerStore)
      (disk : Disk) (peers' : PeerStore) (disk' : Disk) (result : Result Error Connection)
      → dial c k (some key) accept a now peers disk ≡ (peers', disk', result)
      → ReachesOnly key (peers', disk', result)
  dial-ReachesOnly k key accept a now peers disk peers' disk' (err e) run = tt
  dial-ReachesOnly k key accept a now peers disk peers' disk' (ok conn) run =
      sym (dial-pinned k key accept a now peers peers' disk disk' conn run)

  -- A spoke that is started with a pinned key starts only if the text is 32 bytes in hexadecimal, and
  -- then every dial, to whichever address and whether or not the spoke accepts new peers, either fails
  -- or gives a connection to a hub with those bytes as its key.
  pub bootstrap_spoke-pinned :
      (decode : String → Option Bytes) (secret : Bytes) (key_file : KeyFile) (disk₀ : Disk)
      (cfg : Config) (addr s : String) (accept : Bool) (r : ClientRuntime)
      → bootstrap_spoke c decode secret key_file disk₀ cfg addr (some s) accept ≡ ok r
      → (key : Bytes) × (decode s ≡ some key)
        × (length key ≡ 32)
        × ((a : Attempt) (now : ℕ) (peers : PeerStore) (disk : Disk)
            → ReachesOnly key
                (dial c r.connector r.expected_server_pubkey r.accept_new_peer a now peers disk))
  bootstrap_spoke-pinned decode secret key_file disk₀ cfg addr s accept r run =
      let (key, decoded, sized, pinned) =
        bootstrap_spoke-ok decode secret key_file disk₀ cfg addr s accept r run in
      (
        key,
        decoded,
        sized,
        λ a now peers disk.
            subst (λ e. ReachesOnly key (dial c r.connector e r.accept_new_peer a now peers disk))
              (sym pinned)
              (dial-ReachesOnly r.connector key r.accept_new_peer a now peers disk _ _ _ refl),
      )
