-- ===== src/Runtime/Bootstrap.antt =====
-- The start of the two runtimes: `bootstrap` of crates/cli/src/runtime/server.rs and client.rs, and the
-- accept loop of the hub. The files are the node's key and its known peers. Whether the socket could be
-- bound and whether TLS could be configured are arguments.
pub mod Strict
pub mod Pinned
mod Tests
use Prim.Native.String.{String}
use borderless.Base.{
  ℕ, Bool, true, false, not, ◌&&◌, List, [], ◌∷◌, ◌++◌, max, Option, none, some, if◌then◌else◌,
  Result, ok, err, ◌>>=◌, ◌>>◌, fail_if,
}
use borderless.Core.Node.{Bytes, NodeId}
use borderless.Clipboard.Engine
use borderless.Clipboard.Lazy
use borderless.Cli.Config.{Config}
use borderless.Transport.Endpoint.{Attempt, Listener, Connector, accept}
use borderless.Transport.Error.{Error}
use borderless.Transport.Handshake.{Crates, Connection}
use borderless.Transport.Identity.{Identity, KeyFile, load_or_generate, node_id}
use borderless.Transport.PeerStore.{PeerStore, Disk, open_store}
use borderless.Runtime.Hub
use borderless.Runtime.Hub.{Hub, start_session}
use borderless.Runtime.Spoke.{Failure, parse_pubkey, transport}

pub record ServerRuntime : Type 0 where
  pub identity : Identity
  pub peers : PeerStore
  pub listener : Listener
  pub clipboard : Engine.Inner
  pub lazy : Lazy.Inner

pub record ClientRuntime : Type 0 where
  pub identity : Identity
  pub peers : PeerStore
  pub connector : Connector
  pub clipboard : Engine.Inner
  pub server_addr : String
  pub expected_server_pubkey : Option Bytes
  pub accept_new_peer : Bool
  pub input_enabled : Bool

-- `unwrap_or`
abbrev pub unwrap_or : Option Bool → Bool → Bool
unwrap_or none b = b
unwrap_or (some a) b = a

-- `.context(...)`
abbrev pub with_context : {A : Type 0} → Result Error A → Result Failure A
with_context (ok a) = ok a
with_context (err e) = err (transport e)

module _ (c : Crates) where
  -- The identity and the peer store, which both kinds of node open first, with a secret for a new
  -- identity.
  unfoldable pub open_state : Bytes → KeyFile → Disk → Result Error (Identity × KeyFile × PeerStore)
  open_state secret key_file disk = do
    (identity, key_file) ← load_or_generate c.ed25519 secret key_file
    peers ← open_store c.formats disk
    ok (identity, key_file, peers)

  -- `ServerRuntime::bootstrap`
  unfoldable pub bootstrap_hub :
      Bytes
      → KeyFile
      → Disk
      → (can_bind : Bool) → Config
      → (accept_new_peers_override : Option Bool) → Result Error ServerRuntime
  unfolding open_state
  bootstrap_hub secret key_file disk can_bind cfg accept_new_peers_override = do
    (identity, key_file, peers) ← open_state secret key_file disk
    fail_if (not can_bind) Error.io
    ok (record {
      identity = identity;
      peers = peers;
      listener = record {
        identity = identity;
        config = record {
          name = cfg.node.name;
          accept_new_peers = unwrap_or accept_new_peers_override cfg.hub_.accept_new_peers;
        };
      };
      clipboard =
          Engine.new (node_id c.ed25519 c.blake3 identity) (max cfg.clipboard.history_size 1);
      lazy = Lazy.new;
    })

  -- What `expected_server_id` gives.
  unfoldable pub expected_pubkey :
      (String → Option Bytes) → Option String → Result Failure (Option Bytes)
  unfolding parse_pubkey
  expected_pubkey decode none = ok none
  expected_pubkey decode (some s) = do key ← parse_pubkey decode s; ok (some key)

  -- `ClientRuntime::bootstrap`
  unfoldable pub bootstrap_spoke :
      (decode : String → Option Bytes)
      → Bytes
      → KeyFile
      → Disk
      → Config
      → (server_addr : String) → (expected_server_id : Option String) → (accept_new_peer : Bool)
      → Result Failure ClientRuntime
  unfolding open_state expected_pubkey
  bootstrap_spoke decode secret key_file disk cfg server_addr expected_server_id accept_new_peer =
      do
        (identity, key_file, peers) ← with_context (open_state secret key_file disk)
        key ← expected_pubkey decode expected_server_id
        ok (record {
          identity = identity;
          peers = peers;
          connector = record { identity = identity; name = cfg.node.name };
          clipboard =
              Engine.new (node_id c.ed25519 c.blake3 identity) (max cfg.clipboard.history_size 1);
          server_addr = server_addr;
          expected_server_pubkey = key;
          accept_new_peer = accept_new_peer;
          input_enabled = cfg.input.enabled;
        })

  -- What the accept loop works on: the peer store with its file, the sessions, and the connections that
  -- were accepted, each with the exporter material of its TLS session.
  pub record Serving : Type 0 where
    pub peers : PeerStore
    pub disk : Disk
    pub hub : Hub
    pub accepted : List (Bytes × Connection)

  -- The exporter material of an attempt.
  abbrev pub exporter_of : Attempt → Bytes
  exporter_of (Attempt.session exporter _) = exporter
  exporter_of _ = []

  -- What the accept loop does with a result: a session for a connection, a pause after an error.
  unfoldable pub on_accepted :
      Bytes → PeerStore × Disk × Result Error Connection → Serving → Serving
  unfolding start_session
  on_accepted exporter (peers, disk, ok conn) s = record {
    peers = peers;
    disk = disk;
    hub = start_session conn.peer_node_id s.hub;
    accepted = s.accepted ++ ((exporter, conn) ∷ []);
  }
  on_accepted exporter (peers, disk, err _) s = record s { peers = peers; disk = disk }

  -- One turn of the accept loop.
  unfoldable pub on_attempt : Listener → ℕ × Attempt → Serving → Serving
  unfolding on_accepted
  on_attempt l (now, a) s = on_accepted (exporter_of a) (accept c l a now s.peers s.disk) s

  -- The accept loop, which goes on until it is interrupted.
  unfoldable pub accept_loop : Listener → List (ℕ × Attempt) → Serving → Serving
  unfolding on_attempt
  accept_loop l [] s = s
  accept_loop l (a ∷ attempts) s = accept_loop l attempts (on_attempt l a s)

  -- A hub at its start, on the file that it has opened.
  unfoldable pub serving : ServerRuntime → Disk → Serving
  serving r disk = record {
    peers = r.peers;
    disk = disk;
    hub = record {
      writers = [];
      channels = [];
      next_channel = 0;
      clipboard = r.clipboard;
      lazy = r.lazy;
      applied = [];
    };
    accepted = [];
  }
