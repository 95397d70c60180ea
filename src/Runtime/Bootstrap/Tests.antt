-- ===== src/Runtime/Bootstrap/Tests.antt =====
-- A hub and a spoke that start on small files, with signatures that are always accepted and one hello.
use borderless.Base.{
  ℕ, ◌≡◌, refl, Bool, true, false, List, [], ◌∷◌, Option, none, some, replicate, length, Result, ok,
}
use borderless.Core.Node.{Bytes, from_pubkey, protocol_v0}
use borderless.Clipboard.Engine
use borderless.Clipboard.Lazy
use borderless.Cli.Config.{Config, RoleKind, IpAddr}
use borderless.Transport.Endpoint.{Attempt, Listener, dial}
use borderless.Transport.Frame.{Stream}
use borderless.Transport.Handshake.{Crates, Connection}
use borderless.Transport.Identity.{Identity, KeyFile}
use borderless.Transport.PeerStore.{KnownPeer, PeerStore, Disk}
use borderless.Runtime.Bootstrap.{
  ServerRuntime, ClientRuntime, bootstrap_hub, bootstrap_spoke, accept_loop, serving,
}
use borderless.Runtime.Bootstrap.Strict.{IsStrict, bootstrap_hub-IsStrict}
use borderless.Runtime.Bootstrap.Pinned.{ReachesOnly, bootstrap_spoke-pinned}

abbrev peer_key : Bytes
peer_key = replicate 32 2

abbrev laptop : KnownPeer
laptop = record { name = "laptop"; pubkey = "02"; paired_at = 0 }

abbrev crates : Crates
crates = record {
  ed25519 = record {
    verifying_key = λ secret. secret;
    sign = λ secret message. replicate 64 0;
    is_key = λ key. true;
    verify = λ key message signature. true;
  };
  blake3 = record { hash = λ bytes. bytes };
  formats = record {
    to_string_pretty = λ ps. none;
    from_str = λ raw. some (laptop ∷ []);
    hex_encode = λ bytes. "";
    hex_decode = λ s. some peer_key;
  };
  hellos = record {
    encode = λ h. some (5 ∷ []);
    decode = λ bytes. some (record {
      pubkey = peer_key;
      name = "laptop";
      max_protocol = protocol_v0;
      signature = replicate 64 0;
    });
  };
}

abbrev key_file : KeyFile
key_file = record { content = some (replicate 64 1); readable = true; writable = true }

abbrev disk : Disk
disk = record { file = some "peers"; readable = true; writable = true }

abbrev cfg : Config
cfg = record {
  node = record { name = "desk" };
  role = record { kind = RoleKind.hub };
  hub_ = record { bind_ip = IpAddr.v4 0; port = 38437; accept_new_peers = false };
  client = record { server_addr = none; expected_server_id = none };
  clipboard = record { history_size = 0; sync_text = true; sync_image = true };
  input = record { enabled = true };
}

abbrev desk : Identity
desk = record { signing = replicate 32 1 }

abbrev peers : PeerStore
peers = record { by_pubkey = (peer_key, laptop) ∷ [] }

abbrev clipboard : Engine.Inner
clipboard = Engine.new (from_pubkey crates.blake3 (replicate 32 1)) 1

abbrev hub : ServerRuntime
hub = record {
  identity = desk;
  peers = peers;
  listener = record {
    identity = desk;
    config = record { name = "desk"; accept_new_peers = false };
  };
  clipboard = clipboard;
  lazy = Lazy.new;
}

-- A hello of one byte in its frame.
abbrev greeting : Stream
greeting = record { incoming = 1 ∷ 0 ∷ 0 ∷ 0 ∷ 5 ∷ []; outgoing = []; broken = false }

abbrev attempts : List (ℕ × Attempt)
attempts = (1, Attempt.no_tls) ∷ (2, Attempt.session (9 ∷ []) greeting) ∷ []

hub_started : bootstrap_hub crates [] key_file disk true cfg none ≡ ok hub
unfolding bootstrap_hub borderless.Transport.Identity.load_or_generate
    borderless.Transport.PeerStore.open_store borderless.Transport.PeerStore.key_of
    borderless.Base.Dict.insert borderless.Transport.Identity.node_id
hub_started = refl

hub_connected :
    length (accept_loop crates hub.listener attempts (serving crates hub disk)).accepted ≡ 1
unfolding accept_loop serving borderless.Transport.Endpoint.accept
    borderless.Transport.Handshake.handshake borderless.Transport.Frame.write_framed_raw
    borderless.Transport.Frame.read_limited borderless.Base.Dict.lookup
    borderless.Core.Node.Bytes-discrete borderless.Base.ℕ_discrete borderless.Base.Dict.remove
    borderless.Core.Node.NodeId-discrete borderless.Base.Dict.insert
hub_connected = refl

bootstrap_hub-IsStrict_example :
    IsStrict crates peers disk (accept_loop crates hub.listener attempts (serving crates hub disk))
bootstrap_hub-IsStrict_example =
    bootstrap_hub-IsStrict crates [] key_file disk true cfg hub attempts refl hub_started

abbrev spoke : ClientRuntime
spoke = record {
  identity = desk;
  peers = peers;
  connector = record { identity = desk; name = "desk" };
  clipboard = clipboard;
  server_addr = "hub:38437";
  expected_server_pubkey = some peer_key;
  accept_new_peer = false;
  input_enabled = true;
}

spoke_started :
    bootstrap_spoke crates (λ s. some peer_key) [] key_file disk cfg "hub:38437" (some "02") false
    ≡ ok spoke
unfolding bootstrap_spoke borderless.Transport.Identity.load_or_generate
    borderless.Transport.PeerStore.open_store borderless.Transport.PeerStore.key_of
    borderless.Base.Dict.insert borderless.Transport.Identity.node_id
spoke_started = refl

abbrev connected : Connection
connected = record {
  inner = record { incoming = []; outgoing = 1 ∷ 0 ∷ 0 ∷ 0 ∷ 5 ∷ []; broken = false };
  peer_pubkey = peer_key;
  peer_name = "laptop";
  peer_node_id = from_pubkey crates.blake3 peer_key;
}

spoke_connected :
    dial crates spoke.connector spoke.expected_server_pubkey false
      (Attempt.session (9 ∷ []) greeting)
      2
      peers
      disk
    ≡ (peers, disk, ok connected)
unfolding dial borderless.Transport.Handshake.handshake borderless.Transport.Frame.write_framed_raw
    borderless.Transport.Frame.read_limited borderless.Base.Dict.lookup
    borderless.Core.Node.Bytes-discrete borderless.Base.ℕ_discrete
spoke_connected = refl

bootstrap_spoke-pinned_example :
    (key : Bytes) × (some peer_key ≡ some key)
    × (length key ≡ 32)
    × ((a : Attempt) (now : ℕ) (peers : PeerStore) (disk : Disk)
        → ReachesOnly crates key
            (dial crates spoke.connector (some peer_key) false a now peers disk))
bootstrap_spoke-pinned_example =
    bootstrap_spoke-pinned crates (λ s. some peer_key) [] key_file disk cfg "hub:38437" "02" false
      spoke spoke_started
