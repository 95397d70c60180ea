-- ===== src/Cli/Config.antt =====
-- crates/cli/src/config.rs: the configuration and its file. The crate `toml`, at the type `Config`, and
-- the environment are parameters. The directory is what its `config.toml` holds and what can be done
-- with it; its path does not change.
pub mod Reload
use Prim.Native.String.{String}
use text.Mathlib.Text
use borderless.Base.{ℕ, Bool, true, false, not, Option, none, some, if◌then◌else◌, Result, ok, err}

-- An address as its 32 or 128 bits.
pub data IpAddr : Type 0 where
  v4 : ℕ → IpAddr
  v6 : ℕ → IpAddr

pub record SocketAddr : Type 0 where
  pub ip : IpAddr
  pub port : ℕ

abbrev pub default_port : ℕ
default_port = 38437

pub record NodeConfig : Type 0 where
  pub name : String

pub data RoleKind : Type 0 where
  unconfigured : RoleKind
  hub : RoleKind
  spoke : RoleKind

pub record RoleConfig : Type 0 where
  pub kind : RoleKind

pub record HubConfig : Type 0 where
  pub bind_ip : IpAddr
  pub port : ℕ
  pub accept_new_peers : Bool

pub record ClientConfig : Type 0 where
  pub server_addr : Option String
  pub expected_server_id : Option String

pub record ClipboardConfig : Type 0 where
  pub history_size : ℕ
  pub sync_text : Bool
  pub sync_image : Bool

pub record InputConfig : Type 0 where
  pub enabled : Bool

pub record Config : Type 0 where
  pub node : NodeConfig
  pub role : RoleConfig
  pub hub_ : HubConfig
  pub client : ClientConfig
  pub clipboard : ClipboardConfig
  pub input : InputConfig

unfoldable pub bind_addr : HubConfig → SocketAddr
bind_addr h = record { ip = h.bind_ip; port = h.port }

-- `gethostname_or`, with the variable `HOSTNAME`.
unfoldable pub gethostname_or : Option String → String → String
gethostname_or none default = default
gethostname_or (some s) default = if Text.◌==◌ s "" then default else s

abbrev pub default_hub : HubConfig
default_hub = record { bind_ip = v4 0; port = default_port; accept_new_peers = false }

abbrev pub default_clipboard : ClipboardConfig
default_clipboard = record { history_size = 50; sync_text = true; sync_image = true }

-- `Config::default`
unfoldable pub default_config : Option String → Config
unfolding gethostname_or
default_config hostname = record {
  node = record { name = gethostname_or hostname "borderless" };
  role = record { kind = unconfigured };
  hub_ = default_hub;
  client = record { server_addr = none; expected_server_id = none };
  clipboard = default_clipboard;
  input = record { enabled = true };
}

pub record Toml : Type 0 where
  pub to_string_pretty : Config → Option String
  pub from_str : String → Option Config

pub record ConfigDir : Type 0 where
  pub file : Option String
  pub can_create : Bool
  pub readable : Bool
  pub writable : Bool

pub data Failure : Type 0 where
  io : Failure
  toml : Failure
  parse_bind : Failure
  no_server_address : Failure
  no_clipboard : Failure

module _ (t : Toml) where
  unfoldable pub save : ConfigDir → Config → ConfigDir × Result Failure (Unit {0})
  save dir cfg = if not dir.can_create then (dir, err io) else elim (t.to_string_pretty cfg) [
    | none ↦ (dir, err toml)
    | some raw ↦ if dir.writable then (record dir { file = some raw }, ok tt) else (dir, err io)
  ]

  -- `save(dir, &cfg)?; Ok(cfg)`
  unfoldable pub save_then : ConfigDir → Config → ConfigDir × Result Failure Config
  unfolding save
  save_then dir cfg = let (dir, r) = save dir cfg in (dir, elim r [ ok _ ↦ ok cfg | err e ↦ err e ])

  unfoldable pub parse : String → Result Failure Config
  parse raw = elim (t.from_str raw) [ none ↦ err toml | some cfg ↦ ok cfg ]

  unfoldable pub load_or_default : Option String → ConfigDir → ConfigDir × Result Failure Config
  unfolding parse save_then default_config
  load_or_default hostname dir = elim dir.file [
    | some raw ↦ (dir, if dir.readable then parse raw else err io)
    | none ↦ save_then dir (default_config hostname)
  ]
