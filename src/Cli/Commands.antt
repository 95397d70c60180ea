-- ===== src/Cli/Commands.antt =====
-- crates/cli/src/main.rs: what the commands do to the configuration and with which arguments they start
-- a runtime. The parser of addresses is a parameter; the command line itself is parsed by clap.
pub mod Connect
pub mod Serve
use Prim.Native.String.{String}
use borderless.Base.{
  Bool, true, false, not, Option, none, some, ite, if◌then◌else◌, Result, ok, err,
}
use borderless.Cli.Config.{
  Config, RoleKind, SocketAddr, Toml, ConfigDir, Failure, save, save_then, load_or_default,
}

pub data ClipCmd : Type 0 where
  history set get : ClipCmd

pub data Command : Type 0 where
  serve : (bind : Option String) → (accept_new_peers : Bool) → Command
  connect : (host_port : Option String) → (pair : Bool) → (pin : Option String) → Command
  status : Command
  clip : ClipCmd → Command
  doctor : Command

-- What is run at last, with its arguments: the runtimes, or a command that only reads.
pub data Started : Type 0 where
  hub : (cfg : Config) → (accept_new_peers_override : Option Bool) → Started
  spoke :
      (cfg : Config) → (server_addr : String) → (expected : Option String) → (pair : Bool) → Started
  show : Config → Command → Started

unfoldable pub RoleKind-discrete : Discrete RoleKind
RoleKind-discrete = hlevel

module _ (parse_addr : String → Option SocketAddr) where
  unfoldable pub maybe_override_bind : Config → Option String → Result Failure Config
  maybe_override_bind cfg none = ok cfg
  maybe_override_bind cfg (some b) = elim (parse_addr b) [
    | none ↦ err Failure.parse_bind
    | some sa ↦ ok (record cfg { hub_ = record cfg.hub_ { bind_ip = sa.ip; port = sa.port } })
  ]

-- `f(...)?` before more of a function.
unfoldable pub and_then :
    ConfigDir × Result Failure Config
    → (ConfigDir → Config → ConfigDir × Result Failure Started)
    → ConfigDir × Result Failure Started
and_then (dir, ok cfg) rest = rest dir cfg
and_then (dir, err e) rest = (dir, err e)

-- `pin.or_else(|| cfg.client.expected_server_id.clone())`
abbrev pub effective_pin : Option String → Config → Option String
effective_pin none cfg = cfg.client.expected_server_id
effective_pin (some p) cfg = some p

module _ (t : Toml) where
  unfoldable pub ensure_role : Config → ConfigDir → RoleKind → ConfigDir × Result Failure Config
  ensure_role cfg dir want =
      ite (RoleKind-discrete cfg.role.kind want) (dir, ok cfg)
        (save_then t dir (record cfg { role = record { kind = want } }))

  unfoldable pub run_serve :
      (String → Option SocketAddr)
      → Option String
      → Bool
      → Config
      → ConfigDir
      → ConfigDir × Result Failure Started
  unfolding maybe_override_bind ensure_role and_then
  run_serve parse_addr bind accept_new_peers cfg dir =
      and_then (dir, maybe_override_bind parse_addr cfg bind)
        λ dir cfg.
          and_then (ensure_role cfg dir RoleKind.hub)
            λ dir cfg. (dir, ok (hub cfg (if accept_new_peers then some true else none)))

  -- A pin in effect is kept, and the configuration is saved with it.
  unfoldable pub keep_pin : Option String → Config → ConfigDir → ConfigDir × Result Failure Config
  keep_pin none cfg dir = (dir, ok cfg)
  keep_pin (some p) cfg dir =
      save_then t dir (record cfg { client = record cfg.client { expected_server_id = some p } })

  -- `connect` from the resolved address on.
  unfoldable pub connect_to :
      String → Bool → Option String → Config → ConfigDir → ConfigDir × Result Failure Started
  unfolding keep_pin ensure_role and_then
  connect_to server_addr pair pin cfg dir =
      let expected = effective_pin pin cfg in
      and_then (keep_pin expected cfg dir) λ dir cfg.
        and_then (ensure_role cfg dir RoleKind.spoke)
          λ dir cfg. (dir, ok (spoke cfg server_addr expected pair))

  unfoldable pub run_connect :
      Option String → Bool → Option String → Config → ConfigDir → ConfigDir × Result Failure Started
  unfolding connect_to ensure_role and_then
  run_connect (some h) pair pin cfg dir =
      and_then
        (ensure_role (record cfg { client = record cfg.client { server_addr = some h } }) dir
          RoleKind.spoke)
        λ dir cfg. connect_to h pair pin cfg dir
  run_connect none pair pin cfg dir = elim cfg.client.server_addr [
    | some s ↦ connect_to s pair pin cfg dir
    | none ↦ (dir, err Failure.no_server_address)
  ]

  -- The `match` on the command.
  unfoldable pub run_command :
      (String → Option SocketAddr)
      → Command
      → ConfigDir
      → Config
      → ConfigDir × Result Failure Started
  unfolding run_serve run_connect
  run_command parse_addr (serve bind flag) dir cfg = run_serve parse_addr bind flag cfg dir
  run_command parse_addr (connect host_port pair pin) dir cfg =
      run_connect host_port pair pin cfg dir
  run_command parse_addr status dir cfg = (dir, ok (show cfg status))
  run_command parse_addr (clip c) dir cfg = (dir, ok (show cfg (clip c)))
  run_command parse_addr doctor dir cfg = (dir, ok (show cfg doctor))

  -- `main`, with the variable `HOSTNAME`.
  unfoldable pub main_ :
      (String → Option SocketAddr)
      → Option String
      → Command
      → ConfigDir
      → ConfigDir × Result Failure Started
  unfolding load_or_default run_command and_then
  main_ parse_addr hostname command dir =
      and_then (load_or_default t hostname dir) (run_command parse_addr command)
