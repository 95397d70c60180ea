-- ===== src/Cli/Tests.antt =====
-- Runs of the commands on small files, and one report.
mod Files
use Prim.Native.String.{String}
use borderless.Base.{
  ◌≡◌, ◌≢◌, ◌⊎◌, inl, inr, refl, Bool, true, false, not, List, [], ◌∷◌, Option, none, some, Result,
  ok,
}
use borderless.Cli.Config.{
  Config, RoleKind, SocketAddr, IpAddr, ConfigDir, Failure, Toml, load_or_default, default_config,
  bind_addr,
}
use borderless.Cli.Commands.{Command, Started, main_, effective_pin}
use borderless.Cli.Commands.Connect.{connect_forgets, with_addr}
use borderless.Cli.Commands.Connect.Persist.{connect_persists}
use borderless.Cli.Commands.Serve.{serve_override, override}
use borderless.Cli.Doctor
use borderless.Cli.Doctor.{System, Os}
use borderless.Cli.Doctor.Verdict.{has_fail, can_work, run-fails}
use borderless.Cli.Tests.Files.{two_files, two_files-ReadsBack}

abbrev fresh : Config
fresh = record {
  node = record { name = "desk" };
  role = record { kind = RoleKind.unconfigured };
  hub_ = record { bind_ip = IpAddr.v4 0; port = 38437; accept_new_peers = false };
  client = record { server_addr = none; expected_server_id = none };
  clipboard = record { history_size = 50; sync_text = true; sync_image = true };
  input = record { enabled = true };
}

abbrev spoke_of : String → Config
spoke_of h = record fresh {
  role = record { kind = RoleKind.spoke };
  client = record { server_addr = some h; expected_server_id = none };
}

abbrev hub_at : SocketAddr → Config
hub_at sa = record fresh {
  role = record { kind = RoleKind.hub };
  hub_ = record { bind_ip = sa.ip; port = sa.port; accept_new_peers = false };
}

abbrev file : String → ConfigDir
file raw = record { file = some raw; can_create = true; readable = true; writable = true }

-- Every text is the address 127.0.0.1:9.
abbrev local_addr : SocketAddr
local_addr = record { ip = IpAddr.v4 0x7f000001; port = 9 }

abbrev parse_addr : String → Option SocketAddr
parse_addr s = some local_addr

abbrev spoke_toml : Toml
spoke_toml = two_files (spoke_of "hub:1") (spoke_of "hub:1")

spoke_loaded : load_or_default spoke_toml none (file "old") ≡ (file "old", ok (spoke_of "hub:1"))
unfolding load_or_default two_files
spoke_loaded = refl

connect_forgets_example :
    (main_ spoke_toml parse_addr none (Command.connect (some "other:1") false none) (file "old") ≡ (
      file "old",
      ok (Started.spoke (with_addr (spoke_of "hub:1") "other:1") "other:1" none false),
    ))
    × (main_ spoke_toml parse_addr none (Command.connect none false none) (file "old")
        ≡ (file "old", ok (Started.spoke (spoke_of "hub:1") "hub:1" none false)))
connect_forgets_example =
    connect_forgets spoke_toml parse_addr none (file "old") (spoke_of "hub:1") "other:1" "hub:1"
      false false spoke_loaded refl refl refl

abbrev first_toml : Toml
first_toml = two_files fresh (spoke_of "hub:1")

fresh_loaded : load_or_default first_toml none (file "old") ≡ (file "old", ok fresh)
unfolding load_or_default two_files
fresh_loaded = refl

first_connect :
    main_ first_toml parse_addr none (Command.connect (some "hub:1") true none) (file "old")
    ≡ (file "new", ok (Started.spoke (spoke_of "hub:1") "hub:1" none true))
unfolding main_ two_files borderless.Cli.Commands.RoleKind-discrete
first_connect = refl

connect_persists_example :
    (k : Config) × (Started.spoke (spoke_of "hub:1") "hub:1" none true
      ≡ Started.spoke k "hub:1" (effective_pin none fresh) true)
    × (main_ first_toml parse_addr none (Command.connect none false none) (file "new")
        ≡ (file "new", ok (Started.spoke k "hub:1" (effective_pin none fresh) false)))
connect_persists_example =
    connect_persists first_toml (two_files-ReadsBack fresh (spoke_of "hub:1")) parse_addr none
      (file "old") (file "old") (file "new") fresh "hub:1" true false none
      (Started.spoke (spoke_of "hub:1") "hub:1" none true) fresh_loaded refl (inl λ e. cc e)
      first_connect

abbrev hub_toml : Toml
hub_toml = two_files fresh (hub_at local_addr)

hub_loaded : load_or_default hub_toml none (file "old") ≡ (file "old", ok fresh)
unfolding load_or_default two_files
hub_loaded = refl

first_serve :
    main_ hub_toml parse_addr none (Command.serve (some "x") true) (file "old")
    ≡ (file "new", ok (Started.hub (hub_at local_addr) (some true)))
unfolding main_ two_files borderless.Cli.Commands.RoleKind-discrete
first_serve = refl

serve_override_example :
    (k next : Config) × (Started.hub (hub_at local_addr) (some true)
      ≡ Started.hub k (override true))
    × (bind_addr k.hub_ ≡ local_addr)
    × (main_ hub_toml parse_addr none (Command.serve none false) (file "new")
        ≡ (file "new", ok (Started.hub next (override false))))
    × (((fresh.role.kind ≡ RoleKind.hub) × (next ≡ fresh))
        ⊎ ((fresh.role.kind ≢ RoleKind.hub) × (next ≡ k)))
serve_override_example =
    serve_override hub_toml (two_files-ReadsBack fresh (hub_at local_addr)) parse_addr none
      (file "old") (file "new") fresh "x" local_addr true false
      (Started.hub (hub_at local_addr) (some true)) hub_loaded refl refl first_serve

-- A system on which nothing answers.
abbrev alone : System
alone = record {
  os = Os.linux;
  display = some ":0";
  wayland_display = none;
  can_bind = λ sa. true;
  resolve = λ s. some (local_addr ∷ local_addr ∷ []);
  connects = λ sa. false;
}

run-fails_example :
    has_fail (Doctor.run alone (spoke_of "hub:1"))
    ≡ not (can_work alone (spoke_of "hub:1") RoleKind.spoke)
run-fails_example = run-fails alone (spoke_of "hub:1")
