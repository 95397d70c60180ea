-- ===== src/Cli/Commands/Connect.antt =====
-- What a run of `connect` leaves for the next one.
pub mod Saved
pub mod Settled
pub mod Persist
use Prim.Native.String.{String}
use mathlib.Core.Path.{subst}
use borderless.Base.{
  ◌≡◌, ◌≢◌, ◌⊎◌, refl, sym, ap, ◌∙◌, Bool, true, false, Option, none, some, ite, if_pos, if_neg,
  Result, ok, err, arith, inl, inr, Option-cases,
}
use borderless.Cli.Config.{
  Config, RoleKind, SocketAddr, Toml, ConfigDir, Failure, save, save_then, load_or_default,
}
use borderless.Cli.Config.Reload.{ReadsBack, save_then_lem, load-save}
use borderless.Cli.Commands.{
  Command, Started, RoleKind-discrete, ensure_role, and_then, effective_pin, keep_pin, connect_to,
  run_connect, run_command, main_,
}

abbrev pub with_addr : Config → String → Config
with_addr cfg h = record cfg { client = record cfg.client { server_addr = some h } }

module _ (t : Toml) where
  pub ensure_role-same :
      (cfg : Config) (dir : ConfigDir) (want : RoleKind)
      → cfg.role.kind ≡ want
      → ensure_role t cfg dir want ≡ (dir, ok cfg)
  unfolding ensure_role
  ensure_role-same cfg dir want e =
      if_pos (RoleKind-discrete cfg.role.kind want) e (dir, ok cfg)
        (save_then t dir (record cfg { role = record { kind = want } }))

  connect_to-unpinned :
      (h : String) (pair : Bool) (cfg : Config) (dir : ConfigDir)
      → cfg.role.kind ≡ RoleKind.spoke
      → cfg.client.expected_server_id ≡ none
      → connect_to t h pair none cfg dir ≡ (dir, ok (Started.spoke cfg h none pair))
  unfolding connect_to keep_pin and_then
  connect_to-unpinned h pair cfg dir role unpinned =
      ground (arith, ensure_role-same cfg dir RoleKind.spoke)

  -- An address that is given to a node that is a spoke already, with no pin in effect, is dialed in
  -- this run and forgotten: the file stays as it was, and the next run without an address dials the
  -- one that the file had before.
  pub connect_forgets :
      (parse_addr : String → Option SocketAddr) (hostname : Option String) (dir : ConfigDir)
      (cfg : Config) (h old : String) (pair again : Bool)
      → load_or_default t hostname dir ≡ (dir, ok cfg)
      → cfg.role.kind ≡ RoleKind.spoke
      → cfg.client.expected_server_id ≡ none
      → cfg.client.server_addr ≡ some old
      → (main_ t parse_addr hostname (Command.connect (some h) pair none) dir
          ≡ (dir, ok (Started.spoke (with_addr cfg h) h none pair)))
        × (main_ t parse_addr hostname (Command.connect none again none) dir
            ≡ (dir, ok (Started.spoke cfg old none again)))
  unfolding main_ run_command run_connect and_then
  connect_forgets parse_addr hostname dir cfg h old pair again loaded role unpinned address =
      let new = with_addr cfg h in
      (
        ap (λ r. and_then r (run_command t parse_addr (Command.connect (some h) pair none))) loaded
            ∙ ap (λ r. and_then r (λ dir cfg. connect_to t h pair none cfg dir))
                (ensure_role-same new dir RoleKind.spoke role)
            ∙ connect_to-unpinned h pair new dir role unpinned,
        ap (λ r. and_then r (run_command t parse_addr (Command.connect none again none))) loaded
            ∙ ground (arith, connect_to-unpinned old again cfg dir),
      )
