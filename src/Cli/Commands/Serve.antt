-- ===== src/Cli/Commands/Serve.antt =====
-- What a run of `serve` with another address leaves for the next one.
use Prim.Native.String.{String}
use mathlib.Core.Path.{subst}
use borderless.Base.{
  ◌≡◌, ◌≢◌, ◌⊎◌, refl, sym, ap, ◌∙◌, Bool, true, Option, none, some, ok, inl, inr, if◌then◌else◌,
}
use borderless.Cli.Config.{
  Config, RoleKind, SocketAddr, Toml, ConfigDir, bind_addr, load_or_default,
}
use borderless.Cli.Config.Reload.{ReadsBack, load-save}
use borderless.Cli.Commands.{
  Command, Started, ensure_role, and_then, maybe_override_bind, run_serve, run_command, main_,
}
use borderless.Cli.Commands.Connect.{ensure_role-same}
use borderless.Cli.Commands.Connect.Saved.{and_then-inv, ensure_role-inv}

-- The flag that is handed to the runtime.
abbrev pub override : Bool → Option Bool
override accept_new_peers = if accept_new_peers then some true else none

abbrev with_bind : Config → SocketAddr → Config
with_bind cfg sa = record cfg { hub_ = record cfg.hub_ { bind_ip = sa.ip; port = sa.port } }

bound_lem :
    (parse_addr : String → Option SocketAddr) (cfg : Config) (b : String) (sa : SocketAddr)
    → parse_addr b ≡ some sa
    → maybe_override_bind parse_addr cfg (some b) ≡ ok (with_bind cfg sa)
unfolding maybe_override_bind
bound_lem parse_addr cfg b sa e = rw (e, maybe_override_bind) refl

module _ (t : Toml) where
  serve_again :
      (parse_addr : String → Option SocketAddr) (hostname : Option String) (again : Bool)
      (k : Config) (dir : ConfigDir)
      → load_or_default t hostname dir ≡ (dir, ok k)
      → k.role.kind ≡ RoleKind.hub
      → main_ t parse_addr hostname (Command.serve none again) dir
        ≡ (dir, ok (Started.hub k (override again)))
  unfolding main_ run_command run_serve maybe_override_bind and_then
  serve_again parse_addr hostname again k dir loaded role =
      ap (λ r. and_then r (run_command t parse_addr (Command.serve none again))) loaded
      ∙ ap (λ r. and_then r (λ d c. (d, ok (Started.hub c (override again)))))
          (ensure_role-same t k dir RoleKind.hub role)

  -- A hub that is started at another address listens there. The next start without an address goes
  -- back to the one in the file if the node was a hub before; if it was not, the first start has
  -- written the other address to the file together with the role, and the next start uses it too.
  pub serve_override :
      (reads : ReadsBack t) (parse_addr : String → Option SocketAddr) (hostname : Option String)
      (dir dir' : ConfigDir) (cfg : Config) (b : String) (sa : SocketAddr) (flag again : Bool)
      (s : Started)
      → load_or_default t hostname dir ≡ (dir, ok cfg)
      → dir.readable ≡ true
      → parse_addr b ≡ some sa
      → main_ t parse_addr hostname (Command.serve (some b) flag) dir ≡ (dir', ok s)
      → (k next : Config) × (s ≡ Started.hub k (override flag))
        × (bind_addr k.hub_ ≡ sa)
        × (main_ t parse_addr hostname (Command.serve none again) dir'
            ≡ (dir', ok (Started.hub next (override again))))
        × (((cfg.role.kind ≡ RoleKind.hub) × (next ≡ cfg))
            ⊎ ((cfg.role.kind ≢ RoleKind.hub) × (next ≡ k)))
  unfolding main_ run_command run_serve maybe_override_bind bind_addr
  serve_override reads parse_addr hostname dir dir' cfg b sa flag again s loaded readable parsed
        run =
      let serve = run_command t parse_addr (Command.serve (some b) flag) in
      let served = sym (ap (λ r. and_then r serve) loaded) ∙ run in
      let bound = bound_lem parse_addr cfg b sa parsed in
      let (d1, c1, ensured, rest) =
        and_then-inv t (ensure_role t (with_bind cfg sa) dir RoleKind.hub)
          (λ d c. (d, ok (Started.hub c (override flag)))) dir' s
          (ap
              (λ r.
                and_then (dir, r)
                  (λ d c.
                    and_then (ensure_role t c d RoleKind.hub)
                      (λ d c. (d, ok (Started.hub c (override flag))))))
              (sym bound)
            ∙ served) in
      let started : s ≡ Started.hub c1 (override flag) = cc (rest) in
      let same : d1 ≡ dir' = cc (rest) in
      elim (ensure_role-inv t (with_bind cfg sa) dir d1 RoleKind.hub c1 readable ensured) [
        | inl (role, e, e') ↦ (
          c1,
          cfg,
          started,
          ap (λ c. bind_addr c.hub_) e',
          subst
              (λ f.
                main_ t parse_addr hostname (Command.serve none again) f
                ≡ (f, ok (Started.hub cfg (override again))))
              (sym e ∙ same) (serve_again parse_addr hostname again cfg dir loaded role),
          inl (role, refl),
        )
        | inr (v, e, other) ↦ (
          c1,
          c1,
          started,
          ap (λ c. bind_addr c.hub_) e,
          subst
              (λ f.
                main_ t parse_addr hostname (Command.serve none again) f
                ≡ (f, ok (Started.hub c1 (override again))))
              same
              (serve_again parse_addr hostname again c1 d1
                (load-save t reads hostname d1 d1 c1 v.saves v.readable) (ap (λ c. c.role.kind) e)),
          inr (other, refl),
        )
      ]
