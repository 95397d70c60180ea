-- ===== src/Cli/Commands/Connect/Persist.antt =====
-- When a run of `connect` does leave its address in the file.
use Prim.Native.String.{String}
use mathlib.Core.Path.{subst}
use borderless.Base.{
  ◌≡◌, ◌≢◌, ◌⊎◌, refl, sym, ap, ◌∙◌, Bool, true, Option, none, some, ok, inl, inr,
}
use borderless.Cli.Config.{Config, RoleKind, SocketAddr, Toml, ConfigDir, load_or_default}
use borderless.Cli.Config.Reload.{ReadsBack}
use borderless.Cli.Commands.{
  Command, Started, ensure_role, and_then, effective_pin, connect_to, run_connect, run_command,
  main_,
}
use borderless.Cli.Commands.Connect.{with_addr}
use borderless.Cli.Commands.Connect.Saved.{and_then-inv, IsSaved, ensure_role-inv}
use borderless.Cli.Commands.Connect.Settled.{IsSettled, connect_to-inv, settled_next}

module _ (t : Toml) where
  -- What `ensure_role` has done by the time it succeeds on a configuration with the new address.
  addressed :
      (cfg : Config) (h : String) (d d1 : ConfigDir) (c1 : Config)
      → d.readable ≡ true
      → ensure_role t (with_addr cfg h) d RoleKind.spoke ≡ (d1, ok c1)
      → (c1.role.kind ≡ RoleKind.spoke)
        × (c1.client ≡ (with_addr cfg h).client)
        × (d1.readable ≡ true)
        × (IsSaved t d1 c1 ⊎ (cfg.role.kind ≡ RoleKind.spoke))
  addressed cfg h d d1 c1 readable run =
      elim (ensure_role-inv t (with_addr cfg h) d d1 RoleKind.spoke c1 readable run) [
        | inl (role, same, same') ↦ rw same' (rw same (role, refl, readable, inr role))
        | inr (v, e, _) ↦ (ap (λ c. c.role.kind) e, ap (λ c. c.client) e, v.readable, inl v)
      ]

  same_pin :
      (pin : Option String) (c cfg : Config)
      → c.client.expected_server_id ≡ cfg.client.expected_server_id
      → effective_pin pin c ≡ effective_pin pin cfg
  same_pin none c cfg e = e
  same_pin (some p) c cfg e = refl

  why-IsSaved :
      (pin : Option String) (cfg c : Config) (d : ConfigDir)
      → effective_pin pin c ≡ effective_pin pin cfg
      → (cfg.role.kind ≢ RoleKind.spoke) ⊎ ((p : String) × (effective_pin pin cfg ≡ some p))
      → IsSaved t d c ⊎ (cfg.role.kind ≡ RoleKind.spoke)
      → IsSaved t d c ⊎ ((p : String) × (effective_pin pin c ≡ some p))
  why-IsSaved pin cfg c d same (inr (p, e)) saved = inr (p, same ∙ e)
  why-IsSaved pin cfg c d same (inl other) (inl v) = inl v
  why-IsSaved pin cfg c d same (inl other) (inr role) = absurd (other role)

  -- A run of `connect` with an address, on a node that was not a spoke or with a pin in effect, leaves
  -- the address and the pin in the file: once it has started the spoke, any later run without
  -- arguments starts it with the same configuration, at the same address and with the same pin, and
  -- leaves the file alone.
  pub connect_persists :
      (reads : ReadsBack t) (parse_addr : String → Option SocketAddr) (hostname : Option String)
      (dir d dir' : ConfigDir) (cfg : Config) (h : String) (pair again : Bool) (pin : Option String)
      (s : Started)
      → load_or_default t hostname dir ≡ (d, ok cfg)
      → d.readable ≡ true
      → (cfg.role.kind ≢ RoleKind.spoke) ⊎ ((p : String) × (effective_pin pin cfg ≡ some p))
      → main_ t parse_addr hostname (Command.connect (some h) pair pin) dir ≡ (dir', ok s)
      → (k : Config) × (s ≡ Started.spoke k h (effective_pin pin cfg) pair)
        × (main_ t parse_addr hostname (Command.connect none again none) dir'
            ≡ (dir', ok (Started.spoke k h (effective_pin pin cfg) again)))
  unfolding main_ run_command run_connect
  connect_persists reads parse_addr hostname dir d dir' cfg h pair again pin s loaded readable why
        run =
      let connect = run_command t parse_addr (Command.connect (some h) pair pin) in
      let connected = sym (ap (λ r. and_then r connect) loaded) ∙ run in
      let (d1, c1, ensured, rest) =
        and_then-inv t (ensure_role t (with_addr cfg h) d RoleKind.spoke)
          (λ d c. connect_to t h pair pin c d) dir' s (unfold and_then in connected) in
      let (role, client, readable', saved) = addressed cfg h d d1 c1 readable ensured in
      let same = same_pin pin c1 cfg (ap (λ c. c.expected_server_id) client) in
      let (k, started, settled, v) =
        connect_to-inv t h pair pin c1 d1 dir' s readable' role (ap (λ c. c.server_addr) client)
          (why-IsSaved pin cfg c1 d1 same why saved) rest in
      (
        k,
        started ∙ ap (λ e. Started.spoke k h e pair) same,
        settled_next t reads parse_addr hostname h (effective_pin pin cfg) again k dir' v
            (subst (λ e. IsSettled t h e k) same settled),
      )
