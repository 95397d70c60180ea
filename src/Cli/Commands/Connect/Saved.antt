-- ===== src/Cli/Commands/Connect/Saved.antt =====
-- Configurations that are on the disk, and the steps of a command that save one.
use mathlib.Core.Path.{subst}
use borderless.Base.{
  ◌≡◌, ◌≢◌, ◌⊎◌, refl, sym, ◌∙◌, true, some, if_neg, Result, ok, err, arith, inl, inr,
}
use borderless.Cli.Config.{Config, RoleKind, Toml, ConfigDir, Failure, save, save_then}
use borderless.Cli.Config.Reload.{save_lem, save_then_lem}
use borderless.Cli.Commands.{Started, RoleKind-discrete, ensure_role, and_then}
use borderless.Cli.Commands.Connect.{ensure_role-same}

module _ (t : Toml) where
  pub and_then-inv :
      (r : ConfigDir × Result Failure Config)
      (rest : ConfigDir → Config → ConfigDir × Result Failure Started) (dir' : ConfigDir)
      (s : Started)
      → and_then r rest ≡ (dir', ok s)
      → (d : ConfigDir) × (c : Config) × (r ≡ (d, ok c)) × (rest d c ≡ (dir', ok s))
  unfolding and_then
  and_then-inv (d, ok c) rest dir' s h = (d, c, refl, h)
  and_then-inv (d, err e) rest dir' s h = absurd (cc)

  -- A configuration that is on the disk as it is, in a directory that can be read and written.
  pub record IsSaved (dir : ConfigDir) (cfg : Config) : Type 0 where
    pub saves : save t dir cfg ≡ (dir, ok tt)
    pub readable : dir.readable ≡ true

  pub save-IsSaved :
      (dir dir' : ConfigDir) (cfg : Config)
      → dir.readable ≡ true
      → save t dir cfg ≡ (dir', ok tt)
      → IsSaved dir' cfg
  unfolding save
  save-IsSaved dir dir' cfg r h =
      let (raw, e, d) = save_lem t dir dir' cfg h in
      let w : save t (record dir { file = some raw }) cfg
          ≡ (record dir { file = some raw }, ok tt) =
        ground arith in
      subst (λ f. IsSaved f cfg) (sym d) (record { saves = w; readable = r })

  -- The outcome of `ensure_role`: nothing to do, or saved.
  pub ensure_role-inv :
      (cfg : Config) (dir d : ConfigDir) (want : RoleKind) (c : Config)
      → dir.readable ≡ true
      → ensure_role t cfg dir want ≡ (d, ok c)
      → ((cfg.role.kind ≡ want) × (d ≡ dir) × (c ≡ cfg))
        ⊎ (IsSaved d c
            × (c ≡ record cfg { role = record { kind = want } })
            × (cfg.role.kind ≢ want))
  unfolding ensure_role
  ensure_role-inv cfg dir d want c r h = elim (RoleKind-discrete cfg.role.kind want) [
    | yes e ↦
        let same = sym (ensure_role-same t cfg dir want e) ∙ h in inl (e, cc (same), cc (same))
    | no n ↦
        let saved =
          sym (
            if_neg (RoleKind-discrete cfg.role.kind want) n (dir, ok cfg)
              (save_then t dir (record cfg { role = record { kind = want } })))
          ∙ h in
        let (s, e) = save_then_lem t dir d (record cfg { role = record { kind = want } }) c saved in
        inr (subst (IsSaved d) (sym e) (save-IsSaved dir d _ r s), e, n)
  ]

  pub save_then-IsSaved :
      (dir : ConfigDir) (c : Config) → IsSaved dir c → save_then t dir c ≡ (dir, ok c)
  unfolding save_then
  save_then-IsSaved dir c v = rw (v.saves, save_then) refl
