-- ===== src/Cli/Config/Reload.antt =====
-- What is loaded after something was saved.
use Prim.Native.String.{String}
use mathlib.Core.Path.{subst}
use borderless.Base.{
  ◌≡◌, sym, ap, ◌∙◌, true, Option, none, some, Result, ok, err, arith, inl, inr, Option-cases,
}
use borderless.Cli.Config.{
  Config, Toml, ConfigDir, Failure, save, save_then, parse, load_or_default, default_config,
}

-- What is relied on of the crate `toml`: a text that it writes reads back as what it was written from.
abbrev pub ReadsBack : Toml → Type 0
ReadsBack t =
    (cfg : Config) (raw : String) → t.to_string_pretty cfg ≡ some raw → t.from_str raw ≡ some cfg

-- What a save that succeeds has done.
pub save_lem :
    (t : Toml) (dir dir' : ConfigDir) (cfg : Config)
    → save t dir cfg ≡ (dir', ok tt)
    → (raw : String) × (t.to_string_pretty cfg ≡ some raw) × (dir' ≡ record dir { file = some raw })
unfolding save
save_lem t dir dir' cfg saved = elim (Option-cases (t.to_string_pretty cfg)) [
  | inl e ↦ absurd (ground arith)
  | inr (raw, e) ↦ (raw, e, ground arith)
]

saved_pair :
    (x : ConfigDir × Result Failure (Unit {0})) (dir' : ConfigDir) (cfg c : Config)
    → Path
        (ConfigDir × Result Failure Config)
        (x.0, elim x.1 [ ok _ ↦ ok cfg | err e ↦ err e ])
        (dir', ok c)
    → (x ≡ (dir', ok tt)) × (c ≡ cfg)
saved_pair (d, ok tt) dir' cfg c h = (cc, cc)
saved_pair (d, err e) dir' cfg c h = absurd (cc)

pub save_then_lem :
    (t : Toml) (dir dir' : ConfigDir) (cfg c : Config)
    → save_then t dir cfg ≡ (dir', ok c)
    → (save t dir cfg ≡ (dir', ok tt)) × (c ≡ cfg)
unfolding save_then
save_then_lem t dir dir' cfg c h = saved_pair (save t dir cfg) dir' cfg c h

module _ (t : Toml) (reads : ReadsBack t) where
  load_written :
      (hostname : Option String) (dir : ConfigDir) (cfg : Config) (raw : String)
      → t.to_string_pretty cfg ≡ some raw
      → dir.readable ≡ true
      → load_or_default t hostname (record dir { file = some raw })
        ≡ (record dir { file = some raw }, ok cfg)
  unfolding load_or_default parse
  load_written hostname dir cfg raw e readable = ground (arith, reads cfg raw)

  -- What was saved is what the next start loads, and loading it changes nothing.
  pub load-save :
      (hostname : Option String) (dir dir' : ConfigDir) (cfg : Config)
      → save t dir cfg ≡ (dir', ok tt)
      → dir.readable ≡ true
      → load_or_default t hostname dir' ≡ (dir', ok cfg)
  load-save hostname dir dir' cfg saved readable =
      let (raw, e, d) = save_lem t dir dir' cfg saved in
      subst (λ f. load_or_default t hostname f ≡ (f, ok cfg)) (sym d)
        (load_written hostname dir cfg raw e readable)

  load_present :
      (hostname later : Option String) (dir : ConfigDir) (raw : String)
      → dir.file ≡ some raw
      → (load_or_default t later dir ≡ load_or_default t hostname dir)
        × ((load_or_default t hostname dir).0 ≡ dir)
  unfolding load_or_default
  load_present hostname later dir raw e = (ground arith, ground arith)

  load_missing :
      (hostname : Option String) (dir : ConfigDir)
      → dir.file ≡ none
      → load_or_default t hostname dir ≡ save_then t dir (default_config hostname)
  unfolding load_or_default
  load_missing hostname dir e = ground arith

  -- The first start writes the defaults, and a later start, whatever the environment says by then, loads
  -- the same configuration from the file and leaves it alone.
  pub load_or_default_again :
      (hostname later : Option String) (dir dir' : ConfigDir) (cfg : Config)
      → load_or_default t hostname dir ≡ (dir', ok cfg)
      → dir.readable ≡ true
      → load_or_default t later dir' ≡ (dir', ok cfg)
  load_or_default_again hostname later dir dir' cfg first readable = elim (Option-cases dir.file) [
    | inr (raw, e) ↦
        let (same, stays) = load_present hostname later dir raw e in
        let d : dir ≡ dir' = sym stays ∙ ap (λ r. r.0) first in
        subst (λ f. load_or_default t later f ≡ (dir', ok cfg)) d (same ∙ first)
    | inl e ↦
        let (saved, c) =
          save_then_lem t dir dir' (default_config hostname) cfg
            (sym (load_missing hostname dir e) ∙ first) in
        load-save later dir dir' cfg (subst (λ k. save t dir k ≡ (dir', ok tt)) (sym c) saved)
          readable
  ]
