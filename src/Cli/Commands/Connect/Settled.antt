-- ===== src/Cli/Commands/Connect/Settled.antt =====
-- The end of `connect`, and the run after it.
use Prim.Native.String.{String}
use mathlib.Core.Path.{subst}
use borderless.Base.{
  ◌≡◌, ◌⊎◌, refl, sym, ap, ◌∙◌, Bool, true, Option, none, some, ok, arith, inl, inr,
}
use borderless.Cli.Config.{Config, RoleKind, SocketAddr, Toml, ConfigDir, save_then}
use borderless.Cli.Config.Reload.{ReadsBack, save_then_lem, load-save}
use borderless.Cli.Commands.{
  Command, Started, ensure_role, and_then, effective_pin, keep_pin, connect_to, run_connect,
  run_command, main_,
}
use borderless.Cli.Commands.Connect.{ensure_role-same}
use borderless.Cli.Commands.Connect.Saved.{and_then-inv, IsSaved, save-IsSaved, save_then-IsSaved}

module _ (t : Toml) where
  -- What the configuration says of the hub once `connect` is through.
  pub record IsSettled (h : String) (e : Option String) (c : Config) : Type 0 where
    pub role : c.role.kind ≡ RoleKind.spoke
    pub address : c.client.server_addr ≡ some h
    pub pin : c.client.expected_server_id ≡ e

  keep_pin-settled :
      (dir : ConfigDir) (c : Config) (e : Option String)
      → IsSaved t dir c
      → c.client.expected_server_id ≡ e
      → keep_pin t e c dir ≡ (dir, ok c)
  unfolding keep_pin
  keep_pin-settled dir c none v h = refl
  keep_pin-settled dir c (some p) v h =
      let same : record c { client = record c.client { expected_server_id = some p } } ≡ c =
        ap (λ o. record c { client = record c.client { expected_server_id = o } }) (sym h) in
      ap (save_then t dir) same ∙ save_then-IsSaved t dir c v

  connect_to-settled :
      (h : String) (e : Option String) (again : Bool) (c : Config) (dir : ConfigDir)
      → IsSaved t dir c
      → IsSettled h e c
      → connect_to t h again none c dir ≡ (dir, ok (Started.spoke c h e again))
  unfolding connect_to and_then
  connect_to-settled h e again c dir v s =
      let kept = keep_pin-settled dir c c.client.expected_server_id v refl in
      let same = ensure_role-same t c dir RoleKind.spoke s.role in
      ap
        (λ r. and_then r (λ d k.
          and_then (ensure_role t k d RoleKind.spoke)
            (λ d k. (d, ok (Started.spoke k h c.client.expected_server_id again)))))
        kept
      ∙ ap (λ r. and_then r (λ d k. (d, ok (Started.spoke k h c.client.expected_server_id again))))
          same
      ∙ ap (λ o. (dir, ok (Started.spoke c h o again))) s.pin

  -- What is kept of a pin.
  kept_lem :
      (h : String) (e : Option String) (c : Config) (d d2 : ConfigDir) (k : Config)
      → d.readable ≡ true
      → c.role.kind ≡ RoleKind.spoke
      → c.client.server_addr ≡ some h
      → (IsSaved t d c × (c.client.expected_server_id ≡ e)) ⊎ ((p : String) × (e ≡ some p))
      → keep_pin t e c d ≡ (d2, ok k)
      → IsSaved t d2 k × IsSettled h e k
  unfolding keep_pin
  kept_lem h (some p) c d d2 k readable role address why kept =
      let with_pin : Config = record c {
        client = record c.client { expected_server_id = some p };
      } in
      let (saved, e) = save_then_lem t d d2 with_pin k kept in
      (
        subst (IsSaved t d2) (sym e) (save-IsSaved t d d2 with_pin readable saved),
        subst (IsSettled h (some p)) (sym e)
            (record { role = role; address = address; pin = refl }),
      )
  kept_lem h none c d d2 k readable role address (inr (p, e)) kept = absurd (cc)
  kept_lem h none c d d2 k readable role address (inl (v, e)) kept =
      let same : d ≡ d2 = cc in
      let same' : c ≡ k = cc in
      (
        subst (λ f. IsSaved t f k) same (subst (IsSaved t d) same' v),
        subst (IsSettled h none) same' (record { role = role; address = address; pin = e }),
      )

  -- A pin in effect, or a configuration that is saved, from which no pin comes.
  settled_or_pinned :
      (pin : Option String) (c : Config) (d : ConfigDir)
      → IsSaved t d c ⊎ ((p : String) × (effective_pin pin c ≡ some p))
      → (IsSaved t d c × (c.client.expected_server_id ≡ effective_pin pin c))
        ⊎ ((p : String) × (effective_pin pin c ≡ some p))
  settled_or_pinned pin c d (inr r) = inr r
  settled_or_pinned none c d (inl v) = inl (v, refl)
  settled_or_pinned (some p) c d (inl v) = inr (p, refl)

  -- The end of `connect_to`, where the pin is settled.
  pub connect_to-inv :
      (h : String) (pair : Bool) (pin : Option String) (c : Config) (d dir' : ConfigDir)
      (s : Started)
      → d.readable ≡ true
      → c.role.kind ≡ RoleKind.spoke
      → c.client.server_addr ≡ some h
      → IsSaved t d c ⊎ ((p : String) × (effective_pin pin c ≡ some p))
      → connect_to t h pair pin c d ≡ (dir', ok s)
      → (k : Config) × (s ≡ Started.spoke k h (effective_pin pin c) pair)
        × IsSettled h (effective_pin pin c) k
        × IsSaved t dir' k
  unfolding connect_to
  connect_to-inv h pair pin c d dir' s readable role address why run =
      let (d2, k, kept, rest) =
        and_then-inv t (keep_pin t (effective_pin pin c) c d)
          (λ d k.
            and_then (ensure_role t k d RoleKind.spoke)
              (λ d k. (d, ok (Started.spoke k h (effective_pin pin c) pair))))
          dir' s run in
      let (v, settled) =
        kept_lem h (effective_pin pin c) c d d2 k readable role address
          (settled_or_pinned pin c d why) kept in
      let end =
        sym (
          ap (λ r. and_then r (λ d k. (d, ok (Started.spoke k h (effective_pin pin c) pair))))
            (ensure_role-same t k d2 RoleKind.spoke settled.role))
        ∙ rest in
      (k, cc (end), settled, subst (λ f. IsSaved t f k) (cc (end)) v)

  pub settled_next :
      (reads : ReadsBack t) (parse_addr : String → Option SocketAddr) (hostname : Option String)
      (h : String) (e : Option String) (again : Bool) (k : Config) (dir : ConfigDir)
      → IsSaved t dir k
      → IsSettled h e k
      → main_ t parse_addr hostname (Command.connect none again none) dir
        ≡ (dir, ok (Started.spoke k h e again))
  unfolding main_ run_command run_connect and_then
  settled_next reads parse_addr hostname h e again k dir v s =
      let loaded = load-save t reads hostname dir dir k v.saves v.readable in
      let dialed = connect_to-settled h e again k dir v s in
      ap (λ r. and_then r (run_command t parse_addr (Command.connect none again none))) loaded
      ∙ ground (arith, s.address, dialed)
