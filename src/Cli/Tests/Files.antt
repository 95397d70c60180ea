-- ===== src/Cli/Tests/Files.antt =====
-- A `toml` that knows two configurations.
use Prim.Native.String.{String}
use text.Mathlib.Text
use text.Mathlib.TextEquality.{eq_iff}
use borderless.Base.{
  ◌≡◌, refl, sym, ap, Bool, true, false, not, ◌&&◌, Option, none, some, ◌==◌, ==_iff, if◌then◌else◌,
  Bool-cases, inl, inr, arith,
}
use borderless.Cli.Config.{Config, RoleKind, IpAddr, Toml}
use borderless.Cli.Config.Reload.{ReadsBack}

abbrev same_bool : Bool → Bool → Bool
same_bool true b = b
same_bool false b = not b

abbrev same_text : Option String → Option String → Bool
same_text none none = true
same_text none (some t) = false
same_text (some s) none = false
same_text (some s) (some t) = Text.◌==◌ s t

abbrev same_ip : IpAddr → IpAddr → Bool
same_ip (IpAddr.v4 a) (IpAddr.v4 b) = a == b
same_ip (IpAddr.v4 a) (IpAddr.v6 b) = false
same_ip (IpAddr.v6 a) (IpAddr.v4 b) = false
same_ip (IpAddr.v6 a) (IpAddr.v6 b) = a == b

abbrev same_kind : RoleKind → RoleKind → Bool
same_kind RoleKind.unconfigured RoleKind.unconfigured = true
same_kind RoleKind.hub RoleKind.hub = true
same_kind RoleKind.spoke RoleKind.spoke = true
same_kind _ _ = false

same_bool_sound : (a b : Bool) → same_bool a b ≡ true → a ≡ b
same_bool_sound true b h = ground arith
same_bool_sound false b h = ground arith

same_text_sound : (a b : Option String) → same_text a b ≡ true → a ≡ b
same_text_sound none none h = refl
same_text_sound none (some t) h = absurd (cc)
same_text_sound (some s) none h = absurd (cc)
same_text_sound (some s) (some t) h = ap some ((eq_iff s t).0 h)

same_ip_sound : (a b : IpAddr) → same_ip a b ≡ true → a ≡ b
same_ip_sound (IpAddr.v4 a) (IpAddr.v4 b) h = ap IpAddr.v4 ((==_iff a b).0 h)
same_ip_sound (IpAddr.v4 a) (IpAddr.v6 b) h = absurd (cc)
same_ip_sound (IpAddr.v6 a) (IpAddr.v4 b) h = absurd (cc)
same_ip_sound (IpAddr.v6 a) (IpAddr.v6 b) h = ap IpAddr.v6 ((==_iff a b).0 h)

same_kind_sound : (a b : RoleKind) → same_kind a b ≡ true → a ≡ b
same_kind_sound RoleKind.unconfigured RoleKind.unconfigured h = refl
same_kind_sound RoleKind.unconfigured RoleKind.hub h = absurd (cc)
same_kind_sound RoleKind.unconfigured RoleKind.spoke h = absurd (cc)
same_kind_sound RoleKind.hub RoleKind.unconfigured h = absurd (cc)
same_kind_sound RoleKind.hub RoleKind.hub h = refl
same_kind_sound RoleKind.hub RoleKind.spoke h = absurd (cc)
same_kind_sound RoleKind.spoke RoleKind.unconfigured h = absurd (cc)
same_kind_sound RoleKind.spoke RoleKind.hub h = absurd (cc)
same_kind_sound RoleKind.spoke RoleKind.spoke h = refl

both : (a b : Bool) → (a && b) ≡ true → (a ≡ true) × (b ≡ true)
both true b h = (refl, h)
both false b h = absurd (cc)

-- The configurations that differ from the default in their role and their addresses.
unfoldable pub is_file : Config → Config → Bool
is_file k c =
    same_kind c.role.kind k.role.kind
    && (same_text c.client.server_addr k.client.server_addr
        && (same_text c.client.expected_server_id k.client.expected_server_id
            && (same_ip c.hub_.bind_ip k.hub_.bind_ip
                && ((c.hub_.port == k.hub_.port)
                    && (same_bool c.hub_.accept_new_peers k.hub_.accept_new_peers
                        && (same_text (some c.node.name) (some k.node.name)
                            && ((c.clipboard.history_size == k.clipboard.history_size)
                                && (same_bool c.clipboard.sync_text k.clipboard.sync_text
                                    && (same_bool c.clipboard.sync_image k.clipboard.sync_image
                                        && same_bool c.input.enabled k.input.enabled)))))))))

some_inj : {s t : String} → some s ≡ some t → s ≡ t
some_inj h = cc

is_file_sound : (k c : Config) → is_file k c ≡ true → c ≡ k
unfolding is_file
is_file_sound k c h =
    let (a, h) = both _ _ h in
    let (b, h) = both _ _ h in
    let (d, h) = both _ _ h in
    let (e, h) = both _ _ h in
    let (f, h) = both _ _ h in
    let (g, h) = both _ _ h in
    let (i, h) = both _ _ h in
    let (j, h) = both _ _ h in
    let (l, h) = both _ _ h in
    let (m, n) = both _ _ h in
    let a = same_kind_sound _ _ a in
    let b = same_text_sound _ _ b in
    let d = same_text_sound _ _ d in
    let e = same_ip_sound _ _ e in
    let f = (==_iff _ _).0 f in
    let g = same_bool_sound _ _ g in
    let i = some_inj (same_text_sound _ _ i) in
    let j = (==_iff _ _).0 j in
    let l = same_bool_sound _ _ l in
    let m = same_bool_sound _ _ m in
    let n = same_bool_sound _ _ n in
    λ x. record {
      node = record { name = i x };
      role = record { kind = a x };
      hub_ = record { bind_ip = e x; port = f x; accept_new_peers = g x };
      client = record { server_addr = b x; expected_server_id = d x };
      clipboard = record { history_size = j x; sync_text = l x; sync_image = m x };
      input = record { enabled = n x };
    }

-- The file reads "old" before it is written, and "new" for the one configuration that is written.
unfoldable pub two_files : Config → Config → Toml
unfolding is_file
two_files old new = record {
  to_string_pretty = λ c. if is_file new c then some "new" else none;
  from_str = λ raw. if Text.◌==◌ raw "old" then some old else some new;
}

pub two_files-ReadsBack : (old new : Config) → ReadsBack (two_files old new)
unfolding two_files
two_files-ReadsBack old new cfg raw h = elim (Bool-cases (is_file new cfg)) [
  | inl e ↦ let r : raw ≡ "new" = ground arith in rw r (ap some (sym (is_file_sound new cfg e)))
  | inr e ↦ absurd (ground arith)
]
