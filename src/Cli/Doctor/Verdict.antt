-- ===== src/Cli/Doctor/Verdict.antt =====
-- When the report has a failed check.
use borderless.Base.{
  ◌≡◌, refl, ◌∙◌, Bool, true, false, not, ◌||◌, Option, none, some, List, [], ◌∷◌, ◌++◌, arith, inl,
  inr, Option-cases,
}
use Prim.Native.String.{String}
use borderless.Cli.Config.{Config, RoleKind, SocketAddr, bind_addr}
use borderless.Cli.Doctor.{
  Status, CheckResult, System, check_hub_bind, check_firewall_hint, check_spoke_addr, try_each,
  check_resolved, check_spoke_reachable, platform_checks, role_checks, role_checks_of, run,
  check_binary,
}

abbrev pub is_fail : Status → Bool
is_fail Status.fail = true
is_fail _ = false

unfoldable pub has_fail : List CheckResult → Bool
has_fail [] = false
has_fail (c ∷ cs) = is_fail c.status || has_fail cs

-- Is there an address that answers?
unfoldable pub any_connects : (SocketAddr → Bool) → List SocketAddr → Bool
any_connects connects [] = false
any_connects connects (sa ∷ sas) = connects sa || any_connects connects sas

abbrev pub resolved_connects : System → Option (List SocketAddr) → Bool
resolved_connects sys none = false
resolved_connects sys (some sas) = any_connects sys.connects sas

abbrev pub spoke_reaches : System → Option String → Bool
spoke_reaches sys none = false
spoke_reaches sys (some addr) = resolved_connects sys (sys.resolve addr)

-- Whether a node in this role can do its work.
abbrev pub can_work : System → Config → RoleKind → Bool
can_work sys cfg RoleKind.hub = sys.can_bind (bind_addr cfg.hub_)
can_work sys cfg RoleKind.spoke = spoke_reaches sys cfg.client.server_addr
can_work sys cfg RoleKind.unconfigured = true

try_each-fails :
    (connects : SocketAddr → Bool) (sas : List SocketAddr)
    → is_fail (try_each connects sas).1.status ≡ not (any_connects connects sas)
unfolding try_each any_connects
try_each-fails connects [] = refl
try_each-fails connects (sa ∷ sas) = ground (arith, try_each-fails connects sas)

platform_checks-fail : (sys : System) → has_fail (platform_checks sys) ≡ false
unfolding platform_checks has_fail
platform_checks-fail sys = ground arith

has_fail-append : (xs ys : List CheckResult) → has_fail (xs ++ ys) ≡ (has_fail xs || has_fail ys)
unfolding has_fail
has_fail-append [] ys = refl
has_fail-append (c ∷ cs) ys = ground (arith, has_fail-append cs ys)

check_resolved-fails :
    (sys : System) (o : Option (List SocketAddr))
    → is_fail (check_resolved sys o).status ≡ not (resolved_connects sys o)
unfolding check_resolved
check_resolved-fails sys none = refl
check_resolved-fails sys (some sas) = try_each-fails sys.connects sas

spoke_checks : System → Config → List CheckResult
spoke_checks sys cfg = check_spoke_addr cfg ∷ check_spoke_reachable sys cfg ∷ []

spoke_checks-fail :
    (sys : System) (cfg : Config)
    → has_fail (spoke_checks sys cfg) ≡ not (spoke_reaches sys cfg.client.server_addr)
unfolding spoke_checks has_fail check_spoke_addr check_spoke_reachable
spoke_checks-fail sys cfg = elim (Option-cases cfg.client.server_addr) [
  | inl e ↦ ground arith
  | inr (a, e) ↦ ground (arith, check_resolved-fails sys (sys.resolve a))
]

hub_checks-fail :
    (sys : System) (cfg : Config)
    → has_fail (check_hub_bind sys cfg ∷ check_firewall_hint sys ∷ [])
      ≡ not (sys.can_bind (bind_addr cfg.hub_))
unfolding has_fail check_hub_bind check_firewall_hint
hub_checks-fail sys cfg = ground arith

role_checks-fail :
    (sys : System) (cfg : Config)
    → has_fail (role_checks sys cfg) ≡ not (can_work sys cfg cfg.role.kind)
unfolding role_checks has_fail spoke_checks
role_checks-fail sys cfg =
    elim cfg.role.kind
      as (λ kind. has_fail (role_checks_of sys cfg kind) ≡ not (can_work sys cfg kind)) [
        | RoleKind.hub ↦ hub_checks-fail sys cfg
        | RoleKind.spoke ↦ spoke_checks-fail sys cfg
        | RoleKind.unconfigured ↦ refl
      ]

-- The report has a failed check exactly when the node cannot do what its role needs: a hub cannot bind
-- its address; a spoke has no address, or one that does not resolve, or none of the resolved addresses
-- answers. A node without a role has no failed check, on any platform.
pub run-fails :
    (sys : System) (cfg : Config) → has_fail (run sys cfg) ≡ not (can_work sys cfg cfg.role.kind)
unfolding run has_fail check_binary
run-fails sys cfg =
    has_fail-append (platform_checks sys) (role_checks sys cfg)
    ∙ rw (platform_checks-fail sys) (role_checks-fail sys cfg)
