-- ===== src/Cli/Doctor.antt =====
-- crates/cli/src/doctor.rs: the checks and their report. The environment, the sockets and the resolver
-- are parameters. A detail is the list of its lines, with the fixed text and without the values that it
-- shows. The report is the list of its lines.
pub mod Verdict
use Prim.Native.String.{String}
use Prim.Native.String
use text.Mathlib.Text
use borderless.Base.{
  Bool, true, false, not, ◌&&◌, Option, none, some, List, [], ◌∷◌, ◌++◌, map, if◌then◌else◌,
}
use borderless.Cli.Config.{Config, RoleKind, SocketAddr, bind_addr}

pub data Status : Type 0 where
  ok warn fail : Status

pub record CheckResult : Type 0 where
  pub name : String
  pub status : Status
  pub detail : List String

pub data Os : Type 0 where
  linux macos windows unsupported : Os

-- What the checks ask the system.
pub record System : Type 0 where
  pub os : Os
  pub display : Option String
  pub wayland_display : Option String
  pub can_bind : SocketAddr → Bool
  pub resolve : String → Option (List SocketAddr)
  pub connects : SocketAddr → Bool

unfoldable pub glyph : Status → String
glyph ok = " OK "
glyph warn = "WARN"
glyph fail = "FAIL"

abbrev check : String → Status → List String → CheckResult
check name status detail = record { name = name; status = status; detail = detail }

unfoldable pub check_binary : CheckResult
check_binary = check "binary" ok ("borderless v on" ∷ [])

unfoldable pub check_hub_bind : System → Config → CheckResult
check_hub_bind sys cfg =
    if sys.can_bind (bind_addr cfg.hub_)
    then check "hub bind" ok ("can bind" ∷ [])
    else check "hub bind" fail ("cannot bind" ∷ [])

unfoldable pub firewall_detail : Os → List String
firewall_detail linux =
    "If spokes can't reach this host, allow inbound TCP 38437." ∷ "e.g.: sudo ufw allow 38437/tcp"
    ∷ []
firewall_detail macos =
    "If spokes can't reach this host, ensure System Settings →"
    ∷ "Network → Firewall allows the borderless binary on TCP 38437." ∷ []
firewall_detail windows =
    "If spokes can't reach this host, allow the borderless binary on"
    ∷ "the private network. PowerShell as admin:"
    ∷ "New-NetFirewallRule -DisplayName borderless -Direction Inbound"
    ∷ "    -Protocol TCP -LocalPort 38437 -Action Allow" ∷ []
firewall_detail unsupported = "Allow inbound TCP 38437 on this host." ∷ []

unfoldable pub check_firewall_hint : System → CheckResult
check_firewall_hint sys = check "firewall hint" warn (firewall_detail sys.os)

unfoldable pub check_spoke_addr : Config → CheckResult
check_spoke_addr cfg = elim cfg.client.server_addr [
  | some _ ↦ check "spoke server addr" ok ("server_addr =" ∷ [])
  | none ↦
      check "spoke server addr" fail
        ("server_addr unset. Run `borderless connect <host:port>` once." ∷ [])
]

abbrev reachability : Status → List String → CheckResult
reachability = check "spoke reachability"

-- The loop over the addresses: those that were tried, and what it returns.
unfoldable pub try_each : (SocketAddr → Bool) → List SocketAddr → List SocketAddr × CheckResult
try_each connects [] = (
  [],
  reachability fail (
      "could not TCP-connect within 5 s."
      ∷ "Check that the hub is running, the firewall allows the port,"
      ∷ "and that the spoke and hub share a routable network." ∷ []),
)
try_each connects (sa ∷ sas) = elim (connects sa) [
  | true ↦ (sa ∷ [], reachability ok ("TCP connect succeeded within 5 s" ∷ []))
  | false ↦ let (tried, result) = try_each connects sas in (sa ∷ tried, result)
]

unfoldable pub check_resolved : System → Option (List SocketAddr) → CheckResult
unfolding try_each
check_resolved sys none = reachability fail ("resolve failed" ∷ [])
check_resolved sys (some sas) = (try_each sys.connects sas).1

unfoldable pub check_spoke_reachable : System → Config → CheckResult
unfolding check_resolved
check_spoke_reachable sys cfg = elim cfg.client.server_addr [
  | none ↦ reachability warn ("skipped (no server_addr)" ∷ [])
  | some addr ↦ check_resolved sys (sys.resolve addr)
]

unfoldable pub display_check : Option String → CheckResult
display_check none =
    check "X11 DISPLAY" warn ("DISPLAY is unset. Clipboard ops will fail in headless mode." ∷ [])
display_check (some d) =
    if not (Text.◌==◌ d "")
    then check "X11 DISPLAY" ok ("found DISPLAY; clipboard text + X11 input emit should work" ∷ [])
    else check "X11 DISPLAY" warn
        ("DISPLAY is unset. Clipboard ops will fail in headless mode." ∷ [])

unfoldable pub wayland_warning : Option String → CheckResult
wayland_warning (some _) = check "Wayland session" warn (
    "WAYLAND_DISPLAY is set. v0.2 only supports the X11/XWayland"
    ∷ "backend. Native Wayland input lands in v0.3." ∷ [])
wayland_warning none =
    check "Wayland session" ok ("no WAYLAND_DISPLAY; treating session as X11." ∷ [])

-- The `checks` of the three platform modules.
unfoldable pub platform_checks : System → List CheckResult
unfolding display_check wayland_warning
platform_checks sys = elim sys.os [
  | linux ↦ display_check sys.display ∷ wayland_warning sys.wayland_display ∷ []
  | macos ↦
      check "Permissions" warn (
        "v0.2 input capture/inject requires:"
        ∷ "- System Settings → Privacy & Security → Accessibility"
        ∷ "- System Settings → Privacy & Security → Input Monitoring"
        ∷ "and (for Hub) the binary must be allowed in both." ∷ [])
      ∷ []
  | windows ↦
      check "Firewall" warn (
        "On first start Windows Defender Firewall will prompt to allow"
        ∷ "`borderless` on the private network. Allow it for the hub to"
        ∷ "accept spoke connections, and for spokes to dial out." ∷ [])
      ∷ []
  | unsupported ↦ []
]

-- The `match` on the role.
unfoldable pub role_checks_of : System → Config → RoleKind → List CheckResult
unfolding check_hub_bind check_firewall_hint check_spoke_addr check_spoke_reachable
role_checks_of sys cfg RoleKind.hub = check_hub_bind sys cfg ∷ check_firewall_hint sys ∷ []
role_checks_of sys cfg RoleKind.spoke = check_spoke_addr cfg ∷ check_spoke_reachable sys cfg ∷ []
role_checks_of sys cfg RoleKind.unconfigured =
    check "role" warn (
      "no role configured. Run `borderless serve` (Hub) or `borderless connect <host:port>` (Spoke) once to set one."
      ∷ [])
    ∷ []

unfoldable pub role_checks : System → Config → List CheckResult
unfolding role_checks_of
role_checks sys cfg = role_checks_of sys cfg cfg.role.kind

unfoldable pub run : System → Config → List CheckResult
unfolding check_binary platform_checks role_checks
run sys cfg = check_binary ∷ (platform_checks sys ++ role_checks sys cfg)

-- The lines of one check.
unfoldable pub check_lines : CheckResult → List String
unfolding glyph
check_lines c =
    String.◌++◌ "  [" (String.◌++◌ (glyph c.status) (String.◌++◌ "] " c.name))
    ∷ map (String.◌++◌ "         ") c.detail

unfoldable pub report_lines : List CheckResult → List String
unfolding check_lines
report_lines [] = []
report_lines (c ∷ cs) = check_lines c ++ report_lines cs

unfoldable pub format : List CheckResult → List String
unfolding report_lines
format report = "borderless doctor:" ∷ "" ∷ report_lines report
