-- ===== src/Diagnose.antt =====
-- core/diagnose/diagnose.go: the likely causes of what was observed, each with a fix.
pub mod Ranked
use mazzy_vpn.Base.{
  Bool, true, false, not, ◌&&◌, List, [], ◌∷◌, ◌++◌, any, if◌then◌else◌, Text, codes, ◌==◌, ℤ, pos,
  beq_ℤ,
}

pub record Signal : Type 0 where
  pub has_uplink : Bool
  pub uplink_name : Text
  pub internet_ok : Bool
  pub tunnel_iface : Text
  pub tunnel_link_up : Bool
  pub egress_ok : Bool
  pub egress_ip : Text
  pub dns_ok : Bool
  pub conflict_vpn : Text
  pub server_alive : Bool
  pub server_name : Text
  pub any_server_alive : Bool
  pub profiles_imported : ℤ

pub data Severity : Type 0 where
  info warn critical : Severity

-- Severity.String
abbrev pub severity_text : Severity → Text
severity_text info = codes "INFO"
severity_text warn = codes "WARN"
severity_text critical = codes "CRITICAL"

pub record Problem : Type 0 where
  pub severity : Severity
  pub level : Text
  pub title : Text
  pub cause : Text
  pub fix : Text

pub record Report : Type 0 where
  pub problems : List Problem
  pub summary : Text

abbrev pub is_critical : Severity → Bool
is_critical critical = true
is_critical _ = false

-- The method Healthy.
unfoldable pub is_healthy : List Problem → Bool
is_healthy [] = true
is_healthy (p ∷ ps) = if is_critical p.severity then false else is_healthy ps

abbrev pub or_else : Text → Text → Text
or_else s fallback = if s == [] then fallback else s

abbrev pub problem : Severity → Text → Text → Text → Problem
problem s title cause fix = record {
  severity = s;
  level = severity_text s;
  title = title;
  cause = cause;
  fix = fix;
}

abbrev one : Text → Text → Text → Text → Report
one summary title cause fix = record {
  problems = problem critical title cause fix ∷ [];
  summary = summary;
}

abbrev no_uplink : Report
no_uplink =
    one (codes "No uplink — connect to a network first.") (codes "No usable internet uplink")
      (codes "No wired/Wi‑Fi interface with a routable IPv4 address is up. Nothing can connect.")
      (codes "Plug in a cable or connect Wi‑Fi, then: mazzy-vpn adapters")

abbrev no_internet : Signal → Report
no_internet s =
    one (codes "Uplink up but no internet — check the network/router.")
      (codes "No internet on the uplink")
      (codes "The uplink "
        ++ or_else s.uplink_name (codes "interface")
        ++ codes " is up but cannot reach the internet (DNS/HTTP fails off-tunnel).")
      (codes "Check the router/Wi‑Fi login (captive portal?). Verify with: mazzy-vpn netdiag")

abbrev no_profiles : Report
no_profiles =
    one (codes "Import VPN profiles first.") (codes "No VPN profiles imported")
      (codes "There are no managed profiles to connect to.")
      (codes "Import your configs: mazzy-vpn import <folder>")

abbrev no_server : Report
no_server =
    one (codes "No reachable server — provider or ISP issue.") (codes "No live VPN server")
      (codes
        "None of the imported servers answered ICMP through the uplink — they may be down, or all blocked.")
      (codes
        "Re-test: mazzy-vpn test. If all are dead, your provider's servers may be offline or your ISP blocks them.")

abbrev link_missing : Signal → Problem
link_missing s =
    problem critical (codes "Tunnel interface missing")
      (codes "State says connected but " ++ s.tunnel_iface ++ codes " is not present.")
      (codes "Recover to a clean state: sudo mazzy-vpn recover, then reconnect.")

abbrev no_egress : Signal → Problem
no_egress s =
    if not s.server_alive && not (s.server_name == [])
    then problem critical (codes "Tunnel up but no egress")
        (codes "Server "
          ++ s.server_name
          ++ codes " did not answer ICMP; it may be down or dropping the handshake.")
        (codes "Switch to a live server: sudo mazzy-vpn up --best (auto-picks an alive one).")
    else problem critical (codes "Tunnel up but no egress")
        (codes "The interface "
          ++ s.tunnel_iface
          ++ codes " is up, but no traffic flows through it.")
        (codes "Try another live zone: mazzy-vpn test then sudo mazzy-vpn up <zone>.")

abbrev other_vpn_up : Signal → List Problem
other_vpn_up s =
    if not (s.conflict_vpn == [])
    then problem warn (codes "Another VPN is also active")
        (codes "Interface "
          ++ s.conflict_vpn
          ++ codes " (e.g. AdGuard) is up alongside the Mazzy tunnel; routing may be ambiguous.")
        (codes "If Mazzy egress is correct you can ignore this, or disconnect the other VPN.")
      ∷ []
    else []

abbrev tunnel_works : Signal → Report
tunnel_works s = record {
  problems =
      other_vpn_up s
      ++ problem info (codes "Connection healthy")
          (codes "Tunnel "
            ++ s.tunnel_iface
            ++ codes " is up and egress "
            ++ or_else s.egress_ip (codes "confirmed")
            ++ codes " flows through it.")
          []
        ∷ [];
  summary = codes "Protected: traffic flows through " ++ s.tunnel_iface ++ codes ".";
}

abbrev dns_problem : Signal → List Problem
dns_problem s =
    if not s.dns_ok
    then problem warn (codes "DNS not resolving")
        (codes "Name resolution is failing; sites may not load even if the tunnel is up.")
        (codes "Check the profile's DNS; reconnect. netdiag for details.")
      ∷ []
    else []

abbrev other_vpn : Signal → List Problem
other_vpn s =
    if s.tunnel_iface == [] && not (s.conflict_vpn == [])
    then problem info (codes "Another VPN is active")
        (codes "Interface "
          ++ s.conflict_vpn
          ++ codes " is up (e.g. AdGuard). Mazzy VPN is not connected.")
        (codes "To use Mazzy VPN: sudo mazzy-vpn up --best (it will take over).")
      ∷ []
    else []

-- The end of Analyze, with the problems found before it.
unfoldable pub downstream : Signal → List Problem → Report
unfolding is_healthy
downstream s before =
    let ps = before ++ dns_problem s ++ other_vpn s in
    record {
      problems = ps;
      summary =
          if is_healthy ps
          then codes "No critical problems found."
          else codes "Problems found — see fixes above.";
    }

unfoldable pub analyze : Signal → Report
unfolding downstream
analyze s =
    if not s.has_uplink
    then no_uplink
    else if not s.internet_ok && s.tunnel_iface == []
    then no_internet s
    else if beq_ℤ s.profiles_imported (pos 0)
    then no_profiles
    else if not s.any_server_alive
    then no_server
    else if not (s.tunnel_iface == [])
    then if not s.tunnel_link_up
      then downstream s (link_missing s ∷ [])
      else if not s.egress_ok
      then downstream s (no_egress s ∷ [])
      else tunnel_works s
    else downstream s []
