-- ===== src/NetDiag.antt =====
-- core/netdiag/netdiag.go: what the host's interfaces say before a connection.
pub mod Counts
use mazzy_vpn.Base.{
  ℕ, zero, suc, ◌+◌, ◌≡◌, refl, ◌∙◌, Bool, true, false, not, ◌&&◌, ◌||◌, Option, none, some, List,
  [], ◌∷◌, ◌++◌, if◌then◌else◌, Text, codes, any, has_prefix, ltb, nat_beq, length, length-append,
  arith, Bool-cases, Option-cases, inl, inr,
}
use mazzy_vpn.NetAdapter.{Adapter, Ip, adapter_kind, physical_uplinks, recommend}

pub data Severity : Type 0 where
  info warn fail : Severity

-- Severity.String
abbrev pub severity_text : Severity → Text
severity_text info = codes "INFO"
severity_text warn = codes "WARN"
severity_text fail = codes "FAIL"

pub record Finding : Type 0 where
  pub severity : Severity
  pub level : Text
  pub title : Text
  pub detail : Text
  pub fix : Text

pub record Report : Type 0 where
  pub findings : List Finding
  pub recommended_uplink : Text
  pub conflicting_vpn : Text
  pub ok : ℕ
  pub warn : ℕ
  pub fail : ℕ

abbrev pub bump : Severity → Report → Report
bump info r = record r { ok = r.ok + 1 }
bump warn r = record r { warn = r.warn + 1 }
bump fail r = record r { fail = r.fail + 1 }

-- The closure `add` of Analyze.
unfoldable pub add : Severity → Text → Text → Text → Report → Report
add sev title detail fix r = record (bump sev r) {
  findings =
      r.findings
      ++ record {
        severity = sev;
        level = severity_text sev;
        title = title;
        detail = detail;
        fix = fix;
      }
        ∷ [];
}

abbrev pub vpn_prefixes : List Text
vpn_prefixes =
    codes "vpn"
    ∷ codes "tun"
    ∷ codes "wg"
    ∷ codes "awg"
    ∷ codes "tailscale"
    ∷ codes "zt"
    ∷ codes "ppp"
    ∷ []

-- isVPNInterface
unfoldable pub is_vpn_interface : Text → Bool
unfolding any has_prefix
is_vpn_interface name = any (λ p. has_prefix name p) vpn_prefixes

abbrev pub uplink_text : Adapter → Text
uplink_text u = u.name ++ codes " (" ++ adapter_kind u ++ codes ")"

unfoldable pub format_rest : List Adapter → Text
format_rest [] = []
format_rest (u ∷ us) = codes ", " ++ uplink_text u ++ format_rest us

-- formatUplinks
unfoldable pub format_uplinks : List Adapter → Text
unfolding format_rest adapter_kind
format_uplinks [] = []
format_uplinks (u ∷ us) = uplink_text u ++ format_rest us

unfoldable pub count_wireless : Bool → List Adapter → ℕ
count_wireless wifi [] = 0
count_wireless wifi (u ∷ us) =
    let rest = count_wireless wifi us in
    if (if wifi then u.wireless else not u.wireless) then suc rest else rest

unfoldable pub uplink_step : List Adapter → Report → Report
unfolding add format_uplinks count_wireless
uplink_step [] r =
    add fail (codes "No physical uplink up")
      (codes "No wired/wireless interface with a carrier is up.")
      (codes "Plug in a cable or enable Wi‑Fi, then re-run.") r
uplink_step (u ∷ us) r =
    let uplinks = u ∷ us in
    let r₁ = add info (codes "Physical uplink available") (format_uplinks uplinks) [] r in
    if ltb 0 (count_wireless false uplinks) && ltb 0 (count_wireless true uplinks)
    then add info (codes "Both wired and Wi‑Fi are up")
        (codes "You can choose which uplink to run the VPN over.")
        (codes "Prefer the wired uplink for the VPN test (see recommendation).") r₁
    else r₁

abbrev pub is_conflicting : Adapter → Bool
is_conflicting a = a.virtual && a.up && is_vpn_interface a.name

-- The loop, which breaks at its first hit.
unfoldable pub first_conflict : List Adapter → Option Adapter
unfolding is_vpn_interface
first_conflict [] = none
first_conflict (a ∷ rest) =
    let later = first_conflict rest in if is_conflicting a then some a else later

unfoldable pub conflict_step : Option Adapter → Report → Report
unfolding add
conflict_step none r = r
conflict_step (some a) r =
    add warn (codes "A VPN interface is already active")
      (codes "Interface "
        ++ a.name
        ++ codes " is up; another VPN (e.g. AdGuard/WireGuard) may capture traffic.")
      (codes "Disconnect the other VPN before testing, or bind the test to a specific uplink.")
      (record r { conflicting_vpn = a.name })

unfoldable pub recommend_step : Option (Adapter × Text) → Report → Report
unfolding add
recommend_step none r = r
recommend_step (some (a, reason)) r =
    add info (codes "Recommended uplink: " ++ a.name) reason []
      (record r { recommended_uplink = a.name })

abbrev pub empty_report : Report
empty_report = record {
  findings = [];
  recommended_uplink = [];
  conflicting_vpn = [];
  ok = 0;
  warn = 0;
  fail = 0;
}

-- Analyze; `parse_cidr` is net.ParseCIDR.
unfoldable pub analyze : (Text → Option Ip) → List Adapter → Report
unfolding uplink_step conflict_step recommend_step first_conflict physical_uplinks recommend
analyze parse_cidr adapters =
    recommend_step (recommend parse_cidr adapters) (
      conflict_step (first_conflict adapters)
        (uplink_step (physical_uplinks adapters) empty_report))

-- The method Healthy.
unfoldable pub is_healthy : Report → Bool
is_healthy r = nat_beq r.fail 0

abbrev pub is_none : List Adapter → Bool
is_none [] = true
is_none (a ∷ rest) = false

abbrev pub name_or_empty : Option Adapter → Text
name_or_empty none = []
name_or_empty (some a) = a.name

abbrev pub recommended_name : Option (Adapter × Text) → Text
recommended_name none = []
recommended_name (some (a, reason)) = a.name
