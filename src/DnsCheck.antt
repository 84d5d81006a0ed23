-- ===== src/DnsCheck.antt =====
-- core/dnscheck/dnscheck.go: whether the DNS of the tunnel is private. strings.EqualFold is the parameter
-- `equal_fold`.
pub mod Verdicts
use mazzy_vpn.Base.{
  ℕ, ◌+◌, ◌≡◌, refl, ◌∙◌, Bool, true, false, not, ◌&&◌, ◌||◌, List, [], ◌∷◌, ◌++◌, if◌then◌else◌,
  Text, codes, ◌==◌, any, any-append, keep, keep-append, length, length-append, ap, arith,
  Bool-cases, inl, inr,
}

pub record Analysis : Type 0 where
  pub egress_country : Text
  pub dns_country : Text
  pub encrypted : Bool
  pub interface : Text
  pub resolvers : List Text

pub data Severity : Type 0 where
  info warn critical : Severity

-- Severity.String
abbrev pub severity_text : Severity → Text
severity_text info = codes "INFO"
severity_text warn = codes "WARN"
severity_text critical = codes "CRITICAL"

pub record Finding : Type 0 where
  pub severity : Severity
  pub level : Text
  pub title : Text
  pub detail : Text
  pub fix : Text

pub record Report : Type 0 where
  pub findings : List Finding
  pub verdict : Text

abbrev pub is_critical : Severity → Bool
is_critical critical = true
is_critical _ = false

-- The method Healthy.
unfoldable pub is_healthy : List Finding → Bool
unfolding any
is_healthy fs = not (any (λ f. is_critical f.severity) fs)

-- The closure `add` of Evaluate.
abbrev pub add : Severity → Text → Text → Text → List Finding → List Finding
add sev title detail fix fs =
    fs
    ++ record {
      severity = sev;
      level = severity_text sev;
      title = title;
      detail = detail;
      fix = fix;
    }
      ∷ []

abbrev pub no_resolvers : List Text → Bool
no_resolvers [] = true
no_resolvers (r ∷ rs) = false

abbrev pub is_unbound : Analysis → Bool
is_unbound a = a.interface == [] || no_resolvers a.resolvers

abbrev pub is_abroad : (Text → Text → Bool) → Analysis → Bool
is_abroad equal_fold a =
    not (a.dns_country == [])
    && not (a.egress_country == [])
    && not (equal_fold a.dns_country a.egress_country)

abbrev pub is_home : (Text → Text → Bool) → Analysis → Bool
is_home equal_fold a = not (a.dns_country == []) && equal_fold a.dns_country a.egress_country

unfoldable pub abroad_step : (Text → Text → Bool) → Analysis → List Finding → List Finding
unfolding ◌==◌
abroad_step equal_fold a fs =
    if is_abroad equal_fold a
    then add warn (codes "DNS resolves from a different country")
        (codes "DNS appears to resolve from "
          ++ a.dns_country
          ++ codes " but egress is "
          ++ a.egress_country
          ++ codes "; a mismatch is a VPN tell.")
        (codes "Use the in-country DNS pushed by the profile, not a global resolver.") fs
    else fs

unfoldable pub encryption_step : Analysis → List Finding → List Finding
encryption_step a fs =
    if not a.encrypted
    then add warn (codes "DNS is not encrypted (no DoT/DoH)")
        (codes
          "DNS travels through the tunnel but is plaintext to the resolver; the VPN server's network can observe queries.")
        (codes
          "Enable DoT if supported: resolvectl (systemd) with a #hostname resolver, or use a DoH resolver.")
        fs
    else add info (codes "DNS is encrypted")
        (codes "DNS uses DoT/DoH — queries are hidden even from the VPN server's network.") [] fs

unfoldable pub home_step : (Text → Text → Bool) → Analysis → List Finding → List Finding
unfolding ◌==◌
home_step equal_fold a fs =
    if is_home equal_fold a
    then add info (codes "DNS resolves from the egress country")
        (codes "DNS ("
          ++ a.dns_country
          ++ codes ") matches egress ("
          ++ a.egress_country
          ++ codes ") — consistent location.")
        [] fs
    else fs

abbrev pub leaking : Text
leaking = codes "leaking — DNS not through the tunnel"

abbrev pub clean : Text
clean = codes "clean — DNS is in-country and encrypted"

abbrev pub fair : Text
fair = codes "ok — DNS through the tunnel; consider DoT for full privacy"

abbrev pub issues : Text
issues = codes "issues — see fixes above"

unfoldable pub verdict_of : Bool → List Finding → Text
unfolding is_healthy
verdict_of encrypted fs =
    if is_healthy fs && encrypted then clean else if is_healthy fs then fair else issues

-- Evaluate
unfoldable pub evaluate : (Text → Text → Bool) → Analysis → Report
unfolding abroad_step encryption_step home_step verdict_of
evaluate equal_fold a =
    if is_unbound a
    then record {
      findings =
          add critical (codes "DNS not bound to the tunnel")
            (codes
              "No resolver is set on the VPN interface; queries may use the system/ISP resolver and reveal your real location.")
            (codes
              "Reconnect so the profile's DNS is applied, or set: resolvectl dns <iface> <dns>.")
            [];
      verdict = leaking;
    }
    else let fs = home_step equal_fold a (encryption_step a (abroad_step equal_fold a [])) in
      record { findings = fs; verdict = verdict_of a.encrypted fs }
