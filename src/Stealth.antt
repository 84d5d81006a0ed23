-- ===== src/Stealth.antt =====
-- core/stealth/stealth.go: how much the egress looks like a VPN. strings.EqualFold is the parameter
-- `equal_fold`.
pub mod Score
use mazzy_vpn.Base.{
  ℕ, ◌+◌, ◌-◌, Bool, true, false, not, ◌&&◌, ◌||◌, List, [], ◌∷◌, ◌++◌, if◌then◌else◌, Text, codes,
  ◌==◌, leb,
}

pub record Signal : Type 0 where
  pub egress_ipv4 : Text
  pub egress_country : Text
  pub egress_city : Text
  pub ipv6_leaked : Bool
  pub ipv6_egress_ip : Text
  pub dns_country : Text
  pub system_timezone : Text
  pub expected_tz_cc : Text
  pub is_proxy_flagged : Bool
  pub is_hosting_flagged : Bool
  pub cloudflare_colo : Text
  pub cloudflare_loc : Text

pub data Severity : Type 0 where
  info warn critical : Severity

-- Severity.String
abbrev pub severity_text : Severity → Text
severity_text info = codes "INFO"
severity_text warn = codes "WARN"
severity_text critical = codes "CRITICAL"

pub record Finding : Type 0 where
  pub severity : Severity
  pub level : Text
  pub vector : Text
  pub title : Text
  pub detail : Text
  pub fix : Text

-- The report while it is made: `penalty` is what has been taken from the score of 100, which may fall
-- below 0 until the end.
pub record Draft : Type 0 where
  pub found : List Finding
  pub penalty : ℕ

pub record Report : Type 0 where
  pub findings : List Finding
  pub score : ℕ
  pub verdict : Text

-- The closure `add` of Analyze.
abbrev pub add : Severity → Text → Text → Text → Text → ℕ → Draft → Draft
add sev vector title detail fix penalty r = record {
  found =
      r.found
      ++ record {
        severity = sev;
        level = severity_text sev;
        vector = vector;
        title = title;
        detail = detail;
        fix = fix;
      }
        ∷ [];
  penalty = r.penalty + penalty;
}

abbrev pub or_else : Text → Text → Text
or_else s fallback = if s == [] then fallback else s

-- Both countries are known, and they are not the same.
abbrev pub disagree : (Text → Text → Bool) → Text → Text → Bool
disagree equal_fold a b = not (a == []) && not (b == []) && not (equal_fold a b)

abbrev ipv6_step : Signal → Draft → Draft
ipv6_step s r =
    if s.ipv6_leaked
    then add critical (codes "ipv6.leak") (codes "IPv6 leak")
        (codes "An IPv6 address ("
          ++ or_else s.ipv6_egress_ip (codes "reachable")
          ++ codes ") is exposed outside the tunnel; services see your real IPv6 location.")
        (codes "Enable the IPv6 kill-switch (default on). Verify: no IPv6 egress after connect.") 40
        r
    else r

abbrev timezone_step : (Text → Text → Bool) → Signal → Draft → Draft
timezone_step equal_fold s r =
    if disagree equal_fold s.expected_tz_cc s.egress_country
    then add critical (codes "timezone.mismatch") (codes "Timezone does not match egress country")
        (codes "System timezone ("
          ++ s.system_timezone
          ++ codes " ≈ "
          ++ s.expected_tz_cc
          ++ codes ") disagrees with the egress country ("
          ++ s.egress_country
          ++ codes
              "). Browsers expose Intl timezone; Gemini/Google/Antigravity flag this as a VPN.")
        (codes
          "Set the system (or browser profile) timezone to match the egress country, e.g. a NL exit → Europe/Amsterdam.")
        35 r
    else r

abbrev dns_step : (Text → Text → Bool) → Signal → Draft → Draft
dns_step equal_fold s r =
    if disagree equal_fold s.dns_country s.egress_country
    then add warn (codes "dns.mismatch") (codes "DNS resolver in a different country")
        (codes "Your DNS resolver appears to be in "
          ++ s.dns_country
          ++ codes " but egress is "
          ++ s.egress_country
          ++ codes ". A DNS/egress mismatch is a known VPN tell.")
        (codes "Use the DNS pushed by the VPN profile (in-country), not a global resolver.") 15 r
    else r

abbrev datacenter_step : Signal → Draft → Draft
datacenter_step s r =
    if s.is_proxy_flagged || s.is_hosting_flagged
    then add warn (codes "asn.datacenter") (codes "Egress IP is a datacenter/proxy range")
        (codes
          "The egress IP is flagged as hosting/proxy (typical for VPN servers). Strict services (Google/Cloudflare) may challenge or block it.")
        (codes
          "Prefer residential/ISP-grade exit servers if available; rotate to a less-flagged zone (mazzy-vpn test).")
        15 r
    else r

abbrev cloudflare_step : (Text → Text → Bool) → Signal → Draft → Draft
cloudflare_step equal_fold s r =
    if disagree equal_fold s.cloudflare_loc s.egress_country
    then add info (codes "cloudflare.colo") (codes "Cloudflare sees a different country")
        (codes "Cloudflare reports loc="
          ++ s.cloudflare_loc
          ++ codes " (edge "
          ++ s.cloudflare_colo
          ++ codes ") vs egress "
          ++ s.egress_country
          ++ codes ". Usually benign (nearest PoP), but worth noting.")
        (codes "No action needed unless a service geo-blocks; try a zone closer to a matching PoP.")
        5 r
    else r

abbrev webrtc_step : Draft → Draft
webrtc_step r =
    add info (codes "webrtc.advisory") (codes "WebRTC may leak your real IP in browsers")
      (codes
        "WebRTC can expose your real IP via UDP even with the VPN up; the CLI cannot detect this (browser-only).")
      (codes "Disable WebRTC or force proxied UDP: mazzy-vpn mimic --process prints browser flags.")
      0 r

abbrev pub clean_text : Text
clean_text = codes "clean — looks like a real local user"

abbrev pub verdict_of : ℕ → Text
verdict_of score =
    if leb 85 score
    then clean_text
    else if leb 60 score
    then codes "acceptable — minor tells, fix warnings for strict services"
    else if leb 35 score
    then codes "risky — likely detectable as VPN"
    else codes "exposed — will be flagged as VPN"

abbrev empty_draft : Draft
empty_draft = record { found = []; penalty = 0 }

abbrev draft : (Text → Text → Bool) → Signal → Draft
draft equal_fold s = webrtc_step (
    cloudflare_step equal_fold s (
      datacenter_step s
        (dns_step equal_fold s (timezone_step equal_fold s (ipv6_step s empty_draft)))))

-- Analyze; a score below 0 becomes 0, as subtraction on ℕ has it.
unfoldable pub analyze : (Text → Text → Bool) → Signal → Report
analyze equal_fold s =
    let r = draft equal_fold s in
    let score = 100 - r.penalty in
    record { findings = r.found; score = score; verdict = verdict_of score }
