-- ===== src/Verify.antt =====
-- core/verify/verify.go: the verdict on what was observed of a connection. A string is the list of its
-- bytes here.
pub mod Verdicts
use mazzy_vpn.Base.{
  ℕ, ◌+◌, Bool, true, false, not, ◌&&◌, ◌||◌, Option, none, some, List, [], ◌∷◌, ◌++◌,
  if◌then◌else◌, Text, codes, ◌==◌, leb, nat_beq, length,
}

pub data Verdict : Type 0 where
  verified warning failed : Verdict

pub record Observation : Type 0 where
  pub tunnel_active : Bool
  pub bound_v4 : Text
  pub default_v4 : Text
  pub bound_v6 : Text
  pub default_v6 : Text
  pub observed_cc : Text
  pub expected_cc : Text
  pub dns_through_vpn : Option Bool

pub record Result : Type 0 where
  pub verdict : Verdict
  pub message_key : Text
  pub findings : List Text
  pub active : Bool
  pub route_match : Bool
  pub ipv6_leak : Bool
  pub country_ok : Text
  pub egress_ipv4 : Text

abbrev pub lower : ℕ → ℕ
lower c = if leb 65 c && leb c 90 then c + 32 else c

unfoldable pub fold_loop : Text → Text → Bool
fold_loop [] _ = true
fold_loop (x ∷ xs) [] = false
fold_loop (x ∷ xs) (y ∷ ys) = if not (nat_beq (lower x) (lower y)) then false else fold_loop xs ys

-- eqFold
unfoldable pub equal_fold : Text → Text → Bool
unfolding fold_loop
equal_fold a b = if not (nat_beq (length a) (length b)) then false else fold_loop a b

abbrev pub is_failed : Verdict → Bool
is_failed failed = true
is_failed _ = false

abbrev pub is_warning : Verdict → Bool
is_warning warning = true
is_warning _ = false

abbrev pub is_verified : Verdict → Bool
is_verified verified = true
is_verified _ = false

unfoldable pub escalate : Verdict → Text → Result → Result
escalate to key r =
    if is_failed r.verdict
    then r
    else if is_warning to && is_verified r.verdict
    then record r { verdict = warning; message_key = key }
    else r

abbrev pub add_finding : Text → Result → Result
add_finding t r = record r { findings = r.findings ++ t ∷ [] }

abbrev start : Result
start = record {
  verdict = verified;
  message_key = codes "verify.verified";
  findings = [];
  active = false;
  route_match = false;
  ipv6_leak = false;
  country_ok = codes "unknown";
  egress_ipv4 = [];
}

unfoldable pub ipv4_step : Observation → Result → Result
unfolding escalate
ipv4_step o r =
    if o.bound_v4 == []
    then add_finding (codes "verify.ipv4.bound-unavailable")
        (record r { verdict = failed; message_key = codes "verify.failed.no-egress" })
    else let r = record r { egress_ipv4 = o.bound_v4 } in
      if not (o.default_v4 == []) && o.bound_v4 == o.default_v4
      then record r { route_match = true }
      else escalate warning (codes "verify.warning.route-mismatch")
          (add_finding (codes "verify.ipv4.route-mismatch") r)

unfoldable pub ipv6_step : Observation → Result → Result
unfolding escalate
ipv6_step o r =
    if not (o.default_v6 == []) && (o.bound_v6 == [] || not (o.bound_v6 == o.default_v6))
    then escalate warning (codes "verify.warning.ipv6-leak")
        (add_finding (codes "verify.ipv6.potential-leak") (record r { ipv6_leak = true }))
    else r

unfoldable pub country_step : Observation → Result → Result
unfolding escalate equal_fold
country_step o r =
    if o.expected_cc == [] || o.observed_cc == []
    then record r { country_ok = codes "unknown" }
    else if equal_fold o.expected_cc o.observed_cc
    then record r { country_ok = codes "match" }
    else escalate warning (codes "verify.warning.country-mismatch") (
        add_finding (codes "verify.geo.country-mismatch")
          (record r { country_ok = codes "mismatch" }))

-- The pointer DNSThroughVPN is nil where it is unknown.
abbrev pub dns_outside : Option Bool → Bool
dns_outside none = false
dns_outside (some b) = not b

unfoldable pub dns_step : Observation → Result → Result
unfolding escalate
dns_step o r =
    if dns_outside o.dns_through_vpn
    then escalate warning (codes "verify.warning.dns-leak")
        (add_finding (codes "verify.dns.not-through-vpn") r)
    else r

abbrev inactive_result : Result
inactive_result = record {
  verdict = failed;
  message_key = codes "verify.failed.inactive";
  findings = codes "verify.tunnel.inactive" ∷ [];
  active = false;
  route_match = false;
  ipv6_leak = false;
  country_ok = [];
  egress_ipv4 = [];
}

unfoldable pub evaluate : Observation → Result
unfolding ipv4_step ipv6_step country_step dns_step
evaluate o =
    if not o.tunnel_active
    then inactive_result
    else let r = record start { active = true } in
      dns_step o (country_step o (ipv6_step o (ipv4_step o r)))
