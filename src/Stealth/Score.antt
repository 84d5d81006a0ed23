-- ===== src/Stealth/Score.antt =====
-- What the score of core/stealth/stealth.go says of the signals.
use mazzy_vpn.Base.{
  ℕ, ◌+◌, ◌-◌, ◌≡◌, Bool, true, not, ◌&&◌, ◌||◌, List, [], ◌∷◌, map, keep, Text, codes, ◌==◌, arith,
}
use mazzy_vpn.Stealth.{Signal, Finding, disagree, clean_text, analyze}

-- The signs of a VPN, the advice on WebRTC being given always.
pub data Sign : Type 0 where
  ipv6 timezone dns datacenter cloudflare webrtc : Sign

abbrev pub is_shown : (Text → Text → Bool) → Signal → Sign → Bool
is_shown equal_fold s ipv6 = s.ipv6_leaked
is_shown equal_fold s timezone = disagree equal_fold s.expected_tz_cc s.egress_country
is_shown equal_fold s dns = disagree equal_fold s.dns_country s.egress_country
is_shown equal_fold s datacenter = s.is_proxy_flagged || s.is_hosting_flagged
is_shown equal_fold s cloudflare = disagree equal_fold s.cloudflare_loc s.egress_country
is_shown equal_fold s webrtc = true

abbrev pub vector : Sign → Text
vector ipv6 = codes "ipv6.leak"
vector timezone = codes "timezone.mismatch"
vector dns = codes "dns.mismatch"
vector datacenter = codes "asn.datacenter"
vector cloudflare = codes "cloudflare.colo"
vector webrtc = codes "webrtc.advisory"

abbrev pub weight : Sign → ℕ
weight ipv6 = 40
weight timezone = 35
weight dns = 15
weight datacenter = 15
weight cloudflare = 5
weight webrtc = 0

abbrev pub total : List Sign → ℕ
total [] = 0
total (x ∷ xs) = weight x + total xs

abbrev pub signs : (Text → Text → Bool) → Signal → List Sign
signs equal_fold s =
    keep (is_shown equal_fold s) (ipv6 ∷ timezone ∷ dns ∷ datacenter ∷ cloudflare ∷ webrtc ∷ [])

-- The findings are the signs that show, in the fixed order, and the score is 100 less their weights,
-- but not below 0.
pub analyze-signs :
    (equal_fold : Text → Text → Bool) (s : Signal)
    → let r = analyze equal_fold s in
      (map (λ (f : Finding). f.vector) r.findings ≡ map vector (signs equal_fold s))
      × (r.score ≡ 100 - total (signs equal_fold s))
unfolding analyze keep
analyze-signs equal_fold s = ground arith

-- The verdict `clean` is given exactly if neither IPv6 leaks nor the time zone differs and not both
-- the resolver's country differs and the address is a datacenter's, nor one of these with
-- Cloudflare's country.
pub analyze-clean :
    (equal_fold : Text → Text → Bool) (s : Signal)
    → let shown = is_shown equal_fold s in
      ((analyze equal_fold s).verdict == clean_text) ≡ (
        not (shown ipv6)
        && not (shown timezone)
        && not (shown dns && shown datacenter)
        && not ((shown dns || shown datacenter) && shown cloudflare))
unfolding analyze ◌==◌
analyze-clean equal_fold s = ground arith
