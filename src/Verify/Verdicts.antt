-- ===== src/Verify/Verdicts.antt =====
-- What the verdict of core/verify/verify.go says of the observation.
use mazzy_vpn.Base.{
  ◌≡◌, refl, ◌↔◌, Bool, false, not, ◌&&◌, List, [], ◌∷◌, map, Text, codes, ◌==◌, ==_iff, keep,
  arith,
}
use mazzy_vpn.Verify.{
  Verdict, verified, warning, failed, Observation, lower, fold_loop, equal_fold, dns_outside,
  evaluate,
}

-- Two strings are equal for the country check exactly if they are equal in lower case.
pub equal_fold-lower : (a b : Text) → equal_fold a b ≡ (map lower a == map lower b)
unfolding equal_fold fold_loop ◌==◌
equal_fold-lower [] [] = refl
equal_fold-lower [] (y ∷ ys) = ground arith
equal_fold-lower (x ∷ xs) [] = ground arith
equal_fold-lower (x ∷ xs) (y ∷ ys) = ground (arith, equal_fold-lower xs ys)

-- What can be wrong with a connection, and when it is.
pub data Fault : Type 0 where
  inactive no_egress route_differs ipv6_leaks country_differs dns_leaks : Fault

abbrev pub is_known : Text → Bool
is_known t = not (t == [])

abbrev pub is_found : Observation → Fault → Bool
is_found o inactive = not o.tunnel_active
is_found o no_egress = o.tunnel_active && not (is_known o.bound_v4)
is_found o route_differs =
    o.tunnel_active && is_known o.bound_v4 && not (o.bound_v4 == o.default_v4)
is_found o ipv6_leaks = o.tunnel_active && is_known o.default_v6 && not (o.bound_v6 == o.default_v6)
is_found o country_differs =
    o.tunnel_active
    && is_known o.expected_cc
    && is_known o.observed_cc
    && not (map lower o.expected_cc == map lower o.observed_cc)
is_found o dns_leaks = o.tunnel_active && dns_outside o.dns_through_vpn

abbrev pub finding : Fault → Text
finding inactive = codes "verify.tunnel.inactive"
finding no_egress = codes "verify.ipv4.bound-unavailable"
finding route_differs = codes "verify.ipv4.route-mismatch"
finding ipv6_leaks = codes "verify.ipv6.potential-leak"
finding country_differs = codes "verify.geo.country-mismatch"
finding dns_leaks = codes "verify.dns.not-through-vpn"

abbrev pub message : Fault → Text
message inactive = codes "verify.failed.inactive"
message no_egress = codes "verify.failed.no-egress"
message route_differs = codes "verify.warning.route-mismatch"
message ipv6_leaks = codes "verify.warning.ipv6-leak"
message country_differs = codes "verify.warning.country-mismatch"
message dns_leaks = codes "verify.warning.dns-leak"

abbrev pub severity : Fault → Verdict
severity inactive = failed
severity no_egress = failed
severity _ = warning

abbrev pub faults : Observation → List Fault
faults o =
    keep (is_found o)
      (inactive ∷ no_egress ∷ route_differs ∷ ipv6_leaks ∷ country_differs ∷ dns_leaks ∷ [])

-- The verdict and the message are those of the first fault, and a fault that fails is first.
abbrev pub verdict_of : List Fault → Verdict
verdict_of [] = verified
verdict_of (x ∷ xs) = severity x

abbrev pub message_of : List Fault → Text
message_of [] = codes "verify.verified"
message_of (x ∷ xs) = message x

-- Evaluate reports every fault that the observation has, in the fixed order, with the verdict and
-- the message of the first of them, and `verified` if there is none.
pub evaluate_exact :
    (o : Observation)
    → ((evaluate o).findings ≡ map finding (faults o))
      × ((evaluate o).verdict ≡ verdict_of (faults o))
      × ((evaluate o).message_key ≡ message_of (faults o))
unfolding evaluate keep
evaluate_exact o = ground (
  arith,
  equal_fold-lower o.expected_cc o.observed_cc,
  ==_iff o.bound_v4 o.default_v4,
  ==_iff o.bound_v4 [],
  ==_iff o.default_v4 [],
  ==_iff o.bound_v6 o.default_v6,
  ==_iff o.bound_v6 [],
  ==_iff o.default_v6 [],
)

-- A failed verdict means that the tunnel is down or carries no IPv4, and then only.
pub failed_exact :
    (o : Observation)
    → ((evaluate o).verdict ≡ failed) ↔ (o.tunnel_active && is_known o.bound_v4 ≡ false)
unfolding keep
failed_exact o = ground (arith, (evaluate_exact o).1)
