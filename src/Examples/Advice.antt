-- ===== src/Examples/Advice.antt =====
-- Tests of the packages that judge and advise: core/verify, core/doctor, core/diagnose, core/provider,
-- core/measure and the names of core/types.go.
use mazzy_vpn.Base.{
  ℕ, ◌≡◌, refl, Bool, true, false, some, List, [], ◌∷◌, map, Text, codes, ◌==◌, pos,
}
use mazzy_vpn.Protocols.{canonical_protocol, wireguard}
use mazzy_vpn.Verify.{Observation, evaluate}
use mazzy_vpn.Verify.Verdicts.{evaluate_exact, finding, faults, verdict_of, message_of}
use mazzy_vpn.ZoneScore.{Score, Cache, rank, is_fresh}
use mazzy_vpn.Base.Dict
use mazzy_vpn.Measure.{Result, rank_best, best_alive}

abbrev leaky : Observation
leaky = record {
  tunnel_active = true;
  bound_v4 = codes "203.0.113.9";
  default_v4 = codes "203.0.113.9";
  bound_v6 = [];
  default_v6 = codes "2001:db8::1";
  observed_cc = codes "NL";
  expected_cc = codes "nl";
  dns_through_vpn = some true;
}

evaluate_exact_example :
    ((evaluate leaky).findings ≡ map finding (faults leaky))
    × ((evaluate leaky).verdict ≡ verdict_of (faults leaky))
    × ((evaluate leaky).message_key ≡ message_of (faults leaky))
evaluate_exact_example = evaluate_exact leaky

abbrev probed : Bool → ℕ → Result
probed alive latency = record {
  name = codes "nl-1";
  endpoint = codes "203.0.113.9:51820";
  reachable = true;
  latency_ms = 1;
  icmp_alive = alive;
  error = [];
  latency = latency;
}

abbrev all_probed : List Result
all_probed = probed false 1 ∷ probed true 9 ∷ probed true 7 ∷ []

chosen : best_alive (rank_best all_probed) ≡ some (probed true 7)
unfolding best_alive rank_best
chosen = refl

wire : canonical_protocol (codes "wg") ≡ some wireguard
unfolding canonical_protocol ◌==◌
wire = refl

abbrev zone_score : Text → ℕ → Score
zone_score zone score = record {
  zone = zone;
  stealth_score = pos score;
  is_datacenter = false;
  egress_cc = [];
  updated_at = pos 1000;
}

abbrev cache : Cache
cache = (codes "nl", zone_score (codes "nl") 60) ∷ (codes "de", zone_score (codes "de") 90) ∷ []

abbrev zones : List Text
zones = codes "fr" ∷ codes "nl" ∷ codes "de" ∷ []

abbrev hour : ℕ
hour = 3600000000000

abbrev soon : ℕ
soon = 1001000000000

ranked : rank cache (pos hour) (pos soon) zones ≡ codes "de" ∷ codes "nl" ∷ codes "fr" ∷ []
unfolding rank is_fresh Dict.get ◌==◌
ranked = refl
