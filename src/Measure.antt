-- ===== src/Measure.antt =====
-- core/measure/measure.go: the order of probed endpoints, and the best of them.
pub mod Best
use mazzy_vpn.Base.{
  ℕ, ◌+◌, Bool, true, false, not, ◌&&◌, ◌||◌, Option, none, some, List, [], ◌∷◌, if◌then◌else◌,
  Text, ltb, sort_by,
}

-- A result; `latency` is the internal duration that the order compares, in nanoseconds.
pub record Result : Type 0 where
  pub name : Text
  pub endpoint : Text
  pub reachable : Bool
  pub latency_ms : ℕ
  pub icmp_alive : Bool
  pub error : Text
  pub latency : ℕ

abbrev pub is_same : Bool → Bool → Bool
is_same true b = b
is_same false b = not b

-- The test of the sort in RankBest.
abbrev pub is_better : Result → Result → Bool
is_better a b =
    if not (is_same a.icmp_alive b.icmp_alive)
    then a.icmp_alive
    else if not (is_same a.reachable b.reachable)
    then a.reachable
    else ltb a.latency b.latency

-- RankBest, after every target has been probed.
unfoldable pub rank_best : List Result → List Result
unfolding sort_by
rank_best rs = sort_by is_better rs

unfoldable pub first : (Result → Bool) → List Result → Option Result
first p [] = none
first p (r ∷ rs) = let rest = first p rs in if p r then some r else rest

abbrev pub or_first : Option Result → Option Result → Option Result
or_first none o = o
or_first (some r) o = some r

-- BestAlive
unfoldable pub best_alive : List Result → Option Result
unfolding first
best_alive rs = or_first (first (λ r. r.icmp_alive) rs) (first (λ r. r.reachable) rs)
