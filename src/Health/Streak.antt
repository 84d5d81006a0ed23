-- ===== src/Health/Streak.antt =====
-- The monitor against its specification: the number of counted failures since the last healthy tick
-- (core/health/health.go).
use mazzy_vpn.Base.{
  ℕ, suc, ◌+◌, ◌<◌, ◌≡◌, Bool, false, not, ◌&&◌, List, [], ◌∷◌, if◌then◌else◌, leb, nat_beq, refl,
  arith, min, All,
}
use mazzy_vpn.Health.{
  Config, Monitor, Observation, Result, limit, may_count, max_int, new, check, run_until,
}

-- A failure is counted: the link or the internet is missing outside the startup grace.
abbrev pub counts : Observation → Bool
counts o = not (o.link_present && o.internet_ok) && not o.startup_grace

abbrev pub is_healthy : Observation → Bool
is_healthy o = o.link_present && o.internet_ok

-- The counted failures since the last healthy tick.
abbrev pub streak : ℕ → Observation → ℕ
streak n o = if is_healthy o then 0 else if counts o then suc n else n

-- Recovery is due in the tick in which the streak reaches the limit.
abbrev pub due : ℕ → ℕ → Observation → Bool
due lim n o = counts o && nat_beq (suc n) lim

abbrev pub spec_run : ℕ → ℕ → List Observation → List Bool
spec_run lim n [] = []
spec_run lim n (o ∷ os) = due lim n o ∷ spec_run lim (streak n o) os

abbrev pub recoveries : List Result → List Bool
recoveries [] = []
recoveries (r ∷ rs) = r.recovered ∷ recoveries rs

-- The counter stops one above the limit, and the flag says whether the limit was reached.
pub record Counts (cfg : Config) (n : ℕ) (m : Monitor) : Type 0 where
  pub same_cfg : m.cfg ≡ cfg
  pub capped : m.failures ≡ min n (limit cfg + 1)
  pub reached : m.recovered_at_limit ≡ leb (limit cfg) n

limit_pos : (cfg : Config) → 0 < limit cfg
unfolding limit
limit_pos cfg = ground arith

check-Counts :
    (cfg : Config) (n : ℕ) (m : Monitor) (o : Observation)
    → limit cfg < max_int
    → Counts cfg n m
    → Counts cfg (streak n o) (check m o).0 × ((check m o).1.recovered ≡ due (limit cfg) n o)
unfolding check may_count
check-Counts cfg n m o small h = ground (arith, limit_pos cfg)

run_until-Counts :
    (cfg : Config) (n : ℕ) (m : Monitor) (os : List Observation)
    → limit cfg < max_int
    → Counts cfg n m
    → recoveries (run_until m os).1 ≡ spec_run (limit cfg) n os
unfolding run_until
run_until-Counts cfg n m [] small h = refl
run_until-Counts cfg n m (o ∷ os) small h =
    let (kept, same) = check-Counts cfg n m o small h in
    cc (same, run_until-Counts cfg (streak n o) (check m o).0 os small kept)

new-Counts : (cfg : Config) → Counts cfg 0 (new cfg)
unfolding new
new-Counts cfg = ground (arith, limit_pos cfg)

-- For every list of ticks of a new monitor, a tick fires the recovery exactly if it is the counted
-- failure with which the streak since the last healthy tick reaches the limit (limits below the
-- largest int).
pub recoveries-run_until :
    (cfg : Config) (os : List Observation)
    → limit cfg < max_int
    → recoveries (run_until (new cfg) os).1 ≡ spec_run (limit cfg) 0 os
recoveries-run_until cfg os small = run_until-Counts cfg 0 (new cfg) os small (new-Counts cfg)

abbrev pub count_true : List Bool → ℕ
count_true [] = 0
count_true (b ∷ bs) = (if b then 1 else 0) + count_true bs

abbrev pub count_failures : List Observation → ℕ
count_failures [] = 0
count_failures (o ∷ os) = (if counts o then 1 else 0) + count_failures os

count_true-spec_run :
    (lim n : ℕ) (os : List Observation)
    → All (λ o. is_healthy o ≡ false) os
    → count_true (spec_run lim n os)
      ≡ (if leb lim n then 0 else if leb lim (n + count_failures os) then 1 else 0)
count_true-spec_run lim n [] h = ground arith
count_true-spec_run lim n (o ∷ os) h = ground (arith, count_true-spec_run lim (streak n o) os h.1)

-- Through ticks none of which is healthy, the recovery fires once if the counted failures reach the
-- limit, and else never (limits below the largest int).
pub recover_once :
    (cfg : Config) (os : List Observation)
    → limit cfg < max_int
    → All (λ o. is_healthy o ≡ false) os
    → count_true (recoveries (run_until (new cfg) os).1)
      ≡ (if leb (limit cfg) (count_failures os) then 1 else 0)
recover_once cfg os small h = ground (
  arith,
  recoveries-run_until cfg os small,
  count_true-spec_run (limit cfg) 0 os h,
  limit_pos cfg,
)
