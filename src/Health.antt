-- ===== src/Health.antt =====
-- The health monitor (core/health/health.go). What the probes and the recovery would answer in one
-- tick is an `Observation`; Check asks for them in the source's order.
pub mod Streak
use mazzy_vpn.Base.{
  ℕ, suc, ◌+◌, ◌-◌, ◌^◌, ◌≤◌, Bool, true, false, not, ◌&&◌, Option, none, some, List, [], ◌∷◌,
  if◌then◌else◌, ltb, nat_beq, leb_ℤ, ℤ, pos, negsuc, Text, codes, ◌==◌,
}

pub record Config : Type 0 where
  pub failure_limit : ℤ

abbrev at_least_one : ℤ → ℕ
at_least_one (pos (suc n)) = suc n
at_least_one _ = 2

unfoldable pub limit : Config → ℕ
limit c = at_least_one c.failure_limit

abbrev pub max_int : ℕ
max_int = 2 ^ 63 - 1

pub record Monitor : Type 0 where
  pub cfg : Config
  pub failures : ℕ
  pub recovered_at_limit : Bool

unfoldable pub new : Config → Monitor
new cfg = record { cfg = cfg; failures = 0; recovered_at_limit = false }

-- The answers of LinkPresent, InStartupGrace, InternetOK (with its reason) and Recover in a tick.
pub record Observation : Type 0 where
  pub link_present : Bool
  pub startup_grace : Bool
  pub internet_ok : Bool
  pub reason : Text
  pub recover_error : Option Text

pub record Result : Type 0 where
  pub healthy : Bool
  pub failures : ℕ
  pub limit : ℕ
  pub recovered : Bool
  pub recover_error : Option Text
  pub reason : Text
  pub deferred : Bool

-- `m.failures < limit+1`, where the sum wraps to a negative int at the largest limit.
unfoldable pub may_count : ℕ → ℕ → Bool
may_count failures limit = not (nat_beq limit max_int) && ltb failures (limit + 1)

unfoldable pub fail : Monitor → Observation → Text → ℕ → Monitor × Result
unfolding may_count
fail m o reason lim =
    let n = if may_count m.failures lim then m.failures + 1 else m.failures in
    let res : Result = record {
      healthy = false;
      failures = n;
      limit = lim;
      recovered = false;
      recover_error = none;
      reason = reason;
      deferred = false;
    } in
    if nat_beq n lim && not m.recovered_at_limit
    then (
      record m { failures = n; recovered_at_limit = true },
      record res { recovered = true; recover_error = o.recover_error },
    )
    else (record m { failures = n }, res)

unfoldable pub reset : Monitor → Monitor
reset m = record m { failures = 0; recovered_at_limit = false }

abbrev defer : Monitor → ℕ → Text → Monitor × Result
defer m lim reason = (
  m,
  record {
    healthy = false;
    failures = m.failures;
    limit = lim;
    recovered = false;
    recover_error = none;
    reason = reason;
    deferred = true;
  },
)

unfoldable pub check : Monitor → Observation → Monitor × Result
unfolding limit fail reset
check m o =
    let lim = limit m.cfg in
    if not o.link_present
    then (if o.startup_grace
        then defer m lim (codes "interface still being created (startup grace)")
        else fail m o (codes "VPN interface missing") lim)
    else if not o.internet_ok
    then (if o.startup_grace
        then defer m lim (codes "data plane not ready (startup grace)")
        else fail m o (if o.reason == [] then codes "no internet access through VPN" else o.reason)
            lim)
    else (
      reset m,
      record {
        healthy = true;
        failures = 0;
        limit = lim;
        recovered = false;
        recover_error = none;
        reason = [];
        deferred = false;
      },
    )

-- The ticks of RunUntil before its context is cancelled, with the result that each one reports.
unfoldable pub run_until : Monitor → List Observation → Monitor × List Result
run_until m [] = (m, [])
run_until m (o ∷ os) = let r = check m o in let rest = run_until r.0 os in (rest.0, r.1 ∷ rest.1)
