-- ===== src/Doctor/Counts.antt =====
-- The counts of a report of core/doctor/doctor.go, and when the host is healthy.
use mazzy_vpn.Base.{◌+◌, ◌≡◌, Bool, true, false, ◌&&◌, codes, length, arith, keep}
use mazzy_vpn.Doctor.{Level, warn, fail, Check, is_healthy, Environment, add, run}

abbrev pub is_fail : Level → Bool
is_fail fail = true
is_fail _ = false

abbrev pub is_warn : Level → Bool
is_warn warn = true
is_warn _ = false

abbrev pub level_of : Check → Level
level_of c = c.level

-- What each check needs in order not to fail; the tools are looked up by name.
abbrev pub can_run : Environment → Bool
can_run env =
    env.look_path (codes "ip")
    && env.look_path (codes "nft")
    && env.file_exists (codes "/dev/net/tun")

-- The report has six checks, its counters count their levels, and the host is healthy exactly if
-- `ip`, `nft` and the TUN device are there: DNS backend and privilege never make it unhealthy.
pub run_report :
    (env : Environment)
    → let r = run env in
      (length r.checks ≡ 6)
      × (r.fail ≡ length (keep (λ c. is_fail (level_of c)) r.checks))
      × (r.warn ≡ length (keep (λ c. is_warn (level_of c)) r.checks))
      × (r.ok + r.warn + r.fail ≡ 6)
      × (is_healthy r ≡ can_run env)
unfolding run add is_healthy keep
run_report env = ground arith
