-- ===== src/Examples/Hosts.antt =====
-- Tests of what works on the host: the lock, the wait for traffic, the recovery, the swap of the binary
-- (core/lock, core/livecheck, mazzy-vpn-cli/cmd/mazzy-vpn/recover.go, update.go).
use mazzy_vpn.Base.{
  ℕ, suc, ◌*◌, ◌≡◌, ◌≢◌, ◌⊎◌, refl, true, false, not, ◌&&◌, none, some, List, [], ◌∷◌, codes,
  contains, pos, arith, is_some, leb,
}
use mazzy_vpn.Protocols.{managed_interfaces}
use mazzy_vpn.Network.Routes.{default_mark}
use mazzy_vpn.Boot.File.{Faults, absent}
use mazzy_vpn.Lock
use mazzy_vpn.Lock.{
  new_world, acquires, unlocks, tries, starts_waiting, acquire_recovery, run_ops, out_of_fuel,
}
use mazzy_vpn.Lock.Exclusive.{IsSole, acquire_recovery-IsSole}
use mazzy_vpn.Lock.Waiting.{acquire_recovery-total}
use mazzy_vpn.LiveCheck
use mazzy_vpn.LiveCheck.{wait_protected}
use mazzy_vpn.LiveCheck.Waiting.{Ends, wait_protected-Ends}
use mazzy_vpn.Recover
use mazzy_vpn.Recover.{Machine, recover, rounds}
use mazzy_vpn.Recover.Restored.{count, rules, less, NoTables}
use mazzy_vpn.Recover.Clean.{has_routes, recover-restores, recover-other_mark}
use mazzy_vpn.Update
use mazzy_vpn.Update.{replace_binary}
use mazzy_vpn.Update.Swap.{replace_binary-leaves}

abbrev lock_calls : Lock.Calls
lock_calls = record { mkdir = true; chmod = true; open_file = true; flock = true }

abbrev held : List Lock.Op
held = acquires lock_calls ∷ starts_waiting lock_calls ∷ []

-- The holder unlocks during the second sleep.
abbrev freed : ℕ → List Lock.Op
freed i = elim (leb i 0) [ true ↦ [] | false ↦ unlocks 3 ∷ [] ]

abbrev waiting : Lock.Env
waiting = record { flock_ok = λ i. true; clock = λ i. 100 * suc i; others = freed }

acquire_recovery-IsSole_example :
    IsSole (acquire_recovery lock_calls waiting 0 (pos 1000) (run_ops held new_world))
acquire_recovery-IsSole_example = acquire_recovery-IsSole held lock_calls waiting 0 (pos 1000)

acquire_recovery-total_example :
    acquire_recovery lock_calls waiting 0 (pos 1000) (run_ops held new_world) ≢ out_of_fuel
acquire_recovery-total_example =
    acquire_recovery-total lock_calls waiting 0 (pos 1000) (run_ops held new_world)
      (omega arith, λ i. omega arith)

-- Traffic flows from the second check on.
abbrev answers : ℕ → LiveCheck.Answer
answers i = record {
  time = codes "t";
  link_present = true;
  egress = elim (leb i 0) [ true ↦ none | false ↦ some (codes "192.0.2.7") ];
}

abbrev watching : LiveCheck.Env
watching = record { answer = answers; clock = λ i. 1000 * suc i; cancelled = λ i. false }

wait_protected-Ends_example :
    Ends (wait_protected (codes "vpn-wg") watching 0 5000) (codes "vpn-wg") watching 5000 0
wait_protected-Ends_example =
    wait_protected-Ends (codes "vpn-wg") watching 0 5000 (omega arith, λ i. omega arith)

abbrev no_faults : Faults
no_faults = record {
  mkdir = true;
  chmod_dir = true;
  create_temp = true;
  chmod_temp = true;
  write = true;
  torn = [];
  sync = true;
  close = true;
  remove = true;
  rename = true;
  open_dir = true;
  sync_dir = true;
}

abbrev left_over : Machine
left_over = record {
  links = codes "eth0" ∷ codes "vpnwg0" ∷ [];
  ipv6_table = true;
  transition_table = false;
  connmark_table = true;
  marks_4 = default_mark ∷ 77 ∷ default_mark ∷ [];
  marks_6 = default_mark ∷ [];
  suppress_4 = 2;
  suppress_6 = 1;
  routed_4 =
      record { table = default_mark; device = codes "vpnwg0" }
      ∷ record { table = 254; device = codes "eth0" }
      ∷ [];
  routed_6 = record { table = default_mark; device = codes "vpnwg0" } ∷ [];
  intent = record { file = absent; temps = [] };
  catalog_removed = false;
}

abbrev world : Recover.World
world = record { is_root = true; host = λ c. true; readable = true; faults = no_faults }

recover-restores_example :
    let m' = (recover world false left_over).1 in
    (contains (codes "vpnwg0") m'.links ≡ (
      contains (codes "vpnwg0") left_over.links
      && not (contains (codes "vpnwg0") managed_interfaces)))
    × NoTables m'
    × (has_routes default_mark m'.routed_4 ≡ false)
    × (rules default_mark m' ≡ less rounds (rules default_mark left_over))
recover-restores_example = recover-restores world false left_over (codes "vpnwg0") refl (λ c. refl)

recover-other_mark_example :
    let m' = (recover world false left_over).1 in
    (count 77 m'.marks_4 ≡ count 77 left_over.marks_4)
    × (count 77 m'.marks_6 ≡ count 77 left_over.marks_6)
recover-other_mark_example =
    recover-other_mark world false left_over 77 refl (λ e. omega (arith, e))

abbrev busy_text : Update.Calls
busy_text = record {
  size = some 5000000;
  remove_old = true;
  rename = false;
  open_source = true;
  open_target = true;
  copy = false;
  torn = codes "ne";
  close = true;
  roll_back = true;
  remove_backup = true;
}

abbrev installed : Update.Files
installed = record { target = some (codes "old"); backup = none }

replace_binary-leaves_example :
    let r = replace_binary busy_text (codes "new") installed in
    ((r.1 ≡ none) × (r.0.target ≡ some (codes "new")))
    ⊎ ((is_some r.1 ≡ true) × (r.0.target ≡ some (codes "old")))
    ⊎ ((is_some r.1 ≡ true)
        × (false ≡ false)
        × ((r.0.target ≡ some (codes "ne")) ⊎ (r.0.target ≡ some (codes "new"))))
    ⊎ ((is_some r.1 ≡ true) × (false ≡ true) × (true ≡ false))
replace_binary-leaves_example =
    replace_binary-leaves busy_text (codes "old") (codes "new") installed refl
