-- ===== src/LiveCheck.antt =====
-- core/livecheck/livecheck.go: whether the tunnel carries traffic. Times are in milliseconds.
pub mod Waiting
use mazzy_vpn.Base.{
  ℕ, zero, suc, ◌+◌, ◌/◌, Bool, true, false, not, ◌&&◌, ◌||◌, Option, none, some, [], if◌then◌else◌,
  Text, codes, ◌==◌, ltb,
}

pub record Snapshot : Type 0 where
  pub interface : Text
  pub link_up : Bool
  pub egress_ip : Text
  pub egress_ok : Bool
  pub reason : Text
  pub at : Text

-- The method Protected.
unfoldable pub is_protected : Snapshot → Bool
is_protected s = s.link_up && s.egress_ok

-- What one check meets: the time as text, the interface, and what the request to the IP echo answers
-- (none is an error).
pub record Answer : Type 0 where
  pub time : Text
  pub link_present : Bool
  pub egress : Option Text

abbrev pub fresh : Text → Text → Snapshot
fresh iface time = record {
  interface = iface;
  link_up = false;
  egress_ip = [];
  egress_ok = false;
  reason = [];
  at = time;
}

abbrev pub without_traffic : Snapshot → Snapshot
without_traffic s = record s { reason = codes "no traffic through tunnel yet" }

abbrev pub with_egress : Option Text → Snapshot → Snapshot
with_egress none s = without_traffic s
with_egress (some ip) s =
    if ip == [] then without_traffic s else record s { egress_ip = ip; egress_ok = true }

-- The method Check.
unfoldable pub check : Text → Answer → Snapshot
unfolding ◌==◌
check iface a =
    let s = fresh iface a.time in
    if not a.link_present
    then record s { reason = codes "interface not present" }
    else with_egress a.egress (record s { link_up = true })

-- What the wait meets: the answers of each check, the time after it, and whether the context is done in
-- the pause of a second that follows.
pub record Env : Type 0 where
  pub answer : ℕ → Answer
  pub clock : ℕ → ℕ
  pub cancelled : ℕ → Bool

-- The loop of WaitProtected from its check `i`; none is out of fuel.
unfoldable pub wait_loop : ℕ → Text → Env → ℕ → ℕ → Option Snapshot
unfolding check is_protected
wait_loop zero iface e deadline i = none
wait_loop (suc f) iface e deadline i =
    let last = check iface (e.answer i) in
    let again = wait_loop f iface e deadline (suc i) in
    if is_protected last
    then some last
    else if ltb deadline (e.clock i)
    then some last
    else if e.cancelled i
    then some last
    else again

-- Checks that are enough: the pauses of a second that fit into the wait, and one after the deadline.
abbrev pub enough : ℕ → ℕ
enough timeout = timeout / 1000 + 3

-- WaitProtected; `start` is the time that the deadline is counted from.
unfoldable pub wait_protected : Text → Env → ℕ → ℕ → Option Snapshot
unfolding wait_loop
wait_protected iface e start timeout = wait_loop (enough timeout) iface e (start + timeout) 0
