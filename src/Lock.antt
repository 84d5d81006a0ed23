-- ===== src/Lock.antt =====
-- The mutation lock (core/lock/lock.go): descriptors of the lock file and the flock that one of them
-- holds. Times are in milliseconds.
pub mod Exclusive
pub mod Waiting
use mazzy_vpn.Base.{
  ℕ, zero, suc, ◌+◌, ◌*◌, ◌/◌, Bool, true, false, not, Option, none, some, List, [], ◌∷◌,
  if◌then◌else◌, nat_beq, ltb, keep, ℤ, pos, negsuc,
}

-- The kernel and its processes: the descriptor that holds the lock, the open descriptors, the next one,
-- and those of the Mutations that have been given out and not unlocked.
pub record World : Type 0 where
  pub holder : Option ℕ
  pub opened : List ℕ
  pub next : ℕ
  pub granted : List ℕ

-- Before the lock is used.
abbrev pub new_world : World
new_world = record { holder = none; opened = []; next = 3; granted = [] }

-- Which calls of one acquisition succeed.
pub record Calls : Type 0 where
  pub mkdir : Bool
  pub chmod : Bool
  pub open_file : Bool
  pub flock : Bool  -- false: an error other than EWOULDBLOCK

pub data LockError : Type 0 where
  open_failed flock_failed busy : LockError

-- The descriptor of a Mutation, or why there is none.
pub data Acquired : Type 0 where
  mutation : ℕ → Acquired
  refused : LockError → Acquired

-- openLockFile
unfoldable pub open_lock_file : Calls → World → Option ℕ × World
open_lock_file c w =
    if not c.mkdir
    then (none, w)
    else if not c.chmod
    then (none, w)
    else if not c.open_file
    then (none, w)
    else (some w.next, record w { opened = w.next ∷ w.opened; next = suc w.next })

abbrev pub without : ℕ → List ℕ → List ℕ
without fd fds = keep (λ x. not (nat_beq x fd)) fds

abbrev pub is_held_by : ℕ → Option ℕ → Bool
is_held_by fd none = false
is_held_by fd (some h) = nat_beq h fd

-- Closing a descriptor gives up the lock that it holds.
unfoldable pub close : ℕ → World → World
unfolding keep
close fd w = record w {
  holder = if is_held_by fd w.holder then none else w.holder;
  opened = without fd w.opened;
  granted = without fd w.granted;
}

pub data Flock : Type 0 where
  locked would_block broken : Flock

abbrev pub lockable : ℕ → Option ℕ → Bool
lockable fd none = true
lockable fd (some h) = nat_beq h fd

-- flock(LOCK_EX|LOCK_NB) on a descriptor; `ok` is false where it fails in another way.
unfoldable pub try_flock : Bool → ℕ → World → Flock × World
try_flock ok fd w =
    if not ok
    then (broken, w)
    else if lockable fd w.holder
    then (locked, record w { holder = some fd })
    else (would_block, w)

abbrev pub grant : ℕ → World → World
grant fd w = record w { granted = fd ∷ without fd w.granted }

abbrev pub flocked : ℕ → Flock × World → Acquired × World
flocked fd (locked, w) = (mutation fd, grant fd w)
flocked fd (would_block, w) = (refused busy, close fd w)
flocked fd (broken, w) = (refused flock_failed, close fd w)

abbrev pub with_file : (ℕ → World → Acquired × World) → Option ℕ × World → Acquired × World
with_file f (none, w) = (refused open_failed, w)
with_file f (some fd, w) = f fd w

-- Acquire
unfoldable pub acquire : Calls → World → Acquired × World
unfolding open_lock_file try_flock close keep
acquire c w = with_file (λ fd w'. flocked fd (try_flock c.flock fd w')) (open_lock_file c w)

-- Unlock of a Mutation whose file is there still, or is none after an earlier Unlock. The explicit
-- LOCK_UN changes nothing that the close does not.
unfoldable pub unlock : Option ℕ → World → Option ℕ × World
unfolding close
unlock none w = (none, w)
unlock (some fd) w = (none, close fd w)

-- What other processes do: acquire, unlock, open the file to wait, try once while they wait, give up
-- or die.
pub data Op : Type 0 where
  acquires : Calls → Op
  unlocks : ℕ → Op
  starts_waiting : Calls → Op
  tries : ℕ → Op
  closes : ℕ → Op

abbrev pub tried : ℕ → Flock × World → World
tried fd (locked, w) = grant fd w
tried fd (would_block, w) = w
tried fd (broken, w) = w

unfoldable pub run_op : Op → World → World
unfolding acquire unlock open_lock_file try_flock close
run_op (acquires c) w = (acquire c w).1
run_op (unlocks fd) w = (unlock (some fd) w).1
run_op (starts_waiting c) w = (open_lock_file c w).1
run_op (tries fd) w = tried fd (try_flock true fd w)
run_op (closes fd) w = close fd w

unfoldable pub run_ops : List Op → World → World
unfolding run_op
run_ops [] w = w
run_ops (op ∷ ops) w = run_ops ops (run_op op w)

-- What an acquisition that waits meets: the success of its flock calls, the time that it reads after
-- each, and what others do in each sleep.
pub record Env : Type 0 where
  pub flock_ok : ℕ → Bool
  pub clock : ℕ → ℕ
  pub others : ℕ → List Op

pub data Waited : Type 0 where
  ended : Acquired → World → Waited
  out_of_fuel : Waited

abbrev pub attempted : Flock → Waited → Waited → Waited → Waited
attempted locked got failed blocked = got
attempted broken got failed blocked = failed
attempted would_block got failed blocked = blocked

-- The loop of AcquireRecovery from its attempt `i`.
unfoldable pub wait_loop : ℕ → Env → ℕ → ℕ → ℕ → World → Waited
unfolding try_flock close run_ops
wait_loop zero e deadline fd i w = out_of_fuel
wait_loop (suc f) e deadline fd i w =
    let r = try_flock (e.flock_ok i) fd w in
    let again = wait_loop f e deadline fd (suc i) (run_ops (e.others i) w) in
    attempted r.0 (ended (mutation fd) (grant fd r.1)) (ended (refused flock_failed) (close fd w))
      (if ltb deadline (e.clock i) then ended (refused busy) (close fd w) else again)

-- Attempts that are enough for a wait: one more than the sleeps of 100 ms that fit into it, and one
-- after the deadline.
abbrev pub enough : ℕ → ℕ
enough wait = wait / 100 + 3

abbrev pub at_once : Acquired × World → Waited
at_once (a, w) = ended a w

abbrev pub wait_with : ℕ → Env → ℕ → Option ℕ × World → Waited
wait_with wait e start (none, w) = ended (refused open_failed) w
wait_with wait e start (some fd, w) = wait_loop (enough wait) e (start + wait) fd 0 w

-- AcquireRecovery; `start` is the time that the deadline is counted from.
unfoldable pub acquire_recovery : Calls → Env → ℕ → ℤ → World → Waited
unfolding acquire open_lock_file wait_loop
acquire_recovery c e start (negsuc _) w = at_once (acquire c w)
acquire_recovery c e start (pos zero) w = at_once (acquire c w)
acquire_recovery c e start (pos (suc n)) w = wait_with (suc n) e start (open_lock_file c w)
