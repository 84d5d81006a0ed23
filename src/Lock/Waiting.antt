-- ===== src/Lock/Waiting.antt =====
-- An acquisition that waits comes to an end (core/lock/lock.go).
use mazzy_vpn.Base.{
  ℕ, zero, suc, ◌+◌, ◌*◌, ◌<◌, ◌≡◌, ◌≢◌, refl, Bool, true, false, Option, none, some, if◌then◌else◌,
  arith, IsSteady, clock-le, ltb, ℤ, pos, negsuc,
}
use mazzy_vpn.Lock.{
  World, Calls, refused, busy, open_lock_file, close, Flock, locked, would_block, broken, try_flock,
  run_ops, Env, Waited, ended, out_of_fuel, wait_loop, enough, wait_with, acquire_recovery,
  attempted,
}

attempted-total :
    (r : Flock) (a b c : Waited)
    → a ≢ out_of_fuel
    → b ≢ out_of_fuel
    → c ≢ out_of_fuel
    → attempted r a b c ≢ out_of_fuel
attempted-total locked a b c h k l = h
attempted-total broken a b c h k l = k
attempted-total would_block a b c h k l = l

if-total :
    (late : Bool) (a b : Waited)
    → a ≢ out_of_fuel
    → (late ≡ false → b ≢ out_of_fuel)
    → (if late then a else b) ≢ out_of_fuel
if-total true a b h k = h
if-total false a b h k = k refl

wait_loop-total :
    (f : ℕ) (e : Env) (start deadline fd i : ℕ) (w : World)
    → IsSteady e.clock 100 start
    → 0 < f
    → deadline + 100 < start + 100 * (i + f)
    → wait_loop f e deadline fd i w ≢ out_of_fuel
unfolding wait_loop
wait_loop-total zero e start deadline fd i w h some_left lt = absurd (omega arith)
wait_loop-total (suc f) e start deadline fd i w h some_left lt =
    let again = wait_loop f e deadline fd (suc i) (run_ops (e.others i) w) in
    attempted-total (try_flock (e.flock_ok i) fd w).0 _ _ _ (λ p. cc) (λ p. cc)
      (if-total (ltb deadline (e.clock i)) (ended (refused busy) (close fd w)) again (λ p. cc)
        (λ early.
          wait_loop-total f e start deadline fd (suc i) (run_ops (e.others i) w) h
            (ground (arith, clock-le e.clock 100 start h i)) (omega (arith, lt))))

enough-sleeps : (wait : ℕ) → wait + 100 < 100 * enough wait
enough-sleeps wait = omega arith

wait_with-total :
    (wait : ℕ) (e : Env) (start : ℕ) (o : Option ℕ) (w : World)
    → IsSteady e.clock 100 start
    → wait_with wait e start (o, w) ≢ out_of_fuel
wait_with-total wait e start none w h = λ p. cc
wait_with-total wait e start (some fd) w h =
    wait_loop-total (enough wait) e start (start + wait) fd 0 w h (omega arith)
      (omega (arith, enough-sleeps wait))

-- Where each sleep lasts its 100 ms by the clock that the loop reads, an acquisition ends, whatever other
-- processes do and however long the lock stays taken: after at most `wait / 100 + 3` attempts.
pub acquire_recovery-total :
    (c : Calls) (e : Env) (start : ℕ) (wait : ℤ) (w : World)
    → IsSteady e.clock 100 start
    → acquire_recovery c e start wait w ≢ out_of_fuel
unfolding acquire_recovery
acquire_recovery-total c e start (negsuc n) w h = λ p. cc
acquire_recovery-total c e start (pos zero) w h = λ p. cc
acquire_recovery-total c e start (pos (suc n)) w h =
    wait_with-total (suc n) e start (open_lock_file c w).0 (open_lock_file c w).1 h
