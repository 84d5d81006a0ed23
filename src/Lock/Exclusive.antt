-- ===== src/Lock/Exclusive.antt =====
-- At most one Mutation is out at any time (core/lock/lock.go).
use mazzy_vpn.Base.{
  ℕ, zero, suc, ◌≡◌, refl, Bool, true, false, Option, none, some, List, [], ◌∷◌, ltb, ◌+◌,
  if◌then◌else◌, keep, arith, Bool-cases, inl, inr, ℤ, pos, negsuc,
}
use mazzy_vpn.Lock.{
  World, Calls, Acquired, mutation, refused, flock_failed, busy, open_lock_file, close, without,
  is_held_by, lockable, try_flock, grant, flocked, with_file, acquire, unlock, Op, acquires,
  unlocks, starts_waiting, tries, closes, tried, run_op, run_ops, Env, Waited, ended, out_of_fuel,
  wait_loop, enough, at_once, wait_with, acquire_recovery, attempted, new_world,
}

abbrev pub only : Option ℕ → List ℕ
only none = []
only (some fd) = fd ∷ []

-- The Mutations that are out are the one whose descriptor holds the lock, or none.
abbrev pub IsExclusive : World → Type 0
IsExclusive w = w.granted ≡ only w.holder

without-only :
    (fd : ℕ) (h : Option ℕ) → without fd (only h) ≡ only (if is_held_by fd h then none else h)
unfolding keep
without-only fd none = ground arith
without-only fd (some h) = ground arith

close-IsExclusive : (fd : ℕ) (w : World) → IsExclusive w → IsExclusive (close fd w)
unfolding close
close-IsExclusive fd w e = rw e (without-only fd w.holder)

only-locked : (fd : ℕ) (h : Option ℕ) → lockable fd h ≡ true → fd ∷ without fd (only h) ≡ fd ∷ []
unfolding keep
only-locked fd none e = refl
only-locked fd (some h) e = ground arith

tried-IsExclusive :
    (ok : Bool) (fd : ℕ) (w : World) → IsExclusive w → IsExclusive (tried fd (try_flock ok fd w))
unfolding try_flock
tried-IsExclusive ok fd w e = ground (arith, only-locked fd w.holder)

flocked-IsExclusive :
    (ok : Bool) (fd : ℕ) (w : World)
    → IsExclusive w
    → IsExclusive (flocked fd (try_flock ok fd w)).1
unfolding try_flock
flocked-IsExclusive ok fd w e = ground (arith, only-locked fd w.holder, close-IsExclusive fd w e)

opened-IsExclusive : (c : Calls) (w : World) → IsExclusive w → IsExclusive (open_lock_file c w).1
unfolding open_lock_file
opened-IsExclusive c w e = ground arith

with_file-IsExclusive :
    (f : ℕ → World → Acquired × World) (o : Option ℕ) (w : World)
    → ((fd : ℕ) (w' : World) → IsExclusive w' → IsExclusive (f fd w').1)
    → IsExclusive w
    → IsExclusive (with_file f (o, w)).1
with_file-IsExclusive f none w h e = e
with_file-IsExclusive f (some fd) w h e = h fd w e

acquire-IsExclusive : (c : Calls) (w : World) → IsExclusive w → IsExclusive (acquire c w).1
unfolding acquire
acquire-IsExclusive c w e =
    let r = open_lock_file c w in
    with_file-IsExclusive (λ fd w'. flocked fd (try_flock c.flock fd w')) r.0 r.1
      (flocked-IsExclusive c.flock) (opened-IsExclusive c w e)

run_op-IsExclusive : (op : Op) (w : World) → IsExclusive w → IsExclusive (run_op op w)
unfolding run_op unlock
run_op-IsExclusive (acquires c) w e = acquire-IsExclusive c w e
run_op-IsExclusive (unlocks fd) w e = close-IsExclusive fd w e
run_op-IsExclusive (starts_waiting c) w e = opened-IsExclusive c w e
run_op-IsExclusive (tries fd) w e = tried-IsExclusive true fd w e
run_op-IsExclusive (closes fd) w e = close-IsExclusive fd w e

pub run_ops-IsExclusive : (ops : List Op) (w : World) → IsExclusive w → IsExclusive (run_ops ops w)
unfolding run_ops
run_ops-IsExclusive [] w e = e
run_ops-IsExclusive (op ∷ ops) w e =
    run_ops-IsExclusive ops (run_op op w) (run_op-IsExclusive op w e)

-- The outcome: a Mutation is the one that holds the lock, and no other is out.
abbrev pub IsSole : Waited → Type 0
IsSole (ended (mutation fd) w) = (w.holder ≡ some fd) × (w.granted ≡ fd ∷ [])
IsSole (ended (refused _) w) = IsExclusive w
IsSole out_of_fuel = Unit

granted-IsSole :
    (ok : Bool) (fd : ℕ) (w : World) (failed blocked : Waited)
    → IsExclusive w
    → IsSole failed
    → IsSole blocked
    → let r = try_flock ok fd w in
      IsSole (attempted r.0 (ended (mutation fd) (grant fd r.1)) failed blocked)
unfolding try_flock
granted-IsSole ok fd w failed blocked e f b = elim (Bool-cases ok) [
  | inl good ↦ elim (Bool-cases (lockable fd w.holder)) [
    | inl free ↦ rw (good, free, e) (refl, only-locked fd w.holder free)
    | inr held ↦ rw (good, held) b
  ]
  | inr bad ↦ rw bad f
]

late-IsSole : (late : Bool) (a b : Waited) → IsSole a → IsSole b → IsSole (if late then a else b)
late-IsSole true a b h k = h
late-IsSole false a b h k = k

wait_loop-IsSole :
    (f : ℕ) (v : Env) (deadline fd i : ℕ) (w : World)
    → IsExclusive w
    → IsSole (wait_loop f v deadline fd i w)
unfolding wait_loop
wait_loop-IsSole zero v deadline fd i w e = tt
wait_loop-IsSole (suc f) v deadline fd i w e =
    let again = wait_loop f v deadline fd (suc i) (run_ops (v.others i) w) in
    let closed = close-IsExclusive fd w e in
    granted-IsSole (v.flock_ok i) fd w (ended (refused flock_failed) (close fd w))
      (if ltb deadline (v.clock i) then ended (refused busy) (close fd w) else again) e closed
      (late-IsSole (ltb deadline (v.clock i)) (ended (refused busy) (close fd w)) again closed (
        wait_loop-IsSole f v deadline fd (suc i) (run_ops (v.others i) w)
          (run_ops-IsExclusive (v.others i) w e)))

flocked-IsSole :
    (ok : Bool) (fd : ℕ) (w : World)
    → IsExclusive w
    → IsSole (at_once (flocked fd (try_flock ok fd w)))
unfolding try_flock
flocked-IsSole ok fd w e = elim (Bool-cases ok) [
  | inl good ↦ elim (Bool-cases (lockable fd w.holder)) [
    | inl free ↦ rw (good, free, e) (refl, only-locked fd w.holder free)
    | inr held ↦ rw (good, held) (close-IsExclusive fd w e)
  ]
  | inr bad ↦ rw bad (close-IsExclusive fd w e)
]

acquire-IsSole : (c : Calls) (w : World) → IsExclusive w → IsSole (at_once (acquire c w))
unfolding acquire
acquire-IsSole c w e = go (open_lock_file c w).0 (open_lock_file c w).1 (opened-IsExclusive c w e)
  where
    go :
        (o : Option ℕ) (w' : World)
        → IsExclusive w'
        → IsSole (at_once (with_file (λ fd v. flocked fd (try_flock c.flock fd v)) (o, w')))
    go none w' h = h
    go (some fd) w' h = flocked-IsSole c.flock fd w' h

wait_with-IsSole :
    (wait : ℕ) (v : Env) (start : ℕ) (o : Option ℕ) (w : World)
    → IsExclusive w
    → IsSole (wait_with wait v start (o, w))
wait_with-IsSole wait v start none w e = e
wait_with-IsSole wait v start (some fd) w e =
    wait_loop-IsSole (enough wait) v (start + wait) fd 0 w e

-- From a world that any operations of any processes have led to, and whatever other processes do while
-- it waits: an acquisition, with a wait or without, that gives out a Mutation gives out the one that
-- holds the lock, and no other Mutation is out; one that is refused leaves at most one out, the one
-- that holds the lock.
pub acquire_recovery-IsSole :
    (ops : List Op) (c : Calls) (v : Env) (start : ℕ) (wait : ℤ)
    → IsSole (acquire_recovery c v start wait (run_ops ops new_world))
unfolding acquire_recovery
acquire_recovery-IsSole ops c v start wait = go wait
  where
    w : World
    w = run_ops ops new_world

    e : IsExclusive w
    e = run_ops-IsExclusive ops new_world refl

    go : (t : ℤ) → IsSole (acquire_recovery c v start t w)
    go (negsuc n) = acquire-IsSole c w e
    go (pos zero) = acquire-IsSole c w e
    go (pos (suc n)) =
        wait_with-IsSole (suc n) v start (open_lock_file c w).0 (open_lock_file c w).1
          (opened-IsExclusive c w e)
