-- ===== src/LiveCheck/Waiting.antt =====
-- The wait for protection ends, and why (core/livecheck/livecheck.go).
use mazzy_vpn.Base.{
  ℕ, zero, suc, ◌+◌, ◌*◌, ◌<◌, ◌≡◌, ◌⊎◌, refl, Bool, true, false, not, ◌&&◌, Option, some, Text,
  arith, IsSteady, clock-le, ltb, Bool-cases, inl, inr,
}
use mazzy_vpn.LiveCheck.{Snapshot, is_protected, check, Env, wait_loop, enough, wait_protected}

-- Why check `i` was the last.
abbrev pub IsLast : Text → Env → ℕ → ℕ → Snapshot → Type 0
IsLast iface e deadline i s =
    (s ≡ check iface (e.answer i))
    × ((is_protected s ≡ true) ⊎ (deadline < e.clock i) ⊎ (e.cancelled i ≡ true))

-- None of the next `m` checks from check `i` is protected.
abbrev pub none_protected : Text → Env → ℕ → ℕ → Bool
none_protected iface e zero i = true
none_protected iface e (suc m) i =
    not (is_protected (check iface (e.answer i))) && none_protected iface e m (suc i)

-- A result of the wait from check `i`: it comes from the first check that was the last.
abbrev pub Ends : Option Snapshot → Text → Env → ℕ → ℕ → Type 0
Ends o iface e deadline i =
    (m : ℕ) × (n : ℕ) × (s : Snapshot) × (n ≡ i + m)
    × (o ≡ some s)
    × IsLast iface e deadline n s
    × (none_protected iface e m i ≡ true)

Ends-here :
    (iface : Text) (e : Env) (deadline i : ℕ)
    → let s = check iface (e.answer i) in
      ((is_protected s ≡ true) ⊎ (deadline < e.clock i) ⊎ (e.cancelled i ≡ true))
      → Ends (some s) iface e deadline i
Ends-here iface e deadline i why =
    (0, i, check iface (e.answer i), omega arith, refl, (refl, why), refl)

Ends-later :
    (o : Option Snapshot) (iface : Text) (e : Env) (deadline i : ℕ)
    → is_protected (check iface (e.answer i)) ≡ false
    → Ends o iface e deadline (suc i)
    → Ends o iface e deadline i
Ends-later o iface e deadline i unprotected (m, n, s, at, eq, last, goes) =
    (suc m, n, s, omega (arith, at), eq, last, rw (unprotected, goes) refl)

wait_loop-Ends :
    (f : ℕ) (iface : Text) (e : Env) (start deadline i : ℕ)
    → IsSteady e.clock 1000 start
    → 0 < f
    → deadline + 1000 < start + 1000 * (i + f)
    → Ends (wait_loop f iface e deadline i) iface e deadline i
unfolding wait_loop
wait_loop-Ends zero iface e start deadline i h left lt = absurd (omega arith)
wait_loop-Ends (suc f) iface e start deadline i h left lt =
    elim (Bool-cases (is_protected (check iface (e.answer i)))) [
      | inl safe ↦ rw safe (Ends-here iface e deadline i (inl safe))
      | inr unsafe ↦ elim (Bool-cases (ltb deadline (e.clock i))) [
        | inl late ↦ rw (unsafe, late) (Ends-here iface e deadline i (inr (inl (ground arith))))
        | inr early ↦ elim (Bool-cases (e.cancelled i)) [
          | inl stopped ↦
              rw (unsafe, early, stopped) (Ends-here iface e deadline i (inr (inr stopped)))
          | inr running ↦
              rw (unsafe, early, running)
                (Ends-later (wait_loop f iface e deadline (suc i)) iface e deadline i unsafe (
                  wait_loop-Ends f iface e start deadline (suc i) h
                    (ground (arith, clock-le e.clock 1000 start h i)) (omega (arith, lt))))
        ]
      ]
    ]

enough-pauses : (timeout : ℕ) → timeout + 1000 < 1000 * enough timeout
enough-pauses timeout = omega arith

-- Where each pause takes its second by the clock that the loop reads, the wait ends after at most
-- `timeout / 1000 + 3` checks. Its result is that of the last check, before which none was protected;
-- and it is protected, or the deadline has passed, or the context is done.
pub wait_protected-Ends :
    (iface : Text) (e : Env) (start timeout : ℕ)
    → IsSteady e.clock 1000 start
    → Ends (wait_protected iface e start timeout) iface e (start + timeout) 0
unfolding wait_protected
wait_protected-Ends iface e start timeout h =
    wait_loop-Ends (enough timeout) iface e start (start + timeout) 0 h (omega arith)
      (omega (arith, enough-pauses timeout))
