-- ===== src/Base/Clocks.antt =====
-- A clock that a loop reads at each turn, where every turn takes a time at least.
use Prim.Native.Nat.{ℕ, zero, suc, ◌+◌, ◌*◌, ◌≤◌}
use native.Mathlib.Omega.{arith}

-- From the start on, each turn takes the step at least.
abbrev pub IsSteady : (ℕ → ℕ) → ℕ → ℕ → Type 0
IsSteady clock step start = (start ≤ clock 0) × ((i : ℕ) → clock i + step ≤ clock (suc i))

pub clock-le :
    (clock : ℕ → ℕ) (step start : ℕ)
    → IsSteady clock step start
    → (i : ℕ) → start + i * step ≤ clock i
clock-le clock step start h zero = omega (arith, h.0)
clock-le clock step start h (suc i) = ground (arith, h.1 i, clock-le clock step start h i)
