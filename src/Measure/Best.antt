-- ===== src/Measure/Best.antt =====
-- The endpoint that core/measure/measure.go chooses after ranking is the best of all.
use mazzy_vpn.Base.{
  ◌≡◌, refl, subst, Bool, true, false, ◌||◌, none, some, List, [], ◌∷◌, if◌then◌else◌, sort_by, All,
  All-sort_by, HeadLeast, HeadLeast-sort_by, length, keep, length-keep-sort_by, arith, Bool-cases,
  inl, inr,
}
use mazzy_vpn.Measure.{Result, is_better, rank_best, first, best_alive}

irreflexive : (a : Result) → is_better a a ≡ false
irreflexive a = ground arith

asymmetric : (a b : Result) → is_better a b ≡ true → is_better b a ≡ false
asymmetric a b h = ground arith

transitive :
    (a b c : Result) → is_better a b ≡ false → is_better b c ≡ false → is_better a c ≡ false
transitive a b c h k = ground arith

abbrev pub is_usable : Result → Bool
is_usable r = r.icmp_alive || r.reachable

first-none : (p : Result → Bool) (rs : List Result) → All (λ r. p r ≡ false) rs → first p rs ≡ none
unfolding first
first-none p [] h = refl
first-none p (r ∷ rs) h = rw h.0 (first-none p rs h.1)

first_alive :
    (y : Result) (ys : List Result)
    → All (λ r. is_better r y ≡ false) ys
    → y.icmp_alive ≡ false
    → first (λ r. r.icmp_alive) ys ≡ none
unfolding first
first_alive y [] h n = refl
first_alive y (r ∷ rs) h n = ground (arith, first_alive y rs h.1 n, h.0)

first_reachable :
    (y : Result) (ys : List Result)
    → All (λ r. is_better r y ≡ false) ys
    → is_usable y ≡ false
    → first (λ r. r.reachable) ys ≡ none
unfolding first
first_reachable y [] h n = refl
first_reachable y (r ∷ rs) h n = ground (arith, first_reachable y rs h.1 n, h.0)

none_usable :
    (y : Result) (rs : List Result)
    → All (λ r. is_better r y ≡ false) rs
    → is_usable y ≡ false
    → All (λ r. is_usable r ≡ false) rs
none_usable y [] h n = h
none_usable y (r ∷ rs) h n = (ground (arith, h.0), none_usable y rs h.1 n)

-- If the head of a list is not beaten, the choice is the head if it can be used, and nothing else.
best_alive-head :
    (y : Result) (ys : List Result)
    → All (λ r. is_better r y ≡ false) ys
    → best_alive (y ∷ ys) ≡ (if is_usable y then some y else none)
unfolding best_alive first
best_alive-head y ys h = ground (arith, first_alive y ys h, first_reachable y ys h)

chosen :
    (rs s : List Result)
    → HeadLeast is_better s rs
    → ((x : Result) → All (λ r. is_better r x ≡ false) rs → All (λ r. is_better r x ≡ false) s)
    → ((b : Result)
        → best_alive s ≡ some b
        → (is_usable b ≡ true) × All (λ r. is_better r b ≡ false) rs)
      × (best_alive s ≡ none → All (λ r. is_usable r ≡ false) rs)
unfolding best_alive first
chosen [] [] e k = ((λ b h. ground (arith, h)), λ h. tt)
chosen (r ∷ rs) [] e k = absurd (ground (arith, e))
chosen rs (y ∷ ys) e k = elim (Bool-cases (is_usable y)) [
  | inl u ↦
      let c : best_alive (y ∷ ys) ≡ some y = ground (arith, best_alive-head y ys (k y e).1, u) in
      (
        (λ b h.
            let same : y ≡ b = ground (arith, c, h) in
            subst (λ v. (is_usable v ≡ true) × All (λ r. is_better r v ≡ false) rs) same (u, e)),
        λ h. absurd (ground (arith, c, h)),
      )
  | inr n ↦
      let c : best_alive (y ∷ ys) ≡ none = ground (arith, best_alive-head y ys (k y e).1, n) in
      ((λ b h. absurd (ground (arith, c, h))), λ h. none_usable y rs e n)
]

-- The endpoint that is chosen from the ranking can be used, and no probed endpoint is better.
pub best_alive-rank_best :
    (rs : List Result) (b : Result)
    → best_alive (rank_best rs) ≡ some b
    → (is_usable b ≡ true) × All (λ r. is_better r b ≡ false) rs
unfolding rank_best
best_alive-rank_best rs b h =
    (chosen rs (sort_by is_better rs)
        (HeadLeast-sort_by is_better irreflexive asymmetric transitive rs)
        (λ x k. All-sort_by (λ r. is_better r x ≡ false) is_better rs k)).0
      b h

-- Ranking neither drops a result nor repeats one.
pub rank_best-keeps :
    (p : Result → Bool) (rs : List Result) → length (keep p (rank_best rs)) ≡ length (keep p rs)
unfolding rank_best
rank_best-keeps p rs = length-keep-sort_by p is_better rs
