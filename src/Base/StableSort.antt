-- ===== src/Base/StableSort.antt =====
-- sort.SliceStable: the stable order by a test `less`, as an insertion sort.
use mathlib.Core.Path.{◌≡◌, refl}
use mathlib.Core.Bool.{Bool, true, false}
use mathlib.Core.Logic.{inl, inr}
use mathlib.Core.List.{List, [], ◌∷◌}
use native.Mathlib.Omega.{arith}
use mazzy_vpn.Base.Tests.{if◌then◌else◌, Bool-cases}
use mazzy_vpn.Base.Lists.{All, keep, length}

-- The element goes before those that are not less than it, so before its equals.
unfoldable pub insert_by {ℓ} : {A : Type ℓ} → (A → A → Bool) → A → List A → List A
insert_by less x [] = x ∷ []
insert_by less x (y ∷ ys) =
    let rest = insert_by less x ys in if less y x then y ∷ rest else x ∷ y ∷ ys

unfoldable pub sort_by {ℓ} : {A : Type ℓ} → (A → A → Bool) → List A → List A
unfolding insert_by
sort_by less [] = []
sort_by less (x ∷ xs) = insert_by less x (sort_by less xs)

module _ {ℓ κ} {A : Type ℓ} (P : A → Type κ) (less : A → A → Bool) where
  All-insert_by : (x : A) (ys : List A) → P x → All P ys → All P (insert_by less x ys)
  unfolding insert_by
  All-insert_by x [] px h = (px, h)
  All-insert_by x (y ∷ ys) px h = elim (Bool-cases (less y x)) [
    | inl e ↦ rw e (h.0, All-insert_by x ys px h.1)
    | inr e ↦ rw e (px, h)
  ]

  -- A sort keeps what holds of all elements.
  pub All-sort_by : (xs : List A) → All P xs → All P (sort_by less xs)
  unfolding sort_by
  All-sort_by [] h = h
  All-sort_by (x ∷ xs) h = All-insert_by x (sort_by less xs) h.0 (All-sort_by xs h.1)

abbrev pub is_empty {ℓ} : {A : Type ℓ} → List A → Bool
is_empty [] = true
is_empty (x ∷ xs) = false

-- None of the second list is less than the head of the first.
abbrev pub HeadLeast {ℓ} : {A : Type ℓ} → (A → A → Bool) → List A → List A → Type 0
HeadLeast less [] xs = is_empty xs ≡ true
HeadLeast less (y ∷ ys) xs = All (λ r. less r y ≡ false) xs

-- The laws of an order without equals, as the tests of the program have them.
module _ {ℓ} {A : Type ℓ} (less : A → A → Bool) (irreflexive : (a : A) → less a a ≡ false)
    (asymmetric : (a b : A) → less a b ≡ true → less b a ≡ false)
    (transitive : (a b c : A) → less a b ≡ false → less b c ≡ false → less a c ≡ false) where
  All-below :
      (x y : A) (xs : List A)
      → less y x ≡ false
      → All (λ r. less r y ≡ false) xs
      → All (λ r. less r x ≡ false) xs
  All-below x y [] n h = h
  All-below x y (r ∷ rs) n h = (transitive r y x h.0 n, All-below x y rs n h.1)

  HeadLeast-insert_by :
      (x : A) (s xs : List A) → HeadLeast less s xs → HeadLeast less (insert_by less x s) (x ∷ xs)
  unfolding insert_by
  HeadLeast-insert_by x [] [] h = (irreflexive x, tt)
  HeadLeast-insert_by x [] (y ∷ ys) h = absurd (ground arith)
  HeadLeast-insert_by x (y ∷ ys) xs h = elim (Bool-cases (less y x)) [
    | inl e ↦ rw e (asymmetric y x e, h)
    | inr e ↦ rw e (irreflexive x, All-below x y xs e h)
  ]

  pub HeadLeast-sort_by : (xs : List A) → HeadLeast less (sort_by less xs) xs
  unfolding sort_by
  HeadLeast-sort_by [] = refl
  HeadLeast-sort_by (x ∷ xs) = HeadLeast-insert_by x (sort_by less xs) xs (HeadLeast-sort_by xs)

-- A sort neither drops nor repeats: of each kind of element there are as many after it.
module _ {ℓ} {A : Type ℓ} (p : A → Bool) (less : A → A → Bool) where
  length-keep-insert_by :
      (x : A) (ys : List A) → length (keep p (insert_by less x ys)) ≡ length (keep p (x ∷ ys))
  unfolding insert_by keep
  length-keep-insert_by x [] = refl
  length-keep-insert_by x (y ∷ ys) = ground (arith, length-keep-insert_by x ys)

  pub length-keep-sort_by : (xs : List A) → length (keep p (sort_by less xs)) ≡ length (keep p xs)
  unfolding sort_by keep
  length-keep-sort_by [] = refl
  length-keep-sort_by (x ∷ xs) =
      ground (arith, length-keep-insert_by x (sort_by less xs), length-keep-sort_by xs)
