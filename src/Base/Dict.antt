-- ===== src/Base/Dict.antt =====
-- Go's maps with string keys: an association list whose first binding of a key counts. `put` and
-- `remove` keep one binding for each key, which `IsUnique` states.
use mathlib.Core.Path.{◌≡◌, refl}
use mathlib.Core.Logic.{inl, inr}
use mathlib.Core.Bool.{Bool}
use mathlib.Core.Option.{Option, none, some}
use mathlib.Core.List.{List, [], ◌∷◌}
use native.Mathlib.Omega.{arith}
use mazzy_vpn.Base.Tests.{if◌then◌else◌, Bool-cases, is_some}
use mazzy_vpn.Base.Lists.{any, contains}
use mazzy_vpn.Base.Strings.{Text, ◌==◌, ==_iff}

abbrev pub Dict {ℓ} : Type ℓ → Type ℓ
Dict V = List (Text × V)

module _ {ℓ} {V : Type ℓ} where
  -- v, ok := m[k]
  unfoldable pub get : Dict V → Text → Option V
  get [] k = none
  get ((j, v) ∷ d) k = if j == k then some v else get d k

  -- delete(m, k)
  unfoldable pub remove : Dict V → Text → Dict V
  remove [] k = []
  remove ((j, v) ∷ d) k = let rest = remove d k in if j == k then rest else (j, v) ∷ rest

  -- m[k] = v
  unfoldable pub put : Dict V → Text → V → Dict V
  unfolding remove
  put d k v = (k, v) ∷ remove d k

  -- for k := range m
  unfoldable pub keys : Dict V → List Text
  keys [] = []
  keys ((j, v) ∷ d) = j ∷ keys d

  abbrev pub has : Dict V → Text → Bool
  has d k = is_some (get d k)

  pub get-remove :
      (d : Dict V) (k j : Text) → get (remove d k) j ≡ (if k == j then none else get d j)
  unfolding get remove
  get-remove [] k j = ground arith
  get-remove ((i, v) ∷ d) k j = ground (arith, get-remove d k j, ==_iff i k, ==_iff i j, ==_iff k j)

  pub get-put :
      (d : Dict V) (k : Text) (v : V) (j : Text)
      → get (put d k v) j ≡ (if k == j then some v else get d j)
  unfolding get put
  get-put d k v j = ground (arith, get-remove d k j)

  -- One binding for each key.
  abbrev pub IsUnique : Dict V → Type ℓ
  IsUnique [] = Unit
  IsUnique ((k, v) ∷ d) = (get d k ≡ none) × IsUnique d

  pub remove-IsUnique : (d : Dict V) (k : Text) → IsUnique d → IsUnique (remove d k)
  unfolding remove
  remove-IsUnique [] k h = tt
  remove-IsUnique ((j, v) ∷ d) k h = ground (arith, get-remove d k j, remove-IsUnique d k h.1)

  pub put-IsUnique : (d : Dict V) (k : Text) (v : V) → IsUnique d → IsUnique (put d k v)
  unfolding put
  put-IsUnique d k v h = ground (arith, get-remove d k k, ==_iff k k, remove-IsUnique d k h)

  -- for k := range m { if p(k) { delete(m, k) } }
  unfoldable pub remove_if : (Text → Bool) → Dict V → Dict V
  remove_if p [] = []
  remove_if p ((j, v) ∷ d) = let rest = remove_if p d in if p j then rest else (j, v) ∷ rest

  pub get-remove_if :
      (p : Text → Bool) (d : Dict V) (k : Text)
      → get (remove_if p d) k ≡ (if p k then none else get d k)
  unfolding get remove_if
  get-remove_if p [] k = ground arith
  get-remove_if p ((j, v) ∷ d) k = elim (Bool-cases (j == k)) [
    | inl e ↦ ground (arith, get-remove_if p d k, ==_iff j k)
    | inr n ↦ ground (arith, get-remove_if p d k, ==_iff j k)
  ]

  pub remove_if-IsUnique : (p : Text → Bool) (d : Dict V) → IsUnique d → IsUnique (remove_if p d)
  unfolding remove_if
  remove_if-IsUnique p [] h = tt
  remove_if-IsUnique p ((j, v) ∷ d) h =
      ground (arith, get-remove_if p d j, remove_if-IsUnique p d h.1)

module _ {ℓ} {V : Type ℓ} where
  -- for k, v := range m { delete the key where `f` gives none, else m[k] = f(v) }
  unfoldable pub update_all : (V → Option V) → Dict V → Dict V
  update_all f [] = []
  update_all f ((j, v) ∷ d) =
      let rest = update_all f d in elim (f v) [ none ↦ rest | some w ↦ (j, w) ∷ rest ]

  abbrev pub bind {κ} : {W : Type κ} → Option V → (V → Option W) → Option W
  bind none f = none
  bind (some v) f = f v

  pub get-update_all :
      (f : V → Option V) (d : Dict V) (k : Text)
      → IsUnique d
      → get (update_all f d) k ≡ bind (get d k) f
  unfolding get update_all
  get-update_all f [] k h = refl
  get-update_all f ((j, v) ∷ d) k h = ground (arith, get-update_all f d k h.1, ==_iff j k)

  pub update_all-IsUnique : (f : V → Option V) (d : Dict V) → IsUnique d → IsUnique (update_all f d)
  unfolding update_all
  update_all-IsUnique f [] h = tt
  update_all-IsUnique f ((j, v) ∷ d) h =
      ground (arith, get-update_all f d j h.1, update_all-IsUnique f d h.1)

pub contains-keys {ℓ} : {V : Type ℓ} (d : Dict V) (k : Text) → contains k (keys d) ≡ has d k
unfolding keys get any
contains-keys [] k = refl
contains-keys ((j, v) ∷ d) k = ground (arith, contains-keys d k)

pub ruleset dict_laws = (get-put, get-remove, get-remove_if)
