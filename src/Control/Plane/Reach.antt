-- ===== src/Control/Plane/Reach.antt =====
-- What each operation of the registry does to CanReach, and what Reachable lists
-- (core/control/control.go).
use mazzy_vpn.Base.{
  ◌≡◌, Bool, true, false, not, ◌&&◌, ◌||◌, none, some, [], ◌∷◌, arith, refl, Text, ◌==◌, ==_iff,
  if◌then◌else◌, any, contains, inl, inr, Option-cases, ◌∙◌, IsSorted, sort-IsSorted, any-sort,
  ◌<=◌, <=_total, <=_trans,
}
use mazzy_vpn.Base.Dict
use mazzy_vpn.Base.Dict.{Dict, IsUnique, get-put, get-remove, get-update_all, remove-IsUnique}
use mazzy_vpn.Control.Plane.{
  Plane, allow, revoke, deregister, can_reach, reachable, allowed_keys, row, is_true,
}

-- Allow adds one edge where both participants are registered, and nothing else.
pub can_reach-allow :
    (p : Plane) (from to f t : Text)
    → can_reach (allow p from to).0 f t ≡ (
        if (Dict.has p.participants from && Dict.has p.participants to) && (from == f && to == t)
        then true
        else can_reach p f t)
unfolding can_reach allow Dict.get
can_reach-allow p from to f t = ground (
  arith,
  get-put p.routes from (Dict.put (row p.routes from) to true) f,
  get-put (row p.routes from) to true t,
  ==_iff from f,
  ==_iff to t,
)

-- Revoke takes away one edge, and nothing else.
pub can_reach-revoke :
    (p : Plane) (from to f t : Text)
    → can_reach (revoke p from to) f t ≡ (not (from == f && to == t) && can_reach p f t)
unfolding can_reach revoke
can_reach-revoke p from to f t = elim (Option-cases (Dict.get p.routes from)) [
  | inl e ↦ ground (arith, ==_iff from f)
  | inr (m, e) ↦ ground (
    arith,
    get-put p.routes from (Dict.remove m to) f,
    get-remove m to t,
    ==_iff from f,
    ==_iff to t,
  )
]

-- After Deregister no edge leaves or enters the participant, and the other edges are as before.
pub can_reach-deregister :
    (p : Plane) (id f t : Text)
    → IsUnique p.routes
    → can_reach (deregister p id) f t ≡ (not (id == f || id == t) && can_reach p f t)
unfolding can_reach deregister
can_reach-deregister p id f t h =
    let gone = Dict.remove p.routes id in
    let after =
      get-update_all (λ (m : Dict Bool). some (Dict.remove m id)) gone f
        (remove-IsUnique p.routes id h) in
    elim (Option-cases (Dict.get p.routes f)) [
      | inl e ↦ ground (arith, after, get-remove p.routes id f)
      | inr (m, e) ↦ ground (arith, after, get-remove p.routes id f, get-remove m id t)
    ]

contains-allowed_keys_absent :
    (m : Dict Bool) (t : Text) → Dict.get m t ≡ none → contains t (allowed_keys m) ≡ false
unfolding allowed_keys Dict.get any
contains-allowed_keys_absent [] t h = refl
contains-allowed_keys_absent ((k, ok) ∷ m) t h = ground (arith, contains-allowed_keys_absent m t)

contains-allowed_keys :
    (m : Dict Bool) (t : Text) → IsUnique m → contains t (allowed_keys m) ≡ is_true (Dict.get m t)
unfolding allowed_keys Dict.get any
contains-allowed_keys [] t h = refl
contains-allowed_keys ((k, ok) ∷ m) t h =
    ground (arith, ==_iff k t, contains-allowed_keys m t h.1, contains-allowed_keys_absent m k h.0)

-- Reachable lists, in ascending order, exactly the targets that CanReach answers true for.
pub reachable_lem :
    (p : Plane) (from : Text)
    → IsUnique (row p.routes from)
    → ((t : Text) → contains t (reachable p from) ≡ can_reach p from t)
      × IsSorted ◌<=◌ (reachable p from)
unfolding reachable can_reach Dict.get
reachable_lem p from h = (
  λ t.
      any-sort ◌<=◌ (λ x. x == t) (allowed_keys (row p.routes from))
      ∙ contains-allowed_keys (row p.routes from) t h
      ∙ ground arith,
  sort-IsSorted ◌<=◌ <=_total <=_trans (allowed_keys (row p.routes from)),
)
