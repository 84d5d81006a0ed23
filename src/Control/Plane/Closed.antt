-- ===== src/Control/Plane/Closed.antt =====
-- What every sequence of calls on the registry keeps (core/control/control.go).
use mazzy_vpn.Base.{
  ◌≡◌, ◌≢◌, Bool, true, false, not, ◌&&◌, ◌||◌, Option, none, some, List, [], ◌∷◌, arith, Text,
  ◌==◌, ==_iff, if◌then◌else◌, contains, Bool-cases, inl, inr, subst, sym, ap, ◌∙◌, ◌⊎◌,
  Option-cases, IsSorted, ◌<=◌, trim_space,
}
use mazzy_vpn.Base.Dict
use mazzy_vpn.Base.Dict.{
  Dict, bind, IsUnique, get-put, get-remove, get-update_all, remove-IsUnique, put-IsUnique,
  update_all-IsUnique,
}
use mazzy_vpn.Control.Plane.{
  Plane, Participant, new_plane, register, allow, revoke, deregister, can_reach, reachable, row,
  or_empty, valid_kinds, get_participant,
}
use mazzy_vpn.Control.Plane.Reach.{
  can_reach-allow, can_reach-revoke, can_reach-deregister, reachable_lem,
}

pub data PlaneOp : Type 0 where
  op_register : Participant → PlaneOp
  op_deregister : Text → PlaneOp
  op_allow op_revoke : Text → Text → PlaneOp

unfoldable pub apply_op : Plane → PlaneOp → Plane
apply_op p (op_register part) = (register p part).0
apply_op p (op_deregister id) = deregister p id
apply_op p (op_allow from to) = (allow p from to).0
apply_op p (op_revoke from to) = revoke p from to

unfoldable pub run_ops : Plane → List PlaneOp → Plane
unfolding apply_op
run_ops p [] = p
run_ops p (op ∷ ops) = run_ops (apply_op p op) ops

-- Each map has one binding for each key.
pub record IsUniquePlane (p : Plane) : Type 0 where
  pub unique_participants : IsUnique p.participants
  pub unique_routes : IsUnique p.routes
  pub unique_rows : (from : Text) → IsUnique (row p.routes from)

-- Participants stand under their own non-empty ID, with a valid kind, and an edge joins registered
-- participants only.
pub record IsClosed (p : Plane) : Type 0 where
  pub named :
      (id : Text) (part : Participant)
      → Dict.get p.participants id ≡ some part
      → (part.id ≡ id) × (id ≢ []) × (valid_kinds part.kind ≡ true)
  pub joined :
      (from to : Text)
      → can_reach p from to ≡ true
      → (Dict.has p.participants from ≡ true) × (Dict.has p.participants to ≡ true)

-- The row that a look-up gives has one binding for each key.
abbrev IsUniqueRow : Option (Dict Bool) → Type 0
IsUniqueRow o = IsUnique (or_empty o)

row_eq :
    (routes : Dict (Dict Bool)) (from : Text) (m : Dict Bool) (f : Text)
    → (from == f ≡ true) ⊎ (from == f ≡ false)
    → IsUnique m
    → IsUnique (row routes f)
    → IsUnique (row (Dict.put routes from m) f)
row_eq routes from m f (inl e) h k =
    subst IsUniqueRow
      (sym (get-put routes from m f ∙ ap (λ b. if b then some m else Dict.get routes f) e)) h
row_eq routes from m f (inr e) h k =
    subst IsUniqueRow
      (sym (get-put routes from m f ∙ ap (λ b. if b then some m else Dict.get routes f) e)) k

row-put-IsUnique :
    (routes : Dict (Dict Bool)) (from : Text) (m : Dict Bool)
    → IsUnique m
    → ((f : Text) → IsUnique (row routes f))
    → (f : Text) → IsUnique (row (Dict.put routes from m) f)
row-put-IsUnique routes from m h rows f = row_eq routes from m f (Bool-cases (from == f)) h (rows f)

row_at :
    (routes : Dict (Dict Bool)) (f : Text) (m : Dict Bool)
    → Dict.get routes f ≡ some m
    → IsUnique (row routes f)
    → IsUnique m
row_at routes f m e h = subst IsUniqueRow e h

cleared-IsUnique :
    (o : Option (Dict Bool)) (id : Text)
    → IsUniqueRow o
    → IsUniqueRow (bind o (λ m. some (Dict.remove m id)))
cleared-IsUnique none id h = tt
cleared-IsUnique (some m) id h = remove-IsUnique m id h

row_clear-IsUnique :
    (routes : Dict (Dict Bool)) (id f : Text)
    → IsUnique routes
    → IsUnique (row routes f)
    → IsUnique (row (Dict.update_all (λ m. some (Dict.remove m id)) (Dict.remove routes id)) f)
row_clear-IsUnique routes id f u h =
    subst IsUniqueRow
      (sym (
        get-update_all (λ (m : Dict Bool). some (Dict.remove m id)) (Dict.remove routes id) f
          (remove-IsUnique routes id u)))
      (cleared-IsUnique (Dict.get (Dict.remove routes id) f) id
        (subst IsUniqueRow (sym (get-remove routes id f)) (kept (Bool-cases (id == f)))))
  where
    kept :
        (id == f ≡ true) ⊎ (id == f ≡ false)
        → IsUniqueRow (if id == f then none else Dict.get routes f)
    kept (inl e) = subst (λ b. IsUniqueRow (if b then none else Dict.get routes f)) (sym e) tt
    kept (inr e) = subst (λ b. IsUniqueRow (if b then none else Dict.get routes f)) (sym e) h

put_row-IsUniquePlane :
    (p : Plane) (from : Text) (m : Dict Bool)
    → IsUnique m
    → IsUniquePlane p
    → IsUniquePlane (record p { routes = Dict.put p.routes from m })
put_row-IsUniquePlane p from m u h = record {
  unique_participants = h.unique_participants;
  unique_routes = put-IsUnique p.routes from m h.unique_routes;
  unique_rows = row-put-IsUnique p.routes from m u h.unique_rows;
}

put_participant-IsUniquePlane :
    (p : Plane) (id : Text) (part : Participant)
    → IsUniquePlane p
    → IsUniquePlane (record p { participants = Dict.put p.participants id part })
put_participant-IsUniquePlane p id part h = record {
  unique_participants = put-IsUnique p.participants id part h.unique_participants;
  unique_routes = h.unique_routes;
  unique_rows = h.unique_rows;
}

register-IsUniquePlane :
    (p : Plane) (part : Participant) → IsUniquePlane p → IsUniquePlane (register p part).0
unfolding register
register-IsUniquePlane p part h =
    let id = trim_space part.id in
    elim (Bool-cases (id == [] || not (valid_kinds part.kind))) [
      | inl bad ↦ rw (bad, register) h
      | inr good ↦
          rw (good, register)
            (elim (Bool-cases (Dict.has p.participants id)) [
              | inl old ↦ rw old h
              | inr new ↦ rw new (put_participant-IsUniquePlane p id (record part { id = id }) h)
            ])
    ]

allow-IsUniquePlane :
    (p : Plane) (from to : Text) → IsUniquePlane p → IsUniquePlane (allow p from to).0
unfolding allow
allow-IsUniquePlane p from to h = elim (Bool-cases (Dict.has p.participants from)) [
  | inl f ↦
      rw (f, allow)
        (elim (Bool-cases (Dict.has p.participants to)) [
          | inl t ↦ rw t (
              put_row-IsUniquePlane p from (Dict.put (row p.routes from) to true)
                (put-IsUnique (row p.routes from) to true (h.unique_rows from)) h)
          | inr t ↦ rw t h
        ])
  | inr f ↦ rw (f, allow) h
]

revoke-IsUniquePlane :
    (p : Plane) (from to : Text) → IsUniquePlane p → IsUniquePlane (revoke p from to)
unfolding revoke
revoke-IsUniquePlane p from to h = elim (Option-cases (Dict.get p.routes from)) [
  | inl e ↦ rw (e, revoke) h
  | inr (m, e) ↦
      rw (e, revoke)
        (put_row-IsUniquePlane p from (Dict.remove m to)
          (remove-IsUnique m to (row_at p.routes from m e (h.unique_rows from))) h)
]

apply_op-IsUniquePlane :
    (p : Plane) (op : PlaneOp) → IsUniquePlane p → IsUniquePlane (apply_op p op)
unfolding apply_op
apply_op-IsUniquePlane p (op_register part) h = register-IsUniquePlane p part h
apply_op-IsUniquePlane p (op_deregister id) h =
    unfold deregister in
    record {
      unique_participants = remove-IsUnique p.participants id h.unique_participants;
      unique_routes =
          update_all-IsUnique (λ m. some (Dict.remove m id)) (Dict.remove p.routes id)
            (remove-IsUnique p.routes id h.unique_routes);
      unique_rows = λ f. row_clear-IsUnique p.routes id f h.unique_routes (h.unique_rows f);
    }
apply_op-IsUniquePlane p (op_allow from to) h = allow-IsUniquePlane p from to h
apply_op-IsUniquePlane p (op_revoke from to) h = revoke-IsUniquePlane p from to h

apply_op-IsClosed :
    (p : Plane) (op : PlaneOp) → IsUniquePlane p → IsClosed p → IsClosed (apply_op p op)
unfolding apply_op
apply_op-IsClosed p (op_register part) u h = record {
  named =
      unfold register in
      λ id x e. ground (
        arith,
        get-put p.participants (trim_space part.id) (record part { id = trim_space part.id }) id,
        ==_iff (trim_space part.id) id,
        ==_iff (trim_space part.id) [],
        h.named id x,
      );
  joined =
      unfold register can_reach in
      λ from to e. ground (
        arith,
        get-put p.participants (trim_space part.id) (record part { id = trim_space part.id }) from,
        get-put p.participants (trim_space part.id) (record part { id = trim_space part.id }) to,
        h.joined from to,
      );
}
apply_op-IsClosed p (op_deregister id) u h = record {
  named = unfold deregister in λ j x e. ground (arith, get-remove p.participants id j, h.named j x);
  joined = λ from to e.
      unfold deregister in
      ground (
        arith,
        can_reach-deregister p id from to u.unique_routes,
        get-remove p.participants id from,
        get-remove p.participants id to,
        h.joined from to,
      );
}
apply_op-IsClosed p (op_allow from to) u h = record {
  named = unfold allow in λ j x e. ground (arith, h.named j x);
  joined = λ f t e.
      unfold allow in
      ground (arith, can_reach-allow p from to f t, ==_iff from f, ==_iff to t, h.joined f t);
}
apply_op-IsClosed p (op_revoke from to) u h = record {
  named = unfold revoke in λ j x e. ground (arith, h.named j x);
  joined = λ f t e. unfold revoke in ground (arith, can_reach-revoke p from to f t, h.joined f t);
}

new_plane-IsUniquePlane : IsUniquePlane new_plane
unfolding Dict.get
new_plane-IsUniquePlane = record {
  unique_participants = tt;
  unique_routes = tt;
  unique_rows = λ from. tt;
}

new_plane-IsClosed : IsClosed new_plane
unfolding Dict.get can_reach
new_plane-IsClosed = record { named = λ id part e. cc; joined = λ from to e. cc }

run_ops-keeps :
    (p : Plane) (ops : List PlaneOp)
    → IsUniquePlane p
    → IsClosed p
    → IsUniquePlane (run_ops p ops) × IsClosed (run_ops p ops)
unfolding run_ops
run_ops-keeps p [] u h = (u, h)
run_ops-keeps p (op ∷ ops) u h =
    run_ops-keeps (apply_op p op) ops (apply_op-IsUniquePlane p op u) (apply_op-IsClosed p op u h)

-- After any calls on an empty plane, every participant stands under its own non-empty ID with a
-- valid kind, and CanReach answers true only between registered participants.
pub run_ops-IsClosed : (ops : List PlaneOp) → IsClosed (run_ops new_plane ops)
run_ops-IsClosed ops = (run_ops-keeps new_plane ops new_plane-IsUniquePlane new_plane-IsClosed).1

-- After any calls on an empty plane, Reachable lists in ascending order exactly the targets that
-- CanReach answers true for.
pub reachable_exact :
    (ops : List PlaneOp) (from : Text)
    → let p = run_ops new_plane ops in
      ((to : Text) → contains to (reachable p from) ≡ can_reach p from to)
      × IsSorted ◌<=◌ (reachable p from)
reachable_exact ops from =
    reachable_lem (run_ops new_plane ops) from
      ((run_ops-keeps new_plane ops new_plane-IsUniquePlane new_plane-IsClosed).0.unique_rows from)

-- After any calls on an empty plane, Deregister removes the participant and every edge at it, and
-- leaves each other participant and edge as it was.
pub deregister_exact :
    (ops : List PlaneOp) (id : Text)
    → let p = run_ops new_plane ops in
      ((j : Text)
        → get_participant (deregister p id) j ≡ (if id == j then none else get_participant p j))
      × ((f t : Text)
          → can_reach (deregister p id) f t ≡ (not (id == f || id == t) && can_reach p f t))
unfolding get_participant deregister
deregister_exact ops id =
    let kept = run_ops-keeps new_plane ops new_plane-IsUniquePlane new_plane-IsClosed in
    (
      λ j. get-remove (run_ops new_plane ops).participants id j,
      λ f t. can_reach-deregister (run_ops new_plane ops) id f t kept.0.unique_routes,
    )
