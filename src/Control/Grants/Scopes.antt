-- ===== src/Control/Grants/Scopes.antt =====
-- scopesOn against Allows (core/control/grant.go).
use mazzy_vpn.Base.{
  ◌≡◌, Bool, true, false, ◌||◌, List, [], ◌∷◌, ◌++◌, arith, refl, Text, ◌==◌, ==_iff, if◌then◌else◌,
  any, any-append, contains, ℤ,
}
use mazzy_vpn.Control.Grants.{
  Grant, GrantBook, Scope, allows, conveys, expired, has_scope, key, grants_at, add_scopes,
  scopes_loop, scopes_on,
}

contains-add_scopes :
    (s : Scope) (out ss : List Scope)
    → contains s (add_scopes out ss) ≡ (contains s out || contains s ss)
unfolding add_scopes any
contains-add_scopes s out [] = ground arith
contains-add_scopes s out (x ∷ ss) = ground (
  arith,
  contains-add_scopes s (if contains x out then out else out ++ x ∷ []) ss,
  any-append (λ y. y == s) out (x ∷ []),
  ==_iff x s,
)

contains-scopes_loop :
    (s : Scope) (out : List Scope) (now : ℤ) (gs : List Grant)
    → contains s (scopes_loop out now gs) ≡ (contains s out || any (λ g. conveys g s now) gs)
unfolding scopes_loop any has_scope
contains-scopes_loop s out now [] = ground arith
contains-scopes_loop s out now (g ∷ gs) = ground (
  arith,
  contains-scopes_loop s (if expired g now then out else add_scopes out g.scopes) now gs,
  contains-add_scopes s out g.scopes,
)

-- The scopes listed on an edge are exactly those that Allows answers true for.
pub contains-scopes_on :
    (b : GrantBook) (from to : Text) (s : Scope) (now : ℤ)
    → contains s (scopes_on b from to now) ≡ allows b from to s now
unfolding scopes_on allows any
contains-scopes_on b from to s now = contains-scopes_loop s [] now (grants_at b (key from to))

-- Every element occurs once.
abbrev pub IsDistinct : List Text → Type 0
IsDistinct [] = Unit
IsDistinct (x ∷ xs) = (contains x xs ≡ false) × IsDistinct xs

IsDistinct-snoc :
    (x : Text) (xs : List Text) → contains x xs ≡ false → IsDistinct xs → IsDistinct (xs ++ x ∷ [])
unfolding any
IsDistinct-snoc x [] h d = (refl, tt)
IsDistinct-snoc x (y ∷ xs) h d = (
  ground (arith, any-append (λ z. z == y) xs (x ∷ []), ==_iff x y, ==_iff y x),
  IsDistinct-snoc x xs (ground arith) d.1,
)

add_scopes-IsDistinct : (out ss : List Scope) → IsDistinct out → IsDistinct (add_scopes out ss)
unfolding add_scopes
add_scopes-IsDistinct out [] d = d
add_scopes-IsDistinct out (s ∷ ss) d =
    add_scopes-IsDistinct (if contains s out then out else out ++ s ∷ []) ss
      (next (contains s out) refl)
  where
    next : (seen : Bool) → contains s out ≡ seen → IsDistinct (if seen then out else out ++ s ∷ [])
    next true e = d
    next false e = IsDistinct-snoc s out e d

scopes_loop-IsDistinct :
    (out : List Scope) (now : ℤ) (gs : List Grant)
    → IsDistinct out
    → IsDistinct (scopes_loop out now gs)
unfolding scopes_loop
scopes_loop-IsDistinct out now [] d = d
scopes_loop-IsDistinct out now (g ∷ gs) d =
    scopes_loop-IsDistinct (if expired g now then out else add_scopes out g.scopes) now gs
      (next (expired g now))
  where
    next : (old : Bool) → IsDistinct (if old then out else add_scopes out g.scopes)
    next true = d
    next false = add_scopes-IsDistinct out g.scopes d

pub scopes_on-IsDistinct :
    (b : GrantBook) (from to : Text) (now : ℤ) → IsDistinct (scopes_on b from to now)
unfolding scopes_on
scopes_on-IsDistinct b from to now = scopes_loop-IsDistinct [] now (grants_at b (key from to)) tt
