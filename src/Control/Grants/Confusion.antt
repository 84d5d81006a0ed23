-- ===== src/Control/Grants/Confusion.antt =====
-- The key of an edge in core/control/grant.go does not tell apart IDs that contain the arrow.
use mazzy_vpn.Base.{◌≡◌, ap, ◌∙◌, true, [], ◌∷◌, ◌++◌, any, any-append, Text, ==_iff, ℤ, arith}
use mazzy_vpn.Base.Dict.{get-put}
use mazzy_vpn.Control.Grants.{Scope, Grant, GrantBook, key, grants_at, store, conveys, allows}
use mazzy_vpn.Control.Grants.Keys.{key_collision}

-- A live grant from `a` to the ID that is written "b->c" lets "a->b" at `c`: it was issued for
-- neither of them.
pub allows-other_edge :
    (book : GrantBook) (g : Grant) (a b c : Text) (scope : Scope) (now : ℤ)
    → g.from ≡ a
    → g.to ≡ key b c
    → conveys g scope now ≡ true
    → allows (store book g) (key a b) c scope now ≡ true
unfolding allows store grants_at any
allows-other_edge book g a b c scope now f t h =
    let k = key g.from g.to in
    let k' = key (key a b) c in
    let e : k ≡ k' = ap (λ x. key x g.to) f ∙ ap (key a) t ∙ key_collision a b c in
    let conv = λ (x : Grant). conveys x scope now in
    ground (
      arith,
      get-put book k (grants_at book k ++ g ∷ []) k',
      ==_iff k k',
      e,
      any-append conv (grants_at book k) (g ∷ []),
      h,
    )
