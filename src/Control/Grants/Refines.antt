-- ===== src/Control/Grants/Refines.antt =====
-- The grant book against its specification: one list of the issued grants, each operation a filter
-- (core/control/grant.go). IDs have no hyphen, as derived IDs have none.
use mazzy_vpn.Base.{
  ◌≡◌, Bool, true, false, not, ◌&&◌, Option, none, some, List, [], ◌∷◌, ◌++◌, arith, refl, Text,
  ◌==◌, ==_iff, if◌then◌else◌, keep, any, keep-append, keep-keep, keep_cong, keep_none, any-keep, ℤ,
  append-nil, All, sym, ◌∙◌,
}
use mazzy_vpn.Base.Dict
use mazzy_vpn.Base.Dict.{
  IsUnique, get-put, get-remove, get-remove_if, get-update_all, put-IsUnique, remove-IsUnique,
  remove_if-IsUnique, update_all-IsUnique,
}
use mazzy_vpn.Control.Identity
use mazzy_vpn.Control.Identity.{Crypto, Identity}
use mazzy_vpn.Control.Grants.{
  Grant, GrantBook, new_grant_book, Issued, issued, refused, issue, store, revoke, revoke_all_to,
  prune, prune_list, allows, conveys, expired, key, grants_at, targets, Scope, stamp, record_signed,
  signing_bytes, record_signed,
}
use mazzy_vpn.Control.Grants.Keys.{NoDash, key==key, targets-key}

-- The grant is for this edge.
abbrev pub on_edge : Text → Text → Grant → Bool
on_edge from to g = g.from == from && g.to == to

pub record Refines (b : GrantBook) (l : List Grant) : Type 0 where
  pub unique : IsUnique b
  pub at_edge :
      (from to : Text)
      → NoDash from
      → NoDash to
      → grants_at b (key from to) ≡ keep (on_edge from to) l

abbrev pub spec_store : List Grant → Grant → List Grant
spec_store l g = l ++ g ∷ []

abbrev pub spec_revoke : List Grant → Text → Text → List Grant
spec_revoke l from to = keep (λ g. not (on_edge from to g)) l

abbrev pub spec_revoke_all_to : List Grant → Text → List Grant
spec_revoke_all_to l to = keep (λ g. not (g.to == to)) l

abbrev pub spec_prune : List Grant → ℤ → List Grant
spec_prune l now = keep (λ g. not (expired g now)) l

abbrev pub spec_allows : List Grant → Text → Text → Scope → ℤ → Bool
spec_allows l from to scope now = any (λ g. on_edge from to g && conveys g scope now) l

module _ (b : GrantBook) where
  grants_at-put :
      (k : Text) (v : List Grant) (j : Text)
      → grants_at (Dict.put b k v) j ≡ (if k == j then v else grants_at b j)
  unfolding grants_at
  grants_at-put k v j = ground (arith, get-put b k v j)

  grants_at-remove :
      (k j : Text) → grants_at (Dict.remove b k) j ≡ (if k == j then [] else grants_at b j)
  unfolding grants_at
  grants_at-remove k j = ground (arith, get-remove b k j)

  grants_at-remove_if :
      (p : Text → Bool) (j : Text)
      → grants_at (Dict.remove_if p b) j ≡ (if p j then [] else grants_at b j)
  unfolding grants_at
  grants_at-remove_if p j = ground (arith, get-remove_if p b j)

  grants_at-prune :
      (now : ℤ) (j : Text)
      → IsUnique b
      → grants_at (Dict.update_all (prune_list now) b) j
        ≡ keep (λ g. not (expired g now)) (grants_at b j)
  unfolding grants_at prune_list keep
  grants_at-prune now j h = ground (arith, get-update_all (prune_list now) b j h)

store-Refines :
    (b : GrantBook) (l : List Grant) (g : Grant)
    → NoDash g.from
    → NoDash g.to
    → Refines b l
    → Refines (store b g) (spec_store l g)
unfolding store keep
store-Refines b l g hf ht r = record {
  unique = put-IsUnique b (key g.from g.to) (grants_at b (key g.from g.to) ++ g ∷ []) r.unique;
  at_edge = λ from to nf nt. ground (
    arith,
    grants_at-put b (key g.from g.to) (grants_at b (key g.from g.to) ++ g ∷ []) (key from to),
    key==key g.from g.to from to hf nf,
    ==_iff (key g.from g.to) (key from to),
    r.at_edge from to nf nt,
    keep-append (on_edge from to) l (g ∷ []),
    append-nil (keep (on_edge from to) l),
  );
}

keep_unless :
    (c : Bool) (p q : Grant → Bool)
    → ((g : Grant) → c ≡ true → q g ≡ false)
    → ((g : Grant) → c ≡ false → q g ≡ p g)
    → (l : List Grant) → (if c then [] else keep p l) ≡ keep q l
keep_unless true p q drop same l = sym (keep_none q (λ g. drop g refl) l)
keep_unless false p q drop same l = sym (keep_cong q p (λ g. same g refl) l)

revoke-Refines :
    (b : GrantBook) (l : List Grant) (from to : Text)
    → NoDash from
    → NoDash to
    → Refines b l
    → Refines (revoke b from to) (spec_revoke l from to)
unfolding revoke
revoke-Refines b l from to hf ht r = record {
  unique = remove-IsUnique b (key from to) r.unique;
  at_edge = λ f t nf nt.
      grants_at-remove b (key from to) (key f t)
      ∙ (rw
          (
            key==key from to f t hf nf,
            r.at_edge f t nf nt,
            keep-keep (on_edge f t) (λ g. not (on_edge from to g)) l,
          )
          (keep_unless _ _ _
            (λ g e. ground (
              arith,
              ==_iff from f,
              ==_iff to t,
              ==_iff g.from f,
              ==_iff g.to t,
              ==_iff g.from from,
              ==_iff g.to to,
            ))
            (λ g e. ground (
              arith,
              ==_iff from f,
              ==_iff to t,
              ==_iff g.from f,
              ==_iff g.to t,
              ==_iff g.from from,
              ==_iff g.to to,
            ))
            l));
}

revoke_all_to-Refines :
    (b : GrantBook) (l : List Grant) (to : Text)
    → NoDash to
    → Refines b l
    → Refines (revoke_all_to b to).0 (spec_revoke_all_to l to)
unfolding revoke_all_to
revoke_all_to-Refines b l to ht r = record {
  unique = remove_if-IsUnique (targets to) b r.unique;
  at_edge = λ f t nf nt.
      grants_at-remove_if b (targets to) (key f t)
      ∙ (rw
          (
            targets-key f t to nt ht,
            r.at_edge f t nf nt,
            keep-keep (on_edge f t) (λ g. not (g.to == to)) l,
          )
          (keep_unless _ _ _ (λ g e. ground (arith, ==_iff t to, ==_iff g.to t, ==_iff g.to to))
            (λ g e. ground (arith, ==_iff t to, ==_iff g.to t, ==_iff g.to to)) l));
}

prune-Refines :
    (b : GrantBook) (l : List Grant) (now : ℤ)
    → Refines b l
    → Refines (prune b now).0 (spec_prune l now)
unfolding prune
prune-Refines b l now r = record {
  unique = update_all-IsUnique (prune_list now) b r.unique;
  at_edge = λ f t nf nt.
      grants_at-prune b now (key f t) r.unique
      ∙ (rw
          (
            r.at_edge f t nf nt,
            keep-keep (on_edge f t) (λ g. not (expired g now)) l,
            keep-keep (λ g. not (expired g now)) (on_edge f t) l,
          )
          (keep_cong _ _ (λ g. ground arith) l));
}

new_grant_book-Refines : Refines new_grant_book []
unfolding grants_at Dict.get keep
new_grant_book-Refines = record { unique = tt; at_edge = λ from to hf ht. refl }

-- A call that changes the book.
pub data BookOp : Type 0 where
  op_issue : Option Identity → Grant → ℤ → BookOp
  op_revoke : Text → Text → BookOp
  op_revoke_all_to : Text → BookOp
  op_prune : ℤ → BookOp

abbrev pub IsPlain : BookOp → Type 0
IsPlain (op_issue _ g _) = NoDash g.from × NoDash g.to
IsPlain (op_revoke from to) = NoDash from × NoDash to
IsPlain (op_revoke_all_to to) = NoDash to
IsPlain (op_prune _) = Unit

abbrev spec_issued : List Grant → Issued → List Grant
spec_issued l (issued g) = spec_store l g
spec_issued l (refused _) = l

module _ (crypto : Crypto) where
  unfoldable pub apply_op : GrantBook → BookOp → GrantBook
  apply_op b (op_issue issuer g now) = (issue crypto b issuer g now).0
  apply_op b (op_revoke from to) = revoke b from to
  apply_op b (op_revoke_all_to to) = (revoke_all_to b to).0
  apply_op b (op_prune now) = (prune b now).0

  -- What an operation does to the list of live grants: Issue adds the grant that it returns.
  unfoldable pub spec_op : List Grant → BookOp → List Grant
  spec_op l (op_issue issuer g now) = spec_issued l (issue crypto new_grant_book issuer g now).1
  spec_op l (op_revoke from to) = spec_revoke l from to
  spec_op l (op_revoke_all_to to) = spec_revoke_all_to l to
  spec_op l (op_prune now) = spec_prune l now

  unfoldable pub run_ops : GrantBook → List BookOp → GrantBook
  unfolding apply_op
  run_ops b [] = b
  run_ops b (op ∷ ops) = run_ops (apply_op b op) ops

  unfoldable pub spec_run : List Grant → List BookOp → List Grant
  unfolding spec_op
  spec_run l [] = l
  spec_run l (op ∷ ops) = spec_run (spec_op l op) ops

  record_signed-Refines :
      (b : GrantBook) (l : List Grant) (g : Grant) (sig : Option Text)
      → NoDash g.from
      → NoDash g.to
      → Refines b l
      → Refines (record_signed b g sig).0 (spec_issued l (record_signed new_grant_book g sig).1)
  unfolding record_signed
  record_signed-Refines b l g none hf ht r = r
  record_signed-Refines b l g (some sig) hf ht r =
      store-Refines b l (record g { signature = sig }) hf ht r

  issue-Refines :
      (b : GrantBook) (l : List Grant) (issuer : Option Identity) (g : Grant) (now : ℤ)
      → NoDash g.from
      → NoDash g.to
      → Refines b l
      → Refines
          (issue crypto b issuer g now).0
          (spec_issued l (issue crypto new_grant_book issuer g now).1)
  unfolding issue
  issue-Refines b l none g now hf ht r = r
  issue-Refines b l (some issuer) g now hf ht r =
      record_signed-Refines b l (stamp issuer now g)
        (Identity.sign crypto issuer (signing_bytes (stamp issuer now g))) hf ht r

  apply_op-Refines :
      (b : GrantBook) (l : List Grant) (op : BookOp)
      → IsPlain op
      → Refines b l
      → Refines (apply_op b op) (spec_op l op)
  unfolding apply_op spec_op
  apply_op-Refines b l (op_issue issuer g now) h r = issue-Refines b l issuer g now h.0 h.1 r
  apply_op-Refines b l (op_revoke from to) h r = revoke-Refines b l from to h.0 h.1 r
  apply_op-Refines b l (op_revoke_all_to to) h r = revoke_all_to-Refines b l to h r
  apply_op-Refines b l (op_prune now) h r = prune-Refines b l now r

  pub run_ops-Refines :
      (b : GrantBook) (l : List Grant) (ops : List BookOp)
      → All IsPlain ops
      → Refines b l
      → Refines (run_ops b ops) (spec_run l ops)
  unfolding run_ops spec_run
  run_ops-Refines b l [] h r = r
  run_ops-Refines b l (op ∷ ops) h r =
      run_ops-Refines (apply_op b op) (spec_op l op) ops h.1 (apply_op-Refines b l op h.0 r)

  -- After any calls on an empty book whose IDs have no hyphen, Allows answers as the list of live
  -- grants does: some grant for this very source and target conveys the scope and has not expired.
  pub allows_refines :
      (ops : List BookOp) (from to : Text) (scope : Scope) (now : ℤ)
      → All IsPlain ops
      → NoDash from
      → NoDash to
      → allows (run_ops new_grant_book ops) from to scope now
        ≡ spec_allows (spec_run [] ops) from to scope now
  unfolding allows
  allows_refines ops from to scope now h hf ht =
      rw ((run_ops-Refines new_grant_book [] ops h new_grant_book-Refines).at_edge from to hf ht)
        (any-keep (on_edge from to) (λ g. conveys g scope now) (spec_run [] ops))
