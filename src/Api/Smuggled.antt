-- ===== src/Api/Smuggled.antt =====
-- Two spellings of one field (core/api/router.go): rejectDuplicateKeys compares keys as they are
-- written, and encoding/json compares them after case folding.
use mazzy_vpn.Base.{
  ◌≡◌, ◌≢◌, refl, false, ◌∙◌, some, [], ◌∷◌, Text, codes, any, contains, arith, ◌==◌, ==_iff,
  Bool-cases, inl, inr, ap,
}
use mazzy_vpn.Api.Tokens.{reject_duplicate_keys, Stream, passed}
use mazzy_vpn.Api.Unique.{reject_duplicate_keys-render}
use mazzy_vpn.Api.Value.{
  complete, stream, decode, Request, no_request, text, object, Fields, field, no_fields, set_fields,
  set_field, fold_name,
}
use mazzy_vpn.Api.{version}

-- A request that names its operation twice.
abbrev pub twice : Text → Text → Text → Fields
twice k op op' =
    field (codes "api_version") (text version)
      (field (codes "operation") (text op) (field k (text op') no_fields))

set_field-respelled :
    (k t : Text) (r : Request)
    → fold_name k ≡ codes "operation"
    → set_field k (text t) r ≡ some (record r { operation = t })
unfolding set_field ◌==◌
set_field-respelled k t r e = rw e refl

set_fields-last :
    (k t : Text) (r : Request)
    → fold_name k ≡ codes "operation"
    → set_fields (field k (text t) no_fields) r ≡ some (record r { operation = t })
unfolding set_fields
set_fields-last k t r e = rw (set_field-respelled k t r e, set_fields) refl

set_fields-twice :
    (k op op' : Text)
    → fold_name k ≡ codes "operation"
    → set_fields (twice k op op') no_request
      ≡ some (record no_request { api_version = version; operation = op' })
set_fields-twice k op op' e =
    first_two
    ∙ set_fields-last k op' (record no_request { api_version = version; operation = op }) e
  where
    first_two :
        set_fields (twice k op op') no_request
        ≡ set_fields
            (field k (text op') no_fields)
            (record no_request { api_version = version; operation = op })
    first_two = unfold set_fields set_field ◌==◌ in refl

not_version : (k : Text) → fold_name k ≡ codes "operation" → (codes "api_version" == k) ≡ false
unfolding fold_name
not_version k e = elim (Bool-cases (codes "api_version" == k)) [
  | inl same ↦ absurd (let v = ap fold_name ((==_iff (codes "api_version") k).0 same) ∙ e in cc)
  | inr n ↦ n
]

other_spelling :
    (k : Text)
    → k ≢ codes "operation"
    → fold_name k ≡ codes "operation"
    → contains k (codes "operation" ∷ codes "api_version" ∷ []) ≡ false
unfolding any
other_spelling k n e = ground (arith, ==_iff (codes "operation") k, not_version k e)

-- A key that is another spelling of `operation` passes the check for duplicates, and the request is
-- decoded with the operation that stands under that key, not with the one under `operation`.
pub decode-respelled :
    (k op op' : Text) (rest : Stream)
    → fold_name k ≡ codes "operation"
    → k ≢ codes "operation"
    → let body = complete (object (twice k op op')) rest in
      (reject_duplicate_keys (stream body) ≡ passed)
      × (decode body ≡ some (record no_request { api_version = version; operation = op' }))
unfolding stream decode ◌==◌ any
decode-respelled k op op' rest e n = (
  rw (reject_duplicate_keys-render (twice k op op') rest, other_spelling k n e) refl,
  set_fields-twice k op op' e,
)
