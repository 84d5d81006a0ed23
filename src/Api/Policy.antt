-- ===== src/Api/Policy.antt =====
-- Which requests reach a handler, and the form of every answer (core/api/router.go).
use mazzy_vpn.Base.{
  ◌≡◌, ◌≢◌, ◌⊎◌, ◌↔◌, refl, inl, inr, true, false, Option, none, some, List, [], ◌∷◌, if◌then◌else◌,
  Text, contains, any, arith, ◌==◌, ==_iff, All, Bool-cases, Option-cases, subst, is_some,
}
use mazzy_vpn.Base.Dict
use mazzy_vpn.Api.Tokens.{reject_duplicate_keys, passed}
use mazzy_vpn.Api.Value.{Body, stream, decode, Request}
use mazzy_vpn.Api.{
  version, ok, error, Envelope, Router, Outcome, read_only_ops, mutation_ops, route, dispatch, run,
  result, handler_error, other_error, error_envelope, answer, req_id,
}

-- What holds of every member holds of a text that is one.
of-contains :
    (P : Text → Type 0) (t : Text) (xs : List Text) → All P xs → contains t xs ≡ true → P t
unfolding any
of-contains P t [] h c = absurd (cc)
of-contains P t (x ∷ xs) h c = elim (Bool-cases (x == t)) [
  | inl e ↦ subst P ((==_iff x t).0 e) h.0
  | inr n ↦ of-contains P t xs h.1 (ground arith)
]

read-mutation : (op : Text) → contains op read_only_ops ≡ true → contains op mutation_ops ≡ false
unfolding read_only_ops mutation_ops any ◌==◌
read-mutation op c =
    of-contains (λ x. contains x mutation_ops ≡ false) op read_only_ops
      (refl, (refl, (refl, (refl, (refl, tt))))) c

-- The current version, and either a reading operation with no credential or a changing one with both.
abbrev pub IsAdmitted : Request → Type 0
IsAdmitted req =
    (req.api_version ≡ version)
    × (((contains req.operation read_only_ops ≡ true)
          × (req.action_id ≡ [])
          × (req.authorization ≡ []))
        ⊎ ((contains req.operation mutation_ops ≡ true)
            × (req.action_id ≢ [])
            × (req.authorization ≢ [])))

named : (op : Text) → contains op read_only_ops ≡ true → (op == []) ≡ false
unfolding read_only_ops any ◌==◌
named op c =
    of-contains (λ x. (x == []) ≡ false) op read_only_ops (refl, (refl, (refl, (refl, (refl, tt)))))
      c

named_mutation : (op : Text) → contains op mutation_ops ≡ true → (op == []) ≡ false
unfolding mutation_ops any ◌==◌
named_mutation op c =
    of-contains (λ x. (x == []) ≡ false) op mutation_ops (refl, (refl, (refl, (refl, tt)))) c

route-called :
    (r : Router) (rid : Text) (req : Request)
    → IsAdmitted req
    → (route r rid req).called
      ≡ (if is_some (Dict.get r.handlers req.operation) then some req else none)
unfolding route
route-called r rid req h = ground (
  arith,
  read-mutation req.operation,
  named req.operation,
  named_mutation req.operation,
  ==_iff req.api_version version,
  ==_iff req.action_id [],
  ==_iff req.authorization [],
  Option-cases (Dict.get r.handlers req.operation),
)

route-IsAdmitted :
    (r : Router) (rid : Text) (req req' : Request)
    → (route r rid req).called ≡ some req'
    → (req' ≡ req) × IsAdmitted req × (is_some (Dict.get r.handlers req.operation) ≡ true)
unfolding route
route-IsAdmitted r rid req req' h = ground (
  arith,
  ==_iff req.api_version version,
  ==_iff req.action_id [],
  ==_iff req.authorization [],
  Option-cases (Dict.get r.handlers req.operation),
)

-- A handler is called with a request exactly when the body has no duplicate key and decodes to that
-- request, the request has the current version and is either a reading operation with no credential
-- or a changing operation with both credentials, and a handler of its operation is registered.
pub dispatch-called :
    (r : Router) (body : Body) (req : Request)
    → ((dispatch r body).called ≡ some req) ↔ (
        (reject_duplicate_keys (stream body) ≡ passed)
        × (decode body ≡ some req)
        × IsAdmitted req
        × (is_some (Dict.get r.handlers req.operation) ≡ true))
unfolding dispatch
dispatch-called r body req = (there, back)
  where
    there :
        (dispatch r body).called ≡ some req
        → (reject_duplicate_keys (stream body) ≡ passed)
          × (decode body ≡ some req)
          × IsAdmitted req
          × (is_some (Dict.get r.handlers req.operation) ≡ true)
    there h = elim (Option-cases (decode body)) [
      | inl e ↦ ground arith
      | inr (q, e) ↦ ground (arith, route-IsAdmitted r (req_id r) q req)
    ]

    back :
        (reject_duplicate_keys (stream body) ≡ passed)
          × (decode body ≡ some req)
          × IsAdmitted req
          × (is_some (Dict.get r.handlers req.operation) ≡ true)
        → (dispatch r body).called ≡ some req
    back h = rw (h.0, h.1, route-called r (req_id r) req h.2, h.3)

-- The form of an envelope: a result and no error, or an error and no result.
abbrev pub IsWellFormed : Text → Envelope → Type 0
IsWellFormed rid e =
    (e.api_version ≡ version)
    × (e.request_id ≡ rid)
    × (((e.status ≡ ok) × (is_some e.result ≡ true) × (e.error ≡ none))
        ⊎ ((e.status ≡ error) × (e.result ≡ none) × (is_some e.error ≡ true)))

answer-IsWellFormed : (rid : Text) (o : Outcome) → IsWellFormed rid (answer rid o)
unfolding answer
answer-IsWellFormed rid (result (some raw)) = ground arith
answer-IsWellFormed rid (result none) = ground arith
answer-IsWellFormed rid (handler_error e) = ground arith
answer-IsWellFormed rid other_error = ground arith

run-IsWellFormed :
    (rid : Text) (req : Request) (h : Option (Request → Outcome))
    → IsWellFormed rid (run rid req h).envelope
unfolding error_envelope answer
run-IsWellFormed rid req none = ground arith
run-IsWellFormed rid req (some h) = answer-IsWellFormed rid (h req)

route-IsWellFormed :
    (r : Router) (rid : Text) (req : Request) → IsWellFormed rid (route r rid req).envelope
unfolding route
route-IsWellFormed r rid req =
    ground (arith, run-IsWellFormed rid req (Dict.get r.handlers req.operation))

-- Every body is answered, with an envelope of the current version and the server's request id that has
-- a result and no error, or an error and no result.
pub dispatch-IsWellFormed :
    (r : Router) (body : Body) → IsWellFormed (req_id r) (dispatch r body).envelope
unfolding dispatch
dispatch-IsWellFormed r body = elim (Option-cases (decode body)) [
  | inl e ↦ ground arith
  | inr (req, e) ↦ ground (arith, route-IsWellFormed r (req_id r) req)
]
