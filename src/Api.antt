-- ===== src/Api.antt =====
-- core/api: the envelope of every answer and the dispatch of requests (envelope.go, router.go).
pub mod Tokens
pub mod Value
pub mod Unique
pub mod Policy
pub mod Smuggled
use mazzy_vpn.Base.{
  Bool, true, false, not, ◌&&◌, ◌||◌, Option, none, some, List, [], ◌∷◌, if◌then◌else◌, Text, codes,
  ◌==◌, contains, any,
}
use mazzy_vpn.Base.Dict
use mazzy_vpn.Base.Dict.{Dict}
use mazzy_vpn.Api.Tokens.{reject_duplicate_keys, Checked, passed}
use mazzy_vpn.Api.Value.{Body, stream, decode, Request}

abbrev pub version : Text
version = codes "1.0"

pub data Status : Type 0 where
  ok error : Status

pub record ApiError : Type 0 where
  pub code : Text
  pub message_key : Text
  pub retryable : Bool
  pub user_action_required : Bool

pub record Envelope : Type 0 where
  pub api_version : Text
  pub request_id : Text
  pub status : Status
  pub result : Option Text
  pub error : Option ApiError

-- What a handler answers: a result, as JSON where it can be marshalled, a HandlerError or another error.
pub data Outcome : Type 0 where
  result : Option Text → Outcome
  handler_error : ApiError → Outcome
  other_error : Outcome

-- The function Err.
unfoldable pub error_envelope : Text → Text → Text → Bool → Bool → Envelope
error_envelope request_id code message_key retryable user_action = record {
  api_version = version;
  request_id = request_id;
  status = error;
  result = none;
  error = some (record {
    code = code;
    message_key = message_key;
    retryable = retryable;
    user_action_required = user_action;
  });
}

-- The function OK, after its marshalling.
unfoldable pub ok_envelope : Text → Text → Envelope
ok_envelope request_id raw = record {
  api_version = version;
  request_id = request_id;
  status = ok;
  result = some raw;
  error = none;
}

unfoldable pub read_only_ops : List Text
read_only_ops =
    codes "api.capabilities"
    ∷ codes "status.get"
    ∷ codes "profiles.list"
    ∷ codes "protocols.list"
    ∷ codes "doctor.run"
    ∷ []

unfoldable pub mutation_ops : List Text
mutation_ops = codes "connect" ∷ codes "disconnect" ∷ codes "reconnect" ∷ codes "quick" ∷ []

-- Handlers by operation, and the request id that the server generates.
pub record Router : Type 0 where
  pub handlers : Dict (Request → Outcome)
  pub request_id : Option Text

unfoldable pub new_router : Option Text → Router
new_router request_id = record { handlers = []; request_id = request_id }

unfoldable pub handle : Router → Text → (Request → Outcome) → Router
handle r op h = record r { handlers = Dict.put r.handlers op h }

abbrev pub id_or : Option Text → Text
id_or none = codes "req"
id_or (some t) = t

unfoldable pub req_id : Router → Text
req_id r = id_or r.request_id

-- The envelope, and the request that a handler was called with, if one was.
pub record Reply : Type 0 where
  pub envelope : Envelope
  pub called : Option Request

abbrev pub refuse : Text → Text → Text → Bool → Bool → Reply
unfolding error_envelope
refuse rid code message_key retryable user_action = record {
  envelope = error_envelope rid code message_key retryable user_action;
  called = none;
}

unfoldable pub answer : Text → Outcome → Envelope
unfolding error_envelope ok_envelope
answer rid (result (some raw)) = ok_envelope rid raw
answer rid (result none) = error_envelope rid (codes "internal") (codes "api.internal") false false
answer rid (handler_error e) =
    error_envelope rid e.code e.message_key e.retryable e.user_action_required
answer rid other_error = error_envelope rid (codes "internal") (codes "api.internal") false false

abbrev pub is_empty : Text → Bool
is_empty t = t == []

abbrev pub run : Text → Request → Option (Request → Outcome) → Reply
unfolding answer error_envelope
run rid req none =
    refuse rid (codes "backend-unavailable") (codes "api.operation.unimplemented") true false
run rid req (some h) = record { envelope = answer rid (h req); called = some req }

-- Dispatch once the request is decoded.
unfoldable pub route : Router → Text → Request → Reply
unfolding read_only_ops mutation_ops answer error_envelope
route r rid req =
    let is_read = contains req.operation read_only_ops in
    let is_mutation = contains req.operation mutation_ops in
    if not (req.api_version == version)
    then refuse rid (codes "unsupported-version") (codes "api.version.unsupported") false true
    else if is_empty req.operation
    then refuse rid (codes "invalid-request") (codes "api.operation.missing") false false
    else if not is_read && not is_mutation
    then refuse rid (codes "invalid-request") (codes "api.operation.unknown") false false
    else if is_read && (not (is_empty req.action_id) || not (is_empty req.authorization))
    then refuse rid (codes "invalid-request") (codes "api.readonly.credentials_forbidden") false
        false
    else if is_mutation && (is_empty req.action_id || is_empty req.authorization)
    then refuse rid (codes "permission-denied") (codes "api.mutation.authorization_required") false
        true
    else run rid req (Dict.get r.handlers req.operation)

abbrev pub has_passed : Checked → Bool
has_passed passed = true
has_passed _ = false

abbrev pub malformed : Text → Reply
unfolding error_envelope
malformed rid = refuse rid (codes "invalid-request") (codes "api.request.malformed") false false

abbrev pub route_decoded : Router → Text → Option Request → Reply
unfolding route error_envelope
route_decoded r rid none = malformed rid
route_decoded r rid (some req) = route r rid req

-- Dispatch
unfoldable pub dispatch : Router → Body → Reply
unfolding req_id route reject_duplicate_keys decode stream error_envelope
dispatch r body =
    let rid = req_id r in
    if not (has_passed (reject_duplicate_keys (stream body)))
    then malformed rid
    else route_decoded r rid (decode body)
