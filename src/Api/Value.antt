-- ===== src/Api/Value.antt =====
-- core/api/router.go: the request as encoding/json reads it into the struct Request. Keys match the
-- field names after case folding, unknown keys and values of another type are errors, and of two
-- values for a field the later one stays.
use mazzy_vpn.Base.{
  ℕ, ◌+◌, Bool, ◌&&◌, Option, none, some, [], map, if◌then◌else◌, Text, codes, ◌==◌, nat_beq, leb,
  ℤ, pos,
}
use mazzy_vpn.Api.Tokens.{
  Stream, next, open_object, close_object, open_array, close_array, string, scalar,
}

-- A JSON value; a number that is no int64 has none.
mutual
  pub data Value : Type 0 where
    null : Value
    boolean : Bool → Value
    number : Option ℤ → Value
    text : Text → Value
    array : Items → Value
    object : Fields → Value

  pub data Items : Type 0 where
    no_items : Items
    item : Value → Items → Items

  pub data Fields : Type 0 where
    no_fields : Fields
    field : Text → Value → Fields → Fields

-- The tokens of a value, before others.
unfoldable mutual
  pub render : Value → Stream → Stream
  render null s = next scalar s
  render (boolean b) s = next scalar s
  render (number n) s = next scalar s
  render (text t) s = next (string t) s
  render (array xs) s = next open_array (render_items xs (next close_array s))
  render (object fs) s = next open_object (render_fields fs (next close_object s))

  pub render_items : Items → Stream → Stream
  render_items no_items s = s
  render_items (item v xs) s = render v (render_items xs s)

  pub render_fields : Fields → Stream → Stream
  render_fields no_fields s = s
  render_fields (field k v fs) s = next (string k) (render v (render_fields fs s))

-- A body: its first value and the tokens behind it, or a text with no complete first value.
pub data Body : Type 0 where
  complete : Value → Stream → Body
  incomplete : Stream → Body

unfoldable pub stream : Body → Stream
unfolding render
stream (complete v rest) = render v rest
stream (incomplete s) = s

-- The struct Request. Params is the value itself.
pub record Request : Type 0 where
  pub api_version : Text
  pub operation : Text
  pub action_id : Text
  pub authorization : Text
  pub deadline_ms : ℤ
  pub params : Option Value

abbrev pub no_request : Request
no_request = record {
  api_version = [];
  operation = [];
  action_id = [];
  authorization = [];
  deadline_ms = pos 0;
  params = none;
}

-- The folding of encoding/json, as far as it reaches ASCII: the long s and the Kelvin sign too.
abbrev pub fold_rune : ℕ → ℕ
fold_rune c =
    if leb b'A' c && leb c b'Z'
    then c + 32
    else if nat_beq c 0x17f
    then b's'
    else if nat_beq c 0x212a
    then b'k'
    else c

unfoldable pub fold_name : Text → Text
fold_name k = map fold_rune k

abbrev pub set_text : Value → (Text → Request) → Request → Option Request
set_text null set r = some r
set_text (text t) set r = some (set t)
set_text _ set r = none

abbrev pub set_int : Value → (ℤ → Request) → Request → Option Request
set_int null set r = some r
set_int (number (some n)) set r = some (set n)
set_int _ set r = none

-- One key of the object.
unfoldable pub set_field : Text → Value → Request → Option Request
unfolding fold_name
set_field k v r =
    let name = fold_name k in
    if name == codes "api_version"
    then set_text v (λ t. record r { api_version = t }) r
    else if name == codes "operation"
    then set_text v (λ t. record r { operation = t }) r
    else if name == codes "action_id"
    then set_text v (λ t. record r { action_id = t }) r
    else if name == codes "authorization"
    then set_text v (λ t. record r { authorization = t }) r
    else if name == codes "deadline_ms"
    then set_int v (λ n. record r { deadline_ms = n }) r
    else if name == codes "params"
    then some (record r { params = some v })
    else none

unfoldable pub set_fields : Fields → Request → Option Request
unfolding set_field
set_fields no_fields r = some r
set_fields (field k v fs) r = elim (set_field k v r) [ none ↦ none | some r' ↦ set_fields fs r' ]

-- dec.Decode(&req) with DisallowUnknownFields, on the first value of the body.
unfoldable pub decode : Body → Option Request
unfolding set_fields
decode (incomplete s) = none
decode (complete (object fs) rest) = set_fields fs no_request
decode (complete null rest) = some no_request
decode (complete _ rest) = none
