-- ===== src/Api/Tokens.antt =====
-- core/api/router.go: rejectDuplicateKeys and skipValue over the tokens of a json.Decoder. A JSON text
-- is its first value with what stands behind it, or a text whose first value is not complete.
use mazzy_vpn.Base.{
  ℕ, zero, suc, Bool, true, false, ◌||◌, Option, none, some, List, [], ◌∷◌, if◌then◌else◌, Text,
  contains, ltb,
}

-- What Token answers.
pub data Token : Type 0 where
  open_object close_object open_array close_array : Token
  string : Text → Token
  scalar : Token

-- The tokens to come. At the end, and where the text is broken, Token answers an error; what More
-- answers at a broken place depends on the byte that stands there.
pub data Stream : Type 0 where
  at_end : Stream
  broken : Bool → Stream
  next : Token → Stream → Stream

abbrev pub is_close : Token → Bool
is_close close_object = true
is_close close_array = true
is_close _ = false

abbrev pub more : Stream → Bool
more at_end = false
more (broken b) = b
more (next t s) = if is_close t then false else true

abbrev pub pred : ℕ → ℕ
pred zero = zero
pred (suc d) = d

-- The nesting after a token.
abbrev pub nest : Token → ℕ → ℕ
nest open_object d = suc d
nest open_array d = suc d
nest close_object d = pred d
nest close_array d = pred d
nest _ d = d

-- The inner loop of skipValue; `none` is an error of Token.
unfoldable pub skip_nested : ℕ → Stream → Option Stream
skip_nested zero s = some s
skip_nested (suc d) at_end = none
skip_nested (suc d) (broken _) = none
skip_nested (suc d) (next t s) = skip_nested (nest t (suc d)) s

unfoldable pub skip_value : Stream → Option Stream
unfolding skip_nested
skip_value at_end = none
skip_value (broken _) = none
skip_value (next open_object s) = skip_nested 1 s
skip_value (next open_array s) = skip_nested 1 s
skip_value (next _ s) = some s

pub data KeyError : Type 0 where
  token_error not_an_object : KeyError
  duplicate_key : Text → KeyError

pub data Checked : Type 0 where
  passed : Checked
  failed : KeyError → Checked
  out_of_fuel : Checked

-- A key at depth 0, whose value is skipped before the loop goes on.
abbrev pub after_key : (List Text → Stream → Checked) → List Text → Text → Stream → Checked
after_key continue seen k s =
    if contains k seen
    then failed (duplicate_key k)
    else elim (skip_value s) [ none ↦ failed token_error | some s' ↦ continue (k ∷ seen) s' ]

-- One token of the loop.
abbrev pub visit : (List Text → ℕ → Stream → Checked) → List Text → ℕ → Token → Stream → Checked
visit continue seen zero (string k) s = after_key (λ seen' s'. continue seen' 0 s') seen k s
visit continue seen d t s = continue seen (nest t d) s

-- The loop of rejectDuplicateKeys, which runs while More answers true or the depth is positive.
unfoldable pub check_keys : ℕ → List Text → ℕ → Stream → Checked
unfolding skip_value
check_keys zero seen d s = out_of_fuel
check_keys (suc f) seen d at_end = if ltb 0 d then failed token_error else passed
check_keys (suc f) seen d (broken b) = if b || ltb 0 d then failed token_error else passed
check_keys (suc f) seen d (next t s) =
    let round = visit (check_keys f) seen d t s in
    if more (next t s) || ltb 0 d then round else passed

abbrev pub size : Stream → ℕ
size at_end = 0
size (broken _) = 0
size (next _ s) = suc (size s)

-- rejectDuplicateKeys
unfoldable pub reject_duplicate_keys : Stream → Checked
unfolding check_keys
reject_duplicate_keys at_end = failed token_error
reject_duplicate_keys (broken _) = failed token_error
reject_duplicate_keys (next open_object s) = check_keys (suc (size s)) [] 0 s
reject_duplicate_keys (next _ s) = failed not_an_object
