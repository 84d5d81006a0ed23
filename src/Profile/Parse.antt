-- ===== src/Profile/Parse.antt =====
-- core/profile/config.go: the parser of wg-quick configurations. strings.ToLower is the parameter
-- `to_lower`.
use mazzy_vpn.Base.{
  ℕ, ◌+◌, ◌-◌, ◌*◌, ◌^◌, Bool, true, false, not, ◌&&◌, ◌||◌, Option, none, some, List, [], ◌∷◌,
  ◌++◌, if◌then◌else◌, Text, codes, ◌==◌, nat_beq, leb, trim_space, has_prefix, has_suffix,
  contains, ℤ, pos, parse_int,
}
use mazzy_vpn.Base.Decimal.{parse_digits, is_digit}
use mazzy_vpn.Base.Dict
use mazzy_vpn.Base.Dict.{Dict}
use mazzy_vpn.Intent.{scan, cut}
use mazzy_vpn.Profile.{Peer, Config, tail}

pub data ParseError : Type 0 where
  malformed executable outside_section unknown_key bad_number empty_value unreadable : ParseError

-- A value, or the error that stops the parse.
pub data Parsed {ℓ} (A : Type ℓ) : Type ℓ where
  ok : A → Parsed A
  err : ParseError → Parsed A

abbrev pub and_then {ℓ κ} : {A : Type ℓ} {B : Type κ} → Parsed A → (A → Parsed B) → Parsed B
and_then (ok a) f = f a
and_then (err e) f = err e

abbrev pub or_error {ℓ} : {A : Type ℓ} → ParseError → Option A → Parsed A
or_error e none = err e
or_error e (some a) = ok a

-- splitKV
abbrev pub trim_pair : Option (Text × Text) → Option (Text × Text)
trim_pair none = none
trim_pair (some (k, v)) = some (trim_space k, trim_space v)

unfoldable pub split_kv : Text → Option (Text × Text)
unfolding cut
split_kv line = trim_pair (cut line)

-- strings.Split by a comma, then the parts that are not blank.
abbrev pub cons_part : ℕ → List Text → List Text
cons_part c [] = (c ∷ []) ∷ []
cons_part c (p ∷ ps) = (c ∷ p) ∷ ps

unfoldable pub split_comma : Text → List Text
split_comma [] = [] ∷ []
split_comma (c ∷ s) =
    let rest = split_comma s in if nat_beq c b',' then [] ∷ rest else cons_part c rest

unfoldable pub trim_parts : List Text → List Text
trim_parts [] = []
trim_parts (p ∷ ps) =
    let rest = trim_parts ps in if trim_space p == [] then rest else trim_space p ∷ rest

unfoldable pub split_list : Text → List Text
unfolding split_comma trim_parts
split_list val = trim_parts (split_comma val)

-- atoiField
unfoldable pub atoi_field : Text → Parsed ℤ
atoi_field val = or_error bad_number (parse_int (trim_space val))

abbrev hex_digit : ℕ → Option ℕ
hex_digit c =
    if is_digit c
    then some (c - b'0')
    else if leb b'a' c && leb c b'f'
    then some (c - b'a' + 10)
    else if leb b'A' c && leb c b'F'
    then some (c - b'A' + 10)
    else none

unfoldable pub parse_hex : Text → ℕ → Option ℕ
parse_hex [] n = some n
parse_hex (c ∷ s) n = elim (hex_digit c) [ none ↦ none | some d ↦ parse_hex s (n * 16 + d) ]

abbrev below_32 : Option ℕ → Option ℕ
below_32 none = none
below_32 (some n) = if leb n (2 ^ 32 - 1) then some n else none

-- strconv.ParseUint of a number that is not empty, for 32 bits.
abbrev parse_uint : Bool → Text → Option ℕ
parse_uint is_hex [] = none
parse_uint is_hex (c ∷ s) =
    below_32 (if is_hex then parse_hex (c ∷ s) 0 else parse_digits (c ∷ s) 0)

-- parseFwMark
unfoldable pub parse_fw_mark : Text → Parsed ℕ
unfolding parse_hex
parse_fw_mark val =
    let v = trim_space val in
    if has_prefix v (codes "0x") || has_prefix v (codes "0X")
    then or_error bad_number (parse_uint true (tail (tail v)))
    else or_error bad_number (parse_uint false v)

abbrev pub amnezia_keys : List Text
amnezia_keys =
    codes "jc"
    ∷ codes "jmin"
    ∷ codes "jmax"
    ∷ codes "s1"
    ∷ codes "s2"
    ∷ codes "s3"
    ∷ codes "s4"
    ∷ codes "h1"
    ∷ codes "h2"
    ∷ codes "h3"
    ∷ codes "h4"
    ∷ codes "i1"
    ∷ codes "i2"
    ∷ codes "i3"
    ∷ codes "i4"
    ∷ codes "i5"
    ∷ codes "header_protection_key"
    ∷ codes "content_padding_addition"
    ∷ codes "random_trailers"
    ∷ codes "disable_cookies"
    ∷ []

-- HasAmneziaFields is set before the test for an empty value, which fails the parse.
abbrev pub set_amnezia : Text → Text → Config → Parsed Config
set_amnezia key val c =
    if not (contains key amnezia_keys)
    then err unknown_key
    else if val == []
    then err empty_value
    else ok (record c { has_amnezia_fields = true; amnezia = Dict.put c.amnezia key val })

unfoldable pub set_interface : Text → Text → Config → Parsed Config
unfolding split_list atoi_field parse_fw_mark
set_interface key val c =
    if key == codes "privatekey"
    then ok (record c { private_key = val })
    else if key == codes "address"
    then ok (record c { addresses = c.addresses ++ split_list val })
    else if key == codes "dns"
    then ok (record c { dns = c.dns ++ split_list val })
    else if key == codes "mtu"
    then and_then (atoi_field val) (λ n. ok (record c { mtu = n }))
    else if key == codes "listenport"
    then and_then (atoi_field val) (λ n. ok (record c { listen_port = n }))
    else if key == codes "fwmark"
    then and_then (parse_fw_mark val) (λ n. ok (record c { fw_mark = n }))
    else set_amnezia key val c

unfoldable pub set_peer : Text → Text → Peer → Parsed Peer
unfolding split_list atoi_field
set_peer key val p =
    if key == codes "publickey"
    then ok (record p { public_key = val })
    else if key == codes "presharedkey"
    then ok (record p { preshared_key = val })
    else if key == codes "endpoint"
    then ok (record p { endpoint = val })
    else if key == codes "allowedips"
    then ok (record p { allowed_ips = p.allowed_ips ++ split_list val })
    else if key == codes "persistentkeepalive"
    then and_then (atoi_field val) (λ n. ok (record p { persistent_keepalive = n }))
    else err unknown_key

abbrev pub empty_peer : Peer
empty_peer = record {
  public_key = [];
  preshared_key = [];
  endpoint = [];
  allowed_ips = [];
  persistent_keepalive = pos 0;
}

abbrev pub empty_config : Config
empty_config = record {
  private_key = [];
  addresses = [];
  dns = [];
  mtu = pos 0;
  listen_port = pos 0;
  fw_mark = 0;
  amnezia = [];
  peers = [];
  has_amnezia_fields = false;
}

-- The peer that `cur` points to is the last one; there is none before a peer section.
unfoldable pub set_last : Text → Text → List Peer → Parsed (List Peer)
set_last key val [] = err outside_section
set_last key val (p ∷ []) = and_then (set_peer key val p) (λ q. ok (q ∷ []))
set_last key val (p ∷ q ∷ ps) = and_then (set_last key val (q ∷ ps)) (λ rest. ok (p ∷ rest))

abbrev pub unsafe_interface_keys : List Text
unsafe_interface_keys = codes "preup" ∷ codes "postup" ∷ codes "predown" ∷ codes "postdown" ∷ []

-- One `key = value` line in the given section.
unfoldable pub set_field : Text → Text → Text → Config → Parsed Config
unfolding set_interface set_last set_peer
set_field section key val c =
    if section == codes "interface"
    then if contains key unsafe_interface_keys then err executable else set_interface key val c
    else if section == codes "peer"
    then and_then (set_last key val c.peers) (λ ps. ok (record c { peers = ps }))
    else err outside_section

abbrev pub is_skipped : Text → Bool
is_skipped line = line == [] || has_prefix line (codes "#")

abbrev pub is_header : Text → Bool
is_header line = has_prefix line (codes "[") && has_suffix line (codes "]")

-- The text between the first byte of a header and its last.
unfoldable pub drop_last : Text → Text
drop_last [] = []
drop_last (c ∷ []) = []
drop_last (c ∷ d ∷ s) = c ∷ drop_last (d ∷ s)

abbrev pub header_name : (Text → Text) → Text → Text
header_name to_lower line = to_lower (trim_space (drop_last (tail line)))

-- The section and the configuration so far.
pub record Progress : Type 0 where
  pub section : Text
  pub config : Config

abbrev pub enter : Text → Progress → Progress
enter name s = record {
  section = name;
  config =
      if name == codes "peer"
      then record s.config { peers = s.config.peers ++ empty_peer ∷ [] }
      else s.config;
}

abbrev pub field_of : (Text → Text) → Progress → Option (Text × Text) → Parsed Progress
field_of to_lower s none = err malformed
field_of to_lower s (some (k, v)) =
    and_then (set_field s.section (to_lower k) v s.config)
      (λ c. ok (record { section = s.section; config = c }))

-- One round of the loop, on a line as the scanner returns it.
unfoldable pub parse_line : (Text → Text) → Text → Progress → Parsed Progress
unfolding split_kv set_field drop_last
parse_line to_lower raw s =
    let line = trim_space raw in
    if is_skipped line
    then ok s
    else if is_header line
    then ok (enter (header_name to_lower line) s)
    else field_of to_lower s (split_kv line)

unfoldable pub parse_lines : (Text → Text) → List Text → Progress → Parsed Progress
unfolding parse_line
parse_lines to_lower [] s = ok s
parse_lines to_lower (l ∷ ls) s = and_then (parse_line to_lower l s) (parse_lines to_lower ls)

-- The function Parse.
unfoldable pub parse : (Text → Text) → Text → Parsed Config
unfolding parse_lines scan
parse to_lower t = and_then (or_error unreadable (scan t)) (λ ls.
    and_then (parse_lines to_lower ls (record { section = []; config = empty_config }))
      (λ s. ok s.config))
