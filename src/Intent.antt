-- ===== src/Intent.antt =====
-- core/state/state.go: the persisted intent of a connection. A string is the list of its bytes here.
pub mod Lines
pub mod RoundTrip
use mazzy_vpn.Base.{
  ℕ, ◌+◌, Bool, true, false, not, ◌&&◌, ◌||◌, Option, none, some, List, [], ◌∷◌, ◌++◌, map, any,
  length, if◌then◌else◌, Text, codes, ◌==◌, nat_beq, leb, ℤ, pos, format_ℤ, parse_int,
}
use mazzy_vpn.Base.Dict
use mazzy_vpn.Base.Dict.{Dict}
use mazzy_vpn.Boot.File.{
  FileView, absent, not_regular, regular, Disk, Faults, IoError, write_in_dir,
}
use mazzy_vpn.Protocols.{Protocol, canonical_protocol, mode_normal, mode_test}

-- The type State of the source.
pub record Intent : Type 0 where
  pub protocol : Protocol
  pub profile : Text
  pub desired : Text
  pub mode : Text
  pub test_token : Text
  pub test_deadline : ℤ

-- filepath.Base of the standard library, on the separator `/`.
abbrev pub is_slash : ℕ → Bool
is_slash c = nat_beq c b'/'

unfoldable pub strip_slashes : Text → Text
strip_slashes [] = []
strip_slashes (c ∷ s) =
    let rest = strip_slashes s in if is_slash c && rest == [] then [] else c ∷ rest

unfoldable pub last_element : Text → Text
last_element [] = []
last_element (c ∷ s) = let rest = last_element s in if any is_slash (c ∷ s) then rest else c ∷ s

unfoldable pub base_name : Text → Text
unfolding strip_slashes last_element
base_name p =
    if p == []
    then codes "."
    else let name = last_element (strip_slashes p) in if name == [] then codes "/" else name

abbrev pub or_normal : Text → Text
or_normal m = if m == [] then mode_normal else m

-- One `Fprintf(&b, "KEY=%s\n", value)` before the rest.
abbrev pub print_line : Text → Text → Text → Text
print_line key value rest = key ++ value ++ b'\n' ∷ rest

-- What Write puts in the file.
unfoldable pub content : Intent → Text
unfolding base_name
content st =
    let mode = or_normal st.mode in
    let test_part : Text =
      if mode == mode_test
      then print_line (codes "TEST_TOKEN=") st.test_token
          (print_line (codes "TEST_DEADLINE=") (format_ℤ st.test_deadline) [])
      else [] in
    print_line (codes "PROTOCOL=") st.protocol (
      print_line (codes "PROFILE=") (base_name st.profile)
        (print_line (codes "DESIRED=") st.desired (print_line (codes "MODE=") mode test_part)))

pub data WriteError : Type 0 where
  required : WriteError
  io : IoError → WriteError

abbrev lift_error : Option IoError → Option WriteError
lift_error none = none
lift_error (some e) = some (io e)

-- The method Write.
unfoldable pub write : Faults → Intent → Disk → Disk × Option WriteError
unfolding content
write f st d =
    if st.protocol == [] || st.profile == []
    then (d, some required)
    else let r = write_in_dir f (content st) d in (r.0, lift_error r.1)

-- bufio.Scanner of the standard library with its default split function and limit.
abbrev pub push : ℕ → List Text → List Text
push c [] = (c ∷ []) ∷ []
push c (l ∷ ls) = (c ∷ l) ∷ ls

unfoldable pub split_lines : Text → List Text
split_lines [] = []
split_lines (c ∷ s) = let rest = split_lines s in if nat_beq c b'\n' then [] ∷ rest else push c rest

unfoldable pub drop_cr : Text → Text
drop_cr [] = []
drop_cr (c ∷ []) = if nat_beq c 13 then [] else c ∷ []
drop_cr (c ∷ d ∷ s) = c ∷ drop_cr (d ∷ s)

abbrev pub max_token : ℕ
max_token = 65536

unfoldable pub scan : Text → Option (List Text)
unfolding split_lines drop_cr
scan t =
    let ls = split_lines t in
    if any (λ l. leb max_token (length l)) ls then none else some (map drop_cr ls)

-- The line about its first `=`.
abbrev pub cons_key : ℕ → Option (Text × Text) → Option (Text × Text)
cons_key c none = none
cons_key c (some (k, v)) = some (c ∷ k, v)

unfoldable pub cut : Text → Option (Text × Text)
cut [] = none
cut (c ∷ s) = let rest = cut s in if nat_beq c b'=' then some ([], s) else cons_key c rest

abbrev pub put_pair : Dict Text → Option (Text × Text) → Dict Text
put_pair d none = d
put_pair d (some (k, v)) = Dict.put d k v

unfoldable pub pairs : List Text → Dict Text → Dict Text
unfolding cut
pairs [] d = d
pairs (l ∷ ls) d = pairs ls (put_pair d (cut l))

abbrev pub or_empty : Option Text → Text
or_empty none = []
or_empty (some t) = t

-- A missing key of the map reads as the empty string.
abbrev pub value : Dict Text → Text → Text
value d k = or_empty (Dict.get d k)

abbrev pub or_zero : Option ℤ → ℤ
or_zero none = pos 0
or_zero (some z) = z

pub data ReadError : Type 0 where
  open_failed line_too_long unknown_protocol missing_profile : ReadError

pub data Loaded : Type 0 where
  loaded : Intent → Loaded
  failed : ReadError → Loaded

-- The test fields are read in test mode only.
abbrev pub intent : Protocol → Dict Text → Intent
intent p kv =
    let mode = or_normal (value kv (codes "MODE")) in
    record {
      protocol = p;
      profile = value kv (codes "PROFILE");
      desired = value kv (codes "DESIRED");
      mode = mode;
      test_token = if mode == mode_test then value kv (codes "TEST_TOKEN") else [];
      test_deadline =
          if mode == mode_test
          then or_zero (parse_int (value kv (codes "TEST_DEADLINE")))
          else pos 0;
    }

abbrev pub with_protocol : Dict Text → Option Protocol → Loaded
with_protocol kv none = failed unknown_protocol
with_protocol kv (some p) =
    if value kv (codes "PROFILE") == [] then failed missing_profile else loaded (intent p kv)

abbrev pub with_lines : Option (List Text) → Loaded
with_lines none = failed line_too_long
with_lines (some ls) =
    let kv = pairs ls [] in with_protocol kv (canonical_protocol (value kv (codes "PROTOCOL")))

-- What Read makes of the file's text.
unfoldable pub read_text : Text → Loaded
unfolding scan pairs
read_text t = with_lines (scan t)

-- The method Read; `readable` says whether os.Open and reading succeed.
unfoldable pub read : Bool → Disk → Loaded
unfolding read_text
read readable d = elim d.file [
  | absent ↦ failed open_failed
  | not_regular ↦ failed open_failed
  | regular t ↦ if readable then read_text t else failed open_failed
]

pub data SetError : Type 0 where
  read_failed : ReadError → SetError
  write_failed : WriteError → SetError

abbrev pub lift_write : Option WriteError → Option SetError
lift_write none = none
lift_write (some e) = some (write_failed e)

abbrev pub set_on : Faults → Text → Disk → Loaded → Disk × Option SetError
set_on f desired d (failed e) = (d, some (read_failed e))
set_on f desired d (loaded st) =
    let r = write f (record st { desired = desired }) d in (r.0, lift_write r.1)

-- The method SetDesired.
unfoldable pub set_desired : Bool → Faults → Text → Disk → Disk × Option SetError
unfolding read write
set_desired readable f desired d = set_on f desired d (read readable d)
