-- ===== src/Update.antt =====
-- The updater of the CLI (mazzy-vpn-cli/cmd/mazzy-vpn/update.go): the order of versions and the swap of
-- the binary. Requests, the archive and the messages are left out.
pub mod Versions
pub mod Swap
use mazzy_vpn.Base.{
  ℕ, zero, suc, ◌+◌, ◌-◌, ◌*◌, ◌^◌, Bool, true, false, not, ◌&&◌, ◌||◌, Option, none, some, List,
  [], ◌∷◌, ◌++◌, if◌then◌else◌, Text, codes, ◌==◌, ltb, leb, nat_beq, any, is_space, trim_space,
  has_prefix, has_suffix, is_digit,
}

-- strings.TrimPrefix(s, "v")
abbrev pub drop_v : Text → Text
drop_v [] = []
drop_v (c ∷ s) = if nat_beq c b'v' then s else c ∷ s

abbrev pub is_suffix_mark : ℕ → Bool
is_suffix_mark c = nat_beq c b'-' || nat_beq c b'+'

unfoldable pub before_mark : Text → Text
before_mark [] = []
before_mark (c ∷ s) = let rest = before_mark s in if is_suffix_mark c then [] else c ∷ rest

-- What stands before the first dot, and behind it.
unfoldable pub before_dot : Text → Text
before_dot [] = []
before_dot (c ∷ s) = let rest = before_dot s in if nat_beq c b'.' then [] else c ∷ rest

unfoldable pub after_dot : Text → Text
after_dot [] = []
after_dot (c ∷ s) = let rest = after_dot s in if nat_beq c b'.' then s else rest

unfoldable pub skip_blanks : Text → Text
unfolding is_space
skip_blanks [] = []
skip_blanks (c ∷ s) =
    let rest = skip_blanks s in if is_space c && not (nat_beq c b'\n') then rest else c ∷ s

-- The digits at the start, read on from `n`.
unfoldable pub leading_number : Text → ℕ → ℕ
leading_number [] n = n
leading_number (c ∷ s) n = if is_digit c then leading_number s (n * 10 + (c - b'0')) else n

-- fmt.Sscanf(part, "%d", &n), where n stays 0 if nothing or no int can be read; there is no sign left.
unfoldable pub scan_number : Text → ℕ
unfolding skip_blanks leading_number
scan_number part = let n = leading_number (skip_blanks part) 0 in if ltb n (2 ^ 63) then n else 0

pub record Version : Type 0 where
  pub major : ℕ
  pub minor : ℕ
  pub patch : ℕ

-- parseVer
unfoldable pub parse_ver : Text → Version
unfolding trim_space before_mark before_dot after_dot scan_number
parse_ver s =
    let t = before_mark (drop_v (trim_space s)) in
    record {
      major = scan_number (before_dot t);
      minor = scan_number (before_dot (after_dot t));
      patch = scan_number (after_dot (after_dot t));
    }

-- strings.ContainsAny(s, "-")
unfoldable pub has_dash : Text → Bool
unfolding any
has_dash s = any (λ c. nat_beq c b'-') s

abbrev pub newer_by : Version → Version → Bool → Bool
newer_by v w last =
    if not (nat_beq v.major w.major)
    then ltb w.major v.major
    else if not (nat_beq v.minor w.minor)
    then ltb w.minor v.minor
    else if not (nat_beq v.patch w.patch)
    then ltb w.patch v.patch
    else last

-- isNewer
unfoldable pub is_newer : Text → Text → Bool
unfolding parse_ver has_dash
is_newer tag cur = newer_by (parse_ver tag) (parse_ver cur) (has_dash cur && not (has_dash tag))

pub record Asset : Type 0 where
  pub name : Text
  pub url : Text

-- The loop over the assets: the last one of the name, and the last archive of the program.
unfoldable pub find_asset : Text → List Asset → Text → Text → Text × Text
unfolding ◌==◌ has_prefix has_suffix
find_asset name [] asset fallback = (asset, fallback)
find_asset name (a ∷ rest) asset fallback =
    find_asset name rest (if a.name == name then a.url else asset) (
      if has_prefix a.name (codes "mazzy-vpn-go-") && has_suffix a.name (codes ".tar.gz")
      then a.url
      else fallback)

abbrev pub or_fallback : Text × Text → Text
or_fallback (asset, fallback) = if asset == [] then fallback else asset

-- The part of cmdUpdate that chooses what to download; the architecture is runtime.GOARCH.
unfoldable pub choose_asset : Text → Text → List Asset → Text
unfolding find_asset ◌==◌
choose_asset tag arch assets = or_fallback (
    find_asset (codes "mazzy-vpn-go-" ++ drop_v tag ++ codes "-linux-" ++ arch ++ codes ".tar.gz")
      assets [] [])

-- The binary that runs, and the one that is set aside.
pub record Files : Type 0 where
  pub target : Option Text
  pub backup : Option Text

-- What the calls of a swap answer: the size of the new file, and each further call in turn. `torn` is what
-- a copy that breaks off leaves.
pub record Calls : Type 0 where
  pub size : Option ℕ
  pub remove_old : Bool
  pub rename : Bool
  pub open_source : Bool
  pub open_target : Bool
  pub copy : Bool
  pub torn : Text
  pub close : Bool
  pub roll_back : Bool
  pub remove_backup : Bool

pub data SwapError : Type 0 where
  looks_invalid open_failed copy_failed close_failed : SwapError

-- copyFile, which truncates the target before it copies.
unfoldable pub copy_file : Calls → Text → Files → Files × Option SwapError
copy_file c new f =
    if not c.open_source
    then (f, some open_failed)
    else if not c.open_target
    then (f, some open_failed)
    else if not c.copy
    then (record f { target = some c.torn }, some copy_failed)
    else if not c.close
    then (record f { target = some new }, some close_failed)
    else (record f { target = some new }, none)

abbrev pub looks_valid : Option ℕ → Bool
looks_valid none = false
looks_valid (some n) = leb 1000000 n

abbrev pub rolled_back : Bool → Files → Files
rolled_back works f = if works then record f { target = f.backup; backup = none } else f

abbrev pub finish : Calls → Files × Option SwapError → Files × Option SwapError
finish c (f, none) = ((if c.remove_backup then record f { backup = none } else f), none)
finish c (f, some e) = (rolled_back c.roll_back f, some e)

abbrev pub removed_old : Bool → Files → Files
removed_old works f = if works then record f { backup = none } else f

-- replaceBinary
unfoldable pub replace_binary : Calls → Text → Files → Files × Option SwapError
unfolding copy_file
replace_binary c new f =
    let f₁ = removed_old c.remove_old f in
    if not (looks_valid c.size)
    then (f, some looks_invalid)
    else if not c.rename
    then copy_file c new f₁
    else finish c (copy_file c new (record f₁ { target = none; backup = f₁.target }))
