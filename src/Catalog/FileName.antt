-- ===== src/Catalog/FileName.antt =====
-- The name that core/catalog/catalog.go gives a profile from the path of its file.
use mazzy_vpn.Base.{
  ℕ, Bool, not, ◌&&◌, ◌||◌, Option, none, some, [], ◌∷◌, map, if◌then◌else◌, Text, codes, ◌==◌,
  nat_beq, leb, any,
}
use mathlib.Core.List.{reverse}
use mazzy_vpn.Intent.{base_name, is_slash}

-- filepath.Ext: what follows the last dot, that dot included, if no slash comes after it.
unfoldable pub last_ext : Text → Option Text
unfolding any
last_ext [] = none
last_ext (c ∷ s) = elim (last_ext s) [
  | some e ↦ some e
  | none ↦ if nat_beq c b'.' && not (any is_slash s) then some (c ∷ s) else none
]

abbrev pub or_nothing : Option Text → Text
or_nothing none = []
or_nothing (some t) = t

unfoldable pub ext : Text → Text
unfolding last_ext
ext path = or_nothing (last_ext path)

-- strings.TrimSuffix
unfoldable pub trim_suffix : Text → Text → Text
trim_suffix [] t = []
trim_suffix (c ∷ s) t = let rest = trim_suffix s t in if (c ∷ s) == t then [] else c ∷ rest

abbrev pub is_safe : ℕ → Bool
is_safe c =
    (leb b'a' c && leb c b'z')
    || (leb b'A' c && leb c b'Z')
    || (leb b'0' c && leb c b'9')
    || nat_beq c b'-'
    || nat_beq c b'_'

abbrev pub safe_rune : ℕ → ℕ
safe_rune c = if is_safe c then c else b'-'

unfoldable pub trim_dashes : Text → Text
trim_dashes [] = []
trim_dashes (c ∷ s) = if nat_beq c b'-' then trim_dashes s else c ∷ s

abbrev pub or_profile : Text → Text
or_profile [] = codes "profile"
or_profile (c ∷ s) = c ∷ s

-- safeName
unfoldable pub safe_name : Text → Text
unfolding base_name ext trim_suffix trim_dashes
safe_name path =
    let base = base_name path in
    let stem = trim_suffix base (ext base) in
    or_profile (reverse (trim_dashes (reverse (trim_dashes (map safe_rune stem)))))
