-- ===== src/Update/Versions.antt =====
-- `isNewer` orders versions (mazzy-vpn-cli/cmd/mazzy-vpn/update.go).
use mazzy_vpn.Base.{◌≡◌, Bool, true, false, not, ◌&&◌, Text, arith}
use mazzy_vpn.Update.{Version, parse_ver, has_dash, newer_by, is_newer}

abbrev last : Bool → Bool → Bool
last pre_tag pre_cur = pre_cur && not pre_tag

newer_by-irreflexive : (v : Version) (p : Bool) → newer_by v v (last p p) ≡ false
newer_by-irreflexive v p = ground arith

newer_by-asymmetric :
    (v w : Version) (p q : Bool) → newer_by v w (last p q) ≡ true → newer_by w v (last q p) ≡ false
newer_by-asymmetric v w p q h = ground arith

newer_by-transitive :
    (u v w : Version) (p q r : Bool)
    → newer_by u v (last p q) ≡ true
    → newer_by v w (last q r) ≡ true
    → newer_by u w (last p r) ≡ true
newer_by-transitive u v w p q r h k = ground arith

-- The versions are ordered: where a is newer than b and b newer than c, a is newer than c, b is not newer
-- than a, and none is newer than itself; so no chain of updates leads back.
pub is_newer-order :
    (a b c : Text)
    → is_newer a b ≡ true
    → is_newer b c ≡ true
    → (is_newer a c ≡ true) × (is_newer b a ≡ false) × (is_newer a a ≡ false)
unfolding is_newer
is_newer-order a b c h k = (
  newer_by-transitive (parse_ver a) (parse_ver b) (parse_ver c) (has_dash a) (has_dash b)
      (has_dash c) h k,
  newer_by-asymmetric (parse_ver a) (parse_ver b) (has_dash a) (has_dash b) h,
  newer_by-irreflexive (parse_ver a) (has_dash a),
)
