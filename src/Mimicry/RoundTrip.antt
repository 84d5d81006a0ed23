-- ===== src/Mimicry/RoundTrip.antt =====
-- A time zone leads back to its country, and what ApplySystemTZ sets (core/mimicry/mimicry.go).
use mazzy_vpn.Base.{
  ◌≡◌, ◌≢◌, refl, ◌∙◌, sym, ap, Bool, true, not, ◌&&◌, Option, none, some, [], ◌∷◌, Text, ◌==◌,
  ==_iff, trim_space, arith, Bool-cases, inl, inr, any, subst,
}
use mazzy_vpn.Base.Dict
use mazzy_vpn.Base.Dict.{Dict}
use mazzy_vpn.Mimicry.Tables.{country_tz}
use mazzy_vpn.Mimicry.{or_empty, timezone_for, find_country, country_for_timezone}

-- No zone stands twice in a table, and none is changed by trimming.
unfoldable pub is_injective : Dict Text → Bool
is_injective [] = true
is_injective ((c, z) ∷ d) = not (any (λ e. e.1 == z) d) && (trim_space z == z) && is_injective d

tables-injective : is_injective country_tz ≡ true
unfolding is_injective country_tz any ◌==◌ trim_space
tables-injective = refl

any-get : (d : Dict Text) (k z : Text) → Dict.get d k ≡ some z → any (λ e. e.1 == z) d ≡ true
unfolding any Dict.get
any-get [] k z h = absurd (cc)
any-get ((c, y) ∷ d) k z h = ground (arith, any-get d k z, ==_iff y z)

keys-agree :
    (d : Dict Text) (a b z : Text)
    → is_injective d ≡ true
    → Dict.get d a ≡ some z
    → Dict.get d b ≡ some z
    → a ≡ b
unfolding is_injective Dict.get
keys-agree [] a b z i h k = absurd (cc)
keys-agree ((c, y) ∷ d) a b z i h k = ground (
  arith,
  keys-agree d a b z,
  any-get d a z,
  any-get d b z,
  ==_iff c a,
  ==_iff c b,
  ap (λ t. any (λ e. e.1 == t) d) {x = y} {y = z},
)

zone-trimmed :
    (d : Dict Text) (a z : Text) → is_injective d ≡ true → Dict.get d a ≡ some z → trim_space z ≡ z
unfolding is_injective Dict.get
zone-trimmed [] a z i h = absurd (cc)
zone-trimmed ((c, y) ∷ d) a z i h = elim (Bool-cases (c == a)) [
  | inl e ↦
      let same : y ≡ z = ground arith in
      subst (λ t. trim_space t ≡ t) same ((==_iff (trim_space y) y).0 (ground arith))
  | inr e ↦ zone-trimmed d a z (ground arith) (ground arith)
]

get-find_country :
    (d : Dict Text) (k z : Text)
    → Dict.IsUnique d
    → Dict.get d k ≡ some z
    → Dict.get d (find_country d z) ≡ some z
unfolding find_country Dict.get
get-find_country [] k z u h = absurd (cc)
get-find_country ((c, y) ∷ d) k z u h = ground (
  arith,
  ==_iff y z,
  ==_iff c c,
  ==_iff c k,
  ==_iff c (find_country d z),
  get-find_country d k z u.1,
  ap (Dict.get d) {x = c} {y = find_country d z},
)

-- A country with a known time zone is found again by that zone, whatever its spelling in blanks and case
-- and in whatever order the table is visited.
pub country_for-timezone_for :
    (to_upper : Text → Text) (order : Dict Text) (country : Text)
    → Dict.IsUnique order
    → ((k : Text) → Dict.get order k ≡ Dict.get country_tz k)
    → timezone_for to_upper country ≢ []
    → country_for_timezone order (timezone_for to_upper country) ≡ to_upper (trim_space country)
unfolding timezone_for country_for_timezone
country_for-timezone_for to_upper order country u same known =
    found (Dict.get country_tz (to_upper (trim_space country))) refl known
  where
    found :
        (o : Option Text)
        → Dict.get country_tz (to_upper (trim_space country)) ≡ o
        → or_empty o ≢ []
        → find_country order (trim_space (or_empty o)) ≡ to_upper (trim_space country)
    found none e n = absurd (n refl)
    found (some z) e n =
        let cc' = to_upper (trim_space country) in
        rw (zone-trimmed country_tz cc' z tables-injective e) (
          keys-agree country_tz (find_country order z) cc' z tables-injective
            (sym (same (find_country order z)) ∙ get-find_country order cc' z u (same cc' ∙ e)) e)
