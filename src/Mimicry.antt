-- ===== src/Mimicry.antt =====
-- core/mimicry/mimicry.go: the time zone and locale of the egress country. strings.ToUpper and the order
-- in which Go visits the table are parameters.
pub mod Tables
pub mod RoundTrip
use mazzy_vpn.Base.{
  Bool, true, false, not, Option, none, some, List, [], ◌∷◌, ◌++◌, if◌then◌else◌, Text, codes, ◌==◌,
  trim_space,
}
use mazzy_vpn.Base.Dict
use mazzy_vpn.Base.Dict.{Dict}
use mazzy_vpn.Mimicry.Tables.{country_tz, country_locale}

abbrev pub or_empty : Option Text → Text
or_empty none = []
or_empty (some t) = t

-- TimezoneFor
unfoldable pub timezone_for : (Text → Text) → Text → Text
unfolding trim_space country_tz
timezone_for to_upper country = or_empty (Dict.get country_tz (to_upper (trim_space country)))

-- LocaleFor
unfoldable pub locale_for : (Text → Text) → Text → Text
unfolding trim_space country_locale
locale_for to_upper country = or_empty (Dict.get country_locale (to_upper (trim_space country)))

unfoldable pub find_country : Dict Text → Text → Text
find_country [] tz = []
find_country ((cc, z) ∷ rest) tz = let later = find_country rest tz in if z == tz then cc else later

-- CountryForTimezone, where the table is visited in the order of `table`.
unfoldable pub country_for_timezone : Dict Text → Text → Text
unfolding trim_space find_country
country_for_timezone table tz = find_country table (trim_space tz)

pub record Plan : Type 0 where
  pub country : Text
  pub from_tz : Text
  pub to_tz : Text
  pub locale : Text
  pub needs_change : Bool

-- A Manager: the active time zone, and whether its Runner, if it has one, sets another.
pub record Manager : Type 0 where
  pub current_tz : Option Text
  pub runner : Option (Text → Bool)

-- The method PlanFor.
unfoldable pub plan_for : (Text → Text) → Manager → Text → Option Plan
unfolding timezone_for locale_for ◌==◌
plan_for to_upper m country =
    let tz = timezone_for to_upper country in
    let cur = or_empty m.current_tz in
    if tz == []
    then none
    else some (record {
      country = to_upper country;
      from_tz = cur;
      to_tz = tz;
      locale = locale_for to_upper country;
      needs_change = not (cur == tz);
    })

pub data ApplyError : Type 0 where
  unknown_country no_runner run_failed : ApplyError

-- The plan, if there is one, the error, and the time zone that was set.
pub record Applied : Type 0 where
  pub plan : Option Plan
  pub error : Option ApplyError
  pub set_to : Option Text

abbrev pub run_plan : Plan → Option (Text → Bool) → Applied
run_plan p none = record { plan = some p; error = some no_runner; set_to = none }
run_plan p (some run) =
    if run p.to_tz
    then record { plan = some p; error = none; set_to = some p.to_tz }
    else record { plan = some p; error = some run_failed; set_to = none }

abbrev pub apply_plan : Manager → Option Plan → Applied
apply_plan m none = record { plan = none; error = some unknown_country; set_to = none }
apply_plan m (some p) =
    if not p.needs_change
    then record { plan = some p; error = none; set_to = none }
    else run_plan p m.runner

-- The method ApplySystemTZ.
unfoldable pub apply_system_tz : (Text → Text) → Manager → Text → Applied
unfolding plan_for
apply_system_tz to_upper m country = apply_plan m (plan_for to_upper m country)

-- The method ProcessEnv.
unfoldable pub process_env : (Text → Text) → Text → List Text
unfolding timezone_for locale_for ◌==◌
process_env to_upper country =
    let tz = timezone_for to_upper country in
    let loc = locale_for to_upper country in
    (if tz == [] then [] else (codes "TZ=" ++ tz) ∷ [])
    ++ (if loc == [] then [] else (codes "LANG=" ++ loc) ∷ (codes "LC_ALL=" ++ loc) ∷ [])
