-- ===== src/Provider.antt =====
-- core/provider/provider.go: whether a provider can be used from the region of the egress.
-- strings.ToUpper is the parameter `to_upper`.
pub mod Ready
use mazzy_vpn.Base.{
  Bool, true, false, not, ◌&&◌, ◌||◌, Option, none, some, List, [], ◌∷◌, ◌++◌, map, any,
  if◌then◌else◌, Text, codes, ◌==◌, trim_space,
}

pub record Provider : Type 0 where
  pub id : Text
  pub display_name : Text
  pub probe_endpoints : List Text
  pub supported_countries : List Text
  pub reason_code_prefix : Text
  pub probe_strategy : Text

-- The method Supports.
abbrev pub is_unrestricted : List Text → Bool
is_unrestricted [] = true
is_unrestricted (c ∷ cs) = false

unfoldable pub supports : (Text → Text) → Provider → Text → Bool
unfolding any
supports to_upper p cc =
    if is_unrestricted p.supported_countries
    then true
    else let cc = to_upper (trim_space cc) in any (λ c. to_upper c == cc) p.supported_countries

-- The method Get of Registry.
unfoldable pub get_provider : List Provider → Text → Option Provider
get_provider [] id = none
get_provider (p ∷ ps) id = let rest = get_provider ps id in if p.id == id then some p else rest

-- The method IDs.
abbrev pub ids : List Provider → List Text
ids ps = map (λ p. p.id) ps

pub data Verdict : Type 0 where
  ready not_ready unknown : Verdict

pub record RegionInput : Type 0 where
  pub egress_country : Text
  pub timezone_country : Text
  pub target_country : Text

pub record RegionResult : Type 0 where
  pub provider_id : Text
  pub verdict : Verdict
  pub egress_cc : Text
  pub hint_country : Text
  pub supported : Bool
  pub consistent : Bool
  pub mismatches : List Text

abbrev pub mismatch : Bool → Text → List Text
mismatch b t = if b then t ∷ [] else []

abbrev no_mismatch : List Text → Bool
no_mismatch [] = true
no_mismatch (m ∷ ms) = false

-- The mismatches of a known egress, in the order in which they are appended.
unfoldable pub region_mismatches : (Text → Text) → Provider → Text → Text → Text → List Text
unfolding supports
region_mismatches to_upper p egress tz target =
    mismatch (not (supports to_upper p egress)) (codes "region.provider.country-unsupported")
    ++ (if not (tz == [])
        then mismatch (not (egress == tz)) (codes "region.country.egress-timezone-mismatch")
        else codes "region.timezone.country-unknown" ∷ [])
    ++ (if not (target == [])
        then mismatch (not (supports to_upper p target)) (codes "region.target.country-unsupported")
          ++ mismatch (not (egress == target)) (codes "region.target.egress-mismatch")
          ++ mismatch (not (tz == []) && not (tz == target))
              (codes "region.target.timezone-mismatch")
        else [])

-- CheckRegion
unfoldable pub check_region : (Text → Text) → Provider → RegionInput → RegionResult
unfolding region_mismatches
check_region to_upper p input =
    let egress = to_upper (trim_space input.egress_country) in
    let tz = to_upper (trim_space input.timezone_country) in
    let target = to_upper (trim_space input.target_country) in
    let supported = supports to_upper p egress in
    let consistent = not (tz == []) && egress == tz && supported in
    let ms = region_mismatches to_upper p egress tz target in
    if egress == []
    then record {
      provider_id = p.id;
      verdict = unknown;
      egress_cc = egress;
      hint_country = target;
      supported = false;
      consistent = false;
      mismatches = codes "region.egress.country-unknown" ∷ [];
    }
    else record {
      provider_id = p.id;
      verdict = if supported && consistent && no_mismatch ms then ready else not_ready;
      egress_cc = egress;
      hint_country = if not (target == []) then target else egress;
      supported = supported;
      consistent = consistent;
      mismatches = ms;
    }
