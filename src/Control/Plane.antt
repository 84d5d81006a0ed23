-- ===== src/Control/Plane.antt =====
-- core/control/control.go: the registry of participants and the routes between them.
pub mod Closed
pub mod Reach
use mazzy_vpn.Base.{
  Bool, true, false, not, ◌||◌, Option, none, some, List, [], ◌∷◌, if◌then◌else◌, Text, ◌==◌, ◌<=◌,
  trim_space, sort,
}
use mazzy_vpn.Base.Dict
use mazzy_vpn.Base.Dict.{Dict}

-- A Kind is a string: `other` is any but the five that ValidKinds holds.
pub data Kind : Type 0 where
  agent harness user app peer : Kind
  other : Text → Kind

abbrev pub valid_kinds : Kind → Bool
valid_kinds (other _) = false
valid_kinds _ = true

pub record Participant : Type 0 where
  pub id : Text
  pub kind : Kind
  pub endpoint : Text
  pub labels : Dict Text

pub data PlaneError : Type 0 where
  exists unknown invalid : PlaneError

pub record Plane : Type 0 where
  pub participants : Dict Participant
  pub routes : Dict (Dict Bool)

abbrev pub new_plane : Plane
new_plane = record { participants = []; routes = [] }

unfoldable pub register : Plane → Participant → Plane × Option PlaneError
register p part =
    let id = trim_space part.id in
    if id == [] || not (valid_kinds part.kind)
    then (p, some invalid)
    else if Dict.has p.participants id
    then (p, some exists)
    else (record p { participants = Dict.put p.participants id (record part { id = id }) }, none)

unfoldable pub deregister : Plane → Text → Plane
deregister p id = record {
  participants = Dict.remove p.participants id;
  routes = Dict.update_all (λ m. some (Dict.remove m id)) (Dict.remove p.routes id);
}

-- The method Get.
unfoldable pub get_participant : Plane → Text → Option Participant
get_participant p id = Dict.get p.participants id

abbrev pub or_empty : Option (Dict Bool) → Dict Bool
or_empty none = []
or_empty (some m) = m

-- p.routes[from], made if it is nil.
abbrev pub row : Dict (Dict Bool) → Text → Dict Bool
row routes from = or_empty (Dict.get routes from)

unfoldable pub allow : Plane → Text → Text → Plane × Option PlaneError
allow p from to =
    if Dict.has p.participants from
    then (if Dict.has p.participants to
        then (
          record p { routes = Dict.put p.routes from (Dict.put (row p.routes from) to true) },
          none,
        )
        else (p, some unknown))
    else (p, some unknown)

unfoldable pub revoke : Plane → Text → Text → Plane
revoke p from to = elim (Dict.get p.routes from) [
  | none ↦ p
  | some m ↦ record p { routes = Dict.put p.routes from (Dict.remove m to) }
]

abbrev pub is_true : Option Bool → Bool
is_true none = false
is_true (some b) = b

unfoldable pub can_reach : Plane → Text → Text → Bool
can_reach p from to = elim (Dict.get p.routes from) [
  | none ↦ false
  | some m ↦ is_true (Dict.get m to)
]

unfoldable pub allowed_keys : Dict Bool → List Text
allowed_keys [] = []
allowed_keys ((to, ok) ∷ m) = let rest = allowed_keys m in if ok then to ∷ rest else rest

unfoldable pub reachable : Plane → Text → List Text
unfolding allowed_keys
reachable p from = sort ◌<=◌ (allowed_keys (row p.routes from))

unfoldable pub participant_ids : Plane → List Text
participant_ids p = sort ◌<=◌ (Dict.keys p.participants)
