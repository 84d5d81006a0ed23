-- ===== src/ZoneScore.antt =====
-- core/zonescore/zonescore.go: the cached quality of zones and the order that it gives them.
pub mod Order
use mazzy_vpn.Base.{
  ℕ, ◌+◌, ◌*◌, ◌^◌, Bool, true, false, not, ◌&&◌, ◌||◌, Option, none, some, List, [], ◌∷◌, map,
  if◌then◌else◌, Text, ℤ, pos, leb, leb_ℤ, pos_part, neg_part, sort_by,
}
use mazzy_vpn.Base.Dict
use mazzy_vpn.Base.Dict.{Dict}

pub record Score : Type 0 where
  pub zone : Text
  pub stealth_score : ℤ
  pub is_datacenter : Bool
  pub egress_cc : Text
  pub updated_at : ℤ  -- unix seconds

-- The method Fresh: the age in nanoseconds is below `ttl`. Where Sub would leave the range of a
-- Duration it gives the nearest one, which is on the same side of `ttl`.
unfoldable pub is_fresh : Score → ℤ → ℤ → Bool
is_fresh s ttl now = not (
    leb (pos_part ttl + pos_part s.updated_at * 10 ^ 9 + neg_part now)
      (pos_part now + neg_part ttl + neg_part s.updated_at * 10 ^ 9))

-- The map of a loaded cache.
abbrev pub Cache : Type 0
Cache = Dict Score

unfoldable pub get_score : Cache → Text → Option Score
get_score c zone = Dict.get c zone

-- The method Record on the map; `now` is time.Now().Unix().
unfoldable pub record_score : Cache → Score → ℤ → Cache
record_score c s now = Dict.put c s.zone (record s { updated_at = now })

pub record Ranked : Type 0 where
  pub name : Text
  pub known : Bool
  pub score : ℤ
  pub dc : Bool

abbrev pub unknown_zone : Text → Ranked
unknown_zone z = record { name = z; known = false; score = pos 0; dc = false }

abbrev pub ranked_by : Text → Option Score → ℤ → ℤ → Ranked
ranked_by z none ttl now = unknown_zone z
ranked_by z (some s) ttl now =
    if is_fresh s ttl now
    then record { name = z; known = true; score = s.stealth_score; dc = s.is_datacenter }
    else unknown_zone z

unfoldable pub rank_zone : Cache → ℤ → ℤ → Text → Ranked
unfolding is_fresh
rank_zone c ttl now z = ranked_by z (Dict.get c z) ttl now

abbrev pub is_same : Bool → Bool → Bool
is_same true b = b
is_same false b = not b

-- The test of the sort in Rank.
abbrev pub is_before : Ranked → Ranked → Bool
is_before a b =
    if not (is_same a.known b.known)
    then a.known
    else if a.known
    then if not (is_same a.dc b.dc) then not a.dc else not (leb_ℤ a.score b.score)
    else false

-- The method Rank.
unfoldable pub rank : Cache → ℤ → ℤ → List Text → List Text
unfolding rank_zone sort_by
rank c ttl now zones =
    map (λ (r : Ranked). r.name) (sort_by is_before (map (rank_zone c ttl now) zones))
