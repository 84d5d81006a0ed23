-- ===== src/Control/Channel.antt =====
-- core/control/channel.go: the broker that opens channels behind three gates.
pub mod Gates
pub mod Discovery
use mazzy_vpn.Base.{
  Bool, true, false, Option, none, some, List, [], ◌∷◌, ◌++◌, if◌then◌else◌, Text, codes, ◌==◌,
  ◌<=◌, sort, ℤ,
}
use mazzy_vpn.Base.Dict
use mazzy_vpn.Base.Dict.{Dict}
use mazzy_vpn.Control.Trust.{TrustStore, is_trusted}
use mazzy_vpn.Control.Grants.{Scope, GrantBook, allows, scopes_on}
use mazzy_vpn.Control.Plane.{Plane, Participant, get_participant, participant_ids}

pub record Channel : Type 0 where
  pub from : Text
  pub to : Text
  pub endpoint : Text
  pub scopes : List Scope
  pub opened_at : ℤ

pub data ChannelError : Type 0 where
  not_registered not_trusted not_granted no_endpoint : ChannelError

-- The stores are shared with their owners; the broker only reads them.
pub record Broker : Type 0 where
  pub plane : Plane
  pub trust : TrustStore
  pub grants : GrantBook
  pub opened : Dict Channel

abbrev pub new_broker : Plane → TrustStore → GrantBook → Broker
new_broker plane trust grants = record {
  plane = plane;
  trust = trust;
  grants = grants;
  opened = [];
}

pub data Opening : Type 0 where
  ok : Channel → Opening
  err : ChannelError → Opening

abbrev pub edge : Text → Text → Text
edge from to = from ++ (codes "->" ++ to)

unfoldable pub make_channel : Broker → Text → Text → Text → ℤ → Channel
make_channel b from to endpoint now = record {
  from = from;
  to = to;
  endpoint = endpoint;
  scopes = sort ◌<=◌ (scopes_on b.grants from to now);
  opened_at = now;
}

-- Gates 2 and 3 and the endpoint test, once both participants are found.
unfoldable pub open_to : Broker → Text → Text → Participant → Scope → ℤ → Broker × Opening
open_to b from to target scope now =
    if is_trusted b.trust to
    then (if allows b.grants from to scope now
        then (if target.endpoint == []
            then (b, err no_endpoint)
            else let ch = make_channel b from to target.endpoint now in
              (record b { opened = Dict.put b.opened (edge from to) ch }, ok ch))
        else (b, err not_granted))
    else (b, err not_trusted)

-- The method Open.
unfoldable pub open_channel : Broker → Text → Text → Scope → ℤ → Broker × Opening
unfolding open_to
open_channel b from to scope now = elim (get_participant b.plane from) [
  | none ↦ (b, err not_registered)
  | some _ ↦ elim (get_participant b.plane to) [
    | none ↦ (b, err not_registered)
    | some target ↦ open_to b from to target scope now
  ]
]

unfoldable pub close : Broker → Text → Text → Broker
close b from to = record b { opened = Dict.remove b.opened (edge from to) }

abbrev pub collect : Opening → List Channel → List Channel
collect (ok ch) out = out ++ ch ∷ []
collect (err _) out = out

unfoldable pub reachable_loop :
    Broker → Text → Scope → ℤ → List Channel → List Text → Broker × List Channel
reachable_loop b from scope now out [] = (b, out)
reachable_loop b from scope now out (to ∷ rest) = elim (to == from) [
  | true ↦ reachable_loop b from scope now out rest
  | false ↦
      let r = open_channel b from to scope now in
      reachable_loop r.0 from scope now (collect r.1 out) rest
]

-- The method Reachable.
unfoldable pub reachable : Broker → Text → Scope → ℤ → Broker × List Channel
unfolding reachable_loop
reachable b from scope now =
    let r = reachable_loop b from scope now [] (participant_ids b.plane) in
    (r.0, sort (λ (x y : Channel). x.to <= y.to) r.1)
