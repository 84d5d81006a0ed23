-- ===== src/Network/Routes.antt =====
-- core/routes/routes.go: the addresses of an interface and the policy routes through it.
use mazzy_vpn.Base.{
  ℕ, Bool, true, false, not, ◌&&◌, ◌||◌, none, some, List, [], ◌∷◌, ◌++◌, if◌then◌else◌, Text,
  codes, ◌==◌, any, nat_beq, trim_space,
}
use mazzy_vpn.Profile.{Config, endpoint_host}
use mazzy_vpn.Network.{
  Log, Host, exec, Addr, link_up, address_add, endpoint_add, endpoint_del, mark_rule_add,
  mark_rule_del, suppress_rule_add, suppress_rule_del, default_add, valid_mark,
}

pub record Applier : Type 0 where
  pub interface : Text
  pub table : ℕ
  pub uplink : Text
  pub applied_4 : Bool
  pub applied_6 : Bool
  pub applied_endpoint : Text

abbrev pub default_mark : ℕ
default_mark = 51820

unfoldable pub effective_mark : Config → ℕ
effective_mark cfg = if not (nat_beq cfg.fw_mark 0) then cfg.fw_mark else default_mark

-- New, with the field Uplink that connect sets.
unfoldable pub new : Text → Text → Config → Applier
unfolding effective_mark
new iface uplink cfg = record {
  interface = iface;
  table = effective_mark cfg;
  uplink = uplink;
  applied_4 = false;
  applied_6 = false;
  applied_endpoint = [];
}

unfoldable pub add_addresses : Host → Text → List Text → Log → Bool × Log
add_addresses h iface [] l = (true, l)
add_addresses h iface (a ∷ rest) l = elim (h.parse_prefix a) [
  | none ↦ (false, l)
  | some p ↦
      let r = exec h (address_add p.is_6 p.text iface) l in
      if not r.0 then (false, r.1) else add_addresses h iface rest r.1
]

abbrev pub host_route : Addr → Text
host_route ip = if ip.is_6 then ip.text ++ codes "/128" else ip.text ++ codes "/32"

-- addEndpointRoute: whether a route was installed, and whether there was no error.
unfoldable pub add_endpoint_route : Host → Applier → Text → Log → Bool × Bool × Log
add_endpoint_route h a host l = elim (h.parse_addr host) [
  | none ↦ (false, true, l)
  | some ip ↦ let r = exec h (endpoint_add ip.is_6 (host_route ip) a.uplink) l in (r.0, r.0, r.1)
]

-- delEndpointRoute
unfoldable pub del_endpoint_route : Host → Applier → Log → Bool × Log
del_endpoint_route h a l =
    if a.applied_endpoint == [] then (true, l) else elim (h.parse_addr a.applied_endpoint) [
      | none ↦ (true, l)
      | some ip ↦ exec h (endpoint_del ip.is_6 (host_route ip) a.uplink) l
    ]

abbrev pub mark_applied : Bool → Applier → Applier
mark_applied v6 a = if v6 then record a { applied_6 = true } else record a { applied_4 = true }

-- addDefault
unfoldable pub add_default : Host → Bool → Applier → Log → Bool × Applier × Log
add_default h v6 a l =
    let r₁ = exec h (mark_rule_add v6 a.table) l in
    if not r₁.0
    then (false, a, r₁.1)
    else let r₂ = exec h (suppress_rule_add v6) r₁.1 in
      if not r₂.0
      then (false, a, r₂.1)
      else let r₃ = exec h (default_add v6 a.interface a.table) r₂.1 in
        if not r₃.0
        then (false, a, r₃.1)
        else if v6
        then (true, mark_applied v6 a, r₃.1)
        else let r₄ = exec h valid_mark r₃.1 in
          if not r₄.0 then (false, a, r₄.1) else (true, mark_applied v6 a, r₄.1)

-- delDefault
unfoldable pub del_default : Host → Bool → Applier → Log → Bool × Log
del_default h v6 a l =
    let r₁ = exec h (mark_rule_del v6 a.table) l in
    let r₂ = exec h (suppress_rule_del v6) r₁.1 in (r₁.0 && r₂.0, r₂.1)

abbrev pub is_default : Host → Bool → Text → Bool
is_default h v6 aip = elim (h.parse_prefix (trim_space aip)) [
  | none ↦ false
  | some p ↦ nat_beq p.bits 0 && (if v6 then p.is_6 else not p.is_6)
]

-- allowedDefaults, for one family.
unfoldable pub allowed_default : Host → Bool → Config → Bool
unfolding any
allowed_default h v6 cfg = any (λ p. any (is_default h v6) p.allowed_ips) cfg.peers

-- The part of Up that pins the endpoint to the uplink.
unfoldable pub pin_endpoint : Host → Config → Applier → Log → Bool × Applier × Log
unfolding endpoint_host add_endpoint_route
pin_endpoint h cfg a l =
    let host = endpoint_host cfg in
    if a.uplink == [] || host == []
    then (true, a, l)
    else let r = add_endpoint_route h a host l in
      (r.1, (if r.1 && r.0 then record a { applied_endpoint = host } else a), r.2)

abbrev pub add_default_if : Host → Bool → Bool → Applier → Log → Bool × Applier × Log
add_default_if h needed v6 a l = if needed then add_default h v6 a l else (true, a, l)

-- The end of Up: the default route of each family that a peer asks for.
unfoldable pub up_defaults : Host → Config → Applier → Log → Bool × Applier × Log
unfolding add_default allowed_default
up_defaults h cfg a l =
    let r = add_default_if h (allowed_default h false cfg) false a l in
    if not r.0
    then (false, r.1, r.2)
    else add_default_if h (allowed_default h true cfg) true r.1 r.2

unfoldable pub up_pinned : Host → Config → Applier → Log → Bool × Applier × Log
unfolding pin_endpoint up_defaults
up_pinned h cfg a l =
    let r = pin_endpoint h cfg a l in
    if not r.0 then (false, r.1, r.2) else up_defaults h cfg r.1 r.2

-- The method Up.
unfoldable pub up : Host → Config → Applier → Log → Bool × Applier × Log
unfolding add_addresses up_pinned
up h cfg a l =
    let r₁ = exec h (link_up a.interface) l in
    if not r₁.0
    then (false, a, r₁.1)
    else let r₂ = add_addresses h a.interface cfg.addresses r₁.1 in
      if not r₂.0 then (false, a, r₂.1) else up_pinned h cfg a r₂.1

abbrev pub del_default_if : Host → Bool → Bool → Applier → Log → Bool × Log
del_default_if h added v6 a l = if added then del_default h v6 a l else (true, l)

abbrev pub del_family : Host → Bool → Applier → Log → Bool × Log
del_family h v6 a l = del_default_if h (if v6 then a.applied_6 else a.applied_4) v6 a l

-- The method Down; the families come in the order in which Go visits the map.
unfoldable pub down : Host → Applier → Log → Bool × Log
unfolding del_default del_endpoint_route
down h a l =
    let r₁ = del_family h h.v6_first a l in
    let r₂ = del_family h (not h.v6_first) a r₁.1 in
    let r₃ = del_endpoint_route h a r₂.1 in (r₁.0 && r₂.0 && r₃.0, r₃.1)
