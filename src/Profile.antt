-- ===== src/Profile.antt =====
-- core/profile: a parsed configuration, its endpoint and what makes it valid (endpoint.go, validate.go
-- and the types of config.go).
pub mod Parse
pub mod Safety
pub mod Uapi
pub mod Lines
pub mod Values
pub mod Pieces
pub mod Clean
pub mod Engine
pub mod Rendered
use mazzy_vpn.Base.{
  ℕ, ◌+◌, Bool, true, false, not, ◌||◌, Option, none, some, List, [], ◌∷◌, ◌++◌, if◌then◌else◌,
  Text, codes, ◌==◌, ℤ, nat_beq, has_prefix, any, keep, is_some, map,
}
use mazzy_vpn.Base.Dict
use mazzy_vpn.Base.Dict.{Dict}
use mazzy_vpn.Protocols.{Protocol, amneziawg}

pub record Peer : Type 0 where
  pub public_key : Text
  pub preshared_key : Text
  pub endpoint : Text
  pub allowed_ips : List Text
  pub persistent_keepalive : ℤ

-- The field Amnezia is the map of its values.
pub record Config : Type 0 where
  pub private_key : Text
  pub addresses : List Text
  pub dns : List Text
  pub mtu : ℤ
  pub listen_port : ℤ
  pub fw_mark : ℕ
  pub amnezia : Dict Text
  pub peers : List Peer
  pub has_amnezia_fields : Bool

-- The method Endpoint.
unfoldable pub endpoint : List Peer → Text
endpoint [] = []
endpoint (p ∷ ps) = let rest = endpoint ps in if not (p.endpoint == []) then p.endpoint else rest

-- What stands before the last `c`, if there is one.
unfoldable pub before_last : ℕ → Text → Option Text
before_last c [] = none
before_last c (x ∷ s) = elim (before_last c s) [
  | some p ↦ some (x ∷ p)
  | none ↦ if nat_beq x c then some [] else none
]

abbrev pub tail : Text → Text
tail [] = []
tail (c ∷ s) = s

-- The host of `host:port`; an index of 0 does not count.
abbrev pub host_part : Text → Option Text → Text
host_part ep none = ep
host_part ep (some []) = ep
host_part ep (some (c ∷ s)) = c ∷ s

abbrev pub bracketed : Text → Option Text → Text
bracketed other none = other
bracketed other (some p) = tail p

-- The method EndpointHost.
unfoldable pub endpoint_host : Config → Text
unfolding endpoint before_last has_prefix
endpoint_host c =
    let ep = endpoint c.peers in
    let plain = host_part ep (before_last b':' ep) in
    if ep == []
    then []
    else if has_prefix ep (codes "[")
    then bracketed plain (before_last b']' ep)
    else plain

abbrev required_amnezia_keys : List Text
required_amnezia_keys =
    codes "jc"
    ∷ codes "jmin"
    ∷ codes "jmax"
    ∷ codes "s1"
    ∷ codes "s2"
    ∷ codes "h1"
    ∷ codes "h2"
    ∷ codes "h3"
    ∷ codes "h4"
    ∷ []

-- What Validate complains of.
pub data Problem : Type 0 where
  no_private_key no_peer no_public_key no_allowed_ips no_endpoint : Problem
  no_amnezia : List Text → Problem

abbrev pub complain : Bool → Problem → List Problem → List Problem
complain b p rest = if b then p ∷ rest else rest

abbrev pub missing_keys : Config → List Text
missing_keys c = keep (λ k. not (is_some (Dict.get c.amnezia k))) required_amnezia_keys

-- validateAmnezia
unfoldable pub validate_amnezia : Config → List Problem
validate_amnezia c = elim (missing_keys c) [ [] ↦ [] | k ∷ ks ↦ no_amnezia (k ∷ ks) ∷ [] ]

abbrev pub no_peers : List Peer → Bool
no_peers [] = true
no_peers (p ∷ ps) = false

abbrev pub no_ips : List Text → Bool
no_ips [] = true
no_ips (a ∷ rest) = false

-- Validate
unfoldable pub validate : Protocol → Config → List Problem
unfolding validate_amnezia any
validate proto c = complain (c.private_key == []) no_private_key (
    complain (no_peers c.peers) no_peer (
      complain (not (any (λ p. not (p.public_key == [])) c.peers)) no_public_key (
        complain (not (any (λ p. not (no_ips p.allowed_ips)) c.peers)) no_allowed_ips (
          complain (not (any (λ p. not (p.endpoint == [])) c.peers)) no_endpoint
            (if proto == amneziawg then validate_amnezia c else [])))))
