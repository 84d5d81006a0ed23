-- ===== src/NetAdapter.antt =====
-- core/netadapter/netadapter.go: the network interfaces and the uplink that is recommended.
-- strings.ToLower and net.ParseCIDR are parameters.
pub mod Choice
use mazzy_vpn.Base.{
  ℕ, Bool, true, false, not, ◌&&◌, ◌||◌, Option, none, some, List, [], ◌∷◌, if◌then◌else◌, Text,
  codes, ◌==◌, ◌<=◌, any, has_prefix, sort_by, ℤ, is_some,
}

pub record Adapter : Type 0 where
  pub name : Text
  pub up : Bool
  pub loopback : Bool
  pub virtual : Bool
  pub wireless : Bool
  pub has_carrier : Bool
  pub mac : Text
  pub ipv4 : List Text
  pub ipv6 : List Text
  pub mtu : ℤ

unfoldable pub is_physical : Adapter → Bool
is_physical a = not a.loopback && not a.virtual

-- What net.ParseCIDR says of an address.
pub record Ip : Type 0 where
  pub is_4 : Bool
  pub link_local : Bool
  pub loopback : Bool

abbrev is_routable : Option Ip → Bool
is_routable none = false
is_routable (some ip) = ip.is_4 && not ip.link_local && not ip.loopback

unfoldable pub has_routable_ipv4 : (Text → Option Ip) → Adapter → Bool
unfolding any
has_routable_ipv4 parse_cidr a = any (λ cidr. is_routable (parse_cidr cidr)) a.ipv4

-- The method Kind.
unfoldable pub adapter_kind : Adapter → Text
adapter_kind a =
    if a.loopback
    then codes "loopback"
    else if a.virtual
    then codes "virtual"
    else if a.wireless
    then codes "wifi"
    else codes "wired"

abbrev virtual_prefixes : List Text
virtual_prefixes =
    codes "lo"
    ∷ codes "vpn"
    ∷ codes "tun"
    ∷ codes "tap"
    ∷ codes "wg"
    ∷ codes "awg"
    ∷ codes "docker"
    ∷ codes "br-"
    ∷ codes "veth"
    ∷ codes "virbr"
    ∷ codes "vmnet"
    ∷ codes "vboxnet"
    ∷ codes "zt"
    ∷ codes "tailscale"
    ∷ codes "utun"
    ∷ codes "ppp"
    ∷ []

unfoldable pub looks_virtual : (Text → Text) → Text → Bool
unfolding any has_prefix
looks_virtual to_lower name = any (λ p. has_prefix (to_lower name) p) virtual_prefixes

-- The test of the sort in List.
abbrev is_same : Bool → Bool → Bool
is_same true b = b
is_same false b = not b

unfoldable pub is_before : Adapter → Adapter → Bool
unfolding is_physical
is_before a b =
    if not (is_same (is_physical a) (is_physical b))
    then is_physical a
    else if not (is_same a.has_carrier b.has_carrier)
    then a.has_carrier
    else not (b.name <= a.name)

unfoldable pub order : List Adapter → List Adapter
unfolding sort_by is_before
order adapters = sort_by is_before adapters

unfoldable pub physical_uplinks : List Adapter → List Adapter
unfolding is_physical
physical_uplinks [] = []
physical_uplinks (a ∷ rest) =
    let out = physical_uplinks rest in if is_physical a && a.up then a ∷ out else out

abbrev pub has_none : List Text → Bool
has_none [] = true
has_none (a ∷ rest) = false

-- The candidates of Recommend: the first of each class so far.
pub record Candidates : Type 0 where
  pub wired_routable : Option Adapter
  pub wifi_routable : Option Adapter
  pub wired_any : Option Adapter
  pub wifi_any : Option Adapter

abbrev pub keep_first : Bool → Adapter → Option Adapter → Option Adapter
keep_first b a (some c) = some c
keep_first b a none = if b then some a else none

-- One round of the loop.
unfoldable pub consider : (Text → Option Ip) → Adapter → Candidates → Candidates
unfolding is_physical has_routable_ipv4
consider parse_cidr a c =
    if not (is_physical a) || not a.up || has_none a.ipv4
    then c
    else let routable = has_routable_ipv4 parse_cidr a in
      if a.wireless
      then record c {
        wifi_routable = keep_first routable a c.wifi_routable;
        wifi_any = keep_first true a c.wifi_any;
      }
      else record c {
        wired_routable = keep_first routable a c.wired_routable;
        wired_any = keep_first true a c.wired_any;
      }

unfoldable pub consider_all : (Text → Option Ip) → List Adapter → Candidates → Candidates
unfolding consider
consider_all parse_cidr [] c = c
consider_all parse_cidr (a ∷ rest) c = consider_all parse_cidr rest (consider parse_cidr a c)

abbrev pub or_next : Option Adapter → Text → Option (Adapter × Text) → Option (Adapter × Text)
or_next none reason next = next
or_next (some a) reason next = some (a, reason)

abbrev pub pick :
    Option Adapter → Option Adapter → Option Adapter → Option Adapter → Option (Adapter × Text)
pick wired_routable wifi_routable wired_any wifi_any =
    or_next wired_routable
      (codes "wired uplink with a routable IPv4 (preferred; avoids Wi‑Fi VPNs)")
      (or_next wifi_routable (codes "wireless uplink with a routable IPv4") (
        or_next wired_any (codes "wired uplink, but only a link-local IPv4 (no DHCP lease?)")
          (or_next wifi_any (codes "wireless uplink, but only a link-local IPv4") none)))

abbrev pub no_candidates : Candidates
no_candidates = record {
  wired_routable = none;
  wifi_routable = none;
  wired_any = none;
  wifi_any = none;
}

-- Recommend; `none` stands for its answer that no uplink is up.
unfoldable pub recommend : (Text → Option Ip) → List Adapter → Option (Adapter × Text)
unfolding consider_all
recommend parse_cidr adapters =
    let c = consider_all parse_cidr adapters no_candidates in
    pick c.wired_routable c.wifi_routable c.wired_any c.wifi_any
