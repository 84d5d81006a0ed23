-- ===== src/Protocols.antt =====
-- core/types.go: the protocols, their names and their interfaces.
pub mod Names
use mazzy_vpn.Base.{Bool, ◌||◌, Option, none, some, List, [], ◌∷◌, if◌then◌else◌, Text, codes, ◌==◌}

-- A Protocol is a string; the empty one is no protocol.
abbrev pub Protocol : Type 0
Protocol = Text

abbrev pub amneziawg : Protocol
amneziawg = codes "amneziawg"

abbrev pub wireguard : Protocol
wireguard = codes "wireguard"

abbrev pub openvpn : Protocol
openvpn = codes "openvpn"

abbrev pub l2tp : Protocol
l2tp = codes "l2tp"

unfoldable pub canonical_protocol : Text → Option Protocol
canonical_protocol s =
    if s == codes "amneziawg" || s == codes "amnezia" || s == codes "awg"
    then some amneziawg
    else if s == codes "wireguard" || s == codes "wire" || s == codes "wg"
    then some wireguard
    else if s == codes "openvpn" || s == codes "open" || s == codes "ovpn"
    then some openvpn
    else if s == codes "l2tp" || s == codes "ltp"
    then some l2tp
    else none

unfoldable pub title : Protocol → Text
title p =
    if p == amneziawg
    then codes "AmneziaWG"
    else if p == wireguard
    then codes "WireGuard"
    else if p == openvpn
    then codes "OpenVPN"
    else if p == l2tp
    then codes "L2TP/IPsec"
    else p

unfoldable pub interface : Protocol → Text
interface p =
    if p == amneziawg
    then codes "vpnaw0"
    else if p == wireguard
    then codes "vpnwg0"
    else if p == openvpn
    then codes "vpnovpn0"
    else []

unfoldable pub managed_interfaces : List Text
unfolding interface
managed_interfaces = interface amneziawg ∷ interface wireguard ∷ interface openvpn ∷ []

abbrev pub mode_normal : Text
mode_normal = codes "normal"

abbrev pub mode_test : Text
mode_test = codes "test"

abbrev pub desired_up : Text
desired_up = codes "up"

abbrev pub desired_down : Text
desired_down = codes "down"
