-- ===== src/Protocols/Names.antt =====
-- The names of core/types.go are consistent with one another.
use mazzy_vpn.Base.{◌≡◌, true, some, [], Text, ◌==◌, contains, any, arith, ◌⊎◌}
use mazzy_vpn.Protocols.{
  Protocol, amneziawg, wireguard, openvpn, l2tp, canonical_protocol, interface, managed_interfaces,
}

pub canonical_cases :
    (s : Text) (p : Protocol)
    → canonical_protocol s ≡ some p
    → ((p ≡ amneziawg) ⊎ (p ≡ wireguard)) ⊎ ((p ≡ openvpn) ⊎ (p ≡ l2tp))
unfolding canonical_protocol
canonical_cases s p h = ground arith

-- A canonical name is its own canonical name, and its interface is a managed one unless the protocol
-- is L2TP, which has none.
pub canonical_protocol-canonical :
    (s : Text) (p : Protocol)
    → canonical_protocol s ≡ some p
    → (canonical_protocol p ≡ some p)
      × ((contains (interface p) managed_interfaces ≡ true) ⊎ ((p ≡ l2tp) × (interface p ≡ [])))
unfolding canonical_protocol interface managed_interfaces any ◌==◌
canonical_protocol-canonical s p h = ground (arith, canonical_cases s p h)
