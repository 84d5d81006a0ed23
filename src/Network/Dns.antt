-- ===== src/Network/Dns.antt =====
-- core/dns/dns.go: the nameservers of an interface.
use mazzy_vpn.Base.{
  Bool, true, false, not, List, [], ◌∷◌, ◌++◌, if◌then◌else◌, Text, codes, any, is_some, trim_space,
}
use mazzy_vpn.Network.{Log, Host, exec, dns_set, dns_revert, resolvconf_add, resolvconf_del}

pub data Backend : Type 0 where
  no_backend resolvectl resolvconf : Backend

pub record Manager : Type 0 where
  pub interface : Text
  pub applied : Bool
  pub backend : Backend

abbrev pub new : Text → Manager
new iface = record { interface = iface; applied = false; backend = no_backend }

abbrev pub is_server : Host → Text → Bool
is_server h s = is_some (h.parse_addr (trim_space s))

abbrev pub nameserver_lines : List Text → Text
nameserver_lines [] = []
nameserver_lines (s ∷ ss) = codes "nameserver " ++ trim_space s ++ b'\n' ∷ nameserver_lines ss

abbrev pub settled : Manager → Bool × Log → Bool × Manager × Log
settled m r = (r.0, record m { applied = r.0 }, r.1)

abbrev pub up_some : Host → Manager → List Text → Log → Bool × Manager × Log
up_some h m servers l =
    if any (λ s. not (is_server h s)) servers
    then (false, m, l)
    else if h.is_available (codes "resolvectl")
    then settled (record m { backend = resolvectl }) (exec h (dns_set m.interface servers) l)
    else if h.is_available (codes "resolvconf")
    then if not h.has_input
      then (false, record m { backend = resolvconf }, l)
      else settled (record m { backend = resolvconf })
          (exec h (resolvconf_add m.interface (nameserver_lines servers)) l)
    else (false, m, l)

-- The method Up of a manager that has nothing applied.
unfoldable pub up : Host → Manager → List Text → Log → Bool × Manager × Log
up h m [] l = (true, m, l)
up h m (s ∷ ss) l = up_some h m (s ∷ ss) l

-- The method Down.
unfoldable pub down : Host → Manager → Log → Bool × Log
down h m l = if not m.applied then (true, l) else elim m.backend [
  | no_backend ↦ (true, l)
  | resolvectl ↦ exec h (dns_revert m.interface) l
  | resolvconf ↦ exec h (resolvconf_del m.interface) l
]
