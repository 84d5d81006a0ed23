-- ===== src/Network/Neutral.antt =====
-- Routes, DNS and connection marks leave the IPv6 guard and the engine as they are
-- (core/routes/routes.go, core/dns/dns.go, core/guard/guard.go).
use mazzy_vpn.Base.{
  ℕ, ◌≡◌, refl, ◌∙◌, Bool, true, false, not, ◌&&◌, Option, none, some, List, [], ◌∷◌, if◌then◌else◌,
  Text, arith, Option-cases,
}
use mazzy_vpn.Profile.{Config, endpoint_host}
use mazzy_vpn.Network.{
  ipv6_guard, Log, Host, exec, Kernel, kernel, Command, nft_file, delete_table, link_up,
  address_add, endpoint_add, endpoint_del, engine_up, engine_down, Addr, Prefix,
}
use mazzy_vpn.Network.Guard.{install_connmark, apply_ruleset}
use mazzy_vpn.Network.Dns
use mazzy_vpn.Network.Dns.{Manager}
use mazzy_vpn.Network.Routes
use mazzy_vpn.Network.Routes.{Applier}

-- The interface is up without the guard.
abbrev pub is_uncovered : Kernel → Bool
is_uncovered k = k.engine && not k.guard

abbrev pub is_neutral : Command → Bool
is_neutral (nft_file ipv6_guard _) = false
is_neutral (delete_table ipv6_guard) = false
is_neutral (engine_up _ _) = false
is_neutral engine_down = false
is_neutral _ = true

-- From one log to a later one, guard and engine are the same, and nothing is exposed meanwhile unless
-- the interface is up without the guard.
abbrev pub IsKept : Kernel → Kernel → Type 0
IsKept k k' =
    (k'.guard ≡ k.guard)
    × (k'.engine ≡ k.engine)
    × (is_uncovered k ≡ false → k'.exposed ≡ k.exposed)

IsKept-covered : (k k' : Kernel) → IsKept k k' → is_uncovered k ≡ false → is_uncovered k' ≡ false
IsKept-covered k k' p s = ground (arith, p.0, p.1, s)

pub IsKept-trans : (a b c : Kernel) → IsKept a b → IsKept b c → IsKept a c
IsKept-trans a b c p q = (q.0 ∙ p.0, q.1 ∙ p.1, λ s. q.2 (IsKept-covered a b p s) ∙ p.2 s)

-- After either branch of a test.
pub if-IsKept :
    {A : Type 0} (log : A → Log) (b : Bool) (x y : A) (k : Kernel)
    → IsKept k (kernel (log x))
    → IsKept k (kernel (log y))
    → IsKept k (kernel (log (if b then x else y)))
if-IsKept log true x y k p q = p
if-IsKept log false x y k p q = q

pub exec-IsKept :
    (h : Host) (c : Command) (l : Log)
    → is_neutral c ≡ true
    → IsKept (kernel l) (kernel (exec h c l).1)
exec-IsKept h c l n = ground arith

add_address-IsKept :
    (h : Host) (iface : Text) (rest : List Text) (l : Log) (o : Option Prefix)
    → ((l' : Log) → IsKept (kernel l') (kernel (Routes.add_addresses h iface rest l').1))
    → let next : Bool × Log = elim o [
      | none ↦ (false, l)
      | some p ↦
          let r = exec h (address_add p.is_6 p.text iface) l in
          if not r.0 then (false, r.1) else Routes.add_addresses h iface rest r.1
    ] in
      IsKept (kernel l) (kernel next.1)
add_address-IsKept h iface rest l none ih = ground arith
add_address-IsKept h iface rest l (some p) ih =
    let c = address_add p.is_6 p.text iface in
    let r = exec h c l in let s = ih r.1 in ground (arith, exec-IsKept h c l refl, s.0, s.1, s.2)

pub add_addresses-IsKept :
    (h : Host) (iface : Text) (addrs : List Text) (l : Log)
    → IsKept (kernel l) (kernel (Routes.add_addresses h iface addrs l).1)
unfolding Routes.add_addresses
add_addresses-IsKept h iface [] l = ground arith
add_addresses-IsKept h iface (a ∷ rest) l =
    add_address-IsKept h iface rest l (h.parse_prefix a) (add_addresses-IsKept h iface rest)

pin-IsKept :
    (h : Host) (a : Applier) (l : Log) (o : Option Addr)
    → IsKept (kernel l) (
        kernel (elim o [
          | none ↦ l
          | some ip ↦ (exec h (endpoint_add ip.is_6 (Routes.host_route ip) a.uplink) l).1
        ]))
pin-IsKept h a l none = ground arith
pin-IsKept h a l (some ip) =
    exec-IsKept h (endpoint_add ip.is_6 (Routes.host_route ip) a.uplink) l refl

pub pin_endpoint-IsKept :
    (h : Host) (cfg : Config) (a : Applier) (l : Log)
    → IsKept (kernel l) (kernel (Routes.pin_endpoint h cfg a l).2)
unfolding Routes.pin_endpoint Routes.add_endpoint_route
pin_endpoint-IsKept h cfg a l =
    let host = endpoint_host cfg in
    ground (arith, pin-IsKept h a l (h.parse_addr host), Option-cases (h.parse_addr host))

pub add_default-IsKept :
    (h : Host) (v6 : Bool) (a : Applier) (l : Log)
    → IsKept (kernel l) (kernel (Routes.add_default h v6 a l).2)
unfolding Routes.add_default
add_default-IsKept h v6 a l = ground arith

add_default_if-IsKept :
    (h : Host) (b v6 : Bool) (a : Applier) (l : Log)
    → IsKept (kernel l) (kernel (Routes.add_default_if h b v6 a l).2)
add_default_if-IsKept h true v6 a l = add_default-IsKept h v6 a l
add_default_if-IsKept h false v6 a l = ground arith

up_defaults-IsKept :
    (h : Host) (cfg : Config) (a : Applier) (l : Log)
    → IsKept (kernel l) (kernel (Routes.up_defaults h cfg a l).2)
unfolding Routes.up_defaults
up_defaults-IsKept h cfg a l =
    let need = Routes.allowed_default h false cfg in
    let need_6 = Routes.allowed_default h true cfg in
    let r = Routes.add_default_if h need false a l in
    let first = add_default_if-IsKept h need false a l in
    let s = Routes.add_default_if h need_6 true r.1 r.2 in
    if-IsKept (λ x. x.2) (not r.0) (false, r.1, r.2) s (kernel l) first
      (IsKept-trans (kernel l) (kernel r.2) (kernel s.2) first
        (add_default_if-IsKept h need_6 true r.1 r.2))

up_pinned-IsKept :
    (h : Host) (cfg : Config) (a : Applier) (l : Log)
    → IsKept (kernel l) (kernel (Routes.up_pinned h cfg a l).2)
unfolding Routes.up_pinned
up_pinned-IsKept h cfg a l =
    let r = Routes.pin_endpoint h cfg a l in
    let first = pin_endpoint-IsKept h cfg a l in
    let s = Routes.up_defaults h cfg r.1 r.2 in
    if-IsKept (λ x. x.2) (not r.0) (false, r.1, r.2) s (kernel l) first
      (IsKept-trans (kernel l) (kernel r.2) (kernel s.2) first (up_defaults-IsKept h cfg r.1 r.2))

pub up-IsKept :
    (h : Host) (cfg : Config) (a : Applier) (l : Log)
    → IsKept (kernel l) (kernel (Routes.up h cfg a l).2)
unfolding Routes.up
up-IsKept h cfg a l =
    let r₁ = exec h (link_up a.interface) l in
    let first = exec-IsKept h (link_up a.interface) l refl in
    let r₂ = Routes.add_addresses h a.interface cfg.addresses r₁.1 in
    let second =
      IsKept-trans (kernel l) (kernel r₁.1) (kernel r₂.1) first
        (add_addresses-IsKept h a.interface cfg.addresses r₁.1) in
    let r₃ = Routes.up_pinned h cfg a r₂.1 in
    let next : Bool × Applier × Log = if not r₂.0 then (false, a, r₂.1) else r₃ in
    if-IsKept (λ x. x.2) (not r₁.0) (false, a, r₁.1) next (kernel l) first
      (if-IsKept (λ x. x.2) (not r₂.0) (false, a, r₂.1) r₃ (kernel l) second
        (IsKept-trans (kernel l) (kernel r₂.1) (kernel r₃.2) second
          (up_pinned-IsKept h cfg a r₂.1)))

pub connmark-IsKept :
    (h : Host) (mark : ℕ) (l : Log) → IsKept (kernel l) (kernel (install_connmark h mark l).1)
unfolding install_connmark apply_ruleset
connmark-IsKept h mark l = ground arith

pub dns_up-IsKept :
    (h : Host) (m : Manager) (servers : List Text) (l : Log)
    → IsKept (kernel l) (kernel (Dns.up h m servers l).2)
unfolding Dns.up
dns_up-IsKept h m [] l = ground arith
dns_up-IsKept h m (s ∷ ss) l = ground arith

pub dns_down-IsKept :
    (h : Host) (m : Manager) (l : Log) → IsKept (kernel l) (kernel (Dns.down h m l).1)
unfolding Dns.down
dns_down-IsKept h m l = ground arith

del_default-IsKept :
    (h : Host) (v6 : Bool) (a : Applier) (l : Log)
    → IsKept (kernel l) (kernel (Routes.del_default h v6 a l).1)
unfolding Routes.del_default
del_default-IsKept h v6 a l = ground arith

unpin-IsKept :
    (h : Host) (a : Applier) (l : Log) (o : Option Addr)
    → let next : Bool × Log = elim o [
      | none ↦ (true, l)
      | some ip ↦ exec h (endpoint_del ip.is_6 (Routes.host_route ip) a.uplink) l
    ] in
      IsKept (kernel l) (kernel next.1)
unpin-IsKept h a l none = ground arith
unpin-IsKept h a l (some ip) =
    exec-IsKept h (endpoint_del ip.is_6 (Routes.host_route ip) a.uplink) l refl

del_endpoint_route-IsKept :
    (h : Host) (a : Applier) (l : Log)
    → IsKept (kernel l) (kernel (Routes.del_endpoint_route h a l).1)
unfolding Routes.del_endpoint_route
del_endpoint_route-IsKept h a l =
    ground (arith, unpin-IsKept h a l (h.parse_addr a.applied_endpoint))

pub down-IsKept :
    (h : Host) (a : Applier) (l : Log) → IsKept (kernel l) (kernel (Routes.down h a l).1)
unfolding Routes.down
down-IsKept h a l =
    let r₁ = Routes.del_family h h.v6_first a l in
    let r₂ = Routes.del_family h (not h.v6_first) a r₁.1 in
    ground (
      arith,
      del_default-IsKept h h.v6_first a l,
      del_default-IsKept h (not h.v6_first) a r₁.1,
      del_endpoint_route-IsKept h a r₂.1,
    )
