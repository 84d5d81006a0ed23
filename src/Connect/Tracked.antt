-- ===== src/Connect/Tracked.antt =====
-- What core/connect/connect.go and its layers record agrees with what the kernel holds.
use mazzy_vpn.Base.{
  ℕ, ◌≡◌, inl, inr, refl, ◌∙◌, Bool, true, false, not, ◌&&◌, ◌||◌, Option, none, some, List, [],
  ◌∷◌, if◌then◌else◌, Text, ◌==◌, arith, Bool-cases,
}
use mazzy_vpn.Profile.{Config, endpoint_host}
use mazzy_vpn.Network.{
  Log, Host, exec, Kernel, kernel, Command, Prefix, Addr, Pin, address_add, link_up, endpoint_add,
  endpoint_del, mark_rule_del, suppress_rule_del, dns_revert, resolvconf_del, delete_table,
}
use mazzy_vpn.Network.Routes
use mazzy_vpn.Network.Routes.{Applier}

-- The commands that take something away.
abbrev pub is_removal : Command → Bool
is_removal (delete_table _) = true
is_removal (endpoint_del _ _ _) = true
is_removal (mark_rule_del _ _) = true
is_removal (suppress_rule_del _) = true
is_removal (dns_revert _) = true
is_removal (resolvconf_del _) = true
is_removal _ = false

abbrev pub Removes : Host → Type 0
Removes h = (l : Log) (c : Command) → is_removal c ≡ true → h.answer l c ≡ true

-- The routes, the DNS and the marks are the same.
abbrev pub IsSameRoutes : Kernel → Kernel → Type 0
IsSameRoutes k k' =
    (k'.mark_rule_4 ≡ k.mark_rule_4)
    × (k'.mark_rule_6 ≡ k.mark_rule_6)
    × (k'.suppress_rule_4 ≡ k.suppress_rule_4)
    × (k'.suppress_rule_6 ≡ k.suppress_rule_6)
    × (k'.pinned ≡ k.pinned)

-- The nameservers of both resolvers and the connection mark table are the same.
abbrev pub IsSameRest : Kernel → Kernel → Type 0
IsSameRest k k' =
    (k'.resolved ≡ k.resolved) × (k'.resolvconf ≡ k.resolvconf) × (k'.mark_table ≡ k.mark_table)

-- The marks of the rules of a family, if it was applied.
abbrev pub rules : Bool → ℕ → List ℕ
rules true t = t ∷ []
rules false t = []

-- The route that pins an endpoint, which is no literal address if there is no `Addr`.
abbrev pub pin_of : Text → Option Addr → List Pin
pin_of uplink none = []
pin_of uplink (some ip) =
    (record { is_6 = ip.is_6; route = Routes.host_route ip; uplink = uplink }) ∷ []

abbrev pub pins_if : Bool → List Pin → List Pin
pins_if true ps = []
pins_if false ps = ps

-- The applier records exactly the rules and the pinned route that the kernel holds.
abbrev pub IsTracked : Host → Applier → Kernel → Type 0
IsTracked h a k =
    (k.mark_rule_4 ≡ rules a.applied_4 a.table)
    × (k.mark_rule_6 ≡ rules a.applied_6 a.table)
    × (k.suppress_rule_4 ≡ a.applied_4)
    × (k.suppress_rule_6 ≡ a.applied_6)
    × (k.pinned
        ≡ pins_if (a.applied_endpoint == []) (pin_of a.uplink (h.parse_addr a.applied_endpoint)))

-- No default route is recorded.
abbrev pub IsNew : Applier → Type 0
IsNew a = (a.applied_4 ≡ false) × (a.applied_6 ≡ false)

add_address-Same :
    (h : Host) (iface : Text) (rest : List Text) (l : Log) (o : Option Prefix)
    → ((l' : Log)
        → let k' = kernel (Routes.add_addresses h iface rest l').1 in
          IsSameRoutes (kernel l') k' × IsSameRest (kernel l') k')
    → let next : Bool × Log = elim o [
      | none ↦ (false, l)
      | some p ↦
          let r = exec h (address_add p.is_6 p.text iface) l in
          if not r.0 then (false, r.1) else Routes.add_addresses h iface rest r.1
    ] in
      IsSameRoutes (kernel l) (kernel next.1) × IsSameRest (kernel l) (kernel next.1)
add_address-Same h iface rest l none ih = ground arith
add_address-Same h iface rest l (some p) ih =
    let r = exec h (address_add p.is_6 p.text iface) l in ground (arith, ih r.1)

pub add_addresses-Same :
    (h : Host) (iface : Text) (addrs : List Text) (l : Log)
    → let k' = kernel (Routes.add_addresses h iface addrs l).1 in
      IsSameRoutes (kernel l) k' × IsSameRest (kernel l) k'
unfolding Routes.add_addresses
add_addresses-Same h iface [] l = ground arith
add_addresses-Same h iface (a ∷ rest) l =
    add_address-Same h iface rest l (h.parse_prefix a) (add_addresses-Same h iface rest)

pin-IsTracked :
    (h : Host) (a : Applier) (host : Text) (l : Log) (o : Option Addr)
    → h.parse_addr host ≡ o
    → (host == []) ≡ false
    → a.applied_endpoint ≡ []
    → IsTracked h a (kernel l)
    → let r : Bool × Bool × Log = elim o [
      | none ↦ (false, true, l)
      | some ip ↦
          let x = exec h (endpoint_add ip.is_6 (Routes.host_route ip) a.uplink) l in (x.0, x.0, x.1)
    ] in
      (r.1 ≡ true
        → IsTracked h (if r.1 && r.0 then record a { applied_endpoint = host } else a) (kernel r.2))
      × IsSameRest (kernel l) (kernel r.2)
unfolding ◌==◌
pin-IsTracked h a host l none e n z t = ground arith
pin-IsTracked h a host l (some ip) e n z t = ground arith

add_default-IsTracked :
    (h : Host) (b v6 : Bool) (a : Applier) (l : Log)
    → (if v6 then a.applied_6 else a.applied_4) ≡ false
    → IsTracked h a (kernel l)
    → let r = Routes.add_default_if h b v6 a l in
      (r.0 ≡ true → IsTracked h r.1 (kernel r.2)) × IsSameRest (kernel l) (kernel r.2)
unfolding Routes.add_default
add_default-IsTracked h true true a l n t = ground arith
add_default-IsTracked h true false a l n t = ground arith
add_default-IsTracked h false v6 a l n t = ground arith

-- A family's default does not record the other.
add_default-applied_6 :
    (h : Host) (b : Bool) (a : Applier) (l : Log)
    → (Routes.add_default_if h b false a l).1.applied_6 ≡ a.applied_6
unfolding Routes.add_default
add_default-applied_6 h true a l = ground arith
add_default-applied_6 h false a l = refl

-- After a step that may fail, the routes are tracked if it succeeded, and the rest is the same.
abbrev pub IsStep : Host → Kernel → Bool × Applier × Log → Type 0
IsStep h k r = (r.0 ≡ true → IsTracked h r.1 (kernel r.2)) × IsSameRest k (kernel r.2)

pin_endpoint-IsStep :
    (h : Host) (cfg : Config) (a : Applier) (l : Log)
    → a.applied_endpoint ≡ []
    → IsTracked h a (kernel l)
    → IsStep h (kernel l) (Routes.pin_endpoint h cfg a l)
unfolding Routes.pin_endpoint Routes.add_endpoint_route
pin_endpoint-IsStep h cfg a l z t =
    let host = endpoint_host cfg in
    elim (Bool-cases (a.uplink == [] || host == [])) [
      | inl y ↦ rw y ((λ _. t), (refl, refl, refl))
      | inr n ↦ rw n (pin-IsTracked h a host l (h.parse_addr host) refl (ground (arith, n)) z t)
    ]

-- Two steps, the second if the first succeeded.
then-IsStep :
    (h : Host) (k : Kernel) (r s : Bool × Applier × Log)
    → IsStep h k r
    → (r.0 ≡ true → IsStep h (kernel r.2) s)
    → IsStep h k (if not r.0 then (false, r.1, r.2) else s)
then-IsStep h k (true, a, l) s p q =
    let t = q refl in (t.0, (t.1.0 ∙ p.1.0, t.1.1 ∙ p.1.1, t.1.2 ∙ p.1.2))
then-IsStep h k (false, a, l) s p q = ((λ x. ground (arith, x)), p.1)

up_defaults-IsStep :
    (h : Host) (cfg : Config) (a : Applier) (l : Log)
    → IsNew a
    → IsTracked h a (kernel l)
    → IsStep h (kernel l) (Routes.up_defaults h cfg a l)
unfolding Routes.up_defaults
up_defaults-IsStep h cfg a l n t =
    let v4 = Routes.allowed_default h false cfg in
    let v6 = Routes.allowed_default h true cfg in
    let r = Routes.add_default_if h v4 false a l in
    let p = add_default-IsTracked h v4 false a l n.0 t in
    then-IsStep h (kernel l) r (Routes.add_default_if h v6 true r.1 r.2) p (λ ok.
      add_default-IsTracked h v6 true r.1 r.2 (add_default-applied_6 h v4 a l ∙ n.1) (p.0 ok))

pin_endpoint-IsNew :
    (h : Host) (cfg : Config) (a : Applier) (l : Log)
    → IsNew a
    → IsNew (Routes.pin_endpoint h cfg a l).1
unfolding Routes.pin_endpoint
pin_endpoint-IsNew h cfg a l n = ground arith

up_pinned-IsStep :
    (h : Host) (cfg : Config) (a : Applier) (l : Log)
    → IsNew a
    → a.applied_endpoint ≡ []
    → IsTracked h a (kernel l)
    → IsStep h (kernel l) (Routes.up_pinned h cfg a l)
unfolding Routes.up_pinned
up_pinned-IsStep h cfg a l n z t =
    let r = Routes.pin_endpoint h cfg a l in
    let p = pin_endpoint-IsStep h cfg a l z t in
    then-IsStep h (kernel l) r (Routes.up_defaults h cfg r.1 r.2) p
      (λ ok. up_defaults-IsStep h cfg r.1 r.2 (pin_endpoint-IsNew h cfg a l n) (p.0 ok))

pub up-IsStep :
    (h : Host) (cfg : Config) (a : Applier) (l : Log)
    → IsNew a
    → a.applied_endpoint ≡ []
    → IsTracked h a (kernel l)
    → IsStep h (kernel l) (Routes.up h cfg a l)
unfolding Routes.up
up-IsStep h cfg a l n z t =
    let r₁ = exec h (link_up a.interface) l in
    let r₂ = Routes.add_addresses h a.interface cfg.addresses r₁.1 in
    let q = add_addresses-Same h a.interface cfg.addresses r₁.1 in
    let r₃ = Routes.up_pinned h cfg a r₂.1 in
    let t₂ : IsTracked h a (kernel r₂.1) = ground (arith, q, t) in
    let same : IsSameRest (kernel l) (kernel r₂.1) = ground (arith, q) in
    let first : IsStep h (kernel l) (r₁.0, a, r₁.1) = ground (arith, t) in
    let second : IsStep h (kernel r₁.1) (r₂.0, a, r₂.1) = ((λ _. t₂), ground (arith, q)) in
    then-IsStep h (kernel l) (r₁.0, a, r₁.1) (if not r₂.0 then (false, a, r₂.1) else r₃) first
      (λ _.
        then-IsStep h (kernel r₁.1) (r₂.0, a, r₂.1) r₃ second
          (λ _. up_pinned-IsStep h cfg a r₂.1 n z t₂))
