-- ===== src/Connect/Reverted.antt =====
-- Down of core/connect/connect.go reverts all that Up applied.
use mazzy_vpn.Base.{
  ℕ, List, Text, nat_beq, ==_refl, ◌≡◌, refl, ◌∙◌, subst, Bool, true, false, not, Option, none,
  some, [], ◌∷◌, if◌then◌else◌, ◌==◌, arith, Bool-cases, inl, inr,
}
use mazzy_vpn.Profile.{Config}
use mazzy_vpn.Protocols.{Protocol}
use mazzy_vpn.Network.{
  Log, Host, exec, Kernel, kernel, Addr, Pin, without, is_pin, ipv6_guard, connmark, engine_down,
  mark_rule_del, suppress_rule_del, dns_revert, resolvconf_del, delete_table, endpoint_del,
}
use mazzy_vpn.Network.Guard.{remove_table}
use mazzy_vpn.Network.Dns
use mazzy_vpn.Network.Dns.{Manager, Backend, no_backend, resolvectl, resolvconf}
use mazzy_vpn.Network.Routes
use mazzy_vpn.Network.Routes.{Applier, effective_mark}
use mazzy_vpn.Connect.Tracked.{Removes, IsSameRoutes, IsSameRest, IsTracked, rules, pin_of}
use mazzy_vpn.Connect.{Conn, opened, Options, when, teardown, up}
use mazzy_vpn.Connect.Whole.{
  served, IsDnsTracked, IsWhole, IsWholeIf, IsBare, IsTracked-same, up-IsWholeIf,
}

-- Nothing of a connection is there.
abbrev pub IsClean : Kernel → Type 0
IsClean k =
    (k.guard ≡ false)
    × (k.engine ≡ false)
    × (k.mark_table ≡ false)
    × (k.resolved ≡ [])
    × (k.resolvconf ≡ [])
    × (k.pinned ≡ [])
    × (k.mark_rule_4 ≡ [])
    × (k.mark_rule_6 ≡ [])
    × (k.suppress_rule_4 ≡ false)
    × (k.suppress_rule_6 ≡ false)

-- Taking away the one element that is there.
without-one :
    {A : Type 0} (p : A → Bool) (x : A) (xs : List A) → p x ≡ true → xs ≡ x ∷ [] → without p xs ≡ []
without-one p x xs t e = rw e (rw t refl)

same_mark : (t : ℕ) → nat_beq t t ≡ true
same_mark t = ground arith

without-rules : (t : ℕ) (xs : List ℕ) → xs ≡ rules true t → without (nat_beq t) xs ≡ []
without-rules t xs e = without-one (nat_beq t) t xs (same_mark t) e

without-served :
    (iface : Text) (xs : List Text) → xs ≡ served true iface → without (λ i. i == iface) xs ≡ []
without-served iface xs e = without-one (λ i. i == iface) iface xs (==_refl iface) e

is_pin_refl :
    (v6 : Bool) (route uplink : Text)
    → is_pin v6 route uplink (record { is_6 = v6; route = route; uplink = uplink }) ≡ true
is_pin_refl true route uplink = rw (==_refl route) (rw (==_refl uplink) refl)
is_pin_refl false route uplink = rw (==_refl route) (rw (==_refl uplink) refl)

without-pin :
    (ip : Addr) (uplink : Text) (xs : List Pin)
    → xs ≡ pin_of uplink (some ip)
    → without (is_pin ip.is_6 (Routes.host_route ip) uplink) xs ≡ []
without-pin ip uplink xs e =
    without-one (is_pin ip.is_6 (Routes.host_route ip) uplink)
      (record { is_6 = ip.is_6; route = Routes.host_route ip; uplink = uplink }) xs
      (is_pin_refl ip.is_6 (Routes.host_route ip) uplink) e

-- Deleting the rules of one family, where they were applied.
family-clears :
    (h : Host) (v6 : Bool) (a : Applier) (l : Log)
    → Removes h
    → IsTracked h a (kernel l)
    → let k = kernel (Routes.del_family h v6 a l).1 in
      let a' = if v6 then record a { applied_6 = false } else record a { applied_4 = false } in
      IsTracked h a' k × IsSameRest (kernel l) k
unfolding Routes.del_default
family-clears h true a l r t =
    let del = mark_rule_del true a.table in
    elim (Bool-cases a.applied_6) [
      | inl on ↦
          let gone = without-rules a.table (kernel l).mark_rule_6 (ground (arith, t.1, on)) in
          ground (
            arith,
            t,
            on,
            gone,
            r l del refl,
            r ((del, h.answer l del) ∷ l) (suppress_rule_del true) refl,
          )
      | inr off ↦ ground (arith, t, off)
    ]
family-clears h false a l r t =
    let del = mark_rule_del false a.table in
    elim (Bool-cases a.applied_4) [
      | inl on ↦
          let gone = without-rules a.table (kernel l).mark_rule_4 (ground (arith, t.0, on)) in
          ground (
            arith,
            t,
            on,
            gone,
            r l del refl,
            r ((del, h.answer l del) ∷ l) (suppress_rule_del false) refl,
          )
      | inr off ↦ ground (arith, t, off)
    ]

unpin-clears :
    (h : Host) (a : Applier) (l : Log) (o : Option Addr)
    → Removes h
    → (kernel l).pinned ≡ pin_of a.uplink o
    → let r : Bool × Log = elim o [
      | none ↦ (true, l)
      | some ip ↦ exec h (endpoint_del ip.is_6 (Routes.host_route ip) a.uplink) l
    ] in
      let k = kernel r.1 in
      (k.pinned ≡ [])
      × (k.mark_rule_4 ≡ (kernel l).mark_rule_4)
      × (k.mark_rule_6 ≡ (kernel l).mark_rule_6)
      × (k.suppress_rule_4 ≡ (kernel l).suppress_rule_4)
      × (k.suppress_rule_6 ≡ (kernel l).suppress_rule_6)
      × IsSameRest (kernel l) k
unpin-clears h a l none r e = ground (arith, e)
unpin-clears h a l (some ip) r e = ground (
  arith,
  without-pin ip a.uplink (kernel l).pinned e,
  r l (endpoint_del ip.is_6 (Routes.host_route ip) a.uplink) refl,
)

del_endpoint_route-clears :
    (h : Host) (a : Applier) (l : Log)
    → Removes h
    → IsTracked h a (kernel l)
    → let k = kernel (Routes.del_endpoint_route h a l).1 in
      IsTracked h (record a { applied_endpoint = [] }) k × IsSameRest (kernel l) k
unfolding Routes.del_endpoint_route ◌==◌
del_endpoint_route-clears h a l r t = elim (Bool-cases (a.applied_endpoint == [])) [
  | inl e ↦ rw e (ground (arith, t, e))
  | inr n ↦
      let e : (kernel l).pinned ≡ pin_of a.uplink (h.parse_addr a.applied_endpoint) =
        ground (arith, t.4, n) in
      let u = unpin-clears h a l (h.parse_addr a.applied_endpoint) r e in
      rw n ((u.1 ∙ t.0, u.2 ∙ t.1, u.3 ∙ t.2, u.4 ∙ t.3, u.0), u.5)
]

abbrev nothing : Applier → Applier
nothing a = record a { applied_4 = false; applied_6 = false; applied_endpoint = [] }

-- Down with the families in the given order.
abbrev ordered : Host → Bool → Applier → Log → Log
ordered h v6 a l =
    let r₁ = Routes.del_family h v6 a l in
    let r₂ = Routes.del_family h (not v6) a r₁.1 in (Routes.del_endpoint_route h a r₂.1).1

IsSameRest-trans : (a b c : Kernel) → IsSameRest a b → IsSameRest b c → IsSameRest a c
IsSameRest-trans a b c p q = (q.0 ∙ p.0, q.1 ∙ p.1, q.2 ∙ p.2)

ordered-clears :
    (h : Host) (v6 : Bool) (a : Applier) (l : Log)
    → Removes h
    → IsTracked h a (kernel l)
    → let k = kernel (ordered h v6 a l) in IsTracked h (nothing a) k × IsSameRest (kernel l) k
unfolding Routes.del_default Routes.del_endpoint_route
ordered-clears h true a l r t =
    let l₁ = (Routes.del_family h true a l).1 in
    let a₁ = record a { applied_6 = false } in
    let p₁ = family-clears h true a l r t in
    let l₂ = (Routes.del_family h false a₁ l₁).1 in
    let a₂ = record a₁ { applied_4 = false } in
    let p₂ = family-clears h false a₁ l₁ r p₁.0 in
    let p₃ = del_endpoint_route-clears h a₂ l₂ r p₂.0 in
    (
      p₃.0,
      IsSameRest-trans (kernel l) (kernel l₁) (kernel (ordered h true a l)) p₁.1
          (IsSameRest-trans (kernel l₁) (kernel l₂) (kernel (ordered h true a l)) p₂.1 p₃.1),
    )
ordered-clears h false a l r t =
    let l₁ = (Routes.del_family h false a l).1 in
    let a₁ = record a { applied_4 = false } in
    let p₁ = family-clears h false a l r t in
    let l₂ = (Routes.del_family h true a₁ l₁).1 in
    let a₂ = record a₁ { applied_6 = false } in
    let p₂ = family-clears h true a₁ l₁ r p₁.0 in
    let p₃ = del_endpoint_route-clears h a₂ l₂ r p₂.0 in
    (
      p₃.0,
      IsSameRest-trans (kernel l) (kernel l₁) (kernel (ordered h false a l)) p₁.1
          (IsSameRest-trans (kernel l₁) (kernel l₂) (kernel (ordered h false a l)) p₂.1 p₃.1),
    )

routes_down-clears :
    (h : Host) (a : Applier) (l : Log)
    → Removes h
    → IsTracked h a (kernel l)
    → let k = kernel (Routes.down h a l).1 in IsTracked h (nothing a) k × IsSameRest (kernel l) k
unfolding Routes.down
routes_down-clears h a l r t = ordered-clears h h.v6_first a l r t

dns_down_of :
    (h : Host) (iface : Text) (on : Bool) (b : Backend) (l : Log)
    → Removes h
    → let m : Manager = record { interface = iface; applied = on; backend = b } in
      IsDnsTracked m (kernel l)
      → let k = kernel (Dns.down h m l).1 in
        (k.resolved ≡ [])
        × (k.resolvconf ≡ [])
        × IsSameRoutes (kernel l) k
        × (k.mark_table ≡ (kernel l).mark_table)
unfolding Dns.down
dns_down_of h iface false b l r t = ground (arith, t)
dns_down_of h iface true no_backend l r t = ground (arith, t)
dns_down_of h iface true resolvectl l r t =
    ground (arith, t, without-served iface (kernel l).resolved t.0, r l (dns_revert iface) refl)
dns_down_of h iface true resolvconf l r t =
    ground
      (arith, t, without-served iface (kernel l).resolvconf t.1, r l (resolvconf_del iface) refl)

dns_down-clears :
    (h : Host) (m : Manager) (l : Log)
    → Removes h
    → IsDnsTracked m (kernel l)
    → let k = kernel (Dns.down h m l).1 in
      (k.resolved ≡ [])
      × (k.resolvconf ≡ [])
      × IsSameRoutes (kernel l) k
      × (k.mark_table ≡ (kernel l).mark_table)
dns_down-clears h m l r t = dns_down_of h m.interface m.applied m.backend l r t

-- What is left after an open connection is torn down: the last two steps, engine and guard.
lower-clears :
    (h : Host) (l : Log)
    → Removes h
    → IsBare (kernel l)
    → let r₄ = exec h engine_down l in IsClean (kernel (exec h (delete_table ipv6_guard) r₄.1).1)
lower-clears h l r b =
    let r₄ = exec h engine_down l in ground (arith, b, r r₄.1 (delete_table ipv6_guard) refl)

connmark-clears :
    (h : Host) (b : Bool) (l : Log)
    → Removes h
    → (kernel l).mark_table ≡ b
    → let k = kernel (when b (exec h (delete_table connmark) l) l).1 in
      (k.mark_table ≡ false)
      × IsSameRoutes (kernel l) k
      × (k.resolved ≡ (kernel l).resolved)
      × (k.resolvconf ≡ (kernel l).resolvconf)
connmark-clears h true l r e = ground (arith, e, r l (delete_table connmark) refl)
connmark-clears h false l r e = ground (arith, e)

abbrev all_on : Conn → Conn
all_on c = record c { engine = true; ipv6_guard_on = true; routes_on = true; dns_on = true }

all_on-clears :
    (h : Host) (c : Conn) (l : Log)
    → Removes h
    → IsWhole h c (kernel l)
    → IsClean (kernel (teardown h (all_on c) l).2)
unfolding teardown remove_table ◌==◌
all_on-clears h c l r w =
    let l₁ = (Dns.down h c.dns l).1 in
    let p₁ = dns_down-clears h c.dns l r w.5 in
    let l₂ = (when c.connmark_on (exec h (delete_table connmark) l₁) l₁).1 in
    let p₂ = connmark-clears h c.connmark_on l₁ r (p₁.3 ∙ w.4) in
    let t₁ = IsTracked-same h c.routes (kernel l) (kernel l₁) p₁.2 w.6 in
    let t₂ = IsTracked-same h c.routes (kernel l₁) (kernel l₂) p₂.1 t₁ in
    let l₃ = (Routes.down h c.routes l₂).1 in
    let p₃ = routes_down-clears h c.routes l₂ r t₂ in
    let bare : IsBare (kernel l₃) = (
      p₃.0.0,
      p₃.0.1,
      p₃.0.2,
      p₃.0.3,
      p₃.0.4,
      p₃.1.0 ∙ p₂.2 ∙ p₁.0,
      p₃.1.1 ∙ p₂.3 ∙ p₁.1,
      p₃.1.2 ∙ p₂.0,
    ) in
    lower-clears h l₃ r bare

whole-clears :
    (h : Host) (c : Conn) (l : Log)
    → Removes h
    → IsWhole h c (kernel l)
    → IsClean (kernel (teardown h c l).2)
whole-clears h c l r w =
    let e : all_on c ≡ c = ground (arith, w.0, w.1, w.2, w.3) in
    subst (λ v. IsClean (kernel (teardown h v l).2)) e (all_on-clears h c l r w)

-- From a kernel without any of its settings, a connection that Up opened is reverted by Down: if each
-- removal succeeds, no table, rule, pinned route, nameserver or interface is left. A removal takes away
-- only the rule with its mark, the route with its address and uplink, and the nameservers of its interface.
pub down-up-IsClean :
    (h : Host) (proto : Protocol) (cfg : Config) (opts : Options) (l : Log) (c : Conn)
    → Removes h
    → IsClean (kernel l)
    → (up h proto cfg opts l).0 ≡ opened c
    → IsClean (kernel (teardown h c (up h proto cfg opts l).1).2)
down-up-IsClean h proto cfg opts l c r k o =
    let b : IsBare (kernel l) = (k.6, k.7, k.8, k.9, k.5, k.3, k.4, k.2) in
    let x = up h proto cfg opts l in
    whole-clears h c x.1 r
      (subst (λ v. IsWholeIf h v (kernel x.1)) o (up-IsWholeIf h proto cfg opts l b))
