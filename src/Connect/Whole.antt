-- ===== src/Connect/Whole.antt =====
-- A connection that Up of core/connect/connect.go opened records all that the kernel holds of it.
use mazzy_vpn.Base.{
  ℕ, ◌≡◌, refl, ◌∙◌, Bool, true, false, not, ◌&&◌, List, [], ◌∷◌, if◌then◌else◌, Text, ◌==◌, arith,
}
use mazzy_vpn.Profile.{Config}
use mazzy_vpn.Protocols.{Protocol, amneziawg, wireguard, interface}
use mazzy_vpn.Network.{Log, Host, exec, Kernel, kernel, engine_up}
use mazzy_vpn.Network.Guard.{install_ipv6_guard, install_connmark, apply_ruleset}
use mazzy_vpn.Network.Dns
use mazzy_vpn.Network.Dns.{Manager, Backend, no_backend, resolvectl, resolvconf}
use mazzy_vpn.Network.Routes
use mazzy_vpn.Network.Routes.{Applier, effective_mark}
use mazzy_vpn.Connect.Tracked.{IsSameRoutes, IsSameRest, IsTracked, up-IsStep}
use mazzy_vpn.Connect.{
  Conn, unsupported, boot_recovery_pending, guard_failed, engine_failed, reaffirm_failed,
  routes_failed, dns_failed, Opened, opened, failed, Options, give_up, is_denied, up_dns, up_routes,
  up_named, armed, up_engine, up,
}

-- The interfaces with nameservers in a resolver, the Boolean saying whether the manager set them there.
abbrev pub served : Bool → Text → List Text
served true iface = iface ∷ []
served false iface = []

abbrev pub is_resolvectl : Backend → Bool
is_resolvectl resolvectl = true
is_resolvectl _ = false

abbrev pub is_resolvconf : Backend → Bool
is_resolvconf resolvconf = true
is_resolvconf _ = false

abbrev pub IsDnsTracked : Manager → Kernel → Type 0
IsDnsTracked m k =
    (k.resolved ≡ served (m.applied && is_resolvectl m.backend) m.interface)
    × (k.resolvconf ≡ served (m.applied && is_resolvconf m.backend) m.interface)

-- An open connection records all that the kernel holds of it.
abbrev pub IsWhole : Host → Conn → Kernel → Type 0
IsWhole h c k =
    (c.engine ≡ true)
    × (c.ipv6_guard_on ≡ true)
    × (c.routes_on ≡ true)
    × (c.dns_on ≡ true)
    × (k.mark_table ≡ c.connmark_on)
    × IsDnsTracked c.dns k
    × IsTracked h c.routes k

abbrev pub IsWholeIf : Host → Opened → Kernel → Type 0
IsWholeIf h (failed e) k = Unit {0}
IsWholeIf h (opened c) k = IsWhole h c k

test-IsWholeIf :
    (h : Host) (b : Bool) (x y : Opened × Log)
    → (b ≡ true → IsWholeIf h x.0 (kernel x.1))
    → (b ≡ false → IsWholeIf h y.0 (kernel y.1))
    → let r : Opened × Log = if b then x else y in IsWholeIf h r.0 (kernel r.1)
test-IsWholeIf h true x y p q = p refl
test-IsWholeIf h false x y p q = q refl

dns_up-IsDnsTracked :
    (h : Host) (iface : Text) (servers : List Text) (l : Log)
    → (kernel l).resolved ≡ []
    → (kernel l).resolvconf ≡ []
    → let r = Dns.up h (Dns.new iface) servers l in
      (r.0 ≡ true → IsDnsTracked r.1 (kernel r.2))
      × IsSameRoutes (kernel l) (kernel r.2)
      × ((kernel r.2).mark_table ≡ (kernel l).mark_table)
unfolding Dns.up
dns_up-IsDnsTracked h iface [] l d e = ground arith
dns_up-IsDnsTracked h iface (s ∷ ss) l d e = ground arith

connmark-tracked :
    (h : Host) (mark : ℕ) (l : Log)
    → (kernel l).mark_table ≡ false
    → let r = install_connmark h mark l in
      ((kernel r.1).mark_table ≡ r.0)
      × IsSameRoutes (kernel l) (kernel r.1)
      × ((kernel r.1).resolved ≡ (kernel l).resolved)
      × ((kernel r.1).resolvconf ≡ (kernel l).resolvconf)
unfolding install_connmark apply_ruleset
connmark-tracked h mark l m = ground arith

guard-Same :
    (h : Host) (iface : Text) (l : Log)
    → let k' = kernel (install_ipv6_guard h iface l).1 in
      IsSameRoutes (kernel l) k' × IsSameRest (kernel l) k'
unfolding install_ipv6_guard apply_ruleset
guard-Same h iface l = ground arith

abbrev pub IsBare : Kernel → Type 0
IsBare k =
    (k.mark_rule_4 ≡ [])
    × (k.mark_rule_6 ≡ [])
    × (k.suppress_rule_4 ≡ false)
    × (k.suppress_rule_6 ≡ false)
    × (k.pinned ≡ [])
    × (k.resolved ≡ [])
    × (k.resolvconf ≡ [])
    × (k.mark_table ≡ false)

IsBare-same : (k k' : Kernel) → IsBare k → IsSameRoutes k k' × IsSameRest k k' → IsBare k'
IsBare-same k k' b s = ground (arith, b, s)

pub IsTracked-same :
    (h : Host) (a : Applier) (k k' : Kernel)
    → IsSameRoutes k k'
    → IsTracked h a k
    → IsTracked h a k'
IsTracked-same h a k k' s t = (s.0 ∙ t.0, s.1 ∙ t.1, s.2 ∙ t.2, s.3 ∙ t.3, s.4 ∙ t.4)

not-false : (b : Bool) → not b ≡ false → b ≡ true
not-false b h = ground arith

abbrev IsStarted : Conn → Type 0
IsStarted c = (c.engine ≡ true) × (c.ipv6_guard_on ≡ true)

up_dns-IsWholeIf :
    (h : Host) (cfg : Config) (c : Conn) (l : Log)
    → IsStarted c
    → c.routes_on ≡ true
    → (kernel l).mark_table ≡ c.connmark_on
    → (kernel l).resolved ≡ []
    → (kernel l).resolvconf ≡ []
    → IsTracked h c.routes (kernel l)
    → let r = up_dns h cfg c l in IsWholeIf h r.0 (kernel r.1)
unfolding up_dns
up_dns-IsWholeIf h cfg c l s on m d e t =
    let r = Dns.up h (Dns.new c.interface) cfg.dns l in
    let c' = record c { dns = r.1 } in
    let q = dns_up-IsDnsTracked h c.interface cfg.dns l d e in
    test-IsWholeIf h (not r.0) (give_up h dns_failed c' r.2)
      (opened (record c' { dns_on = true }), r.2) (λ _. tt)
      (λ ok. ground (arith, ok, q, s, on, m, t))

up_routes-IsWholeIf :
    (h : Host) (cfg : Config) (opts : Options) (c : Conn) (l : Log)
    → IsStarted c
    → IsBare (kernel l)
    → let r = up_routes h cfg opts c l in IsWholeIf h r.0 (kernel r.1)
unfolding up_routes Routes.new ◌==◌
up_routes-IsWholeIf h cfg opts c l s b =
    let a = Routes.new c.interface opts.uplink cfg in
    let t : IsTracked h a (kernel l) = ground (arith, b) in
    let r = Routes.up h cfg a l in
    let q = up-IsStep h cfg a l (refl, refl) refl t in
    let c' = record c { routes = r.1 } in
    let m = install_connmark h (effective_mark cfg) r.2 in
    let p = connmark-tracked h (effective_mark cfg) r.2 (q.1.2 ∙ b.7) in
    let c'' = record c' { routes_on = true; connmark_on = m.0 } in
    test-IsWholeIf h (not r.0) (give_up h routes_failed c' r.2) (up_dns h cfg c'' m.1) (λ _. tt)
      (λ ok.
        let tracked = IsTracked-same h r.1 (kernel r.2) (kernel m.1) p.1 (q.0 (not-false r.0 ok)) in
        up_dns-IsWholeIf h cfg c'' m.1 s refl p.0 (p.2 ∙ q.1.0 ∙ b.5) (p.3 ∙ q.1.1 ∙ b.6) tracked)

up_named-IsWholeIf :
    (h : Host) (cfg : Config) (opts : Options) (c : Conn) (l : Log)
    → IsStarted c
    → IsBare (kernel l)
    → let r = up_named h cfg opts c l in IsWholeIf h r.0 (kernel r.1)
unfolding up_named
up_named-IsWholeIf h cfg opts c l s b =
    let r = install_ipv6_guard h c.interface l in
    let b' = IsBare-same (kernel l) (kernel r.1) b (guard-Same h c.interface l) in
    let again : Opened × Log =
      if not r.0 then give_up h reaffirm_failed c r.1 else up_routes h cfg opts c r.1 in
    test-IsWholeIf h (c.interface == interface c.protocol) (up_routes h cfg opts c l) again
      (λ _. up_routes-IsWholeIf h cfg opts c l s b)
      (λ _.
        test-IsWholeIf h (not r.0) (give_up h reaffirm_failed c r.1) (up_routes h cfg opts c r.1)
          (λ _. tt) (λ _. up_routes-IsWholeIf h cfg opts c r.1 s b'))

up_engine-IsWholeIf :
    (h : Host) (cfg : Config) (opts : Options) (proto : Protocol) (l : Log)
    → IsBare (kernel l)
    → let r = up_engine h cfg opts proto l in IsWholeIf h r.0 (kernel r.1)
unfolding up_engine
up_engine-IsWholeIf h cfg opts proto l b =
    let r = exec h (engine_up proto (effective_mark cfg)) l in
    let c = armed proto cfg opts in
    let c' = record c { engine = true; interface = h.real_name (interface proto) } in
    let b' : IsBare (kernel r.1) = ground (arith, b) in
    test-IsWholeIf h (not r.0) (give_up h engine_failed c r.1) (up_named h cfg opts c' r.1)
      (λ _. tt) (λ _. up_named-IsWholeIf h cfg opts c' r.1 (refl, refl) b')

pub up-IsWholeIf :
    (h : Host) (proto : Protocol) (cfg : Config) (opts : Options) (l : Log)
    → IsBare (kernel l)
    → let r = up h proto cfg opts l in IsWholeIf h r.0 (kernel r.1)
unfolding up
up-IsWholeIf h proto cfg opts l b =
    let r = install_ipv6_guard h (interface proto) l in
    let b' = IsBare-same (kernel l) (kernel r.1) b (guard-Same h (interface proto) l) in
    let armed_up : Opened × Log =
      if not r.0 then (failed guard_failed, r.1) else up_engine h cfg opts proto r.1 in
    let gated : Opened × Log =
      if is_denied opts.boot_gate then (failed boot_recovery_pending, l) else armed_up in
    test-IsWholeIf h (not (proto == amneziawg) && not (proto == wireguard)) (failed unsupported, l)
      gated (λ _. tt)
      (λ _.
        test-IsWholeIf h (is_denied opts.boot_gate) (failed boot_recovery_pending, l) armed_up
          (λ _. tt)
          (λ _.
            test-IsWholeIf h (not r.0) (failed guard_failed, r.1) (up_engine h cfg opts proto r.1)
              (λ _. tt) (λ _. up_engine-IsWholeIf h cfg opts proto r.1 b')))
