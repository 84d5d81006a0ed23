-- ===== src/Connect/Guarded.antt =====
-- The IPv6 guard and the interface of core/connect/connect.go, while Up and Down run.
use mazzy_vpn.Base.{
  ℕ, Option, none, some, is_some, nat_beq, ◌≡◌, refl, sym, ◌∙◌, subst, Bool, true, false, not, ◌&&◌,
  if◌then◌else◌, Text, ◌==◌, arith,
}
use mazzy_vpn.Profile.{Config}
use mazzy_vpn.Protocols.{Protocol, amneziawg, wireguard, interface}
use mazzy_vpn.Network.{
  Log, Host, exec, ipv6_guard, connmark, engine_up, engine_down, delete_table, Kernel, kernel,
}
use mazzy_vpn.Network.Guard.{install_ipv6_guard, install_connmark, remove_table, apply_ruleset}
use mazzy_vpn.Network.Dns
use mazzy_vpn.Network.Dns.{Manager}
use mazzy_vpn.Network.Routes
use mazzy_vpn.Network.Routes.{Applier, effective_mark}
use mazzy_vpn.Network.Neutral.{
  is_uncovered, IsKept, IsKept-trans, exec-IsKept, up-IsKept, down-IsKept, connmark-IsKept,
  dns_up-IsKept, dns_down-IsKept,
}
use mazzy_vpn.Connect.{
  Conn, UpError, unsupported, boot_recovery_pending, guard_failed, engine_failed, reaffirm_failed,
  routes_failed, dns_failed, Opened, opened, failed, Options, when, teardown, give_up, is_denied,
  up_dns, up_routes, up_named, armed, up_engine, up,
}

when-IsKept :
    (b : Bool) (r : Bool × Log) (l : Log)
    → IsKept (kernel l) (kernel r.1)
    → IsKept (kernel l) (kernel (when b r l).1)
when-IsKept true r l k = k
when-IsKept false r l k = (refl, refl, λ s. refl)

-- The layers above the engine come off without touching engine or guard.
upper : Host → Conn → Log → Log
upper h c l =
    let r₁ = when c.dns_on (Dns.down h c.dns l) l in
    let r₂ = when c.connmark_on (remove_table h connmark r₁.1) r₁.1 in
    (when c.routes_on (Routes.down h c.routes r₂.1) r₂.1).1

upper-IsKept : (h : Host) (c : Conn) (l : Log) → IsKept (kernel l) (kernel (upper h c l))
unfolding upper remove_table
upper-IsKept h c l =
    let r₁ = when c.dns_on (Dns.down h c.dns l) l in
    let r₂ = when c.connmark_on (exec h (delete_table connmark) r₁.1) r₁.1 in
    let r₃ = when c.routes_on (Routes.down h c.routes r₂.1) r₂.1 in
    let p₁ = when-IsKept c.dns_on (Dns.down h c.dns l) l (dns_down-IsKept h c.dns l) in
    let p₂ =
      when-IsKept c.connmark_on (exec h (delete_table connmark) r₁.1) r₁.1
        (exec-IsKept h (delete_table connmark) r₁.1 refl) in
    let p₃ =
      when-IsKept c.routes_on (Routes.down h c.routes r₂.1) r₂.1 (down-IsKept h c.routes r₂.1) in
    IsKept-trans (kernel l) (kernel r₁.1) (kernel r₃.1) p₁
      (IsKept-trans (kernel r₁.1) (kernel r₂.1) (kernel r₃.1) p₂ p₃)

lower : Host → Conn → Log → Log
lower h c l =
    let r₄ = when c.engine (exec h engine_down l) l in
    (when c.ipv6_guard_on (remove_table h ipv6_guard r₄.1) r₄.1).1

-- The count of the steps that exposed the interface, if one is expected.
abbrev pub is_met : Option ℕ → ℕ → Bool
is_met none e = true
is_met (some x) e = nat_beq e x

-- The interface is not up without the guard, and the count is as expected.
abbrev pub is_safe : Option ℕ → Kernel → Bool
is_safe n k = is_met n k.exposed && not (is_uncovered k)

kept-is_safe :
    (n : Option ℕ) (k k' : Kernel) → IsKept k k' → is_safe n k ≡ true → is_safe n k' ≡ true
kept-is_safe n k k' p s =
    let u : is_uncovered k ≡ false = ground (arith, s) in ground (arith, s, p.0, p.1, p.2 u)

lower-stops :
    (h : Host) (c : Conn) (l : Log)
    → ((kernel l).engine ≡ true → c.engine ≡ true)
    → ((kernel (lower h c l)).engine ≡ false)
      × (is_uncovered (kernel l) ≡ false → (kernel (lower h c l)).exposed ≡ (kernel l).exposed)
unfolding lower remove_table
lower-stops h c l e = ground arith

teardown-stops :
    (h : Host) (c : Conn) (l : Log)
    → ((kernel l).engine ≡ true → c.engine ≡ true)
    → let k = kernel (teardown h c l).2 in
      (k.engine ≡ false) × (is_uncovered (kernel l) ≡ false → k.exposed ≡ (kernel l).exposed)
unfolding teardown upper lower
teardown-stops h c l e =
    let u = upper-IsKept h c l in
    let s = lower-stops h c (upper h c l) (λ x. e (sym u.1 ∙ x)) in
    (s.0, λ x. s.1 (ground (arith, u.0, u.1, x)) ∙ u.2 x)

teardown-IsSafe :
    (h : Host) (n : Option ℕ) (c : Conn) (l : Log)
    → is_safe n (kernel l) ≡ true
    → ((kernel l).engine ≡ true → c.engine ≡ true)
    → let k = kernel (teardown h c l).2 in (is_safe n k ≡ true) × (k.engine ≡ false)
teardown-IsSafe h n c l s e =
    let t = teardown-stops h c l e in
    let u : is_uncovered (kernel l) ≡ false = ground (arith, s) in ground (arith, t.0, t.1 u, s)

-- What a run of Up may end with: an error and no interface, or a connection whose interface is up under
-- the guard; and if a count is expected, no other number of steps has exposed the interface.
abbrev pub IsGuarded : Option ℕ → Opened → Kernel → Type 0
IsGuarded n (failed e) k = (is_safe n k ≡ true) × (k.engine ≡ false)
IsGuarded n (opened c) k = (is_safe n k ≡ true) × (k.engine ≡ true) × (c.engine ≡ true)

test-IsGuarded :
    (n : Option ℕ) (b : Bool) (x y : Opened × Log)
    → (b ≡ true → IsGuarded n x.0 (kernel x.1))
    → (b ≡ false → IsGuarded n y.0 (kernel y.1))
    → let r : Opened × Log = if b then x else y in IsGuarded n r.0 (kernel r.1)
test-IsGuarded n true x y p q = p refl
test-IsGuarded n false x y p q = q refl

abbrev IsUp : Option ℕ → Conn → Log → Type 0
IsUp n c l = (is_safe n (kernel l) ≡ true) × ((kernel l).engine ≡ true) × (c.engine ≡ true)

IsUp-kept :
    (n : Option ℕ) (c : Conn) (l l' : Log)
    → IsUp n c l
    → IsKept (kernel l) (kernel l')
    → IsUp n c l'
IsUp-kept n c l l' u k = (kept-is_safe n (kernel l) (kernel l') k u.0, k.1 ∙ u.1, u.2)

give_up-IsGuarded :
    (h : Host) (n : Option ℕ) (e : UpError) (c : Conn) (l : Log)
    → IsUp n c l
    → IsGuarded n (failed e) (kernel (teardown h c l).2)
give_up-IsGuarded h n e c l u = teardown-IsSafe h n c l u.0 (λ x. u.2)

up_dns-IsGuarded :
    (h : Host) (n : Option ℕ) (cfg : Config) (c : Conn) (l : Log)
    → IsUp n c l
    → let r = up_dns h cfg c l in IsGuarded n r.0 (kernel r.1)
unfolding up_dns
up_dns-IsGuarded h n cfg c l u =
    let m = Dns.new c.interface in
    let r = Dns.up h m cfg.dns l in
    let c' = record c { dns = r.1 } in
    let u' = IsUp-kept n c l r.2 u (dns_up-IsKept h m cfg.dns l) in
    test-IsGuarded n (not r.0) (give_up h dns_failed c' r.2)
      (opened (record c' { dns_on = true }), r.2) (λ _. give_up-IsGuarded h n dns_failed c' r.2 u')
      (λ _. u')

up_routes-IsGuarded :
    (h : Host) (n : Option ℕ) (cfg : Config) (opts : Options) (c : Conn) (l : Log)
    → IsUp n c l
    → let r = up_routes h cfg opts c l in IsGuarded n r.0 (kernel r.1)
unfolding up_routes
up_routes-IsGuarded h n cfg opts c l u =
    let a = Routes.new c.interface opts.uplink cfg in
    let r = Routes.up h cfg a l in
    let c' = record c { routes = r.1 } in
    let u' = IsUp-kept n c l r.2 u (up-IsKept h cfg a l) in
    let m = install_connmark h (effective_mark cfg) r.2 in
    let c'' = record c' { routes_on = true; connmark_on = m.0 } in
    let u'' = IsUp-kept n c r.2 m.1 u' (connmark-IsKept h (effective_mark cfg) r.2) in
    test-IsGuarded n (not r.0) (give_up h routes_failed c' r.2) (up_dns h cfg c'' m.1)
      (λ _. give_up-IsGuarded h n routes_failed c' r.2 u')
      (λ _. up_dns-IsGuarded h n cfg c'' m.1 u'')

-- Arming the guard anew leaves the engine up, and under the guard if it succeeds.
reaffirm-IsUp :
    (h : Host) (c : Conn) (l : Log)
    → (kernel l).engine ≡ true
    → c.engine ≡ true
    → let r = install_ipv6_guard h c.interface l in
      ((kernel r.1).engine ≡ true) × (r.0 ≡ true → IsUp none c r.1)
unfolding install_ipv6_guard apply_ruleset
reaffirm-IsUp h c l e s = ground arith

-- After an error in arming it anew, the interface comes off.
reaffirm_failed-IsGuarded :
    (h : Host) (c : Conn) (l : Log)
    → c.engine ≡ true
    → IsGuarded none (failed reaffirm_failed) (kernel (teardown h c l).2)
reaffirm_failed-IsGuarded h c l e =
    let t = teardown-stops h c l (λ _. e) in (ground (arith, t.0), t.0)

-- Where a count is expected, the engine's interface has the name that the guard was armed with.
up_named-IsGuarded :
    (h : Host) (n : Option ℕ) (cfg : Config) (opts : Options) (c : Conn) (l : Log)
    → (is_some n ≡ true → (c.interface == interface c.protocol) ≡ true)
    → IsUp n c l
    → let r = up_named h cfg opts c l in IsGuarded n r.0 (kernel r.1)
unfolding up_named
up_named-IsGuarded h (some x) cfg opts c l e u =
    rw (e refl) (up_routes-IsGuarded h (some x) cfg opts c l u)
up_named-IsGuarded h none cfg opts c l e u =
    let r = install_ipv6_guard h c.interface l in
    let a = reaffirm-IsUp h c l u.1 u.2 in
    let again : Opened × Log =
      if not r.0 then give_up h reaffirm_failed c r.1 else up_routes h cfg opts c r.1 in
    test-IsGuarded none (c.interface == interface c.protocol) (up_routes h cfg opts c l) again
      (λ _. up_routes-IsGuarded h none cfg opts c l u)
      (λ _.
        test-IsGuarded none (not r.0) (give_up h reaffirm_failed c r.1) (up_routes h cfg opts c r.1)
          (λ _. reaffirm_failed-IsGuarded h c r.1 u.2)
          (λ ok. up_routes-IsGuarded h none cfg opts c r.1 (a.1 (ground (arith, ok)))))

-- The state when the guard is armed and the engine is not up.
abbrev IsArmed : Option ℕ → Log → Type 0
IsArmed n l =
    (is_met n (kernel l).exposed ≡ true) × ((kernel l).engine ≡ false) × ((kernel l).guard ≡ true)

up_engine-IsGuarded :
    (h : Host) (n : Option ℕ) (cfg : Config) (opts : Options) (proto : Protocol) (l : Log)
    → (is_some n ≡ true → (h.real_name (interface proto) == interface proto) ≡ true)
    → IsArmed n l
    → let r = up_engine h cfg opts proto l in IsGuarded n r.0 (kernel r.1)
unfolding up_engine
up_engine-IsGuarded h n cfg opts proto l e u =
    let cmd = engine_up proto (effective_mark cfg) in
    let c = armed proto cfg opts in
    let c' = record c { engine = true; interface = h.real_name (interface proto) } in
    let r = exec h cmd l in
    test-IsGuarded n (not r.0) (give_up h engine_failed c r.1) (up_named h cfg opts c' r.1)
      (λ no.
        let s : (is_safe n (kernel r.1) ≡ true) × ((kernel r.1).engine ≡ false) =
          ground (arith, u) in
        teardown-IsSafe h n c r.1 s.0 (λ x. ground (arith, s.1, x)))
      (λ ok. up_named-IsGuarded h n cfg opts c' r.1 e (ground (arith, ok, u)))

install-IsArmed :
    (h : Host) (n : Option ℕ) (iface : Text) (l : Log)
    → is_met n (kernel l).exposed ≡ true
    → (kernel l).engine ≡ false
    → let r = install_ipv6_guard h iface l in
      (is_met n (kernel r.1).exposed ≡ true)
      × ((kernel r.1).engine ≡ false)
      × (r.0 ≡ true → (kernel r.1).guard ≡ true)
unfolding install_ipv6_guard apply_ruleset
install-IsArmed h n iface l x e = ground arith

up_if-IsGuarded :
    (h : Host) (n : Option ℕ) (proto : Protocol) (cfg : Config) (opts : Options) (l : Log)
    → (is_some n ≡ true → (h.real_name (interface proto) == interface proto) ≡ true)
    → is_met n (kernel l).exposed ≡ true
    → (kernel l).engine ≡ false
    → let r = up h proto cfg opts l in IsGuarded n r.0 (kernel r.1)
unfolding up
up_if-IsGuarded h n proto cfg opts l q x e =
    let r = install_ipv6_guard h (interface proto) l in
    let a = install-IsArmed h n (interface proto) l x e in
    let armed_up : Opened × Log =
      if not r.0 then (failed guard_failed, r.1) else up_engine h cfg opts proto r.1 in
    let gated : Opened × Log =
      if is_denied opts.boot_gate then (failed boot_recovery_pending, l) else armed_up in
    let safe : (is_safe n (kernel l) ≡ true) × ((kernel l).engine ≡ false) = ground (arith, x, e) in
    test-IsGuarded n (not (proto == amneziawg) && not (proto == wireguard)) (failed unsupported, l)
      gated (λ _. safe)
      (λ _.
        test-IsGuarded n (is_denied opts.boot_gate) (failed boot_recovery_pending, l) armed_up
          (λ _. safe)
          (λ _.
            test-IsGuarded n (not r.0) (failed guard_failed, r.1) (up_engine h cfg opts proto r.1)
              (λ _. ground (arith, a.0, a.1))
              (λ ok.
                up_engine-IsGuarded h n cfg opts proto r.1 q (a.0, a.1, a.2 (ground (arith, ok))))))

-- The count that is expected of a run from k: that of k, if the interface gets the name `iface`.
abbrev pub expected : Bool → Kernel → Option ℕ
expected is_named k = if is_named then some k.exposed else none

expected-named : (b : Bool) (k : Kernel) → is_some (expected b k) ≡ true → b ≡ true
expected-named true k h = refl
expected-named false k h = h

expected-met : (b : Bool) (k : Kernel) → is_met (expected b k) k.exposed ≡ true
expected-met true k = ground arith
expected-met false k = refl

-- From a kernel without an interface, whatever step fails and whatever name the kernel gives to the
-- interface: Up ends with an error and no interface, or with a connection that holds its engine and an
-- interface that is up under the IPv6 guard. If the kernel keeps the name that the guard was armed with,
-- the interface is moreover after no step up without the guard, neither while Up runs, nor while it unwinds.
pub up-IsGuarded :
    (h : Host) (proto : Protocol) (cfg : Config) (opts : Options) (l : Log)
    → (kernel l).engine ≡ false
    → let r = up h proto cfg opts l in
      let is_named = h.real_name (interface proto) == interface proto in
      IsGuarded (expected is_named (kernel l)) r.0 (kernel r.1)
up-IsGuarded h proto cfg opts l e =
    let is_named = h.real_name (interface proto) == interface proto in
    up_if-IsGuarded h (expected is_named (kernel l)) proto cfg opts l
      (expected-named is_named (kernel l)) (expected-met is_named (kernel l)) e

-- From a kernel without an interface, whatever name it gives to the new one: Down of a connection that Up
-- opened takes the interface down, and after no step of Down is the interface up without the IPv6 guard.
pub down-IsGuarded :
    (h : Host) (proto : Protocol) (cfg : Config) (opts : Options) (l : Log) (c : Conn)
    → (kernel l).engine ≡ false
    → (up h proto cfg opts l).0 ≡ opened c
    → let before = kernel (up h proto cfg opts l).1 in
      let k = kernel (teardown h c (up h proto cfg opts l).1).2 in
      (before.engine ≡ true) × (k.engine ≡ false) × (k.exposed ≡ before.exposed)
down-IsGuarded h proto cfg opts l c e o =
    let r = up h proto cfg opts l in
    let g =
      subst (λ v. IsGuarded none v (kernel r.1)) o
        (up_if-IsGuarded h none proto cfg opts l (λ q. ground (arith, q)) refl e) in
    let t = teardown-stops h c r.1 (λ _. g.2) in (g.1, t.0, t.1 (ground (arith, g.0)))
