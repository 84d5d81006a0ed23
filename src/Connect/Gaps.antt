-- ===== src/Connect/Gaps.antt =====
-- Where the guard of core/connect/connect.go and its unwinding fall short.
use mazzy_vpn.Base.{◌<◌, ◌≡◌, refl, true, false, Text, arith}
use mazzy_vpn.Profile.{Config}
use mazzy_vpn.Protocols.{Protocol}
use mazzy_vpn.Network.{Log, Host, kernel, ipv6_guard, delete_table}
use mazzy_vpn.Network.Guard.{is_iface, install_ipv6_guard, apply_ruleset, remove_table}
use mazzy_vpn.Network.Routes
use mazzy_vpn.Network.Routes.{Applier, effective_mark}
use mazzy_vpn.Connect.{Conn, routes_failed, failed, Options, teardown, up_routes, armed}

-- Arming the guard anew, for an interface with a valid name and while it is up, leaves it without a guard
-- for a time, even if it was guarded before: the old table is deleted first, where that succeeds.
pub reaffirm-exposes :
    (h : Host) (iface : Text) (l : Log)
    → is_iface iface ≡ true
    → (kernel l).engine ≡ true
    → h.answer l (delete_table ipv6_guard) ≡ true
    → (kernel l).exposed < (kernel (install_ipv6_guard h iface l).1).exposed
unfolding install_ipv6_guard apply_ruleset
reaffirm-exposes h iface l i e a = ground arith

-- The connection when its engine has come up as `iface`.
abbrev pub started : Protocol → Config → Options → Text → Conn
started proto cfg opts iface = record (armed proto cfg opts) { engine = true; interface = iface }

teardown-rules :
    (h : Host) (proto : Protocol) (cfg : Config) (opts : Options) (iface : Text) (a : Applier)
    (l : Log)
    → let k = kernel (teardown h (record (started proto cfg opts iface) { routes = a }) l).2 in
      (k.mark_rule_4 ≡ (kernel l).mark_rule_4)
      × (k.suppress_rule_4 ≡ (kernel l).suppress_rule_4)
      × (k.pinned ≡ (kernel l).pinned)
unfolding teardown remove_table
teardown-rules h proto cfg opts iface a l = ground arith

-- If the routes fail half way, Up returns an error, but the IPv4 policy rules and the pinned route that
-- were already added stay: they are what they were when the step failed.
pub up_routes-leaves_rules :
    (h : Host) (proto : Protocol) (cfg : Config) (opts : Options) (iface : Text) (l : Log)
    → (Routes.up h cfg (Routes.new iface opts.uplink cfg) l).0 ≡ false
    → let r = Routes.up h cfg (Routes.new iface opts.uplink cfg) l in
      let u = up_routes h cfg opts (started proto cfg opts iface) l in
      (u.0 ≡ failed routes_failed)
      × ((kernel u.1).mark_rule_4 ≡ (kernel r.2).mark_rule_4)
      × ((kernel u.1).suppress_rule_4 ≡ (kernel r.2).suppress_rule_4)
      × ((kernel u.1).pinned ≡ (kernel r.2).pinned)
unfolding up_routes
up_routes-leaves_rules h proto cfg opts iface l e =
    let r = Routes.up h cfg (Routes.new iface opts.uplink cfg) l in
    let t = teardown-rules h proto cfg opts iface r.1 r.2 in rw e (refl, t.0, t.1, t.2)
