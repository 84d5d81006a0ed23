-- ===== src/Connect.antt =====
-- core/connect/connect.go: a whole connection, its layers brought up in order and reverted in reverse.
pub mod Guarded
pub mod Tracked
pub mod Whole
pub mod Reverted
pub mod Gated
pub mod Gaps
use mazzy_vpn.Base.{
  ℕ, Bool, true, false, not, ◌&&◌, ◌||◌, Option, none, some, List, [], ◌∷◌, if◌then◌else◌, Text,
  codes, ◌==◌,
}
use mazzy_vpn.Profile.{Config}
use mazzy_vpn.Protocols.{Protocol, amneziawg, wireguard, interface}
use mazzy_vpn.Network.{Log, Host, exec, ipv6_guard, connmark, engine_up, engine_down}
use mazzy_vpn.Network.Guard.{install_ipv6_guard, install_connmark, remove_table}
use mazzy_vpn.Network.Dns
use mazzy_vpn.Network.Dns.{Manager}
use mazzy_vpn.Network.Routes
use mazzy_vpn.Network.Routes.{Applier, effective_mark}

-- `engine` says whether the field engine is set.
pub record Conn : Type 0 where
  pub protocol : Protocol
  pub interface : Text
  pub engine : Bool
  pub routes : Applier
  pub dns : Manager
  pub ipv6_guard_on : Bool
  pub routes_on : Bool
  pub dns_on : Bool
  pub connmark_on : Bool

pub data UpError : Type 0 where
  unsupported boot_recovery_pending guard_failed engine_failed reaffirm_failed : UpError
  routes_failed dns_failed : UpError

pub data Opened : Type 0 where
  opened : Conn → Opened
  failed : UpError → Opened

-- The answer of the boot gate, where there is one, and the uplink to pin.
pub record Options : Type 0 where
  pub boot_gate : Option Bool
  pub uplink : Text

abbrev pub when : Bool → Bool × Log → Log → Bool × Log
when b r l = if b then r else (true, l)

abbrev pub all_off : Conn → Conn
all_off c = record c {
  engine = false;
  ipv6_guard_on = false;
  routes_on = false;
  dns_on = false;
  connmark_on = false;
}

-- teardown, which is also Down: whether there was no error, the connection after it, and the log.
unfoldable pub teardown : Host → Conn → Log → Bool × Conn × Log
unfolding Dns.down Routes.down remove_table
teardown h c l =
    let r₁ = when c.dns_on (Dns.down h c.dns l) l in
    let r₂ = when c.connmark_on (remove_table h connmark r₁.1) r₁.1 in
    let r₃ = when c.routes_on (Routes.down h c.routes r₂.1) r₂.1 in
    let r₄ = when c.engine (exec h engine_down r₃.1) r₃.1 in
    let r₅ = when c.ipv6_guard_on (remove_table h ipv6_guard r₄.1) r₄.1 in
    (r₁.0 && r₂.0 && r₃.0 && r₄.0 && r₅.0, all_off c, r₅.1)

-- A failed step: unwind and return the error.
abbrev pub give_up : Host → UpError → Conn → Log → Opened × Log
give_up h e c l = (failed e, (teardown h c l).2)

abbrev pub is_denied : Option Bool → Bool
is_denied none = false
is_denied (some allowed) = not allowed

-- Step 4 of Up.
unfoldable pub up_dns : Host → Config → Conn → Log → Opened × Log
unfolding teardown Dns.up
up_dns h cfg c l =
    let r = Dns.up h (Dns.new c.interface) cfg.dns l in
    let c = record c { dns = r.1 } in
    if not r.0 then give_up h dns_failed c r.2 else (opened (record c { dns_on = true }), r.2)

-- Steps 3 and 3b.
unfoldable pub up_routes : Host → Config → Options → Conn → Log → Opened × Log
unfolding up_dns Routes.new Routes.up effective_mark install_connmark
up_routes h cfg opts c l =
    let r = Routes.up h cfg (Routes.new c.interface opts.uplink cfg) l in
    let c = record c { routes = r.1 } in
    if not r.0
    then give_up h routes_failed c r.2
    else let m = install_connmark h (effective_mark cfg) r.2 in
      up_dns h cfg (record c { routes_on = true; connmark_on = m.0 }) m.1

-- Step 2b.
unfoldable pub up_named : Host → Config → Options → Conn → Log → Opened × Log
unfolding up_routes install_ipv6_guard interface
up_named h cfg opts c l =
    if c.interface == interface c.protocol
    then up_routes h cfg opts c l
    else let r = install_ipv6_guard h c.interface l in
      if not r.0 then give_up h reaffirm_failed c r.1 else up_routes h cfg opts c r.1

abbrev pub armed : Protocol → Config → Options → Conn
armed proto cfg opts = record {
  protocol = proto;
  interface = [];
  engine = false;
  routes = Routes.new [] opts.uplink cfg;
  dns = Dns.new [];
  ipv6_guard_on = true;
  routes_on = false;
  dns_on = false;
  connmark_on = false;
}

-- Step 2.
unfoldable pub up_engine : Host → Config → Options → Protocol → Log → Opened × Log
unfolding up_named interface effective_mark
up_engine h cfg opts proto l =
    let r = exec h (engine_up proto (effective_mark cfg)) l in
    let c = armed proto cfg opts in
    if not r.0
    then give_up h engine_failed c r.1
    else up_named h cfg opts (record c { engine = true; interface = h.real_name (interface proto) })
        r.1

-- The function Up.
unfoldable pub up : Host → Protocol → Config → Options → Log → Opened × Log
unfolding up_engine install_ipv6_guard interface
up h proto cfg opts l =
    if not (proto == amneziawg) && not (proto == wireguard)
    then (failed unsupported, l)
    else if is_denied opts.boot_gate
    then (failed boot_recovery_pending, l)
    else let r = install_ipv6_guard h (interface proto) l in
      if not r.0 then (failed guard_failed, r.1) else up_engine h cfg opts proto r.1
