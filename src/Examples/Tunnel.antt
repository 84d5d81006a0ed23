-- ===== src/Examples/Tunnel.antt =====
-- Tests of core/connect and of the network code under it.
use mazzy_vpn.Base.{
  ◌<◌, ◌≡◌, ◌⊎◌, refl, Bool, true, false, not, none, some, List, [], ◌∷◌, Text, codes, ◌==◌, pos,
  any,
}
use mazzy_vpn.Profile.{Peer, Config}
use mazzy_vpn.Protocols.{wireguard, interface}
use mazzy_vpn.Boot.File.{Disk, absent, Faults}
use mazzy_vpn.Boot.Gate.{running, test_recovery, mutation_allowed, read}
use mazzy_vpn.Boot.Safety.{Attempt, attempts, IsBlocked}
use mazzy_vpn.Network.{Host, Log, Command, exec, kernel, engine_up, default_add}
use mazzy_vpn.Network.Guard.{is_iface, install_connmark, install_ipv6_guard}
use mazzy_vpn.Network.Routes
use mazzy_vpn.Network.Dns
use mazzy_vpn.Connect.{
  Conn, Options, opened, failed, unsupported, boot_recovery_pending, routes_failed, up, teardown,
  up_routes,
}
use mazzy_vpn.Connect.Guarded.{IsGuarded, up-IsGuarded, down-IsGuarded}
use mazzy_vpn.Connect.Tracked.{Removes}
use mazzy_vpn.Connect.Reverted.{IsClean, down-up-IsClean}
use mazzy_vpn.Connect.Gated.{up-blocked}
use mazzy_vpn.Connect.Gaps.{reaffirm-exposes, up_routes-leaves_rules, started}

abbrev answers : (Log → Command → Bool) → Host
answers answer = record {
  parse_addr = λ t. some (record { is_6 = false; text = t });
  parse_prefix = λ t. some (record { is_6 = false; bits = 0; text = t });
  is_available = λ t. true;
  has_input = true;
  real_name = λ t. t;
  v6_first = true;
  answer = answer;
}

-- A host on which all succeeds, and one that refuses the default route.
abbrev willing : Host
willing = answers (λ l c. true)

abbrev is_default_add : Command → Bool
is_default_add (default_add _ _ _) = true
is_default_add _ = false

abbrev no_route : Host
no_route = answers (λ l c. not (is_default_add c))

abbrev peer : Peer
peer = record {
  public_key = codes "k";
  preshared_key = [];
  endpoint = codes "203.0.113.9:51820";
  allowed_ips = codes "0.0.0.0/0" ∷ [];
  persistent_keepalive = pos 25;
}

abbrev config : Config
config = record {
  private_key = codes "k";
  addresses = codes "10.0.0.2/32" ∷ [];
  dns = codes "10.0.0.1" ∷ [];
  mtu = pos 0;
  listen_port = pos 0;
  fw_mark = 0;
  amnezia = [];
  peers = peer ∷ [];
  has_amnezia_fields = false;
}

abbrev options : Options
options = record { boot_gate = none; uplink = [] }

-- A host that refuses the default route, and gives the interface another name.
abbrev renaming : Host
renaming = record no_route { real_name = λ t. codes "vpnwg1" }

abbrev device : Text
device = codes "vpnwg0"

up-IsGuarded_example :
    let r = up no_route wireguard config options [] in IsGuarded (some 0) r.0 (kernel r.1)
unfolding interface ◌==◌
up-IsGuarded_example = up-IsGuarded no_route wireguard config options [] refl

renamed-IsGuarded :
    let r = up renaming wireguard config options [] in IsGuarded none r.0 (kernel r.1)
unfolding interface ◌==◌
renamed-IsGuarded = up-IsGuarded renaming wireguard config options [] refl

abbrev established : Conn
established = record {
  protocol = wireguard;
  interface = device;
  engine = true;
  routes = record {
    interface = device;
    table = 51820;
    uplink = [];
    applied_4 = true;
    applied_6 = false;
    applied_endpoint = [];
  };
  dns = record { interface = device; applied = true; backend = Dns.resolvectl };
  ipv6_guard_on = true;
  routes_on = true;
  dns_on = true;
  connmark_on = true;
}

up-established : (up willing wireguard config options []).0 ≡ opened established
unfolding up Dns.up install_connmark Routes.new Routes.effective_mark any ◌==◌
up-established = refl

down-IsGuarded_example :
    let before = kernel (up willing wireguard config options []).1 in
    let k = kernel (teardown willing established (up willing wireguard config options []).1).2 in
    (before.engine ≡ true) × (k.engine ≡ false) × (k.exposed ≡ before.exposed)
down-IsGuarded_example =
    down-IsGuarded willing wireguard config options [] established refl up-established

removals : Removes willing
removals l c h = refl

down-up-IsClean_example :
    IsClean (kernel (teardown willing established (up willing wireguard config options []).1).2)
down-up-IsClean_example =
    down-up-IsClean willing wireguard config options [] established removals
      (refl, refl, refl, refl, refl, refl, refl, refl, refl, refl) up-established

abbrev engine_log : Log
engine_log = (exec willing (engine_up wireguard 51820) []).1

device-is_iface : is_iface device ≡ true
unfolding is_iface any
device-is_iface = refl

up-engine : (kernel (up willing wireguard config options []).1).engine ≡ true
unfolding up Dns.up install_connmark Routes.new Routes.effective_mark any ◌==◌
up-engine = refl

-- The guard is armed there.
reaffirm-exposes_example :
    let l = (up willing wireguard config options []).1 in
    (kernel l).exposed < (kernel (install_ipv6_guard willing device l).1).exposed
reaffirm-exposes_example =
    reaffirm-exposes willing device (up willing wireguard config options []).1 device-is_iface
      up-engine refl

no_route-fails : (Routes.up no_route config (Routes.new device [] config) engine_log).0 ≡ false
unfolding Routes.up Routes.new any ◌==◌
no_route-fails = refl

up_routes-leaves_rules_example :
    let r = Routes.up no_route config (Routes.new device [] config) engine_log in
    let u =
      up_routes no_route config options (started wireguard config options device) engine_log in
    (u.0 ≡ failed routes_failed)
    × ((kernel u.1).mark_rule_4 ≡ (kernel r.2).mark_rule_4)
    × ((kernel u.1).suppress_rule_4 ≡ (kernel r.2).suppress_rule_4)
    × ((kernel u.1).pinned ≡ (kernel r.2).pinned)
up_routes-leaves_rules_example =
    up_routes-leaves_rules no_route wireguard config options device engine_log no_route-fails

-- The rule does stay behind.
leftover :
    (kernel
      (up_routes no_route config options
        (started wireguard config options device)
        engine_log).1).mark_rule_4
    ≡ 51820 ∷ []
unfolding up_routes Routes.new any ◌==◌
leftover = refl

abbrev all_fine : Faults
all_fine = record {
  mkdir = true;
  chmod_dir = true;
  create_temp = true;
  chmod_temp = true;
  write = true;
  torn = [];
  sync = true;
  close = true;
  remove = true;
  rename = true;
  open_dir = true;
  sync_dir = true;
}

abbrev fresh : Disk
fresh = record { file = absent; temps = [] }

fresh-IsBlocked : IsBlocked fresh
unfolding mutation_allowed read
fresh-IsBlocked readable = refl

abbrev recorded : List Attempt
recorded = (all_fine, running) ∷ (all_fine, test_recovery) ∷ []

up-blocked_example :
    let gate = mutation_allowed true true (attempts recorded fresh) in
    let r = up willing wireguard config (record { boot_gate = some gate; uplink = [] }) [] in
    (r.1 ≡ []) × ((r.0 ≡ failed unsupported) ⊎ (r.0 ≡ failed boot_recovery_pending))
up-blocked_example =
    up-blocked recorded fresh true (refl, (refl, tt)) fresh-IsBlocked willing wireguard config [] []
