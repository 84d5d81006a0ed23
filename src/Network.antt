-- ===== src/Network.antt =====
-- The commands that the network code runs through core/netexec, in the order in which it runs them,
-- and what they do to the kernel. Each command succeeds or fails as the host answers.
pub mod Guard
pub mod Dns
pub mod Routes
pub mod Neutral
use mazzy_vpn.Base.{
  ℕ, suc, ◌+◌, Bool, true, false, not, ◌&&◌, ◌||◌, Option, none, some, List, [], ◌∷◌, ◌++◌,
  if◌then◌else◌, Text, codes, ◌==◌, format_ℕ, nat_beq,
}
use mazzy_vpn.Protocols.{Protocol}

-- The nft tables of core/guard.
pub data Table : Type 0 where
  ipv6_guard transition_guard connmark : Table

abbrev pub table_name : Table → Text
table_name ipv6_guard = codes "mazzy_vpn_ipv6_guard"
table_name transition_guard = codes "mazzy_vpn_transition_guard"
table_name connmark = codes "mazzy_vpn_connmark"

-- One step that can fail. The Boolean of an `ip` command says whether it is for IPv6.
pub data Command : Type 0 where
  write_temp : Text → Command
  nft_file : Table → Text → Command
  remove_temp : Command
  delete_table : Table → Command
  link_up : Text → Command
  address_add : Bool → Text → Text → Command
  endpoint_add endpoint_del : Bool → Text → Text → Command
  mark_rule_add mark_rule_del : Bool → ℕ → Command
  suppress_rule_add suppress_rule_del : Bool → Command
  default_add : Bool → Text → ℕ → Command
  valid_mark : Command
  dns_set : Text → List Text → Command
  dns_revert : Text → Command
  resolvconf_add : Text → Text → Command
  resolvconf_del : Text → Command
  engine_up : Protocol → ℕ → Command
  engine_down : Command

abbrev pub family : Bool → Text
family v6 = if v6 then codes "-6" else codes "-4"

abbrev pub default_prefix : Bool → Text
default_prefix v6 = if v6 then codes "::/0" else codes "0.0.0.0/0"

-- The words of the command that the Runner executes; `file` is the path of the temporary file. The
-- steps that are no command have none.
unfoldable pub argv : Text → Command → List Text
argv file (write_temp _) = []
argv file (nft_file _ _) = codes "nft" ∷ codes "-f" ∷ file ∷ []
argv file remove_temp = []
argv file (delete_table t) =
    codes "nft" ∷ codes "delete" ∷ codes "table" ∷ codes "inet" ∷ table_name t ∷ []
argv file (link_up iface) =
    codes "ip" ∷ codes "link" ∷ codes "set" ∷ codes "up" ∷ codes "dev" ∷ iface ∷ []
argv file (address_add v6 prefix iface) =
    codes "ip" ∷ family v6 ∷ codes "address" ∷ codes "add" ∷ prefix ∷ codes "dev" ∷ iface ∷ []
argv file (endpoint_add v6 route uplink) =
    codes "ip" ∷ family v6 ∷ codes "route" ∷ codes "add" ∷ route ∷ codes "dev" ∷ uplink ∷ []
argv file (endpoint_del v6 route uplink) =
    codes "ip" ∷ family v6 ∷ codes "route" ∷ codes "del" ∷ route ∷ codes "dev" ∷ uplink ∷ []
argv file (mark_rule_add v6 t) =
    codes "ip"
    ∷ family v6
    ∷ codes "rule"
    ∷ codes "add"
    ∷ codes "not"
    ∷ codes "fwmark"
    ∷ format_ℕ t
    ∷ codes "table"
    ∷ format_ℕ t
    ∷ []
argv file (mark_rule_del v6 t) =
    codes "ip"
    ∷ family v6
    ∷ codes "rule"
    ∷ codes "del"
    ∷ codes "not"
    ∷ codes "fwmark"
    ∷ format_ℕ t
    ∷ codes "table"
    ∷ format_ℕ t
    ∷ []
argv file (suppress_rule_add v6) =
    codes "ip"
    ∷ family v6
    ∷ codes "rule"
    ∷ codes "add"
    ∷ codes "table"
    ∷ codes "main"
    ∷ codes "suppress_prefixlength"
    ∷ codes "0"
    ∷ []
argv file (suppress_rule_del v6) =
    codes "ip"
    ∷ family v6
    ∷ codes "rule"
    ∷ codes "del"
    ∷ codes "table"
    ∷ codes "main"
    ∷ codes "suppress_prefixlength"
    ∷ codes "0"
    ∷ []
argv file (default_add v6 iface t) =
    codes "ip"
    ∷ family v6
    ∷ codes "route"
    ∷ codes "add"
    ∷ default_prefix v6
    ∷ codes "dev"
    ∷ iface
    ∷ codes "table"
    ∷ format_ℕ t
    ∷ []
argv file valid_mark = codes "sysctl" ∷ codes "-q" ∷ codes "net.ipv4.conf.all.src_valid_mark=1" ∷ []
argv file (dns_set iface servers) = codes "resolvectl" ∷ codes "dns" ∷ iface ∷ servers
argv file (dns_revert iface) = codes "resolvectl" ∷ codes "revert" ∷ iface ∷ []
argv file (resolvconf_add iface input) =
    codes "resolvconf" ∷ codes "-a" ∷ iface ∷ codes "-m" ∷ codes "0" ∷ codes "-x" ∷ []
argv file (resolvconf_del iface) = codes "resolvconf" ∷ codes "-d" ∷ iface ∷ codes "-f" ∷ []
argv file (engine_up _ _) = []
argv file engine_down = []

-- The steps so far with their success, the latest first.
abbrev pub Log : Type 0
Log = List (Command × Bool)

pub record Addr : Type 0 where
  pub is_6 : Bool
  pub text : Text

pub record Prefix : Type 0 where
  pub is_6 : Bool
  pub bits : ℕ
  pub text : Text

-- The host: package net/netip, which tools it has, the name that the kernel gives to a new interface,
-- the order in which Go visits a map of two families, and the success of each step.
pub record Host : Type 0 where
  pub parse_addr : Text → Option Addr
  pub parse_prefix : Text → Option Prefix
  pub is_available : Text → Bool
  pub has_input : Bool
  pub real_name : Text → Text
  pub v6_first : Bool
  pub answer : Log → Command → Bool

-- One step.
abbrev pub exec : Host → Command → Log → Bool × Log
exec h c l = (h.answer l c, (c, h.answer l c) ∷ l)

-- A host route out of an uplink.
pub record Pin : Type 0 where
  pub is_6 : Bool
  pub route : Text
  pub uplink : Text

-- What of the kernel the properties speak of: the tables, the engine's interface; of each family the
-- marks of the `not fwmark` rules and whether the rule is there that suppresses the default routes of the
-- main table (a rule that is there cannot be added again); the pinned routes; the interfaces with
-- nameservers in systemd-resolved and in resolvconf; and after how many steps so far the interface was up
-- without the IPv6 guard.
pub record Kernel : Type 0 where
  pub guard : Bool
  pub mark_table : Bool
  pub engine : Bool
  pub mark_rule_4 : List ℕ
  pub mark_rule_6 : List ℕ
  pub suppress_rule_4 : Bool
  pub suppress_rule_6 : Bool
  pub pinned : List Pin
  pub resolved : List Text
  pub resolvconf : List Text
  pub exposed : ℕ

abbrev pub clean : Kernel
clean = record {
  guard = false;
  mark_table = false;
  engine = false;
  mark_rule_4 = [];
  mark_rule_6 = [];
  suppress_rule_4 = false;
  suppress_rule_6 = false;
  pinned = [];
  resolved = [];
  resolvconf = [];
  exposed = 0;
}

-- The list without its first element that is the wanted one.
abbrev pub without : {A : Type 0} → (A → Bool) → List A → List A
without p [] = []
without p (x ∷ xs) = if p x then xs else x ∷ without p xs

abbrev pub is_pin : Bool → Text → Text → Pin → Bool
is_pin true route uplink p = p.is_6 && p.route == route && p.uplink == uplink
is_pin false route uplink p = not p.is_6 && p.route == route && p.uplink == uplink

-- A removal takes away what it names: the rule with its mark, the route with its address and uplink, the
-- nameservers of its interface.
abbrev pub done : Command → Kernel → Kernel
done (nft_file ipv6_guard _) k = record k { guard = true }
done (nft_file connmark _) k = record k { mark_table = true }
done (delete_table ipv6_guard) k = record k { guard = false }
done (delete_table connmark) k = record k { mark_table = false }
done (engine_up _ _) k = record k { engine = true }
done (mark_rule_add true t) k = record k { mark_rule_6 = t ∷ k.mark_rule_6 }
done (mark_rule_add false t) k = record k { mark_rule_4 = t ∷ k.mark_rule_4 }
done (mark_rule_del true t) k = record k { mark_rule_6 = without (nat_beq t) k.mark_rule_6 }
done (mark_rule_del false t) k = record k { mark_rule_4 = without (nat_beq t) k.mark_rule_4 }
done (suppress_rule_add true) k = record k { suppress_rule_6 = true }
done (suppress_rule_add false) k = record k { suppress_rule_4 = true }
done (suppress_rule_del true) k = record k { suppress_rule_6 = false }
done (suppress_rule_del false) k = record k { suppress_rule_4 = false }
done (endpoint_add v6 route uplink) k = record k {
  pinned = (record { is_6 = v6; route = route; uplink = uplink }) ∷ k.pinned;
}
done (endpoint_del v6 route uplink) k = record k {
  pinned = without (is_pin v6 route uplink) k.pinned;
}
done (dns_set iface _) k = record k { resolved = iface ∷ without (λ i. i == iface) k.resolved }
done (dns_revert iface) k = record k { resolved = without (λ i. i == iface) k.resolved }
done (resolvconf_add iface _) k = record k {
  resolvconf = iface ∷ without (λ i. i == iface) k.resolvconf;
}
done (resolvconf_del iface) k = record k { resolvconf = without (λ i. i == iface) k.resolvconf }
done _ k = k

-- A step that fails changes nothing, but the engine is closed in any case.
abbrev pub step : Command → Bool → Kernel → Kernel
step engine_down ok k = record k { engine = false }
step c ok k = if ok then done c k else k

abbrev pub watch : Kernel → Kernel
watch k = record k { exposed = if k.engine && not k.guard then suc k.exposed else k.exposed }

abbrev pub kernel : Log → Kernel
kernel [] = clean
kernel ((c, ok) ∷ l) = watch (step c ok (kernel l))
