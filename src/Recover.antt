-- ===== src/Recover.antt =====
-- The commands `recover` and `disconnect` of the CLI (mazzy-vpn-cli/cmd/mazzy-vpn/recover.go), on a host
-- of which they may find anything left.
pub mod Restored
pub mod Clean
use mazzy_vpn.Base.{
  ℕ, zero, suc, ◌+◌, Bool, true, false, not, ◌&&◌, Option, none, some, List, [], ◌∷◌, if◌then◌else◌,
  Text, codes, ◌==◌, nat_beq, contains, any, keep, is_some,
}
use mazzy_vpn.Boot.File.{Disk, Faults}
use mazzy_vpn.Protocols.{managed_interfaces}
use mazzy_vpn.Intent.{set_desired}
use mazzy_vpn.Network.{Table, ipv6_guard, transition_guard, connmark}
use mazzy_vpn.Network.Routes.{default_mark}

-- A route: its table and its device.
pub record Route : Type 0 where
  pub table : ℕ
  pub device : Text

-- The interfaces by name, the nft tables of the program, the marks of the policy rules, how many rules
-- suppress the main table, the routes of each family, and the intent file.
pub record Machine : Type 0 where
  pub links : List Text
  pub ipv6_table : Bool
  pub transition_table : Bool
  pub connmark_table : Bool
  pub marks_4 : List ℕ
  pub marks_6 : List ℕ
  pub suppress_4 : ℕ
  pub suppress_6 : ℕ
  pub routed_4 : List Route
  pub routed_6 : List Route
  pub intent : Disk
  pub catalog_removed : Bool

-- The commands that are run; a Boolean says whether one is for IPv6. `flush` has no family on its command
-- line, and a flush of a table is then one of IPv4 routes.
pub data Command : Type 0 where
  link_del : Text → Command
  table_del : Table → Command
  mark_rule_del suppress_rule_del : Bool → Command
  flush : Command

abbrev has_table : Table → Machine → Bool
has_table ipv6_guard m = m.ipv6_table
has_table transition_guard m = m.transition_table
has_table connmark m = m.connmark_table

abbrev drop_table : Table → Machine → Machine
drop_table ipv6_guard m = record m { ipv6_table = false }
drop_table transition_guard m = record m { transition_table = false }
drop_table connmark m = record m { connmark_table = false }

abbrev pub without : Text → List Text → List Text
without name names = keep (λ n. not (n == name)) names

-- One rule goes at a time.
unfoldable pub drop_one : ℕ → List ℕ → List ℕ
drop_one mark [] = []
drop_one mark (m ∷ ms) = let rest = drop_one mark ms in if nat_beq m mark then ms else m ∷ rest

abbrev pub pred : ℕ → ℕ
pred zero = zero
pred (suc n) = n

abbrev pub other_table : Route → Bool
other_table r = not (nat_beq r.table default_mark)

abbrev pub other_device : Text → Route → Bool
other_device name r = not (r.device == name)

-- What a command does where it is let: `ip` and `nft` fail where there is nothing to delete, and then
-- change nothing.
abbrev pub act : Command → Machine → Machine
act (link_del name) m = record m {
  links = without name m.links;
  routed_4 = keep (other_device name) m.routed_4;
  routed_6 = keep (other_device name) m.routed_6;
}
act (table_del t) m = drop_table t m
act (mark_rule_del true) m = record m { marks_6 = drop_one default_mark m.marks_6 }
act (mark_rule_del false) m = record m { marks_4 = drop_one default_mark m.marks_4 }
act (suppress_rule_del true) m = record m { suppress_6 = pred m.suppress_6 }
act (suppress_rule_del false) m = record m { suppress_4 = pred m.suppress_4 }
act flush m = record m { routed_4 = keep other_table m.routed_4 }

-- Whether a command that is let succeeds.
abbrev finds : Command → Machine → Bool
finds (link_del name) m = contains name m.links
finds (table_del t) m = has_table t m
finds _ m = true

-- A host that lets commands succeed, or not.
abbrev pub Host : Type 0
Host = Command → Bool

abbrev pub exec : Host → Command → Machine → Machine
exec h c m = if h c then act c m else m

-- The helper `run`: the count of steps grows with each command that succeeds.
pub record Progress : Type 0 where
  pub machine : Machine
  pub steps : ℕ

abbrev pub run : Host → Command → Progress → Progress
run h c p = record {
  machine = exec h c p.machine;
  steps = if h c && finds c p.machine then p.steps + 1 else p.steps;
}

-- The interfaces that are there.
unfoldable pub remove_links : Host → List Text → Progress → Progress
unfolding any keep ◌==◌
remove_links h [] p = p
remove_links h (name ∷ names) p =
    remove_links h names (if contains name p.machine.links then run h (link_del name) p else p)

unfoldable pub remove_tables : Host → Progress → Progress
remove_tables h p =
    run h (table_del connmark) (run h (table_del transition_guard) (run h (table_del ipv6_guard) p))

-- One round of the loop over the policy rules.
unfoldable pub clear_rules : Host → Machine → Machine
unfolding drop_one
clear_rules h m = exec h (suppress_rule_del true) (
    exec h (suppress_rule_del false) (exec h (mark_rule_del true) (exec h (mark_rule_del false) m)))

unfoldable pub clear_all_rules : ℕ → Host → Machine → Machine
unfolding clear_rules
clear_all_rules zero h m = m
clear_all_rules (suc n) h m = clear_all_rules n h (clear_rules h m)

abbrev pub rounds : ℕ
rounds = 4

abbrev pub set_intent : Bool → Faults → Machine → Machine
set_intent readable f m = record m { intent = (set_desired readable f (codes "down") m.intent).0 }

-- The host, whether it can read and write the intent file, and the user.
pub record World : Type 0 where
  pub is_root : Bool
  pub host : Host
  pub readable : Bool
  pub faults : Faults

abbrev pub reset : Bool → Machine → Machine
reset wanted m = if wanted then record m { catalog_removed = true } else m

-- cmdRecover: the exit code, the machine and the count of steps.
unfoldable pub recover : World → Bool → Machine → ℕ × Machine × ℕ
unfolding remove_links remove_tables clear_all_rules set_desired managed_interfaces
recover w reset_catalog m =
    if not w.is_root
    then (1, m, 0)
    else let p₁ = remove_links w.host managed_interfaces (record { machine = m; steps = 0 }) in
      let p₂ = remove_tables w.host p₁ in
      let cleared = clear_all_rules rounds w.host p₂.machine in
      let p₃ = run w.host flush (record { machine = cleared; steps = p₂.steps }) in
      (0, reset reset_catalog (set_intent w.readable w.faults p₃.machine), p₃.steps)

-- detectLiveInterface
unfoldable pub detect_live : List Text → List Text → Option Text
unfolding any
detect_live [] links = none
detect_live (name ∷ names) links =
    let rest = detect_live names links in if contains name links then some name else rest

abbrev pub disconnect_from : World → Option Text → Machine → ℕ × Machine
disconnect_from w none m = (0, m)
disconnect_from w (some iface) m = if not (w.host (link_del iface)) then (1, m) else (
  0,
  set_intent w.readable w.faults
      (remove_tables w.host
        (record { machine = exec w.host (link_del iface) m; steps = 0 })).machine,
)

-- cmdDisconnect
unfoldable pub disconnect : World → Machine → ℕ × Machine
unfolding detect_live remove_tables set_desired managed_interfaces
disconnect w m =
    if not w.is_root then (1, m) else disconnect_from w (detect_live managed_interfaces m.links) m
