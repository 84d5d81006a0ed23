-- ===== src/Recover/Clean.antt =====
-- What `recover` restores and what it leaves (mazzy-vpn-cli/cmd/mazzy-vpn/recover.go).
use mazzy_vpn.Base.{
  ℕ, ◌≡◌, ◌≢◌, refl, ◌∙◌, Bool, true, false, not, ◌&&◌, List, [], ◌∷◌, Text, nat_beq, contains, any,
  keep, arith, ap,
}
use mazzy_vpn.Protocols.{managed_interfaces}
use mazzy_vpn.Network.Routes.{default_mark}
use mazzy_vpn.Recover.{
  Route, Machine, flush, Host, Progress, remove_links, remove_tables, clear_all_rules, rounds,
  World, recover, other_table,
}
use mazzy_vpn.Recover.Restored.{
  count, AllLet, Rules, rules, less, rules-clear_all_rules, contains-remove_links,
  rules-remove_links, NoTables, remove_tables_lem, clear_all_rules-keeps, clear_all_rules-other,
}

abbrev pub has_routes : ℕ → List Route → Bool
has_routes t rs = any (λ r. nat_beq r.table t) rs

flushed : (ts : List Route) → has_routes default_mark (keep other_table ts) ≡ false
unfolding any keep
flushed [] = refl
flushed (t ∷ ts) = ground (arith, flushed ts)

-- The machine after the loop over the rules.
abbrev cleared : Host → Machine → Machine
cleared h m =
    clear_all_rules rounds h
      (remove_tables h
        (remove_links h managed_interfaces (record { machine = m; steps = 0 }))).machine

-- What the rest of recover leaves as it is.
abbrev IsFinished : Machine → Machine → Type 0
IsFinished m m' =
    (m'.links ≡ m.links) × ((mark : ℕ) → rules mark m' ≡ rules mark m) × (NoTables m → NoTables m')

finish :
    (w : World) (reset_catalog : Bool) (m : Machine)
    → w.is_root ≡ true
    → IsFinished (cleared w.host m) (recover w reset_catalog m).1
unfolding recover rules
finish w reset_catalog m root =
    (rw root (ground arith), λ mark. rw root (ground arith), λ t. rw root (ground arith))

finish-routed :
    (w : World) (reset_catalog : Bool) (m : Machine)
    → w.is_root ≡ true
    → AllLet w.host
    → has_routes default_mark (recover w reset_catalog m).1.routed_4 ≡ false
unfolding recover
finish-routed w reset_catalog m root let_all =
    ground (arith, let_all flush, flushed (cleared w.host m).routed_4)

-- Run by root on a host that lets every command, `recover` removes each managed interface and no other,
-- all three nft tables, every IPv4 route of its routing table, and four of the policy rules of each kind
-- and family with its default mark: all of them, if there were no more than four.
pub recover-restores :
    (w : World) (reset_catalog : Bool) (m : Machine) (name : Text)
    → w.is_root ≡ true
    → AllLet w.host
    → let m' = (recover w reset_catalog m).1 in
      (contains name m'.links ≡ (contains name m.links && not (contains name managed_interfaces)))
      × NoTables m'
      × (has_routes default_mark m'.routed_4 ≡ false)
      × (rules default_mark m' ≡ less rounds (rules default_mark m))
recover-restores w reset_catalog m name root let_all =
    let start : Progress = record { machine = m; steps = 0 } in
    let p₁ = remove_links w.host managed_interfaces start in
    let p₂ = remove_tables w.host p₁ in
    let tables = remove_tables_lem w.host p₁ in
    let kept = clear_all_rules-keeps rounds w.host p₂.machine in
    let last = finish w reset_catalog m root in
    (
      ap (contains name) (last.0 ∙ kept.0 ∙ tables.1)
          ∙ contains-remove_links w.host name managed_interfaces start let_all,
      last.2 (kept.1 (tables.0 let_all)),
      finish-routed w reset_catalog m root let_all,
      last.1 default_mark
          ∙ rules-clear_all_rules rounds w.host p₂.machine let_all
          ∙ ap (less rounds) (
              tables.2 default_mark
              ∙ rules-remove_links w.host default_mark managed_interfaces start),
    )

-- The policy rules of any other mark, which a profile with a FwMark makes, all stay, whatever commands
-- the host lets.
pub recover-other_mark :
    (w : World) (reset_catalog : Bool) (m : Machine) (mark : ℕ)
    → w.is_root ≡ true
    → mark ≢ default_mark
    → let m' = (recover w reset_catalog m).1 in
      (count mark m'.marks_4 ≡ count mark m.marks_4)
      × (count mark m'.marks_6 ≡ count mark m.marks_6)
unfolding rules
recover-other_mark w reset_catalog m mark root n =
    let start : Progress = record { machine = m; steps = 0 } in
    let p₁ = remove_links w.host managed_interfaces start in
    let p₂ = remove_tables w.host p₁ in
    let before =
      (remove_tables_lem w.host p₁).2 mark
      ∙ rules-remove_links w.host mark managed_interfaces start in
    let loop = clear_all_rules-other rounds w.host mark p₂.machine n in
    let last = (finish w reset_catalog m root).1 mark in
    (
      ap (λ (r : Rules). r.marked_4) last ∙ loop.0 ∙ ap (λ (r : Rules). r.marked_4) before,
      ap (λ (r : Rules). r.marked_6) last ∙ loop.1 ∙ ap (λ (r : Rules). r.marked_6) before,
    )
