-- ===== src/Recover/Restored.antt =====
-- The steps of `recover` one by one (mazzy-vpn-cli/cmd/mazzy-vpn/recover.go).
use mazzy_vpn.Base.{
  ℕ, zero, suc, ◌-◌, ◌≡◌, ◌≢◌, refl, ◌∙◌, true, false, not, ◌&&◌, List, [], ◌∷◌, if◌then◌else◌,
  Text, ◌==◌, nat_beq, contains, any, keep, arith, ap, ==_iff,
}
use mazzy_vpn.Network.{ipv6_guard, transition_guard, connmark}
use mazzy_vpn.Network.Routes.{default_mark}
use mazzy_vpn.Recover.{
  Machine, Command, link_del, table_del, mark_rule_del, suppress_rule_del, without, drop_one, pred,
  Host, Progress, run, remove_links, remove_tables, clear_rules, clear_all_rules,
}

unfoldable pub count : ℕ → List ℕ → ℕ
count mark [] = 0
count mark (m ∷ ms) = if nat_beq m mark then suc (count mark ms) else count mark ms

count-drop_one : (mark : ℕ) (ms : List ℕ) → count mark (drop_one mark ms) ≡ pred (count mark ms)
unfolding count drop_one
count-drop_one mark [] = refl
count-drop_one mark (m ∷ ms) = ground (arith, count-drop_one mark ms)

count-drop_other :
    (mark other : ℕ) (ms : List ℕ) → mark ≢ other → count other (drop_one mark ms) ≡ count other ms
unfolding count drop_one
count-drop_other mark other [] n = refl
count-drop_other mark other (m ∷ ms) n = ground (arith, count-drop_other mark other ms n)

-- Every command is let.
abbrev pub AllLet : Host → Type 0
AllLet h = (c : Command) → h c ≡ true

-- The rules of a machine: how many with a mark, in either family, and how many suppress the main table.
pub record Rules : Type 0 where
  pub marked_4 : ℕ
  pub marked_6 : ℕ
  pub suppress_4 : ℕ
  pub suppress_6 : ℕ

unfoldable pub rules : ℕ → Machine → Rules
rules mark m = record {
  marked_4 = count mark m.marks_4;
  marked_6 = count mark m.marks_6;
  suppress_4 = m.suppress_4;
  suppress_6 = m.suppress_6;
}

abbrev pub less : ℕ → Rules → Rules
less n r = record {
  marked_4 = r.marked_4 - n;
  marked_6 = r.marked_6 - n;
  suppress_4 = r.suppress_4 - n;
  suppress_6 = r.suppress_6 - n;
}

rules-clear_rules :
    (h : Host) (m : Machine)
    → AllLet h
    → rules default_mark (clear_rules h m) ≡ less 1 (rules default_mark m)
unfolding rules clear_rules
rules-clear_rules h m let_all = ground (
  arith,
  let_all (mark_rule_del false),
  let_all (mark_rule_del true),
  let_all (suppress_rule_del false),
  let_all (suppress_rule_del true),
  count-drop_one default_mark m.marks_4,
  count-drop_one default_mark m.marks_6,
)

pub rules-clear_all_rules :
    (n : ℕ) (h : Host) (m : Machine)
    → AllLet h
    → rules default_mark (clear_all_rules n h m) ≡ less n (rules default_mark m)
unfolding clear_all_rules
rules-clear_all_rules zero h m let_all = ground arith
rules-clear_all_rules (suc n) h m let_all =
    rules-clear_all_rules n h (clear_rules h m) let_all
    ∙ ap (less n) (rules-clear_rules h m let_all)
    ∙ ground arith

contains-without :
    (n name : Text) (links : List Text)
    → contains n (without name links) ≡ (contains n links && not (n == name))
unfolding any keep
contains-without n name [] = refl
contains-without n name (l ∷ ls) =
    ground (arith, contains-without n name ls, ==_iff l name, ==_iff l n, ==_iff n name)

-- After one interface of the list.
abbrev unlinked : Host → Text → Progress → Progress
unlinked h name p = if contains name p.machine.links then run h (link_del name) p else p

contains-unlinked :
    (h : Host) (n name : Text) (p : Progress)
    → AllLet h
    → contains n (unlinked h name p).machine.links ≡ (contains n p.machine.links && not (n == name))
contains-unlinked h n name p let_all = ground (
  arith,
  let_all (link_del name),
  contains-without n name p.machine.links,
  ==_iff n name,
  ap (λ k. contains k p.machine.links) {x = n} {y = name},
)

pub contains-remove_links :
    (h : Host) (n : Text) (names : List Text) (p : Progress)
    → AllLet h
    → contains n (remove_links h names p).machine.links
      ≡ (contains n p.machine.links && not (contains n names))
unfolding remove_links any
contains-remove_links h n [] p let_all = ground arith
contains-remove_links h n (name ∷ names) p let_all =
    contains-remove_links h n names (unlinked h name p) let_all
    ∙ ground (arith, contains-unlinked h n name p let_all, ==_iff n name, ==_iff name n)

rules-unlinked :
    (h : Host) (mark : ℕ) (name : Text) (p : Progress)
    → rules mark (unlinked h name p).machine ≡ rules mark p.machine
unfolding rules
rules-unlinked h mark name p = ground arith

pub rules-remove_links :
    (h : Host) (mark : ℕ) (names : List Text) (p : Progress)
    → rules mark (remove_links h names p).machine ≡ rules mark p.machine
unfolding remove_links
rules-remove_links h mark [] p = refl
rules-remove_links h mark (name ∷ names) p =
    rules-remove_links h mark names (unlinked h name p) ∙ rules-unlinked h mark name p

-- The tables of a machine.
abbrev pub NoTables : Machine → Type 0
NoTables m = (m.ipv6_table ≡ false) × (m.transition_table ≡ false) × (m.connmark_table ≡ false)

pub remove_tables_lem :
    (h : Host) (p : Progress)
    → let m' = (remove_tables h p).machine in
      (AllLet h → NoTables m')
      × (m'.links ≡ p.machine.links)
      × ((mark : ℕ) → rules mark m' ≡ rules mark p.machine)
unfolding remove_tables rules
remove_tables_lem h p = (
  λ let_all. ground (
    arith,
    let_all (table_del ipv6_guard),
    let_all (table_del transition_guard),
    let_all (table_del connmark),
  ),
  ground arith,
  λ mark. ground arith,
)

clear_rules-keeps :
    (h : Host) (m : Machine)
    → let m' = clear_rules h m in (m'.links ≡ m.links) × (NoTables m → NoTables m')
unfolding clear_rules
clear_rules-keeps h m = ground arith

pub clear_all_rules-keeps :
    (n : ℕ) (h : Host) (m : Machine)
    → let m' = clear_all_rules n h m in (m'.links ≡ m.links) × (NoTables m → NoTables m')
unfolding clear_all_rules
clear_all_rules-keeps zero h m = (refl, λ t. t)
clear_all_rules-keeps (suc n) h m =
    let first = clear_rules-keeps h m in
    let rest = clear_all_rules-keeps n h (clear_rules h m) in
    (rest.0 ∙ first.0, λ t. rest.1 (first.1 t))

clear_rules-other :
    (h : Host) (mark : ℕ) (m : Machine)
    → mark ≢ default_mark
    → let r = rules mark (clear_rules h m) in
      (r.marked_4 ≡ count mark m.marks_4) × (r.marked_6 ≡ count mark m.marks_6)
unfolding rules clear_rules
clear_rules-other h mark m n = ground (
  arith,
  count-drop_other default_mark mark m.marks_4,
  count-drop_other default_mark mark m.marks_6,
)

pub clear_all_rules-other :
    (k : ℕ) (h : Host) (mark : ℕ) (m : Machine)
    → mark ≢ default_mark
    → let m' = clear_all_rules k h m in
      (count mark m'.marks_4 ≡ count mark m.marks_4)
      × (count mark m'.marks_6 ≡ count mark m.marks_6)
unfolding clear_all_rules rules
clear_all_rules-other zero h mark m n = (refl, refl)
clear_all_rules-other (suc k) h mark m n =
    let first = clear_rules-other h mark m n in
    let rest = clear_all_rules-other k h mark (clear_rules h m) n in
    (rest.0 ∙ first.0, rest.1 ∙ first.1)
