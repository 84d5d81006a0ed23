-- ===== src/NetDiag/Counts.antt =====
-- What the report of core/netdiag/netdiag.go says of the interfaces.
use mazzy_vpn.Base.{
  ℕ, ◌+◌, ◌≡◌, refl, true, false, not, ◌&&◌, Option, none, some, List, [], ◌∷◌, ◌++◌, if◌then◌else◌,
  Text, codes, ltb, length, length-append, arith, Bool-cases, inl, inr,
}
use mazzy_vpn.NetAdapter.{Adapter, Ip, physical_uplinks, recommend}
use mazzy_vpn.NetDiag.{
  Severity, severity_text, Finding, Report, bump, add, count_wireless, uplink_step, first_conflict,
  conflict_step, recommend_step, empty_report, analyze, is_healthy, is_none, name_or_empty,
  recommended_name, info, warn, fail,
}

-- The numbers of findings, and how many of them are failures.
abbrev pub IsCounted : ℕ → ℕ → Report → Type 0
IsCounted fails warns r =
    (r.ok + r.warn + r.fail ≡ length r.findings) × (r.fail ≡ fails) × (r.warn ≡ warns)

abbrev one_if_fail : Severity → ℕ
one_if_fail fail = 1
one_if_fail _ = 0

abbrev one_if_warn : Severity → ℕ
one_if_warn warn = 1
one_if_warn _ = 0

bump-counts :
    (sev : Severity) (r : Report)
    → ((bump sev r).ok + (bump sev r).warn + (bump sev r).fail ≡ r.ok + r.warn + r.fail + 1)
      × ((bump sev r).fail ≡ r.fail + one_if_fail sev)
      × ((bump sev r).warn ≡ r.warn + one_if_warn sev)
bump-counts info r = (omega arith, omega arith, omega arith)
bump-counts warn r = (omega arith, omega arith, omega arith)
bump-counts fail r = (omega arith, omega arith, omega arith)

bump-findings : (sev : Severity) (r : Report) → (bump sev r).findings ≡ r.findings
bump-findings info r = refl
bump-findings warn r = refl
bump-findings fail r = refl

length-snoc : (xs : List Finding) (x : Finding) → length (xs ++ x ∷ []) ≡ length xs + 1
length-snoc xs x = length-append xs (x ∷ [])

add-IsCounted :
    (sev : Severity) (title detail fix : Text) (f w : ℕ) (r : Report)
    → IsCounted f w r
    → IsCounted (f + one_if_fail sev) (w + one_if_warn sev) (add sev title detail fix r)
unfolding add
add-IsCounted sev title detail fix f w r h =
    let x : Finding = record {
      severity = sev;
      level = severity_text sev;
      title = title;
      detail = detail;
      fix = fix;
    } in
    let c = bump-counts sev r in
    (
      omega (arith, c.0, h.0, length-snoc r.findings x),
      omega (arith, c.1, h.1),
      omega (arith, c.2, h.2),
    )

uplink_step-IsCounted :
    (uplinks : List Adapter)
    → IsCounted (if is_none uplinks then 1 else 0) 0 (uplink_step uplinks empty_report)
unfolding uplink_step add
uplink_step-IsCounted [] = (refl, refl, refl)
uplink_step-IsCounted (u ∷ us) =
    let uplinks = u ∷ us in
    elim (Bool-cases
      (ltb 0 (count_wireless false uplinks) && ltb 0 (count_wireless true uplinks))) [
        | inl both ↦ rw both (refl, refl, refl)
        | inr one ↦ rw one (refl, refl, refl)
      ]

abbrev pub one_if_some : Option Adapter → ℕ
one_if_some none = 0
one_if_some (some a) = 1

conflict_step-IsCounted :
    (o : Option Adapter) (f : ℕ) (r : Report)
    → IsCounted f 0 r
    → IsCounted f (one_if_some o) (conflict_step o r)
unfolding conflict_step
conflict_step-IsCounted none f r h = h
conflict_step-IsCounted (some a) f r h =
    let c =
      add-IsCounted warn (codes "A VPN interface is already active")
        (codes "Interface "
          ++ a.name
          ++ codes " is up; another VPN (e.g. AdGuard/WireGuard) may capture traffic.")
        (codes "Disconnect the other VPN before testing, or bind the test to a specific uplink.") f
        0 (record r { conflicting_vpn = a.name }) h in
    (c.0, omega (arith, c.1), omega (arith, c.2))

recommend_step-IsCounted :
    (o : Option (Adapter × Text)) (f w : ℕ) (r : Report)
    → IsCounted f w r
    → IsCounted f w (recommend_step o r)
unfolding recommend_step
recommend_step-IsCounted none f w r h = h
recommend_step-IsCounted (some (a, reason)) f w r h =
    let c =
      add-IsCounted info (codes "Recommended uplink: " ++ a.name) reason [] f w
        (record r { recommended_uplink = a.name }) h in
    (c.0, omega (arith, c.1), omega (arith, c.2))

-- The names that a report ends with.
abbrev IsNamed : Text → Text → Report → Type 0
IsNamed conflict uplink r = (r.conflicting_vpn ≡ conflict) × (r.recommended_uplink ≡ uplink)

uplink_step-IsNamed : (uplinks : List Adapter) → IsNamed [] [] (uplink_step uplinks empty_report)
unfolding uplink_step add
uplink_step-IsNamed [] = (refl, refl)
uplink_step-IsNamed (u ∷ us) =
    let uplinks = u ∷ us in
    elim (Bool-cases
      (ltb 0 (count_wireless false uplinks) && ltb 0 (count_wireless true uplinks))) [
        | inl both ↦ rw both (refl, refl)
        | inr one ↦ rw one (refl, refl)
      ]

conflict_step-IsNamed :
    (o : Option Adapter) (r : Report)
    → IsNamed [] [] r
    → IsNamed (name_or_empty o) [] (conflict_step o r)
unfolding conflict_step add
conflict_step-IsNamed none r h = h
conflict_step-IsNamed (some a) r h = (refl, h.1)

recommend_step-IsNamed :
    (o : Option (Adapter × Text)) (c : Text) (r : Report)
    → IsNamed c [] r
    → IsNamed c (recommended_name o) (recommend_step o r)
unfolding recommend_step add
recommend_step-IsNamed none c r h = h
recommend_step-IsNamed (some (a, reason)) c r h = (h.0, refl)

-- The report is healthy exactly when a physical uplink is up; it has one warning if a virtual interface
-- that is up has the name of a tunnel, and names the first such interface; it names the uplink that
-- netadapter recommends; and its counts add up to its findings.
pub analyze_exact :
    (parse_cidr : Text → Option Ip) (adapters : List Adapter)
    → let r = analyze parse_cidr adapters in
      (is_healthy r ≡ not (is_none (physical_uplinks adapters)))
      × (r.warn ≡ one_if_some (first_conflict adapters))
      × (r.conflicting_vpn ≡ name_or_empty (first_conflict adapters))
      × (r.recommended_uplink ≡ recommended_name (recommend parse_cidr adapters))
      × (r.ok + r.warn + r.fail ≡ length r.findings)
unfolding analyze is_healthy
analyze_exact parse_cidr adapters =
    let uplinks = physical_uplinks adapters in
    let conflict = first_conflict adapters in
    let best = recommend parse_cidr adapters in
    let r₁ = uplink_step uplinks empty_report in
    let r₂ = conflict_step conflict r₁ in
    let fails : ℕ = if is_none uplinks then 1 else 0 in
    let counted =
      recommend_step-IsCounted best fails (one_if_some conflict) r₂
        (conflict_step-IsCounted conflict fails r₁ (uplink_step-IsCounted uplinks)) in
    let named =
      recommend_step-IsNamed best (name_or_empty conflict) r₂
        (conflict_step-IsNamed conflict r₁ (uplink_step-IsNamed uplinks)) in
    (ground (arith, counted.1), counted.2, named.0, named.1, counted.0)
