-- ===== src/DnsCheck/Verdicts.antt =====
-- The findings and the verdict of core/dnscheck/dnscheck.go.
use mazzy_vpn.Base.{
  ℕ, ◌+◌, ◌≡◌, refl, ◌∙◌, Bool, true, false, not, ◌||◌, List, [], ◌∷◌, if◌then◌else◌, Text, any,
  any-append, keep, keep-append, length, length-append, ap, arith, Bool-cases, inl, inr,
}
use mazzy_vpn.DnsCheck.{
  Analysis, Severity, severity_text, Finding, is_critical, is_healthy, add, is_unbound, is_abroad,
  is_home, abroad_step, encryption_step, home_step, leaking, clean, fair, verdict_of, evaluate,
  info, warn,
}

abbrev is_warn : Severity → Bool
is_warn warn = true
is_warn _ = false

abbrev pub warnings : List Finding → ℕ
warnings fs = length (keep (λ f. is_warn f.severity) fs)

abbrev pub one_if : Bool → ℕ
one_if b = if b then 1 else 0

abbrev pub has_critical : List Finding → Bool
has_critical fs = any (λ f. is_critical f.severity) fs

-- What a step adds: warnings, and nothing critical.
abbrev Adds : ℕ → List Finding → List Finding → Type 0
Adds n fs fs' = (has_critical fs' ≡ has_critical fs) × (warnings fs' ≡ warnings fs + n)

one_warning : (f : Finding) → warnings (f ∷ []) ≡ one_if (is_warn f.severity)
unfolding keep
one_warning f = ground arith

one_uncritical :
    (b : Bool) (f : Finding) → is_critical f.severity ≡ false → (b || has_critical (f ∷ [])) ≡ b
unfolding any
one_uncritical b f e = ground arith

add-Adds :
    (sev : Severity) (title detail fix : Text) (fs : List Finding)
    → is_critical sev ≡ false
    → Adds (one_if (is_warn sev)) fs (add sev title detail fix fs)
add-Adds sev title detail fix fs h =
    let f : Finding = record {
      severity = sev;
      level = severity_text sev;
      title = title;
      detail = detail;
      fix = fix;
    } in
    (
      any-append (λ g. is_critical g.severity) fs (f ∷ []) ∙ one_uncritical (has_critical fs) f h,
      ap length (keep-append (λ g. is_warn g.severity) fs (f ∷ []))
          ∙ length-append (keep (λ g. is_warn g.severity) fs)
              (keep (λ g. is_warn g.severity) (f ∷ []))
          ∙ ap (λ k. warnings fs + k) (one_warning f),
    )

same-Adds : (fs : List Finding) → Adds 0 fs fs
same-Adds fs = (refl, omega arith)

abroad_step-Adds :
    (equal_fold : Text → Text → Bool) (a : Analysis) (fs : List Finding)
    → Adds (one_if (is_abroad equal_fold a)) fs (abroad_step equal_fold a fs)
unfolding abroad_step
abroad_step-Adds equal_fold a fs = elim (Bool-cases (is_abroad equal_fold a)) [
  | inl t ↦ rw t (add-Adds warn _ _ _ fs refl)
  | inr t ↦ rw t (same-Adds fs)
]

encryption_step-Adds :
    (a : Analysis) (fs : List Finding) → Adds (one_if (not a.encrypted)) fs (encryption_step a fs)
unfolding encryption_step
encryption_step-Adds a fs = elim (Bool-cases a.encrypted) [
  | inl t ↦ rw t (add-Adds info _ _ _ fs refl)
  | inr t ↦ rw t (add-Adds warn _ _ _ fs refl)
]

home_step-Adds :
    (equal_fold : Text → Text → Bool) (a : Analysis) (fs : List Finding)
    → Adds 0 fs (home_step equal_fold a fs)
unfolding home_step
home_step-Adds equal_fold a fs = elim (Bool-cases (is_home equal_fold a)) [
  | inl t ↦ rw t (add-Adds info _ _ _ fs refl)
  | inr t ↦ rw t (same-Adds fs)
]

-- The findings where DNS is bound to the tunnel.
abbrev bound_findings : (Text → Text → Bool) → Analysis → List Finding
bound_findings equal_fold a =
    home_step equal_fold a (encryption_step a (abroad_step equal_fold a []))

bound-Adds :
    (equal_fold : Text → Text → Bool) (a : Analysis)
    → Adds
        (one_if (is_abroad equal_fold a) + one_if (not a.encrypted))
        []
        (bound_findings equal_fold a)
bound-Adds equal_fold a =
    let fs₁ = abroad_step equal_fold a [] in
    let fs₂ = encryption_step a fs₁ in
    let h₁ = abroad_step-Adds equal_fold a [] in
    let h₂ = encryption_step-Adds a fs₁ in
    let h₃ = home_step-Adds equal_fold a fs₂ in
    (h₃.0 ∙ h₂.0 ∙ h₁.0, omega (arith, h₁.1, h₂.1, h₃.1))

bound-healthy :
    (equal_fold : Text → Text → Bool) (a : Analysis)
    → is_healthy (bound_findings equal_fold a) ≡ true
unfolding is_healthy any
bound-healthy equal_fold a = rw (bound-Adds equal_fold a).0 refl

bound-verdict :
    (encrypted : Bool) (fs : List Finding)
    → is_healthy fs ≡ true
    → verdict_of encrypted fs ≡ (if encrypted then clean else fair)
unfolding verdict_of
bound-verdict encrypted fs h = ground arith

-- Without an interface or a resolver the verdict is that DNS leaks, with a critical finding. Otherwise
-- nothing is critical, the verdict depends on the encryption alone, and there is a warning for a
-- resolver in another country and one for the lack of encryption. So a resolver in another country
-- that is encrypted has the verdict of a clean one in the country.
pub evaluate-verdict :
    (equal_fold : Text → Text → Bool) (a : Analysis)
    → let r = evaluate equal_fold a in
      (r.verdict ≡ (if is_unbound a then leaking else if a.encrypted then clean else fair))
      × (is_healthy r.findings ≡ not (is_unbound a))
      × (warnings r.findings ≡ (
          if is_unbound a then 0 else one_if (is_abroad equal_fold a) + one_if (not a.encrypted)))
unfolding evaluate
evaluate-verdict equal_fold a = elim (Bool-cases (is_unbound a)) [
  | inl t ↦ rw t (refl, unfold is_healthy any in refl, unfold keep in refl)
  | inr t ↦ rw t (
    bound-verdict a.encrypted (bound_findings equal_fold a) (bound-healthy equal_fold a),
    bound-healthy equal_fold a,
    (bound-Adds equal_fold a).1 ∙ (unfold keep in ground arith),
  )
]
