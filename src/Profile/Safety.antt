-- ===== src/Profile/Safety.antt =====
-- No configuration with a directive that runs a command is parsed (core/profile/config.go).
use mazzy_vpn.Base.{
  ◌⊎◌, ◌≡◌, refl, Bool, true, false, not, ◌&&◌, ◌||◌, Option, none, some, List, [], ◌∷◌,
  if◌then◌else◌, Text, codes, ◌==◌, trim_space, contains, arith, inl, inr, ap, sym, ◌∙◌,
}
use mazzy_vpn.Intent.{scan}
use mazzy_vpn.Profile.{Config}
use mazzy_vpn.Profile.Parse.{
  ParseError, field_of, Parsed, ok, err, and_then, split_kv, set_field, unsafe_interface_keys,
  is_skipped, is_header, header_name, Progress, parse_line, parse_lines, parse, empty_config,
  executable,
}

-- The section in force after a line, whatever the line sets.
abbrev pub section_after : (Text → Text) → Text → Text → Text
section_after to_lower raw section =
    let line = trim_space raw in
    if is_skipped line
    then section
    else if is_header line
    then header_name to_lower line
    else section

abbrev key_is_unsafe : (Text → Text) → Option (Text × Text) → Bool
key_is_unsafe to_lower none = false
key_is_unsafe to_lower (some (k, v)) = contains (to_lower k) unsafe_interface_keys

-- Whether a line in the given section is a directive that runs a command.
abbrev pub runs_command : (Text → Text) → Text → Text → Bool
runs_command to_lower raw section =
    let line = trim_space raw in
    not (is_skipped line)
    && not (is_header line)
    && section == codes "interface"
    && key_is_unsafe to_lower (split_kv line)

abbrev pub any_command : (Text → Text) → List Text → Text → Bool
any_command to_lower [] section = false
any_command to_lower (l ∷ ls) section =
    runs_command to_lower l section || any_command to_lower ls (section_after to_lower l section)

abbrev pub is_ok {ℓ} : {A : Type ℓ} → Parsed A → Bool
is_ok (ok a) = true
is_ok (err e) = false

Parsed-cases {ℓ} :
    {A : Type ℓ} (x : Parsed A) → ((a : A) × (x ≡ ok a)) ⊎ ((e : ParseError) × (x ≡ err e))
Parsed-cases (ok a) = inl (a, refl)
Parsed-cases (err e) = inr (e, refl)

set_field-unsafe :
    (section key val : Text) (c : Config)
    → (section == codes "interface" && contains key unsafe_interface_keys) ≡ true
    → set_field section key val c ≡ err executable
unfolding set_field
set_field-unsafe section key val c h = ground (arith, h)

field_of-section :
    (to_lower : Text → Text) (s s' : Progress) (o : Option (Text × Text))
    → field_of to_lower s o ≡ ok s'
    → (s'.section ≡ s.section)
      × ((s.section == codes "interface" && key_is_unsafe to_lower o) ≡ false)
field_of-section to_lower s s' none h = ground arith
field_of-section to_lower s s' (some (k, v)) h = ground (
  arith,
  h,
  set_field-unsafe s.section (to_lower k) v s.config,
  Parsed-cases (set_field s.section (to_lower k) v s.config),
)

-- A line that is accepted is no command, and the section is as the line says.
parse_line-section :
    (to_lower : Text → Text) (raw : Text) (s s' : Progress)
    → parse_line to_lower raw s ≡ ok s'
    → (s'.section ≡ section_after to_lower raw s.section)
      × (runs_command to_lower raw s.section ≡ false)
unfolding parse_line
parse_line-section to_lower raw s s' h =
    ground (arith, h, field_of-section to_lower s s' (split_kv (trim_space raw)))

parse_lines-safe :
    (to_lower : Text → Text) (ls : List Text) (s s' : Progress)
    → parse_lines to_lower ls s ≡ ok s'
    → any_command to_lower ls s.section ≡ false
unfolding parse_lines
parse_lines-safe to_lower [] s s' h = refl
parse_lines-safe to_lower (l ∷ ls) s s' h = elim (Parsed-cases (parse_line to_lower l s)) [
  | inl x ↦
      let p = parse_line-section to_lower l s x.0 x.1 in
      let rest =
        parse_lines-safe to_lower ls x.0 s'
          (sym (ap (λ v. and_then v (parse_lines to_lower ls)) x.1) ∙ h) in
      ground (arith, p, rest)
  | inr y ↦ ground (arith, y.1, h)
]

-- A text that is parsed has no line, in a section for the interface, that is a directive to run a
-- command.
pub parse-safe :
    (to_lower : Text → Text) (t : Text) (c : Config) (ls : List Text)
    → scan t ≡ some ls
    → parse to_lower t ≡ ok c
    → any_command to_lower ls [] ≡ false
unfolding parse
parse-safe to_lower t c ls e h =
    let start : Progress = record { section = []; config = empty_config } in
    elim (Parsed-cases (parse_lines to_lower ls start)) [
      | inl x ↦ parse_lines-safe to_lower ls start x.0 x.1
      | inr y ↦ ground (arith, e, y.1, h)
    ]
