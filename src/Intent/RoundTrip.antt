-- ===== src/Intent/RoundTrip.antt =====
-- Read returns the intent that Write stored (core/state/state.go).
use mazzy_vpn.Base.{
  ℕ, ◌^◌, ◌≡◌, suc, inl, inr, refl, ap, sym, ◌∙◌, subst, Bool, true, false, ◌&&◌, none, some, List,
  [], ◌∷◌, ◌++◌, map, any, length, if◌then◌else◌, Text, codes, ◌==◌, ==_iff, leb, arith, ◌≤◌,
  append_assoc, All, ℤ, pos, negsuc, format_ℤ, format_ℕ, Option-cases,
}
use mazzy_vpn.Base.Dict
use mazzy_vpn.Base.Dict.{Dict}
use mazzy_vpn.Base.Decimal.RoundTrip.{
  is_int64, parse_int-format_ℤ, format_ℕ_lem, length-format_ℕ, is_number,
}
use mazzy_vpn.Boot.File.{
  absent, not_regular, regular, Disk, Faults, write_in_dir, write_in_dir_atomic,
}
use mazzy_vpn.Protocols.{Protocol, canonical_protocol, mode_test}
use mazzy_vpn.Protocols.Names.{canonical_cases}
use mazzy_vpn.Intent.{
  Intent, open_failed, base_name, or_normal, content, write, split_lines, drop_cr, max_token, scan,
  put_pair, pairs, value, loaded, failed, with_protocol, with_lines, read_text, read, set_on,
  set_desired,
}
use mazzy_vpn.Intent.Lines.{
  is_newline, drop_cr-cons, is_field, is_key, split_lines-line, field_line, base_name-not_empty,
  base_name-base_name,
}

abbrev Field : Type 0
Field = Text × Text

abbrev line : Field → Text
line (k, v) = k ++ b'=' ∷ v

abbrev print_fields : List Field → Text
print_fields [] = []
print_fields ((k, v) ∷ fs) = k ++ b'=' ∷ (v ++ b'\n' ∷ print_fields fs)

abbrev is_good : Field → Bool
is_good (k, v) = is_key k && leb (length k) 500 && is_field v

abbrev put_fields : List Field → Dict Text → Dict Text
put_fields [] d = d
put_fields ((k, v) ∷ fs) d = put_fields fs (Dict.put d k v)

split_lines-print_fields :
    (fs : List Field) → All (λ x. is_good x ≡ true) fs → split_lines (print_fields fs) ≡ map line fs
unfolding split_lines
split_lines-print_fields [] h = refl
split_lines-print_fields ((k, v) ∷ fs) h =
    let f = field_line k v (ground arith) (ground arith) in
    sym (ap split_lines (append_assoc k (b'=' ∷ v) (b'\n' ∷ print_fields fs)))
    ∙ split_lines-line (k ++ b'=' ∷ v) (print_fields fs) f.0
    ∙ ap (λ ls. (k ++ b'=' ∷ v) ∷ ls) (split_lines-print_fields fs h.1)

lines_good :
    (fs : List Field)
    → All (λ x. is_good x ≡ true) fs
    → (any (λ l. leb max_token (length l)) (map line fs) ≡ false)
      × (map drop_cr (map line fs) ≡ map line fs)
      × ((d : Dict Text) → pairs (map line fs) d ≡ put_fields fs d)
unfolding any pairs
lines_good [] h = (refl, refl, λ d. refl)
lines_good ((k, v) ∷ fs) h =
    let f = field_line k v (ground arith) (ground arith) in
    let ih = lines_good fs h.1 in
    (
      ground (arith, ih.0, f.2),
      ground (arith, ih.1, f.1),
      λ d. ap (λ c. pairs (map line fs) (put_pair d c)) f.3 ∙ ih.2 (Dict.put d k v),
    )

scan-print_fields :
    (fs : List Field) → All (λ x. is_good x ≡ true) fs → scan (print_fields fs) ≡ some (map line fs)
unfolding scan
scan-print_fields fs h =
    let g = lines_good fs h in rw (split_lines-print_fields fs h) (ground (arith, g.0, g.1))

read_text-print_fields :
    (fs : List Field)
    → All (λ x. is_good x ≡ true) fs
    → read_text (print_fields fs) ≡ (
        let kv = put_fields fs [] in
        with_protocol kv (canonical_protocol (value kv (codes "PROTOCOL"))))
unfolding read_text
read_text-print_fields fs h =
    let g = lines_good fs h in
    ap with_lines (scan-print_fields fs h)
    ∙ ap (λ kv. with_protocol kv (canonical_protocol (value kv (codes "PROTOCOL")))) (g.2 [])

abbrev fields : Intent → List Field
fields st =
    let mode = or_normal st.mode in
    (codes "PROTOCOL", st.protocol)
    ∷ (codes "PROFILE", base_name st.profile)
    ∷ (codes "DESIRED", st.desired)
    ∷ (codes "MODE", mode)
    ∷ (if mode == mode_test
        then (codes "TEST_TOKEN", st.test_token)
          ∷ (codes "TEST_DEADLINE", format_ℤ st.test_deadline)
          ∷ []
        else [])

-- What is stored of an intent: the base name of the profile, and the test fields in test mode only.
abbrev pub stored : Intent → Intent
stored st =
    let mode = or_normal st.mode in
    record {
      protocol = st.protocol;
      profile = base_name st.profile;
      desired = st.desired;
      mode = mode;
      test_token = if mode == mode_test then st.test_token else [];
      test_deadline = if mode == mode_test then st.test_deadline else pos 0;
    }

-- The protocol is a canonical name, each value can be a line, and the deadline is an int64.
abbrev pub IsStorable : Intent → Type 0
IsStorable st =
    (canonical_protocol st.protocol ≡ some st.protocol)
    × (is_field (base_name st.profile) ≡ true)
    × (is_field st.desired ≡ true)
    × (is_field st.mode ≡ true)
    × (is_field st.test_token ≡ true)
    × (is_int64 st.test_deadline ≡ true)

content-fields : (st : Intent) → content st ≡ print_fields (fields st)
unfolding content
content-fields st = ground arith

drop_cr-number : (t : Text) → is_number t ≡ true → drop_cr t ≡ t
unfolding drop_cr any
drop_cr-number [] h = refl
drop_cr-number (c ∷ []) h = ground arith
drop_cr-number (c ∷ d ∷ s) h = ap (λ t. c ∷ t) (drop_cr-number (d ∷ s) (ground arith))

pub newline-number : (t : Text) → is_number t ≡ true → any is_newline t ≡ false
unfolding any
newline-number [] h = refl
newline-number (c ∷ s) h = ground (arith, newline-number s)

number_field :
    (n : ℕ)
    → leb n (2 ^ 63) ≡ true
    → (drop_cr (format_ℕ n) ≡ format_ℕ n)
      × (any is_newline (format_ℕ n) ≡ false)
      × (length (format_ℕ n) ≤ 20)
number_field n h =
    let f = format_ℕ_lem n in
    (
      drop_cr-number (format_ℕ n) f.1,
      newline-number (format_ℕ n) f.1,
      length-format_ℕ 19 n (ground arith),
    )

deadline_field : (z : ℤ) → is_int64 z ≡ true → is_field (format_ℤ z) ≡ true
unfolding format_ℤ any drop_cr
deadline_field (pos n) h =
    ground (arith, number_field n (ground arith), ==_iff (drop_cr (format_ℕ n)) (format_ℕ n))
deadline_field (negsuc n) h =
    let f = number_field (suc n) h in
    let e = drop_cr-cons b'-' (format_ℕ (suc n)) refl f.0 in
    ground
      (arith, f.1, f.2, e, ==_iff (drop_cr (b'-' ∷ format_ℕ (suc n))) (b'-' ∷ format_ℕ (suc n)))

protocol_field : (p : Protocol) → canonical_protocol p ≡ some p → is_field p ≡ true
unfolding any drop_cr ◌==◌
protocol_field p h = elim (canonical_cases p p h) [
  | inl (inl e) ↦ subst (λ t. is_field t ≡ true) (sym e) refl
  | inl (inr e) ↦ subst (λ t. is_field t ≡ true) (sym e) refl
  | inr (inl e) ↦ subst (λ t. is_field t ≡ true) (sym e) refl
  | inr (inr e) ↦ subst (λ t. is_field t ≡ true) (sym e) refl
]

fields_good : (st : Intent) → IsStorable st → All (λ x. is_good x ≡ true) (fields st)
unfolding any drop_cr ◌==◌
fields_good st h =
    ground (arith, protocol_field st.protocol h.0, deadline_field st.test_deadline h.5)

-- What Write prints of a storable intent, Read takes for the stored form of it.
pub read_text-content : (st : Intent) → IsStorable st → read_text (content st) ≡ loaded (stored st)
unfolding Dict.put Dict.get ◌==◌
read_text-content st h = rw (content-fields st) (
    read_text-print_fields (fields st) (fields_good st h)
    ∙ ground (arith, h.0, base_name-not_empty st.profile, parse_int-format_ℤ st.test_deadline h.5))

write-ok :
    (f : Faults) (st : Intent) (d : Disk)
    → (write f st d).1 ≡ none
    → (write f st d).0.file ≡ regular (content st)
unfolding write
write-ok f st d h =
    ground
      (arith, write_in_dir_atomic f (content st) d, Option-cases (write_in_dir f (content st) d).1)

-- A storable intent that Write reports as written is what Read returns, in its stored form.
pub write-read :
    (f : Faults) (st : Intent) (d : Disk)
    → IsStorable st
    → (write f st d).1 ≡ none
    → read true (write f st d).0 ≡ loaded (stored st)
unfolding read
write-read f st d s h =
    subst
      (λ v.
        elim v [
          | absent ↦ failed open_failed
          | not_regular ↦ failed open_failed
          | regular t ↦ if true then read_text t else failed open_failed
        ]
        ≡ loaded (stored st))
      (sym (write-ok f st d h)) (read_text-content st s)

stored-stored :
    (st : Intent) (x : Text)
    → stored (record (stored st) { desired = x }) ≡ record (stored st) { desired = x }
unfolding ◌==◌
stored-stored st x = ground (arith, base_name-base_name st.profile)

stored-IsStorable :
    (st : Intent) (x : Text)
    → IsStorable st
    → is_field x ≡ true
    → IsStorable (record (stored st) { desired = x })
unfolding any drop_cr ◌==◌
stored-IsStorable st x h hx = ground (arith, h, hx, base_name-base_name st.profile)

-- SetDesired of a stored intent, when it reports no error, changes the desired state alone.
pub set_desired-read :
    (f : Faults) (st : Intent) (x : Text) (d : Disk)
    → IsStorable st
    → is_field x ≡ true
    → read true d ≡ loaded (stored st)
    → (set_desired true f x d).1 ≡ none
    → read true (set_desired true f x d).0 ≡ loaded (record (stored st) { desired = x })
unfolding set_desired
set_desired-read f st x d h hx r ok =
    let next : Intent = record (stored st) { desired = x } in
    let ok : (set_on f x d (loaded (stored st))).1 ≡ none =
      subst (λ v. (set_on f x d v).1 ≡ none) r ok in
    let written : (write f next d).1 ≡ none = ground (arith, ok, Option-cases (write f next d).1) in
    subst (λ v. read true (set_on f x d v).0 ≡ loaded next) (sym r)
      (write-read f next d (stored-IsStorable st x h hx) written ∙ ap loaded (stored-stored st x))
