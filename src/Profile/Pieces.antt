-- ===== src/Profile/Pieces.antt =====
-- The pieces that the parser of core/profile/config.go cuts out of a text have no newline.
use mazzy_vpn.Base.{
  ℕ, ◌≡◌, refl, ◌∙◌, false, Option, none, some, List, [], ◌∷◌, Text, ◌==◌, nat_beq, any, any-append,
  All, arith, Bool-cases, inl, inr, trim_space, trim_left,
}
use mathlib.Core.List.{reverse, reverse-cons}
use mazzy_vpn.Intent.{split_lines, push, cons_key, drop_cr, cut}
use mazzy_vpn.Intent.Lines.{is_newline}
use mazzy_vpn.Profile.Lines.{IsClean}
use mazzy_vpn.Profile.Parse.{split_kv, split_comma, trim_parts, split_list, trim_pair, cons_part}

pub split_lines-IsClean : (t : Text) → All IsClean (split_lines t)
unfolding split_lines any
split_lines-IsClean [] = tt
split_lines-IsClean (c ∷ t) = elim (Bool-cases (nat_beq c b'\n')) [
  | inl e ↦ rw e (refl, split_lines-IsClean t)
  | inr e ↦ rw e (pushed c (split_lines t) e (split_lines-IsClean t))
]
  where
    pushed :
        (c : ℕ) (ls : List Text)
        → nat_beq c b'\n' ≡ false
        → All IsClean ls
        → All IsClean (push c ls)
    pushed c [] e h = (rw e refl, tt)
    pushed c (l ∷ ls) e h = (rw (e, h.0) refl, h.1)

pub drop_cr-IsClean : (t : Text) → IsClean t → IsClean (drop_cr t)
unfolding drop_cr any
drop_cr-IsClean [] h = refl
drop_cr-IsClean (c ∷ []) h = ground arith
drop_cr-IsClean (c ∷ d ∷ t) h = ground (arith, drop_cr-IsClean (d ∷ t))

pub trim_left-IsClean : (t : Text) → IsClean t → IsClean (trim_left t)
unfolding trim_left any
trim_left-IsClean [] h = refl
trim_left-IsClean (c ∷ t) h = ground (arith, trim_left-IsClean t)

pub reverse-IsClean : (t : Text) → IsClean t → IsClean (reverse t)
unfolding any
reverse-IsClean [] h = refl
reverse-IsClean (c ∷ t) h =
    rw (reverse-cons c t)
      (any-append is_newline (reverse t) (c ∷ []) ∙ ground (arith, reverse-IsClean t))

pub trim_space-IsClean : (t : Text) → IsClean t → IsClean (trim_space t)
unfolding trim_space
trim_space-IsClean t h = reverse-IsClean (trim_left (reverse (trim_left t))) (
    trim_left-IsClean (reverse (trim_left t))
      (reverse-IsClean (trim_left t) (trim_left-IsClean t h)))

-- The value of a pair is clean.
abbrev pub IsCleanPair : Option (Text × Text) → Type 0
IsCleanPair none = Unit
IsCleanPair (some (k, v)) = IsClean v

pub cons_key-IsCleanPair :
    (c : ℕ) (o : Option (Text × Text)) → IsCleanPair o → IsCleanPair (cons_key c o)
cons_key-IsCleanPair c none h = tt
cons_key-IsCleanPair c (some (k, v)) h = h

pub cut-IsCleanPair : (t : Text) → IsClean t → IsCleanPair (cut t)
unfolding cut any
cut-IsCleanPair [] h = tt
cut-IsCleanPair (c ∷ t) h = elim (Bool-cases (nat_beq c b'=')) [
  | inl e ↦ rw e (ground arith)
  | inr e ↦ rw e (cons_key-IsCleanPair c (cut t) (cut-IsCleanPair t (ground arith)))
]

pub trim_pair-IsCleanPair : (o : Option (Text × Text)) → IsCleanPair o → IsCleanPair (trim_pair o)
trim_pair-IsCleanPair none h = tt
trim_pair-IsCleanPair (some (k, v)) h = trim_space-IsClean v h

pub split_kv-IsCleanPair : (t : Text) → IsClean t → IsCleanPair (split_kv t)
unfolding split_kv
split_kv-IsCleanPair t h = trim_pair-IsCleanPair (cut t) (cut-IsCleanPair t h)

pub cons_part-IsClean :
    (c : ℕ) (ps : List Text) → is_newline c ≡ false → All IsClean ps → All IsClean (cons_part c ps)
unfolding any
cons_part-IsClean c [] e h = (rw e refl, tt)
cons_part-IsClean c (p ∷ ps) e h = (rw (e, h.0) refl, h.1)

pub split_comma-IsClean : (t : Text) → IsClean t → All IsClean (split_comma t)
unfolding split_comma any
split_comma-IsClean [] h = (refl, tt)
split_comma-IsClean (c ∷ t) h =
    let rest = split_comma-IsClean t (ground arith) in
    elim (Bool-cases (nat_beq c b',')) [
      | inl e ↦ rw e (refl, rest)
      | inr e ↦ rw e (cons_part-IsClean c (split_comma t) (ground arith) rest)
    ]

pub trim_parts-IsClean : (ps : List Text) → All IsClean ps → All IsClean (trim_parts ps)
unfolding trim_parts
trim_parts-IsClean [] h = tt
trim_parts-IsClean (p ∷ ps) h = elim (Bool-cases (trim_space p == [])) [
  | inl e ↦ rw e (trim_parts-IsClean ps h.1)
  | inr e ↦ rw e (trim_space-IsClean p h.0, trim_parts-IsClean ps h.1)
]

pub split_list-IsClean : (t : Text) → IsClean t → All IsClean (split_list t)
unfolding split_list
split_list-IsClean t h = trim_parts-IsClean (split_comma t) (split_comma-IsClean t h)
