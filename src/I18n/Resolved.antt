-- ===== src/I18n/Resolved.antt =====
-- Every locale resolves to a supported language, and a language's locales to it (core/i18n/i18n.go).
use mazzy_vpn.Base.{
  ◌≡◌, refl, Bool, true, false, some, List, [], ◌∷◌, ◌++◌, if◌then◌else◌, Text, codes, ◌==◌, ==_iff,
  trim_space, arith, Bool-cases, Option-cases, inl, inr, subst, All,
}
use mazzy_vpn.Base.Dict
use mazzy_vpn.Base.Dict.{Dict}
use mazzy_vpn.I18n.{
  Lang, native_names, default_lang, is_valid, aliases, before, normalize, resolve_candidates,
  resolve,
}

all_valid : Dict Lang → Bool
all_valid [] = true
all_valid ((a, l) ∷ d) = if is_valid l then all_valid d else false

aliases-valid : all_valid aliases ≡ true
unfolding all_valid aliases is_valid Dict.get ◌==◌
aliases-valid = refl

get-valid :
    (d : Dict Lang) (k l : Text) → all_valid d ≡ true → Dict.get d k ≡ some l → is_valid l ≡ true
unfolding all_valid Dict.get
get-valid [] k l h e = absurd (cc)
get-valid ((a, m) ∷ d) k l h e = elim (Bool-cases (a == k)) [
  | inl t ↦ let same : m ≡ l = ground arith in subst (λ x. is_valid x ≡ true) same (ground arith)
  | inr t ↦ get-valid d k l (ground arith) (ground arith)
]

normalize-valid :
    (to_lower : Text → Text) (raw l : Text) → normalize to_lower raw ≡ some l → is_valid l ≡ true
unfolding normalize
normalize-valid to_lower raw l h =
    let s =
      before (codes "-") (before (codes "_") (before (codes ".") (to_lower (trim_space raw)))) in
    get-valid aliases s l aliases-valid (ground arith)

default-valid : is_valid default_lang ≡ true
unfolding is_valid native_names Dict.get ◌==◌
default-valid = refl

candidates-valid :
    (to_lower : Text → Text) (cs : List Text) → is_valid (resolve_candidates to_lower cs) ≡ true
unfolding resolve_candidates
candidates-valid to_lower [] = default-valid
candidates-valid to_lower (c ∷ cs) = elim (Option-cases (normalize to_lower c)) [
  | inl n ↦ rw (n, resolve_candidates) (candidates-valid to_lower cs)
  | inr (l, s) ↦ rw (s, resolve_candidates) (normalize-valid to_lower c l s)
]

resolve-valid :
    (to_lower : Text → Text) (override : Text) (cs : List Text)
    → is_valid (resolve to_lower override cs) ≡ true
unfolding resolve
resolve-valid to_lower override cs = elim (Option-cases (normalize to_lower override)) [
  | inl n ↦ rw (n, resolve) (candidates-valid to_lower cs)
  | inr (l, s) ↦ rw (s, resolve) (normalize-valid to_lower override l s)
]

-- A code that the cuts leave, whatever region follows it, and that is an alias of itself.
abbrev IsCode : Text → Type 0
IsCode l =
    (rest : Text)
    → (before (codes "-") (before (codes "_") (before (codes ".") (l ++ codes "_" ++ rest))) ≡ l)
      × (Dict.get aliases l ≡ some l)
      × ((l == []) ≡ false)

of-has :
    (P : Text → Type 0) (d : Dict Text) (k : Text) → All P (Dict.keys d) → Dict.has d k ≡ true → P k
unfolding Dict.get Dict.keys
of-has P [] k h e = absurd (cc)
of-has P ((j, v) ∷ d) k h e = elim (Bool-cases (j == k)) [
  | inl t ↦ subst P ((==_iff j k).0 t) h.0
  | inr t ↦ of-has P d k h.1 (ground arith)
]

All-codes : All IsCode (Dict.keys native_names)
unfolding Dict.keys native_names before ◌==◌ aliases Dict.get
All-codes = (
  (λ rest. (refl, refl, refl)),
  (
    (λ rest. (refl, refl, refl)),
    (
      (λ rest. (refl, refl, refl)),
      (
        (λ rest. (refl, refl, refl)),
        ((λ rest. (refl, refl, refl)), ((λ rest. (refl, refl, refl)), tt)),
      ),
    ),
  ),
)

is_valid-IsCode : (l : Lang) → is_valid l ≡ true → IsCode l
unfolding is_valid
is_valid-IsCode l h = of-has IsCode native_names l All-codes h

normalize-locale :
    (to_lower : Text → Text) (l rest : Text)
    → is_valid l ≡ true
    → to_lower (trim_space (l ++ codes "_" ++ rest)) ≡ l ++ codes "_" ++ rest
    → normalize to_lower (l ++ codes "_" ++ rest) ≡ some l
unfolding normalize
normalize-locale to_lower l rest h e = let c = is_valid-IsCode l h rest in rw (e, c.0, c.2) c.1

-- Whatever the setting and the locales of the host are, the language is one of the six; and a setting
-- that is one of them with an underscore and any region and encoding behind it, and that trimming and
-- lowering leave as it is, gives that language.
pub resolve_exact :
    (to_lower : Text → Text) (other : Text) (cs : List Text) (l rest : Text)
    → is_valid l ≡ true
    → to_lower (trim_space (l ++ codes "_" ++ rest)) ≡ l ++ codes "_" ++ rest
    → (is_valid (resolve to_lower other cs) ≡ true)
      × (resolve to_lower (l ++ codes "_" ++ rest) cs ≡ l)
unfolding resolve
resolve_exact to_lower other cs l rest h e =
    (resolve-valid to_lower other cs, rw (normalize-locale to_lower l rest h e, resolve) refl)
