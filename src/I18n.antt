-- ===== src/I18n.antt =====
-- core/i18n/i18n.go: which language a locale asks for. strings.ToLower is a parameter.
pub mod Resolved
use mazzy_vpn.Base.{
  Bool, true, false, ◌||◌, Option, none, some, List, [], ◌∷◌, if◌then◌else◌, Text, codes, ◌==◌,
  nat_beq, trim_space, is_some,
}
use mazzy_vpn.Base.Dict
use mazzy_vpn.Base.Dict.{Dict}

-- A language code, as text.
abbrev pub Lang : Type 0
Lang = Text

unfoldable pub native_names : Dict Text
native_names =
    (codes "ru", codes "Русский")
    ∷ (codes "en", codes "English")
    ∷ (codes "de", codes "Deutsch")
    ∷ (codes "zh", codes "中文")
    ∷ (codes "ja", codes "日本語")
    ∷ (codes "ko", codes "한국어")
    ∷ []

abbrev pub default_lang : Lang
default_lang = codes "en"

abbrev pub name_or_code : Lang → Option Text → Text
name_or_code l none = l
name_or_code l (some n) = n

-- The method NativeName.
unfoldable pub native_name : Lang → Text
unfolding native_names
native_name l = name_or_code l (Dict.get native_names l)

-- The method Valid.
unfoldable pub is_valid : Lang → Bool
unfolding native_names
is_valid l = Dict.has native_names l

unfoldable pub aliases : Dict Lang
aliases =
    (codes "ru", codes "ru")
    ∷ (codes "rus", codes "ru")
    ∷ (codes "russian", codes "ru")
    ∷ (codes "русский", codes "ru")
    ∷ (codes "en", codes "en")
    ∷ (codes "eng", codes "en")
    ∷ (codes "english", codes "en")
    ∷ (codes "de", codes "de")
    ∷ (codes "deu", codes "de")
    ∷ (codes "ger", codes "de")
    ∷ (codes "german", codes "de")
    ∷ (codes "germany", codes "de")
    ∷ (codes "deutsch", codes "de")
    ∷ (codes "zh", codes "zh")
    ∷ (codes "zho", codes "zh")
    ∷ (codes "chi", codes "zh")
    ∷ (codes "chinese", codes "zh")
    ∷ (codes "china", codes "zh")
    ∷ (codes "中文", codes "zh")
    ∷ (codes "ja", codes "ja")
    ∷ (codes "jpn", codes "ja")
    ∷ (codes "japanese", codes "ja")
    ∷ (codes "japan", codes "ja")
    ∷ (codes "日本語", codes "ja")
    ∷ (codes "ko", codes "ko")
    ∷ (codes "kor", codes "ko")
    ∷ (codes "korean", codes "ko")
    ∷ (codes "korea", codes "ko")
    ∷ (codes "한국어", codes "ko")
    ∷ []

-- What stands before the first `c`, or all of it.
unfoldable pub before : Text → Text → Text
before c [] = []
before c (x ∷ s) = let rest = before c s in if (x ∷ []) == c then [] else x ∷ rest

-- Normalize; none is its answer that the input maps to nothing.
unfoldable pub normalize : (Text → Text) → Text → Option Lang
unfolding trim_space before aliases
normalize to_lower raw =
    let s =
      before (codes "-") (before (codes "_") (before (codes ".") (to_lower (trim_space raw)))) in
    if s == [] then none else Dict.get aliases s

unfoldable pub resolve_candidates : (Text → Text) → List Text → Lang
unfolding normalize
resolve_candidates to_lower [] = default_lang
resolve_candidates to_lower (c ∷ cs) = elim (normalize to_lower c) [
  | some l ↦ l
  | none ↦ resolve_candidates to_lower cs
]

-- Resolve
unfoldable pub resolve : (Text → Text) → Text → List Text → Lang
unfolding normalize resolve_candidates
resolve to_lower override candidates = elim (normalize to_lower override) [
  | some l ↦ l
  | none ↦ resolve_candidates to_lower candidates
]
