-- ===== src/Catalog/Country.antt =====
-- core/catalog/country.go: the country that a profile's name shows.
use mazzy_vpn.Base.{
  ℕ, ◌≤◌, ◌≡◌, ◌⊎◌, inl, inr, refl, Bool, true, false, ◌&&◌, ◌||◌, List, [], ◌∷◌, if◌then◌else◌,
  Text, codes, has_prefix, length, ltb, All, arith, ap,
}

-- strings.Contains
unfoldable pub has_substring : Text → Text → Bool
unfolding has_prefix
has_substring [] t = has_prefix [] t
has_substring (c ∷ s) t = has_prefix (c ∷ s) t || has_substring s t

abbrev pub Names : Type 0
Names = List (Text × Text)

unfoldable pub country_names : Names
country_names =
    (codes "austria", codes "AT")
    ∷ (codes "belgium", codes "BE")
    ∷ (codes "bulgaria", codes "BG")
    ∷ (codes "canada", codes "CA")
    ∷ (codes "chile", codes "CL")
    ∷ (codes "croatia", codes "HR")
    ∷ (codes "czech", codes "CZ")
    ∷ (codes "denmark", codes "DK")
    ∷ (codes "estonia", codes "EE")
    ∷ (codes "finland", codes "FI")
    ∷ (codes "france", codes "FR")
    ∷ (codes "germany", codes "DE")
    ∷ (codes "greece", codes "GR")
    ∷ (codes "hungary", codes "HU")
    ∷ (codes "iceland", codes "IS")
    ∷ (codes "ireland", codes "IE")
    ∷ (codes "italy", codes "IT")
    ∷ (codes "japan", codes "JP")
    ∷ (codes "latvia", codes "LV")
    ∷ (codes "lithuania", codes "LT")
    ∷ (codes "luxembourg", codes "LU")
    ∷ (codes "netherlands", codes "NL")
    ∷ (codes "norway", codes "NO")
    ∷ (codes "poland", codes "PL")
    ∷ (codes "portugal", codes "PT")
    ∷ (codes "romania", codes "RO")
    ∷ (codes "serbia", codes "RS")
    ∷ (codes "singapore", codes "SG")
    ∷ (codes "slovakia", codes "SK")
    ∷ (codes "slovenia", codes "SI")
    ∷ (codes "spain", codes "ES")
    ∷ (codes "sweden", codes "SE")
    ∷ (codes "switzerland", codes "CH")
    ∷ (codes "turkey", codes "TR")
    ∷ (codes "ukraine", codes "UA")
    ∷ (codes "usa", codes "US")
    ∷ (codes "unitedstates", codes "US")
    ∷ (codes "unitedkingdom", codes "GB")
    ∷ (codes "britain", codes "GB")
    ∷ (codes "england", codes "GB")
    ∷ (codes "australia", codes "AU")
    ∷ (codes "brazil", codes "BR")
    ∷ (codes "mexico", codes "MX")
    ∷ (codes "india", codes "IN")
    ∷ (codes "southkorea", codes "KR")
    ∷ (codes "korea", codes "KR")
    ∷ (codes "hongkong", codes "HK")
    ∷ (codes "taiwan", codes "TW")
    ∷ (codes "moldova", codes "MD")
    ∷ (codes "cyprus", codes "CY")
    ∷ (codes "malta", codes "MT")
    ∷ []

-- What the loop has found: a code and the length of its fragment.
pub record Found : Type 0 where
  pub best : Text
  pub best_len : ℕ

abbrev pub better : Text → Text × Text → Found → Bool
better name (frag, code) r = has_substring name frag && ltb r.best_len (length frag)

-- One round of the loop.
abbrev pub consider : Text → Text × Text → Found → Found
consider name (frag, code) r =
    if better name (frag, code) r then record { best = code; best_len = length frag } else r

-- The loop, in the order in which Go visits the map.
unfoldable pub longest : Names → Text → Found → Found
unfolding has_substring
longest [] name r = r
longest (e ∷ es) name r = longest es name (consider name e r)

-- inferCountry; the order of the map is that of `names`.
unfoldable pub infer_country : (Text → Text) → Names → Text → Text
unfolding longest
infer_country to_lower names name =
    (longest names (to_lower name) (record { best = []; best_len = 0 })).best

-- The result is what stood there before or an entry of the names that occurs, and is as long as it says.
abbrev pub IsEntry : Names → Text → Found → Type 0
IsEntry [] name r = ⊥
IsEntry ((frag, code) ∷ es) name r =
    ((has_substring name frag ≡ true) × (r.best ≡ code) × (r.best_len ≡ length frag))
    ⊎ IsEntry es name r

abbrev pub IsBound : Text → ℕ → Text × Text → Type 0
IsBound name n (frag, code) = (has_substring name frag && ltb n (length frag)) ≡ false

longest-le :
    (names : Names) (name : Text) (r : Found) → r.best_len ≤ (longest names name r).best_len
unfolding longest
longest-le [] name r = omega arith
longest-le ((frag, code) ∷ es) name r =
    ground (arith, longest-le es name (consider name (frag, code) r))

-- Of the fragments that occur in the name none is longer than the one whose code is found, in whatever
-- order they are visited.
abbrev pub IsLongest : Names → Text → Found → Found → Type 0
IsLongest names name r r' =
    All (IsBound name r'.best_len) names × ((r' ≡ r) ⊎ IsEntry names name r')

longest-taken :
    (es : Names) (name frag code : Text) (r : Found)
    → better name (frag, code) r ≡ true
    → let r' = longest es name (record { best = code; best_len = length frag }) in
      IsLongest es name (record { best = code; best_len = length frag }) r'
      → IsLongest ((frag, code) ∷ es) name r r'
longest-taken es name frag code r b h =
    let start : Found = record { best = code; best_len = length frag } in
    let le = longest-le es name start in
    (
      (ground (arith, le), h.0),
      elim h.1 [
        | inl same ↦ inr (
            inl
              (ground arith, ap (λ (f : Found). f.best) same, ap (λ (f : Found). f.best_len) same))
        | inr later ↦ inr (inr later)
      ],
    )

longest-passed :
    (es : Names) (name frag code : Text) (r : Found)
    → better name (frag, code) r ≡ false
    → IsLongest es name r (longest es name r)
    → IsLongest ((frag, code) ∷ es) name r (longest es name r)
longest-passed es name frag code r b h =
    let le = longest-le es name r in
    ((ground (arith, le), h.0), elim h.1 [ inl same ↦ inl same | inr later ↦ inr (inr later) ])

longest-step :
    (es : Names) (name frag code : Text) (r : Found) (b : Bool)
    → better name (frag, code) r ≡ b
    → let r' : Found = if b then record { best = code; best_len = length frag } else r in
      IsLongest es name r' (longest es name r')
      → IsLongest ((frag, code) ∷ es) name r (longest es name r')
longest-step es name frag code r true e h = longest-taken es name frag code r e h
longest-step es name frag code r false e h = longest-passed es name frag code r e h

longest-lem :
    (names : Names) (name : Text) (r : Found) → IsLongest names name r (longest names name r)
unfolding longest
longest-lem [] name r = (tt, inl refl)
longest-lem ((frag, code) ∷ es) name r =
    longest-step es name frag code r (better name (frag, code) r) refl
      (longest-lem es name (consider name (frag, code) r))

-- The loop's result before the first round.
abbrev pub nothing : Found
nothing = record { best = []; best_len = 0 }

-- In whatever order the map is visited, the code that is inferred is that of a fragment which occurs in
-- the lowered name and than which no other that occurs there is longer; or it is empty, and then no
-- fragment occurs but an empty one.
pub infer_country-longest :
    (to_lower : Text → Text) (order : Names) (name : Text)
    → let r = longest order (to_lower name) nothing in
      (infer_country to_lower order name ≡ r.best) × IsLongest order (to_lower name) nothing r
unfolding infer_country
infer_country-longest to_lower order name = (refl, longest-lem order (to_lower name) nothing)
