-- ===== src/ZoneScore/Order.antt =====
-- Ranking of core/zonescore/zonescore.go keeps every zone and puts none before a better one.
use mazzy_vpn.Base.{
  ◌≡◌, refl, ap, sym, ◌∙◌, subst, Bool, true, false, List, [], ◌∷◌, map, keep, length, Text, ℤ,
  sort_by, HeadLeast-sort_by, All-sort_by, length-keep-sort_by, arith, All, Option-cases, HeadLeast,
}
use mazzy_vpn.Base.Dict
use mazzy_vpn.ZoneScore.{Cache, Ranked, rank_zone, rank, is_before}

length-keep-map :
    {A B : Type 0} (p : B → Bool) (f : A → B) (xs : List A)
    → length (keep p (map f xs)) ≡ length (keep (λ x. p (f x)) xs)
unfolding keep
length-keep-map p f [] = refl
length-keep-map p f (x ∷ xs) = ground (arith, length-keep-map p f xs)

keep_names :
    (c : Cache) (ttl now : ℤ) (p : Text → Bool) (zs : List Text)
    → length (keep (λ z. p (rank_zone c ttl now z).name) zs) ≡ length (keep p zs)
unfolding keep rank_zone
keep_names c ttl now p [] = refl
keep_names c ttl now p (z ∷ zs) =
    ground (arith, keep_names c ttl now p zs, Option-cases (Dict.get c z))

-- Rank neither drops a zone nor repeats one.
pub rank-keeps :
    (c : Cache) (ttl now : ℤ) (p : Text → Bool) (zones : List Text)
    → length (keep p (rank c ttl now zones)) ≡ length (keep p zones)
unfolding rank
rank-keeps c ttl now p zones =
    let entries = map (rank_zone c ttl now) zones in
    let named = λ (r : Ranked). p r.name in
    length-keep-map p (λ (r : Ranked). r.name) (sort_by is_before entries)
    ∙ length-keep-sort_by named is_before entries
    ∙ length-keep-map named (rank_zone c ttl now) zones
    ∙ keep_names c ttl now p zones

irreflexive : (a : Ranked) → is_before a a ≡ false
irreflexive a = ground arith

asymmetric : (a b : Ranked) → is_before a b ≡ true → is_before b a ≡ false
asymmetric a b h = ground arith

transitive :
    (a b c : Ranked) → is_before a b ≡ false → is_before b c ≡ false → is_before a c ≡ false
transitive a b c h k = ground arith

abbrev IsUnbeaten : (Text → Ranked) → Ranked → List Text → Type 0
IsUnbeaten f y zs = All (λ z. is_before (f z) y ≡ false) zs

IsUnbeaten-map :
    (f : Text → Ranked) (y : Ranked) (zs : List Text)
    → All (λ r. is_before r y ≡ false) (map f zs)
    → IsUnbeaten f y zs
IsUnbeaten-map f y [] h = tt
IsUnbeaten-map f y (z ∷ zs) h = (h.0, IsUnbeaten-map f y zs h.1)

rank_zone-name : (c : Cache) (ttl now : ℤ) (z : Text) → (rank_zone c ttl now z).name ≡ z
unfolding rank_zone
rank_zone-name c ttl now z = ground (arith, Option-cases (Dict.get c z))

-- The entries of a ranking are those of its zones.
module _ (c : Cache) (ttl now : ℤ) where
  abbrev IsEntry : Ranked → Type 0
  IsEntry r = rank_zone c ttl now r.name ≡ r

  All-IsEntry : (zs : List Text) → All IsEntry (map (rank_zone c ttl now) zs)
  All-IsEntry [] = tt
  All-IsEntry (z ∷ zs) = (ap (rank_zone c ttl now) (rank_zone-name c ttl now z), All-IsEntry zs)

  best_head :
      (zones : List Text) (s : List Ranked) (z : Text) (rest : List Text)
      → HeadLeast is_before s (map (rank_zone c ttl now) zones)
      → All IsEntry s
      → map (λ (r : Ranked). r.name) s ≡ z ∷ rest
      → IsUnbeaten (rank_zone c ttl now) (rank_zone c ttl now z) zones
  best_head zones [] z rest h e m = absurd (ground (arith, m))
  best_head zones (y ∷ ys) z rest h e m =
      let named : y.name ≡ z = ground (arith, m) in
      let same : y ≡ rank_zone c ttl now z = sym e.0 ∙ ap (rank_zone c ttl now) named in
      subst (λ v. IsUnbeaten (rank_zone c ttl now) v zones) same
        (IsUnbeaten-map (rank_zone c ttl now) y zones h)

-- No zone comes before the first of a ranking: none that has a fresh score if that one has none, and
-- none whose egress is cleaner by its fresh score.
pub rank-head :
    (c : Cache) (ttl now : ℤ) (zones : List Text) (z : Text) (rest : List Text)
    → rank c ttl now zones ≡ z ∷ rest
    → All (λ w. is_before (rank_zone c ttl now w) (rank_zone c ttl now z) ≡ false) zones
unfolding rank
rank-head c ttl now zones z rest h =
    let es = map (rank_zone c ttl now) zones in
    best_head c ttl now zones (sort_by is_before es) z rest
      (HeadLeast-sort_by is_before irreflexive asymmetric transitive es)
      (All-sort_by (IsEntry c ttl now) is_before es (All-IsEntry c ttl now zones)) h
