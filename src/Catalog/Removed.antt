-- ===== src/Catalog/Removed.antt =====
-- Removals and marks keep the catalog consistent where the metadata is saved (core/catalog/catalog.go).
use mazzy_vpn.Base.{
  ◌≡◌, ◌≢◌, refl, ◌∙◌, Bool, true, false, not, ◌&&◌, Option, none, some, List, [], ◌∷◌, Text, ◌==◌,
  ==_iff, arith, All, All-map, All-zip, All-keep, Bool-cases, inl, inr, keep, any, is_some, ap, sym,
}
use mazzy_vpn.Base.Dict
use mazzy_vpn.Base.Dict.{Dict, get-remove}
use mazzy_vpn.Catalog.{
  Entry, holds, Store, Catalog, Calls, load, save, import, has_name, remove_files, remove_loaded,
  remove, mark, mark_loaded, set_favorite, saves,
}
use mazzy_vpn.Catalog.Consistent.{HasFile, IsOther, AreDistinct, IsConsistent, save-IsConsistent}

-- No entry that goes has the file.
abbrev IsClear : Text → List Entry → Text → Type 0
IsClear name es k = All (λ e. has_name name e ≡ true → e.file ≢ k) es

get-remove_files :
    (works : Bool) (name k : Text) (es : List Entry) (files : Dict Text)
    → IsClear name es k
    → Dict.get (remove_files works name es files) k ≡ Dict.get files k
unfolding remove_files
get-remove_files works name k [] files h = refl
get-remove_files works name k (e ∷ es) files h = elim (Bool-cases (has_name name e && works)) [
  | inl goes ↦ rw goes (
      get-remove_files works name k es (Dict.remove files e.file) h.1
      ∙ ground (arith, get-remove files e.file k, ==_iff e.file k, h.0))
  | inr stays ↦ rw stays (get-remove_files works name k es files h.1)
]

abbrev StaysClear : Text → List Entry → Entry → Type 0
StaysClear name es x = has_name name x ≡ false → IsClear name es x.file

IsClear-head :
    (name : Text) (e : Entry) (es : List Entry)
    → has_name name e ≡ false
    → All (IsOther e) es
    → IsClear name (e ∷ es) e.file
IsClear-head name e es stays d = (
  λ goes. absurd (let q = sym goes ∙ stays in cc),
  All-map (IsOther e) (λ x. has_name name x ≡ true → x.file ≢ e.file) (λ x o _. o) es d,
)

clear-tail :
    (name : Text) (e x : Entry) (es : List Entry)
    → IsOther e x
    → StaysClear name es x
    → StaysClear name (e ∷ es) x
clear-tail name e x es o c stays = ((λ _ same. o (sym same)), c stays)

All-clear : (name : Text) (es : List Entry) → AreDistinct es → All (StaysClear name es) es
All-clear name [] d = tt
All-clear name (e ∷ es) d = (
  λ stays. IsClear-head name e es stays d.0,
  All-zip (IsOther e) (StaysClear name es) (StaysClear name (e ∷ es))
      (λ x o c. clear-tail name e x es o c) es d.0 (All-clear name es d.1),
)

AreDistinct-keep : (p : Entry → Bool) (es : List Entry) → AreDistinct es → AreDistinct (keep p es)
unfolding keep
AreDistinct-keep p [] d = tt
AreDistinct-keep p (e ∷ es) d = elim (Bool-cases (p e)) [
  | inl kept ↦ rw kept (
    All-keep (IsOther e) p es
        (All-map (IsOther e) (λ x. p x ≡ true → IsOther e x) (λ x o _. o) es d.0),
    AreDistinct-keep p es d.1,
  )
  | inr gone ↦ rw gone (AreDistinct-keep p es d.1)
]

kept-HasFile :
    (works : Bool) (name : Text) (es : List Entry) (files : Dict Text)
    → All (HasFile files) es
    → AreDistinct es
    → All (HasFile (remove_files works name es files)) (keep (λ e. not (has_name name e)) es)
kept-HasFile works name es files h d =
    All-keep (HasFile (remove_files works name es files)) (λ e. not (has_name name e)) es
      (All-zip (HasFile files) (StaysClear name es)
        (λ x. not (has_name name x) ≡ true → HasFile (remove_files works name es files) x)
        (λ x has clear stays.
          ap is_some (get-remove_files works name x.file es files (clear (ground arith))) ∙ has)
        es h (All-clear name es d))

saved :
    (f : Calls) (es : List Entry) (s : Store)
    → saves f ≡ true
    → (save f es s).0 ≡ record s { metadata = holds es }
unfolding save
saved f es s h = ground arith

remove_loaded-IsConsistent :
    (f : Calls) (name : Text) (s : Store) (o : Option (List Entry))
    → load s ≡ o
    → saves f ≡ true
    → IsConsistent s
    → IsConsistent (remove_loaded f name s o).0
remove_loaded-IsConsistent f name s none e w h = h
remove_loaded-IsConsistent f name s (some es) e w h = elim (Bool-cases (any (has_name name) es)) [
  | inl there ↦ rw there (
      rw
        (saved f (keep (λ x. not (has_name name x)) es)
          (record s { files = remove_files f.remove_file name es s.files }) w)
        (unfold load in
          (
            kept-HasFile f.remove_file name es s.files (found h).0 (found h).1,
            AreDistinct-keep (λ x. not (has_name name x)) es (found h).1,
          )))
  | inr missing ↦ rw missing h
]
  where
    found : IsConsistent s → All (HasFile s.files) es × AreDistinct es
    found k = rw e at k

pub remove-IsConsistent :
    (f : Calls) (name : Text) (s : Store)
    → saves f ≡ true
    → IsConsistent s
    → IsConsistent (remove f name s).0
unfolding remove
remove-IsConsistent f name s w h = remove_loaded-IsConsistent f name s (load s) refl w h

-- A mark leaves names and files as they are.
mark-All :
    (P : Text → Type 0) (name : Text) (fav : Bool) (es : List Entry)
    → All (λ e. P e.file) es
    → All (λ e. P e.file) (mark name fav es)
unfolding mark
mark-All P name fav [] h = tt
mark-All P name fav (e ∷ es) h = elim (Bool-cases (e.name == name)) [
  | inl t ↦ rw t (h.0, mark-All P name fav es h.1)
  | inr t ↦ rw t (h.0, mark-All P name fav es h.1)
]

mark-AreDistinct :
    (name : Text) (fav : Bool) (es : List Entry) → AreDistinct es → AreDistinct (mark name fav es)
unfolding mark
mark-AreDistinct name fav [] d = tt
mark-AreDistinct name fav (e ∷ es) d = elim (Bool-cases (e.name == name)) [
  | inl t ↦ rw t (mark-All (λ k. k ≢ e.file) name fav es d.0, mark-AreDistinct name fav es d.1)
  | inr t ↦ rw t (mark-All (λ k. k ≢ e.file) name fav es d.0, mark-AreDistinct name fav es d.1)
]

mark_loaded-IsConsistent :
    (f : Calls) (name : Text) (fav : Bool) (s : Store) (o : Option (List Entry))
    → load s ≡ o
    → IsConsistent s
    → IsConsistent (mark_loaded f name fav s o).0
mark_loaded-IsConsistent f name fav s none e h = h
mark_loaded-IsConsistent f name fav s (some es) e h = elim (Bool-cases (any (has_name name) es)) [
  | inl there ↦ rw there (save-IsConsistent f (mark name fav es) s h (marked (rw e at h)))
  | inr missing ↦ rw missing h
]
  where
    marked :
        All (HasFile s.files) es × AreDistinct es
        → All (HasFile s.files) (mark name fav es) × AreDistinct (mark name fav es)
    marked k = (
      mark-All (λ p. Dict.has s.files p ≡ true) name fav es k.0,
      mark-AreDistinct name fav es k.1,
    )

pub set_favorite-IsConsistent :
    (f : Calls) (name : Text) (fav : Bool) (s : Store)
    → IsConsistent s
    → IsConsistent (set_favorite f name fav s).0
unfolding set_favorite
set_favorite-IsConsistent f name fav s h = mark_loaded-IsConsistent f name fav s (load s) refl h

-- What a user does, with the calls that succeed in it.
pub data Op : Type 0 where
  imports : Calls → Text → Op
  removes : Calls → Text → Op
  marks : Calls → Text → Bool → Op

unfoldable pub run_op : Catalog → Op → Store → Store
run_op c (imports f path) s = (import c f path s).0
run_op c (removes f name) s = (remove f name s).0
run_op c (marks f name fav) s = (set_favorite f name fav s).0

unfoldable pub run_ops : Catalog → List Op → Store → Store
unfolding run_op
run_ops c [] s = s
run_ops c (op ∷ ops) s = run_ops c ops (run_op c op s)

abbrev pub IsSaved : Op → Type 0
IsSaved (removes f name) = saves f ≡ true
IsSaved _ = Unit
