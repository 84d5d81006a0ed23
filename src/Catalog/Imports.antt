-- ===== src/Catalog/Imports.antt =====
-- What an import keeps, and what a failed removal leaves
-- (core/catalog/catalog.go).
use mazzy_vpn.Base.{
  ◌≡◌, refl, Bool, true, false, not, ◌&&◌, Option, none, some, List, [], ◌∷◌, ◌++◌, if◌then◌else◌,
  Text, ==_iff, arith, All, Bool-cases, inl, inr, keep, any,
}
use mazzy_vpn.Base.Dict
use mazzy_vpn.Base.Dict.{Dict, get-remove}
use mazzy_vpn.Catalog.{
  Entry, Store, Catalog, Calls, load, save, entries_or_none, has_name, remove_files, remove,
  Imported, imported, failed, saves,
}

-- What the metadata lists after an import, given what it listed before.
abbrev pub listed : Option (List Entry) → Imported → Option (List Entry)
listed o (imported e) = some (entries_or_none o ++ e ∷ [])
listed o (failed _) = o

-- The metadata is as above, and the file k still has the content t.
abbrev Keeps : Store → Text → Text → Store × Imported → Type 0
Keeps s k t r = (load r.0 ≡ listed (load s) r.1) × (Dict.get r.0.files k ≡ some t)

gone-stays :
    (works : Bool) (name k : Text) (es : List Entry) (files : Dict Text)
    → Dict.get files k ≡ none
    → Dict.get (remove_files works name es files) k ≡ none
unfolding remove_files
gone-stays works name k [] files h = h
gone-stays works name k (e ∷ es) files h = elim (Bool-cases (has_name name e && works)) [
  | inl goes ↦ rw goes (
      gone-stays works name k es (Dict.remove files e.file)
        (ground (arith, get-remove files e.file k)))
  | inr stays ↦ rw stays (gone-stays works name k es files h)
]

-- The entries of a name whose files are gone.
abbrev pub AreGone : Text → Dict Text → List Entry → Type 0
AreGone name files es = All (λ e. (has_name name e && Dict.has files e.file) ≡ false) es

first-gone :
    (name : Text) (e : Entry) (es : List Entry) (files : Dict Text)
    → (has_name name e && Dict.has (remove_files true name (e ∷ es) files) e.file) ≡ false
unfolding remove_files
first-gone name e es files = elim (Bool-cases (has_name name e)) [
  | inl named ↦
      rw
        (
          named,
          gone-stays true name e.file es (Dict.remove files e.file)
              (ground (arith, get-remove files e.file e.file, ==_iff e.file e.file)),
        )
        refl
  | inr other ↦ rw other refl
]

all-gone :
    (name : Text) (es : List Entry) (files : Dict Text)
    → AreGone name (remove_files true name es files) es
unfolding remove_files
all-gone name [] files = tt
all-gone name (e ∷ es) files = (
  first-gone name e es files,
  all-gone name es (if has_name name e && true then Dict.remove files e.file else files),
)

unsaved : (f : Calls) (es : List Entry) (s : Store) → saves f ≡ false → (save f es s).0 ≡ s
unfolding save
unsaved f es s h = ground arith

removed-unsaved :
    (f : Calls) (name : Text) (s : Store) (es : List Entry)
    → load s ≡ some es
    → any (has_name name) es ≡ true
    → f.remove_file ≡ true
    → saves f ≡ false
    → (remove f name s).0 ≡ record s { files = remove_files true name es s.files }
unfolding remove
removed-unsaved f name s es e there works fails =
    rw (e, there, works)
      (unsaved f (keep (λ x. not (has_name name x)) es)
        (record s { files = remove_files true name es s.files }) fails)

-- Where a removal cannot save the metadata, its entries stay listed while their files are gone.
pub remove-dangling :
    (f : Calls) (name : Text) (s : Store) (es : List Entry)
    → load s ≡ some es
    → any (has_name name) es ≡ true
    → f.remove_file ≡ true
    → saves f ≡ false
    → let s' = (remove f name s).0 in (load s' ≡ some es) × AreGone name s'.files es
remove-dangling f name s es e there works fails =
    rw (removed-unsaved f name s es e there works fails)
      (unfold load in e, all-gone name es s.files)
