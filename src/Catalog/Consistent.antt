-- ===== src/Catalog/Consistent.antt =====
-- Every entry of the catalog has a file of its own (core/catalog/catalog.go).
use mazzy_vpn.Base.{
  ◌≡◌, ◌≢◌, refl, true, false, Option, none, some, List, [], ◌∷◌, ◌++◌, Text, ==_iff, arith, All,
  All-append, Bool-cases, inl, inr, ap, sym,
}
use mazzy_vpn.Base.Dict
use mazzy_vpn.Base.Dict.{Dict, get-put, get-remove}
use mazzy_vpn.Catalog.{
  Entry, Store, Catalog, Calls, CatalogError, loaded, load, save, entries_or_none, Imported,
  recorded, place, put_torn, unless_identical, unless_error, import_read, import, new_entry,
  detect_protocol, profile_error, find_identical,
}

abbrev pub HasFile : Dict Text → Entry → Type 0
HasFile files e = Dict.has files e.file ≡ true

abbrev pub IsOther : Entry → Entry → Type 0
IsOther e x = x.file ≢ e.file

abbrev pub AreDistinct : List Entry → Type 0
AreDistinct [] = Unit
AreDistinct (e ∷ es) = All (IsOther e) es × AreDistinct es

-- The entries of the metadata file have their files, and no two the same one.
abbrev pub IsConsistent : Store → Type 0
IsConsistent s = let es = entries_or_none (load s) in All (HasFile s.files) es × AreDistinct es

HasFile-put :
    (files : Dict Text) (k v : Text) (es : List Entry)
    → All (HasFile files) es
    → All (HasFile (Dict.put files k v)) es
HasFile-put files k v [] h = tt
HasFile-put files k v (e ∷ es) h =
    (ground (arith, get-put files k v e.file, h.0), HasFile-put files k v es h.1)

clash :
    (files : Dict Text) (a b : Text) → Dict.has files a ≡ true → Dict.has files b ≡ false → a ≢ b
clash files a b h n same = let q = ap (λ k. Dict.has files k) same in cc

-- A path with no file is that of no entry.
others :
    (files : Dict Text) (x : Entry) (es : List Entry)
    → Dict.has files x.file ≡ false
    → All (HasFile files) es
    → All (λ e. IsOther e x) es
others files x [] n h = tt
others files x (e ∷ es) n h =
    ((λ same. clash files e.file x.file h.0 n (sym same)), others files x es n h.1)

AreDistinct-append :
    (x : Entry) (es : List Entry)
    → All (λ e. IsOther e x) es
    → AreDistinct es
    → AreDistinct (es ++ x ∷ [])
AreDistinct-append x [] o d = (tt, tt)
AreDistinct-append x (e ∷ es) o d =
    (All-append (IsOther e) es (x ∷ []) d.0 (o.0, tt), AreDistinct-append x es o.1 d.1)

put-IsConsistent :
    (s : Store) (k v : Text)
    → IsConsistent s
    → IsConsistent (record s { files = Dict.put s.files k v })
unfolding load
put-IsConsistent s k v h = (HasFile-put s.files k v (entries_or_none (loaded s.metadata)) h.0, h.1)

torn-IsConsistent :
    (s : Store) (o : Option Text) (k : Text)
    → IsConsistent s
    → IsConsistent (record s { files = put_torn o k s.files })
torn-IsConsistent s none k h = h
torn-IsConsistent s (some part) k h = put-IsConsistent s k part h

-- What save writes, or what stood there.
pub save-IsConsistent :
    (f : Calls) (es : List Entry) (s : Store)
    → IsConsistent s
    → All (HasFile s.files) es × AreDistinct es
    → IsConsistent (save f es s).0
unfolding save load
save-IsConsistent f es s h k = ground arith

recorded-0 : (e : Entry) (r : Store × Option CatalogError) → (recorded e r).0 ≡ r.0
recorded-0 e (s, none) = refl
recorded-0 e (s, some x) = refl

HasFile-self : (files : Dict Text) (e : Entry) (v : Text) → HasFile (Dict.put files e.file v) e
HasFile-self files e v = ground (arith, get-put files e.file v e.file, ==_iff e.file e.file)

place-saved :
    (f : Calls) (e : Entry) (content : Text) (s : Store)
    → Dict.has s.files e.file ≡ false
    → IsConsistent s
    → let placed : Store = record s { files = Dict.put s.files e.file content } in
      IsConsistent (recorded e (save f (entries_or_none (load s) ++ e ∷ []) placed)).0
place-saved f e content s new h =
    let placed : Store = record s { files = Dict.put s.files e.file content } in
    let es = entries_or_none (load s) in
    let files' = Dict.put s.files e.file content in
    rw (recorded-0 e (save f (es ++ e ∷ []) placed)) (
      save-IsConsistent f (es ++ e ∷ []) placed (put-IsConsistent s e.file content h) (
        All-append (HasFile files') es (e ∷ []) (HasFile-put s.files e.file content es h.0)
            (HasFile-self s.files e content, tt),
        AreDistinct-append e es (others s.files e es new h.0) h.1,
      ))

place-IsConsistent :
    (f : Calls) (e : Entry) (content : Text) (s : Store)
    → IsConsistent s
    → IsConsistent (place f e content (entries_or_none (load s)) s).0
unfolding place
place-IsConsistent f e content s h = elim (Bool-cases (Dict.has s.files e.file)) [
  | inl there ↦ rw there h
  | inr new ↦ elim (Bool-cases f.write_file) [
    | inl works ↦ rw (new, works) (place-saved f e content s new h)
    | inr fails ↦ rw (new, fails) (torn-IsConsistent s f.torn e.file h)
  ]
]

unless_identical-IsConsistent :
    (o : Option Entry) (s : Store) (next : Store × Imported)
    → IsConsistent s
    → IsConsistent next.0
    → IsConsistent (unless_identical o s next).0
unless_identical-IsConsistent none s next h k = k
unless_identical-IsConsistent (some e) s next h k = h

unless_error-IsConsistent :
    (o : Option CatalogError) (s : Store) (next : Store × Imported)
    → IsConsistent s
    → IsConsistent next.0
    → IsConsistent (unless_error o s next).0
unless_error-IsConsistent none s next h k = k
unless_error-IsConsistent (some e) s next h k = h

read-IsConsistent :
    (c : Catalog) (f : Calls) (path : Text) (o : Option Text) (s : Store)
    → IsConsistent s
    → IsConsistent (import_read c f path o s).0
read-IsConsistent c f path none s h = h
read-IsConsistent c f path (some content) s h =
    let e = new_entry c (detect_protocol c path content) path in
    let existing = entries_or_none (load s) in
    let placed = place-IsConsistent f e content s h in
    unless_error-IsConsistent (profile_error c (detect_protocol c path content) content) s
      (unless_identical (find_identical c content s.files existing) s
        (place f e content existing s))
      h
      (unless_identical-IsConsistent (find_identical c content s.files existing) s
        (place f e content existing s) h placed)

pub import-IsConsistent :
    (c : Catalog) (f : Calls) (path : Text) (s : Store)
    → IsConsistent s
    → IsConsistent (import c f path s).0
unfolding import
import-IsConsistent c f path s h = elim (Bool-cases f.ensure_dir) [
  | inl works ↦ rw works (read-IsConsistent c f path (Dict.get s.files path) s h)
  | inr fails ↦ rw fails h
]
