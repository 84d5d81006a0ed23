-- ===== src/Catalog.antt =====
-- core/catalog/catalog.go: the managed profiles, their files and the metadata file. crypto/sha256,
-- strings.ToLower and the order of a map are parameters; the directory is given without a slash at
-- its end.
pub mod Country
pub mod FileName
pub mod Imports
pub mod Removed
pub mod Consistent
use mazzy_vpn.Base.{
  ℕ, Bool, true, false, not, ◌&&◌, ◌||◌, Option, none, some, List, [], ◌∷◌, ◌++◌, if◌then◌else◌,
  Text, codes, ◌==◌, ◌<=◌, is_some, any, keep, sort_by, length,
}
use mazzy_vpn.Base.Dict
use mazzy_vpn.Base.Dict.{Dict}
use mazzy_vpn.Protocols.{Protocol, amneziawg, wireguard, openvpn}
use mazzy_vpn.Verify.{equal_fold}
use mazzy_vpn.Profile.{Config, Problem, validate}
use mazzy_vpn.Profile.Parse.{Parsed, ok, err, parse}
use mazzy_vpn.Catalog.FileName.{ext, safe_name}
use mazzy_vpn.Catalog.Country.{Names, infer_country}

pub record Entry : Type 0 where
  pub name : Text
  pub file : Text
  pub protocol : Protocol
  pub favorite : Bool
  pub country : Text

-- The metadata file.
pub data Meta : Type 0 where
  absent unreadable corrupt : Meta
  holds : List Entry → Meta

-- The files by path, and the metadata file, which is none of them.
pub record Store : Type 0 where
  pub files : Dict Text
  pub metadata : Meta

pub record Catalog : Type 0 where
  pub dir : Text
  pub to_lower : Text → Text
  pub fingerprint : Text → Text
  pub country_order : Names

-- Which calls of one operation succeed, and what a failed write of the copy leaves of it.
pub record Calls : Type 0 where
  pub ensure_dir : Bool
  pub write_file : Bool
  pub torn : Option Text
  pub remove_file : Bool
  pub ensure_dir_again : Bool
  pub write_temp : Bool
  pub rename : Bool

pub data CatalogError : Type 0 where
  dir_failed read_failed parse_failed write_failed save_failed load_failed : CatalogError
  invalid : List Problem → CatalogError
  not_found exists : CatalogError
  identical_to : Text → CatalogError

abbrev pub has_amnezia : Parsed Config → Bool
has_amnezia (ok cfg) = cfg.has_amnezia_fields
has_amnezia (err _) = false

-- detectProtocol; the letters of ".ovpn" have no case variants but the ASCII ones, so that strings.EqualFold
-- is the ASCII comparison here.
unfoldable pub detect_protocol : Catalog → Text → Text → Protocol
unfolding ext equal_fold parse
detect_protocol c path content =
    if equal_fold (ext path) (codes ".ovpn")
    then openvpn
    else if has_amnezia (parse c.to_lower content)
    then amneziawg
    else wireguard

abbrev pub loaded : Meta → Option (List Entry)
loaded absent = some []
loaded unreadable = none
loaded corrupt = none
loaded (holds es) = some es

-- The method load.
unfoldable pub load : Store → Option (List Entry)
load s = loaded s.metadata

-- The method save.
unfoldable pub save : Calls → List Entry → Store → Store × Option CatalogError
save f es s =
    if not f.ensure_dir_again
    then (s, some dir_failed)
    else if not f.write_temp
    then (s, some save_failed)
    else if not f.rename
    then (s, some save_failed)
    else (record s { metadata = holds es }, none)

-- The three calls of save succeed.
abbrev pub saves : Calls → Bool
saves f = f.ensure_dir_again && f.write_temp && f.rename

-- The parse and the validation of a profile that is no .ovpn.
abbrev pub checked : Protocol → Parsed Config → Option CatalogError
checked proto (err e) = some parse_failed
checked proto (ok cfg) = elim (validate proto cfg) [ [] ↦ none | p ∷ ps ↦ some (invalid (p ∷ ps)) ]

unfoldable pub profile_error : Catalog → Protocol → Text → Option CatalogError
unfolding parse validate ◌==◌
profile_error c proto content =
    if proto == amneziawg || proto == wireguard
    then checked proto (parse c.to_lower content)
    else none

abbrev pub same_content : Catalog → Text → Option Text → Bool
same_content c content none = false
same_content c content (some d) = c.fingerprint d == c.fingerprint content

-- The first entry whose file has the content.
unfoldable pub find_identical : Catalog → Text → Dict Text → List Entry → Option Entry
find_identical c content files [] = none
find_identical c content files (e ∷ es) =
    let rest = find_identical c content files es in
    if same_content c content (Dict.get files e.file) then some e else rest

abbrev pub entries_or_none : Option (List Entry) → List Entry
entries_or_none none = []
entries_or_none (some es) = es

abbrev pub extension : Protocol → Text
extension proto = if proto == openvpn then codes ".ovpn" else codes ".conf"

unfoldable pub dest_of : Catalog → Protocol → Text → Text
unfolding safe_name ◌==◌
dest_of c proto path = c.dir ++ codes "/" ++ safe_name path ++ extension proto

unfoldable pub new_entry : Catalog → Protocol → Text → Entry
unfolding safe_name dest_of infer_country
new_entry c proto path = record {
  name = safe_name path;
  file = dest_of c proto path;
  protocol = proto;
  favorite = false;
  country = infer_country c.to_lower c.country_order (safe_name path);
}

-- The result of an import: the entry or why there is none.
pub data Imported : Type 0 where
  imported : Entry → Imported
  failed : CatalogError → Imported

abbrev pub recorded : Entry → Store × Option CatalogError → Store × Imported
recorded e (s, none) = (s, imported e)
recorded e (s, some x) = (s, failed x)

abbrev pub put_torn : Option Text → Text → Dict Text → Dict Text
put_torn none file files = files
put_torn (some part) file files = Dict.put files file part

-- The end of Import: the file and then the metadata.
unfoldable pub place : Calls → Entry → Text → List Entry → Store → Store × Imported
unfolding save
place f e content existing s =
    if Dict.has s.files e.file
    then (s, failed exists)
    else if not f.write_file
    then (record s { files = put_torn f.torn e.file s.files }, failed write_failed)
    else recorded e
        (save f (existing ++ e ∷ []) (record s { files = Dict.put s.files e.file content }))

abbrev pub unless_identical : Option Entry → Store → Store × Imported → Store × Imported
unless_identical none s next = next
unless_identical (some e) s next = (s, failed (identical_to e.name))

abbrev pub unless_error : Option CatalogError → Store → Store × Imported → Store × Imported
unless_error none s next = next
unless_error (some x) s next = (s, failed x)

abbrev pub import_content : Catalog → Calls → Text → Text → Store → Store × Imported
import_content c f path content s =
    let proto = detect_protocol c path content in
    let existing = entries_or_none (load s) in
    unless_error (profile_error c proto content) s (
      unless_identical (find_identical c content s.files existing) s
        (place f (new_entry c proto path) content existing s))

abbrev pub import_read : Catalog → Calls → Text → Option Text → Store → Store × Imported
import_read c f path none s = (s, failed read_failed)
import_read c f path (some content) s = import_content c f path content s

-- Import
unfoldable pub import : Catalog → Calls → Text → Store → Store × Imported
unfolding detect_protocol load profile_error find_identical place new_entry
import c f path s =
    if not f.ensure_dir
    then (s, failed dir_failed)
    else import_read c f path (Dict.get s.files path) s

-- The test of the sort in List.
abbrev pub is_before : Entry → Entry → Bool
is_before a b =
    if a.favorite
    then if b.favorite then not (b.name <= a.name) else true
    else if b.favorite
    then false
    else not (b.name <= a.name)

abbrev pub sorted : Option (List Entry) → Option (List Entry)
sorted none = none
sorted (some es) = some (sort_by is_before es)

-- List, where the order of entries that the test does not part is the stable one.
unfoldable pub list : Store → Option (List Entry)
unfolding load sort_by ◌<=◌
list s = sorted (load s)

unfoldable pub find_entry : Text → List Entry → Option Entry
unfolding ◌==◌
find_entry name [] = none
find_entry name (e ∷ es) = let rest = find_entry name es in if e.name == name then some e else rest

pub data Got : Type 0 where
  got : Entry → Got
  no_entry : CatalogError → Got

abbrev pub or_not_found : Option Entry → Got
or_not_found none = no_entry not_found
or_not_found (some e) = got e

abbrev pub get_loaded : Text → Option (List Entry) → Got
get_loaded name none = no_entry load_failed
get_loaded name (some es) = or_not_found (find_entry name es)

-- Get
unfoldable pub get : Text → Store → Got
unfolding load find_entry
get name s = get_loaded name (load s)

abbrev pub has_name : Text → Entry → Bool
has_name name e = e.name == name

-- os.Remove of the files of the entries that go, errors ignored.
unfoldable pub remove_files : Bool → Text → List Entry → Dict Text → Dict Text
remove_files works name [] files = files
remove_files works name (e ∷ es) files =
    remove_files works name es (if e.name == name && works then Dict.remove files e.file else files)

abbrev pub remove_loaded : Calls → Text → Store → Option (List Entry) → Store × Option CatalogError
remove_loaded f name s none = (s, some load_failed)
remove_loaded f name s (some es) =
    if not (any (has_name name) es)
    then (s, some not_found)
    else save f (keep (λ e. not (has_name name e)) es)
        (record s { files = remove_files f.remove_file name es s.files })

-- Remove
unfoldable pub remove : Calls → Text → Store → Store × Option CatalogError
unfolding load save remove_files any keep
remove f name s = remove_loaded f name s (load s)

unfoldable pub mark : Text → Bool → List Entry → List Entry
mark name fav [] = []
mark name fav (e ∷ es) =
    (if e.name == name then record e { favorite = fav } else e) ∷ mark name fav es

abbrev pub mark_loaded :
    Calls → Text → Bool → Store → Option (List Entry) → Store × Option CatalogError
mark_loaded f name fav s none = (s, some load_failed)
mark_loaded f name fav s (some es) =
    if not (any (has_name name) es) then (s, some not_found) else save f (mark name fav es) s

-- SetFavorite
unfoldable pub set_favorite : Calls → Text → Bool → Store → Store × Option CatalogError
unfolding load save mark any
set_favorite f name fav s = mark_loaded f name fav s (load s)

-- Count
unfoldable pub count : Store → ℕ
unfolding load
count s = length (entries_or_none (load s))
