-- ===== src/JsonFile.antt =====
-- The small JSON files that are written by temp file and rename with no fsync: the settings
-- (core/settings/settings.go), the zone scores (core/zonescore/zonescore.go), and the intent, identity and
-- trust files of the CLI (mazzy-vpn-cli/cmd/mazzy-vpn/desired.go, control_cmd.go). encoding/json is the
-- parameter `Codec`.
pub mod Kept
use mazzy_vpn.Base.{
  ℕ, Bool, true, false, not, ◌&&◌, Option, none, some, List, [], ◌∷◌, ◌++◌, if◌then◌else◌, Text,
  codes, ◌==◌, ◌<=◌, ℤ, is_some, any, sort_by, map, nat_beq, length,
}
use mazzy_vpn.Base.Dict
use mazzy_vpn.Base.Dict.{Dict}
use mazzy_vpn.Control.Identity.{Crypto, verify_id, public_key_size}
use mazzy_vpn.ZoneScore.{Score, Cache, record_score}

-- json.MarshalIndent and json.Unmarshal for one type, where none is an error; and what Unmarshal leaves
-- in an empty variable, with an error or without.
pub record Codec (A : Type 0) : Type 0 where
  pub encode : A → Option Text
  pub decode : Text → Option A
  pub leaves : Text → A

-- The file and the temporary file beside it.
pub record Disk : Type 0 where
  pub file : Option Text
  pub temp : Option Text

-- Which calls succeed, and what a failed write leaves in the temporary file.
pub record Calls : Type 0 where
  pub mkdir : Bool
  pub write : Bool
  pub torn : Option Text
  pub rename : Bool

pub data SaveError : Type 0 where
  mkdir_failed encode_failed write_failed rename_failed : SaveError

abbrev pub or_old : Option Text → Option Text → Option Text
or_old none old = old
or_old (some t) old = some t

abbrev pub put_text : Calls → Option Text → Disk → Disk × Option SaveError
put_text c none d = (d, some encode_failed)
put_text c (some content) d =
    if not c.write
    then (record d { temp = or_old c.torn d.temp }, some write_failed)
    else if not c.rename
    then (record d { temp = some content }, some rename_failed)
    else (record { file = some content; temp = none }, none)

module _ {A : Type 0} (codec : Codec A) where
  -- writeJSONAtomic, and the same calls in the other files.
  unfoldable pub save : Calls → A → Disk → Disk × Option SaveError
  save c x d = if not c.mkdir then (d, some mkdir_failed) else put_text c (codec.encode x) d

  abbrev pub decoded : Option Text → Option A
  decoded none = none
  decoded (some t) = codec.decode t

  -- What a reader gets; `readable` says whether the file can be read.
  unfoldable pub load : Bool → Disk → Option A
  load readable d = if readable then decoded d.file else none

pub record Settings : Type 0 where
  pub auto_connect : Bool
  pub auto_diagnostics : Bool
  pub notifications : Bool
  pub auto_reconnect : Bool
  pub preferred_zone : Text
  pub preferred_uplink : Text
  pub kill_switch : Bool
  pub auto_mimic : Bool
  pub language : Text

-- Default
abbrev pub default : Settings
default = record {
  auto_connect = false;
  auto_diagnostics = true;
  notifications = true;
  auto_reconnect = true;
  preferred_zone = [];
  preferred_uplink = [];
  kill_switch = true;
  auto_mimic = false;
  language = [];
}

abbrev pub or_default : Option Settings → Settings
or_default none = default
or_default (some s) = s

-- The method Load of the settings.
unfoldable pub load_settings : Codec Settings → Bool → Disk → Settings
unfolding load
load_settings codec readable d = or_default (load codec readable d)

-- The method Save of the settings.
unfoldable pub save_settings : Codec Settings → Calls → Settings → Disk → Disk × Option SaveError
unfolding save
save_settings codec c s d = save codec c s d

-- The intent file of the menu.
pub record DesiredIntent : Type 0 where
  pub zone : Text
  pub desired : Text
  pub ts : ℤ

-- writeDesired; `now` is time.Now().Unix().
unfoldable pub write_desired :
    Codec DesiredIntent → Calls → Text → Text → ℤ → Disk → Disk × Option SaveError
unfolding save
write_desired codec c zone desired now d =
    save codec c (record { zone = zone; desired = desired; ts = now }) d

-- readDesired
unfoldable pub read_desired : Codec DesiredIntent → Bool → Disk → Option DesiredIntent
unfolding load
read_desired codec readable d = load codec readable d

pub record TrustRecord : Type 0 where
  pub id : Text
  pub pub_key : Text

-- The records that Unmarshal leaves, its error ignored; none if the file cannot be read.
abbrev pub records_in : Codec (List TrustRecord) → Option Text → List TrustRecord
records_in codec none = []
records_in codec (some t) = codec.leaves t

unfoldable pub trust_records : Codec (List TrustRecord) → Bool → Disk → List TrustRecord
trust_records codec readable d = if readable then records_in codec d.file else []

abbrev pub is_proper : Crypto → Text → Option Text → Bool
is_proper crypto id none = false
is_proper crypto id (some key) = nat_beq (length key) public_key_size && verify_id crypto id key

-- controlPair: the exit code and the trust file. `decode_key` is the decoding of base64.
unfoldable pub control_pair :
    Crypto
    → (Text → Option Text)
    → Codec (List TrustRecord)
    → Bool
    → Calls
    → Text
    → Text
    → Disk
    → ℕ × Disk
unfolding save trust_records any ◌==◌ verify_id
control_pair crypto decode_key codec readable c id pub_b64 d =
    let recs = trust_records codec readable d in
    let r = save codec c (recs ++ record { id = id; pub_key = pub_b64 } ∷ []) d in
    if not (is_proper crypto id (decode_key pub_b64))
    then (1, d)
    else if any (λ (x : TrustRecord). x.id == id) recs
    then (0, d)
    else ((if is_some r.1 then 1 else 0), r.0)

-- The test of the sort in the method save of the scores.
abbrev pub is_before : Score → Score → Bool
is_before a b = not (b.zone <= a.zone)

unfoldable pub scores : Cache → List Score
scores [] = []
scores ((z, s) ∷ c) = s ∷ scores c

-- The list of the scores in the file, in the order of their zones.
unfoldable pub score_list : Cache → List Score
unfolding scores sort_by ◌<=◌
score_list c = sort_by is_before (scores c)

unfoldable pub put_scores : List Score → Cache → Cache
put_scores [] c = c
put_scores (s ∷ rest) c = put_scores rest (Dict.put c s.zone s)

abbrev pub decoded_list : Option (List Score) → List Score
decoded_list none = []
decoded_list (some xs) = xs

-- The method load of the scores, for a cache that is not loaded yet.
unfoldable pub load_scores : Codec (List Score) → Bool → Disk → Cache
unfolding load put_scores
load_scores codec readable d = put_scores (decoded_list (load codec readable d)) []

-- The method Record.
unfoldable pub record_and_save :
    Codec (List Score) → Calls → Score → ℤ → Cache → Disk → Cache × Disk × Option SaveError
unfolding save score_list record_score
record_and_save codec c s now cache d =
    let cache' = record_score cache s now in
    let r = save codec c (score_list cache') d in (cache', r.0, r.1)
