-- ===== src/Examples/Catalogs.antt =====
-- Tests of the catalog, the settings and the DNS verdict (core/catalog, core/settings, core/dnscheck).
use mazzy_vpn.Base.{
  ℕ, zero, suc, nat_beq, ◌+◌, ◌≡◌, ◌==◌, ◌⊎◌, refl, Bool, true, false, not, Option, none, some, [],
  ◌∷◌, map, if◌then◌else◌, Text, codes, is_some,
}
use mazzy_vpn.Base.Dict
use mazzy_vpn.Verify.{lower}
use mazzy_vpn.Protocols.{openvpn}
use mazzy_vpn.Catalog
use mazzy_vpn.Catalog.{Entry, Store, holds, corrupt, import, imported, new_entry}
use mazzy_vpn.JsonFile
use mazzy_vpn.JsonFile.{Codec, Settings, load_settings, save_settings, default}
use mazzy_vpn.JsonFile.Kept.{IsFaithful, load_settings-save_settings}
use mazzy_vpn.DnsCheck
use mazzy_vpn.DnsCheck.{Analysis, is_unbound, is_abroad, leaking, clean, fair}
use mazzy_vpn.DnsCheck.Verdicts.{evaluate-verdict, warnings, one_if}

abbrev catalog : Catalog.Catalog
catalog = record {
  dir = codes "/m";
  to_lower = λ t. map lower t;
  fingerprint = λ t. t;
  country_order = [];
}

abbrev all_fine : Catalog.Calls
all_fine = record {
  ensure_dir = true;
  write_file = true;
  torn = none;
  remove_file = true;
  ensure_dir_again = true;
  write_temp = true;
  rename = true;
}

abbrev source : Text
source = codes "/d/Paris.ovpn"

abbrev content : Text
content = codes "client"

abbrev entry : Entry
entry = record {
  name = codes "Paris";
  file = codes "/m/Paris.ovpn";
  protocol = openvpn;
  favorite = false;
  country = [];
}

abbrev before : Store
before = record { files = (source, content) ∷ []; metadata = holds [] }

abbrev after : Store
after = record {
  files = (codes "/m/Paris.ovpn", content) ∷ (source, content) ∷ [];
  metadata = holds (entry ∷ []);
}

imports_it : import catalog all_fine source before ≡ (after, imported entry)
unfolding import Dict.get Dict.put
imports_it = refl

-- Metadata that could not be read is replaced.
loses_entries :
    Catalog.load (import catalog all_fine source (record before { metadata = corrupt })).0
    ≡ some (entry ∷ [])
unfolding import Dict.get Dict.put Catalog.load
loses_entries = refl

-- A codec of the settings: the switches as numbers, the texts with each code raised by one and a zero at
-- the end.
abbrev bit : Bool → ℕ
bit b = if b then 1 else 0

abbrev is_set : ℕ → Bool
is_set n = nat_beq n 1

abbrev put_text : Text → Text → Text
put_text [] rest = 0 ∷ rest
put_text (c ∷ s) rest = suc c ∷ put_text s rest

abbrev take_text : Text → Text × Text
take_text [] = ([], [])
take_text (zero ∷ rest) = ([], rest)
take_text (suc c ∷ rest) = let r = take_text rest in (c ∷ r.0, r.1)

take_text-put_text : (s rest : Text) → take_text (put_text s rest) ≡ (s, rest)
take_text-put_text [] rest = refl
take_text-put_text (c ∷ s) rest = rw (take_text-put_text s rest) refl

abbrev encoded : Settings → Text
encoded s =
    bit s.auto_connect
    ∷ bit s.auto_diagnostics
    ∷ bit s.notifications
    ∷ bit s.auto_reconnect
    ∷ bit s.kill_switch
    ∷ bit s.auto_mimic
    ∷ put_text s.preferred_zone (put_text s.preferred_uplink (put_text s.language []))

abbrev with_texts : Bool → Bool → Bool → Bool → Bool → Bool → Text × Text → Settings
with_texts a b c d e f (zone, rest) =
    let uplink = take_text rest in
    record {
      auto_connect = a;
      auto_diagnostics = b;
      notifications = c;
      auto_reconnect = d;
      preferred_zone = zone;
      preferred_uplink = uplink.0;
      kill_switch = e;
      auto_mimic = f;
      language = (take_text uplink.1).0;
    }

abbrev decoded : Text → Option Settings
decoded (a ∷ b ∷ c ∷ d ∷ e ∷ f ∷ rest) =
    some (
      with_texts (is_set a) (is_set b) (is_set c) (is_set d) (is_set e) (is_set f) (take_text rest))
decoded _ = none

is_set-bit : (b : Bool) → is_set (bit b) ≡ b
is_set-bit true = refl
is_set-bit false = refl

decoded-encoded : (s : Settings) → decoded (encoded s) ≡ some s
decoded-encoded s =
    rw
      (
        is_set-bit s.auto_connect,
        is_set-bit s.auto_diagnostics,
        is_set-bit s.notifications,
        is_set-bit s.auto_reconnect,
        is_set-bit s.kill_switch,
        is_set-bit s.auto_mimic,
        take_text-put_text s.preferred_zone (put_text s.preferred_uplink (put_text s.language [])),
        take_text-put_text s.preferred_uplink (put_text s.language []),
        take_text-put_text s.language [],
      )
      refl

abbrev codec : Codec Settings
codec = record { encode = λ s. some (encoded s); decode = decoded; leaves = λ t. default }

codec-IsFaithful : IsFaithful codec
codec-IsFaithful s t e = let q = decoded-encoded s in cc

abbrev no_rename : JsonFile.Calls
no_rename = record { mkdir = true; write = true; torn = none; rename = false }

abbrev empty_disk : JsonFile.Disk
empty_disk = record { file = none; temp = none }

load_settings-save_settings_example :
    let r = save_settings codec no_rename (record default { auto_mimic = true }) empty_disk in
    ((is_some r.1 ≡ true) × (load_settings codec true r.0 ≡ load_settings codec true empty_disk))
    ⊎ ((r.1 ≡ none) × (load_settings codec true r.0 ≡ record default { auto_mimic = true }))
load_settings-save_settings_example =
    load_settings-save_settings codec codec-IsFaithful (λ s. refl) no_rename
      (record default { auto_mimic = true }) empty_disk

abbrev abroad : Analysis
abroad = record {
  egress_country = codes "FR";
  dns_country = codes "US";
  encrypted = true;
  interface = codes "vpn-wg";
  resolvers = codes "192.0.2.53" ∷ [];
}

abbrev same_case : Text → Text → Bool
same_case a b = a == b

evaluate-verdict_example :
    let r = DnsCheck.evaluate same_case abroad in
    (r.verdict ≡ (if is_unbound abroad then leaking else if abroad.encrypted then clean else fair))
    × (DnsCheck.is_healthy r.findings ≡ not (is_unbound abroad))
    × (warnings r.findings ≡ (
        if is_unbound abroad
        then 0
        else one_if (is_abroad same_case abroad) + one_if (not abroad.encrypted)))
evaluate-verdict_example = evaluate-verdict same_case abroad
