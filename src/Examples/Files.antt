-- ===== src/Examples/Files.antt =====
-- Tests of core/bootrecovery, core/state, core/livetest and core/profile.
use mazzy_vpn.Base.{
  ℕ, Option, ◌≡◌, ◌⊎◌, refl, true, false, none, some, List, [], ◌∷◌, Text, codes, ◌==◌, pos,
  has_prefix, has_suffix, any, subst, sym, is_some, trim_space, map,
}
use mazzy_vpn.Protocols.{
  Protocol, canonical_protocol, wireguard, desired_up, desired_down, mode_test, l2tp,
}
use mazzy_vpn.Boot.File.{Disk, regular, absent, Faults, write_in_dir, write_in_dir-old_or_new}
use mazzy_vpn.Boot.Gate
use mazzy_vpn.Boot.Gate.{
  running, ready, awaiting_egress, mutation_allowed, service_gate, service_exit_code, is_ready,
  serves, exit_code,
}
use mazzy_vpn.Boot.Safety.{Attempt, attempts, IsBlocked, gates-write, attempts-IsBlocked}
use mazzy_vpn.Intent
use mazzy_vpn.Intent.{Intent, loaded, base_name, set_desired, set_on, scan, split_lines, drop_cr}
use mazzy_vpn.Intent.RoundTrip.{stored, IsStorable, write-read}
use mazzy_vpn.Intent.Lines.{is_field}
use mazzy_vpn.Verify.{lower}
use mazzy_vpn.LiveTest
use mazzy_vpn.LiveTest.{Tester, Answers, candidate, passed_outcome, outcome, backup_of}
use mazzy_vpn.LiveTest.Transaction.{run_exact, active, left_up, restored, is_rolled_back}
use mazzy_vpn.Profile.{Config}
use mazzy_vpn.Profile.Uapi.{written, to_uapi_with_mark}
use mazzy_vpn.Profile.Values.{text_of}
use mazzy_vpn.Profile.Rendered.{settings}
use mazzy_vpn.Profile.Engine.{to_uapi_with_mark-parse}
use mazzy_vpn.Profile.Parse.{parse, ok, empty_config}
use mazzy_vpn.Profile.Safety.{any_command, parse-safe}

abbrev all_fine : Faults
all_fine = record {
  mkdir = true;
  chmod_dir = true;
  create_temp = true;
  chmod_temp = true;
  write = true;
  torn = [];
  sync = true;
  close = true;
  remove = true;
  rename = true;
  open_dir = true;
  sync_dir = true;
}

abbrev no_sync : Faults
no_sync = record all_fine { sync = false; torn = codes "u" }

abbrev fresh : Disk
fresh = record { file = absent; temps = [] }

write_in_dir-old_or_new_example :
    let r = write_in_dir no_sync (codes "up") fresh in
    ((r.0.file ≡ regular (codes "up")) ⊎ ((r.0.file ≡ absent) × (is_some r.1 ≡ true)))
    × ((r.0.temps ≡ []) ⊎ ((true ≡ false) × (t : Text) × (r.0.temps ≡ t ∷ [])))
write_in_dir-old_or_new_example = write_in_dir-old_or_new no_sync (codes "up") fresh

fresh-IsBlocked : IsBlocked fresh
unfolding mutation_allowed Gate.read
fresh-IsBlocked readable = refl

abbrev recorded : List Attempt
recorded = (all_fine, running) ∷ (no_sync, awaiting_egress) ∷ []

attempts-IsBlocked_example : IsBlocked (attempts recorded fresh)
attempts-IsBlocked_example = attempts-IsBlocked recorded fresh (refl, (refl, tt)) fresh-IsBlocked

ready-written : (Gate.write all_fine ready fresh).1 ≡ none
unfolding Gate.write write_in_dir
ready-written = refl

gates-write_example :
    let d = (Gate.write all_fine ready fresh).0 in
    (Gate.read true d ≡ ready)
    × (mutation_allowed true true d ≡ is_ready ready)
    × (service_gate true true d ≡ serves ready)
    × (service_exit_code true d ≡ exit_code ready)
gates-write_example = gates-write all_fine ready fresh ready-written

abbrev home : Intent
home = record {
  protocol = wireguard;
  profile = codes "home.conf";
  desired = desired_up;
  mode = mode_test;
  test_token = codes "t";
  test_deadline = pos 99;
}

home-IsStorable : IsStorable home
unfolding canonical_protocol base_name drop_cr any ◌==◌
home-IsStorable = (refl, refl, refl, refl, refl, refl)

home-written : (Intent.write all_fine home fresh).1 ≡ none
unfolding Intent.write ◌==◌ write_in_dir
home-written = refl

abbrev home_disk : Disk
home_disk = (Intent.write all_fine home fresh).0

write-read_example : Intent.read true home_disk ≡ loaded (stored home)
write-read_example = write-read all_fine home fresh home-IsStorable home-written

down-field : is_field desired_down ≡ true
unfolding drop_cr any ◌==◌
down-field = refl

home-read : Intent.read true home_disk ≡ loaded (stored home)
home-read = write-read all_fine home fresh home-IsStorable home-written

set-on : (set_on all_fine desired_down home_disk (loaded (stored home))).1 ≡ none
unfolding Intent.write base_name ◌==◌ write_in_dir any
set-on = refl

set-down : (set_desired true all_fine desired_down home_disk).1 ≡ none
unfolding set_desired
set-down = subst (λ v. (set_on all_fine desired_down home_disk v).1 ≡ none) (sym home-read) set-on

abbrev complete : Tester
complete = record { has_store = true; has_connector = true; has_verifier = true }

abbrev leaking : Answers
leaking = record {
  readable = true;
  up_error = none;
  down_works = true;
  up_again_works = true;
  verified = false;
  verify_reason = codes "leak";
  deadline_after_up = false;
  deadline_after_verify = true;
  commit = all_fine;
  restore = all_fine;
  write_error_text = λ e. codes "io";
}

abbrev home_up : Option (Protocol × Text)
home_up = some (l2tp, codes "home.conf")

run_exact_example :
    let r = LiveTest.run complete leaking l2tp (codes "new.conf") home_disk in
    let w = Intent.write all_fine (candidate l2tp (codes "new.conf")) home_disk in
    let backup = backup_of (Intent.read true home_disk) in
    ((false ≡ true)
      × (w.1 ≡ none)
      × (r.end ≡ outcome passed_outcome)
      × (active r.calls home_up ≡ some (l2tp, codes "new.conf"))
      × (r.disk ≡ w.0))
    ⊎ ((false ≡ false)
        × (is_rolled_back r.end ≡ true)
        × (active r.calls home_up ≡ left_up leaking backup l2tp (codes "new.conf") home_up)
        × (r.disk ≡ restored leaking backup home_disk))
run_exact_example = run_exact complete leaking l2tp (codes "new.conf") home_disk home_up refl

abbrev plain : Text
plain = codes "[Interface]\nPrivateKey = k\n"

plain-scanned : scan plain ≡ some (codes "[Interface]" ∷ codes "PrivateKey = k" ∷ [])
unfolding scan any
plain-scanned = refl

abbrev to_lower : Text → Text
to_lower t = map lower t

plain-parsed : parse to_lower plain ≡ ok (record empty_config { private_key = codes "k" })
unfolding parse scan any trim_space has_prefix has_suffix ◌==◌
plain-parsed = refl

parse-safe_example :
    any_command to_lower (codes "[Interface]" ∷ codes "PrivateKey = k" ∷ []) [] ≡ false
parse-safe_example =
    parse-safe to_lower plain (record empty_config { private_key = codes "k" })
      (codes "[Interface]" ∷ codes "PrivateKey = k" ∷ []) plain-scanned plain-parsed

abbrev zeros : Text → Option (List ℕ)
zeros t = some (map (λ c. 0) (codes "01234567890123456789012345678901"))

abbrev with_peer : Text
with_peer =
    codes
      "[Interface]\nPrivateKey = k\n[Peer]\nPublicKey = p\nEndpoint = h:1\nAllowedIPs = 0.0.0.0/0\n"

abbrev tunnelled : Config
tunnelled = record empty_config {
  private_key = codes "k";
  peers =
      record {
        public_key = codes "p";
        preshared_key = [];
        endpoint = codes "h:1";
        allowed_ips = codes "0.0.0.0/0" ∷ [];
        persistent_keepalive = pos 0;
      }
      ∷ [];
}

tunnelled-parsed : parse to_lower with_peer ≡ ok tunnelled
unfolding parse scan any trim_space has_prefix has_suffix ◌==◌
tunnelled-parsed = refl

abbrev for_engine : Text
for_engine = text_of (to_uapi_with_mark zeros wireguard tunnelled 51820)

for_engine-written : to_uapi_with_mark zeros wireguard tunnelled 51820 ≡ written for_engine
unfolding to_uapi_with_mark
for_engine-written = refl

to_uapi_with_mark-parse_example : split_lines for_engine ≡ settings zeros wireguard tunnelled 51820
to_uapi_with_mark-parse_example =
    to_uapi_with_mark-parse to_lower zeros with_peer tunnelled wireguard 51820 for_engine
      tunnelled-parsed for_engine-written
