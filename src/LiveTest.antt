-- ===== src/LiveTest.antt =====
-- core/livetest/livetest.go: the transactional test of a candidate connection. The connector, the
-- verifier and the clock are interfaces: `Answers` holds what they answer in one run.
pub mod Transaction
use mazzy_vpn.Base.{
  Bool, true, false, not, ◌&&◌, ◌||◌, Option, none, some, List, [], ◌∷◌, ◌++◌, if◌then◌else◌, Text,
  codes, ◌==◌, pos, is_some,
}
use mazzy_vpn.Boot.File.{Disk, Faults}
use mazzy_vpn.Protocols.{Protocol, mode_normal, desired_up}
use mazzy_vpn.Intent.{Intent, write, WriteError, read, Loaded, loaded, failed}

pub record Outcome : Type 0 where
  pub passed : Bool
  pub rolled_back : Bool
  pub reason : Text
  pub timed_out : Bool

-- What a run asks of the connector, and whether that works.
pub data Call : Type 0 where
  up : Protocol → Text → Bool → Call
  down : Bool → Call

-- The fields that Run needs.
pub record Tester : Type 0 where
  pub has_store : Bool
  pub has_connector : Bool
  pub has_verifier : Bool

pub record Answers : Type 0 where
  pub readable : Bool
  pub up_error : Option Text
  pub down_works : Bool
  pub up_again_works : Bool
  pub verified : Bool
  pub verify_reason : Text
  pub deadline_after_up : Bool
  pub deadline_after_verify : Bool
  pub commit : Faults
  pub restore : Faults
  pub write_error_text : WriteError → Text

-- How a run ends: an outcome, the error ErrNoConnector, or the panic of a commit to no store.
pub data End : Type 0 where
  outcome : Outcome → End
  no_connector panicked : End

pub record Run : Type 0 where
  pub end : End
  pub disk : Disk
  pub calls : List Call

abbrev pub backup_of : Loaded → Option Intent
backup_of (failed e) = none
backup_of (loaded st) = some st

-- The method snapshot.
unfoldable pub snapshot : Tester → Answers → Disk → Option Intent
snapshot t a d = if not t.has_store then none else backup_of (read a.readable d)

abbrev pub reconnect : Bool → Intent → List Call
reconnect works st = if st.desired == desired_up then up st.protocol st.profile works ∷ [] else []

-- The method rollback, with the calls made before it.
unfoldable pub rollback : Answers → Option Intent → Text → Bool → Disk → List Call → Run
rollback a none reason timed_out d calls = record {
  end =
      outcome
        (record { passed = false; rolled_back = true; reason = reason; timed_out = timed_out });
  disk = d;
  calls = calls ++ down a.down_works ∷ [];
}
rollback a (some st) reason timed_out d calls = record {
  end =
      outcome
        (record { passed = false; rolled_back = true; reason = reason; timed_out = timed_out });
  disk = (write a.restore st d).0;
  calls = calls ++ down a.down_works ∷ reconnect a.up_again_works st;
}

abbrev pub candidate : Protocol → Text → Intent
candidate p profile = record {
  protocol = p;
  profile = profile;
  desired = desired_up;
  mode = mode_normal;
  test_token = [];
  test_deadline = pos 0;
}

abbrev pub passed_outcome : Outcome
passed_outcome = record { passed = true; rolled_back = false; reason = []; timed_out = false }

-- The commit, and the rollback if it fails.
unfoldable pub commit : Tester → Answers → Option Intent → Protocol → Text → Disk → List Call → Run
unfolding rollback
commit t a backup p profile d calls =
    if not t.has_store
    then record { end = panicked; disk = d; calls = calls }
    else let w = write a.commit (candidate p profile) d in
      elim w.1 [
        | none ↦ record { end = outcome passed_outcome; disk = w.0; calls = calls }
        | some e ↦
            rollback a backup (codes "commit failed: " ++ a.write_error_text e) false w.0 calls
      ]

abbrev pub failure_reason : Text → Text
failure_reason reason = if reason == [] then codes "egress verification failed" else reason

-- The method Run.
unfoldable pub run : Tester → Answers → Protocol → Text → Disk → Run
unfolding snapshot rollback commit
run t a p profile d =
    if not t.has_connector || not t.has_verifier
    then record { end = no_connector; disk = d; calls = [] }
    else let backup = snapshot t a d in
      let calls = up p profile (not (is_some a.up_error)) ∷ [] in
      elim a.up_error [
        | some e ↦
            rollback a backup (codes "candidate failed to come up: " ++ e) a.deadline_after_up d
              calls
        | none ↦
            if not a.verified
            then rollback a backup (failure_reason a.verify_reason) a.deadline_after_verify d calls
            else commit t a backup p profile d calls
      ]
