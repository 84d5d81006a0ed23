-- ===== src/LiveTest/Transaction.antt =====
-- The test of core/livetest/livetest.go commits the candidate or restores what was before.
use mazzy_vpn.Base.{
  ◌≡◌, Bool, true, false, not, ◌&&◌, Option, none, some, List, [], ◌∷◌, if◌then◌else◌, Text, ◌==◌,
  arith, ◌⊎◌, Option-cases, is_some,
}
use mazzy_vpn.Boot.File.{Disk}
use mazzy_vpn.Protocols.{Protocol, desired_up}
use mazzy_vpn.Intent.{Intent, write, read}
use mazzy_vpn.LiveTest.{
  Call, up, down, Tester, Answers, End, outcome, backup_of, candidate, passed_outcome, run,
}

-- The connection that the calls leave up, where one that is brought up takes the place of another and a
-- call that fails changes nothing.
abbrev pub active : List Call → Option (Protocol × Text) → Option (Protocol × Text)
active [] c = c
active (up p profile works ∷ cs) c = active cs (if works then some (p, profile) else c)
active (down works ∷ cs) c = active cs (if works then none else c)

-- The connection that an intent asks for.
abbrev pub wanted : Option Intent → Option (Protocol × Text)
wanted none = none
wanted (some st) = if st.desired == desired_up then some (st.protocol, st.profile) else none

-- What a rollback leaves up, where c was up before: what the previous intent wants, if that comes up;
-- else nothing, if the call of Down works; else the candidate if it had come up, and c if it had not.
abbrev pub left_up :
    Answers → Option Intent → Protocol → Text → Option (Protocol × Text) → Option (Protocol × Text)
left_up a backup p profile c =
    if is_some (wanted backup) && a.up_again_works
    then wanted backup
    else if a.down_works
    then none
    else if is_some a.up_error
    then c
    else some (p, profile)

-- The disk after a backup has been written back, where there is one.
abbrev pub restored : Answers → Option Intent → Disk → Disk
restored a none d = d
restored a (some st) d = (write a.restore st d).0

abbrev pub is_rolled_back : End → Bool
is_rolled_back (outcome o) = not o.passed && o.rolled_back
is_rolled_back _ = false

abbrev pub is_ready : Tester → Bool
is_ready t = t.has_store && t.has_connector && t.has_verifier

abbrev pub passes : Answers → Bool
passes a = not (is_some a.up_error) && a.verified

-- The disk on which a rollback works: after the commit if the run came to it.
abbrev pub tried : Answers → Protocol → Text → Disk → Disk
tried a p profile d = if passes a then (write a.commit (candidate p profile) d).0 else d

-- A run of a tester that has all it needs, whatever connection is up before it, either passes, which is
-- exactly if the candidate came up, was verified and was committed without error, and then leaves the
-- candidate's connection up and its intent written; or it rolls back. Then the connection that the previous
-- intent wants is up, if there is such an intent and that connection comes up again; else nothing is up, or,
-- if the call of Down failed, the candidate (the connection from before if the candidate had not come up).
-- The disk is what an attempt to write the previous intent back leaves, if there was one.
pub run_exact :
    (t : Tester) (a : Answers) (p : Protocol) (profile : Text) (d : Disk)
    (c : Option (Protocol × Text))
    → is_ready t ≡ true
    → let r = run t a p profile d in
      let w = write a.commit (candidate p profile) d in
      let backup = backup_of (read a.readable d) in
      ((passes a ≡ true)
        × (w.1 ≡ none)
        × (r.end ≡ outcome passed_outcome)
        × (active r.calls c ≡ some (p, profile))
        × (r.disk ≡ w.0))
      ⊎ ((passes a && not (is_some w.1) ≡ false)
          × (is_rolled_back r.end ≡ true)
          × (active r.calls c ≡ left_up a backup p profile c)
          × (r.disk ≡ restored a backup (tried a p profile d)))
unfolding run
run_exact t a p profile d c h =
    let w = write a.commit (candidate p profile) d in
    ground (
      arith,
      Option-cases a.up_error,
      Option-cases w.1,
      Option-cases (backup_of (read a.readable d)),
    )
