-- ===== src/Examples/Access.antt =====
-- Tests of core/control and core/health.
use mazzy_vpn.Base.{
  ◌<◌, ◌≡◌, refl, Bool, true, false, not, ◌&&◌, any, none, some, List, [], ◌∷◌, if◌then◌else◌, Text,
  codes, ◌==◌, ==_refl, nat_beq, nat_beq_iff, leb, pos, arith,
}
use mazzy_vpn.Control.Identity.{Crypto, Identity, new_identity, identity_from_key, derive_id}
use mazzy_vpn.Control.Trust.{new_trust_store, is_trusted, verify_from}
use mazzy_vpn.Control.Trust.Authentic
use mazzy_vpn.Control.Trust.Authentic.{
  TrustOp, op_pair, op_set_owned, op_unpair, IsAuthentic, trust_store-IsAuthentic,
  verify_from_exact, level-pair, signed_by,
}
use mazzy_vpn.Control.Grants.{
  scope_connect, Grant, new_grant_book, issue, issued, store, allows, conveys, verify, key, expired,
  has_scope,
}
use mazzy_vpn.Control.Grants.Keys.{NoDash}
use mazzy_vpn.Control.Grants.Refines
use mazzy_vpn.Control.Grants.Refines.{
  BookOp, op_issue, op_revoke, op_revoke_all_to, op_prune, IsPlain, spec_run, spec_allows,
  allows_refines,
}
use mazzy_vpn.Control.Grants.Signing.{verify-issue}
use mazzy_vpn.Control.Grants.Confusion.{allows-other_edge}
use mazzy_vpn.Control.Plane.{Plane, Participant, agent, new_plane}
use mazzy_vpn.Control.Plane.Closed
use mazzy_vpn.Control.Plane.Closed.{
  PlaneOp, op_register, op_deregister, op_allow, op_revoke, IsClosed, run_ops-IsClosed,
  reachable_exact, deregister_exact,
}
use mazzy_vpn.Control.Channel.{Broker, new_broker, open_channel}
use mazzy_vpn.Control.Channel.Gates.{admits, is_open, IsOpening, open_channel-admits}
use mazzy_vpn.Health
use mazzy_vpn.Health.{Config, Observation, limit, max_int, run_until}
use mazzy_vpn.Health.Streak
use mazzy_vpn.Health.Streak.{
  recoveries, recoveries-run_until, recover_once, count_true, count_failures, is_healthy,
}

-- A signature scheme that signs with the message itself.
abbrev sum : Text
sum =
    0 ∷ 68 ∷ 50 ∷ 20 ∷ 199 ∷ 66 ∷ 84 ∷ 182 ∷ 53 ∷ 207 ∷ 132 ∷ 101 ∷ 58 ∷ 86 ∷ 215 ∷ 198 ∷ 117 ∷ 190
    ∷ 119 ∷ 223 ∷ 0 ∷ 1 ∷ 2 ∷ 3 ∷ 4 ∷ 5 ∷ 6 ∷ 7 ∷ 8 ∷ 9 ∷ 10 ∷ 11 ∷ []

abbrev crypto : Crypto
crypto = record {
  sha256 = λ m. sum;
  public = λ priv. sum;
  sign = λ priv msg. msg;
  verify = λ pub_key msg sig. sig == msg;
  length-sha256 = λ m. refl;
  length-public = λ priv. refl;
  verify-sign = λ priv msg. ==_refl msg;
}

abbrev alice : Text
alice = codes "alice"

abbrev bob : Text
bob = codes "bob"

-- The ID that `sum` derives.
abbrev self : Text
self = codes "ABCDEFGHIJKLMNOP"

abbrev trust_ops : List TrustOp
trust_ops = op_pair self sum ∷ op_pair bob sum ∷ op_set_owned self sum ∷ []

trust_store-IsAuthentic_example :
    IsAuthentic crypto (Authentic.run_ops crypto new_trust_store trust_ops)
trust_store-IsAuthentic_example = trust_store-IsAuthentic crypto trust_ops

verify_from_exact_example :
    let s = Authentic.run_ops crypto new_trust_store trust_ops in
    verify_from crypto s self alice alice
    ≡ some (is_trusted s self && signed_by crypto s self alice alice)
verify_from_exact_example = verify_from_exact crypto trust_ops self alice alice

abbrev no_byte : Text → Bool
no_byte s = not (any (λ c. nat_beq c b'-') s)

NoDash-of : (s : Text) → no_byte s ≡ true → NoDash s
unfolding any
NoDash-of [] h = tt
NoDash-of (c ∷ s) h = (ground (arith, nat_beq_iff c b'-'), NoDash-of s (ground arith))

abbrev grant : Text → Text → Grant
grant from to = record {
  from = from;
  to = to;
  scopes = scope_connect ∷ [];
  expires_at = pos 1000;
  issued_by = [];
  issued_at = pos 0;
  signature = [];
}

abbrev issuer : Identity
issuer = record { id = derive_id crypto sum; public_key = sum; priv = some bob }

alice-NoDash : NoDash alice
unfolding any
alice-NoDash = NoDash-of alice refl

bob-NoDash : NoDash bob
unfolding any
bob-NoDash = NoDash-of bob refl

abbrev book_ops : List BookOp
book_ops =
    op_issue (some issuer) (grant alice bob) (pos 5)
    ∷ op_issue none (grant bob alice) (pos 6)
    ∷ op_prune (pos 7)
    ∷ op_revoke bob alice
    ∷ []

allows_refines_example :
    allows (Refines.run_ops crypto new_grant_book book_ops) alice bob scope_connect (pos 8)
    ≡ spec_allows (spec_run crypto [] book_ops) alice bob scope_connect (pos 8)
allows_refines_example =
    allows_refines crypto book_ops alice bob scope_connect (pos 8)
      (
        (alice-NoDash, bob-NoDash),
        ((bob-NoDash, alice-NoDash), (tt, ((bob-NoDash, alice-NoDash), tt))),
      )
      alice-NoDash bob-NoDash

made : new_identity crypto (some bob) ≡ some issuer
unfolding new_identity
made = refl

verify-issue_example :
    (out : Grant) × (issue crypto new_grant_book (some issuer) (grant alice bob) (pos 5)
      ≡ (store new_grant_book out, issued out))
    × (verify crypto out (identity_from_key crypto issuer.public_key) ≡ true)
    × (out.issued_by ≡ issuer.id)
    × (out.from ≡ alice)
    × (out.to ≡ bob)
    × (out.scopes ≡ scope_connect ∷ [])
    × (out.expires_at ≡ pos 1000)
verify-issue_example = verify-issue crypto bob issuer new_grant_book (grant alice bob) (pos 5) made

conveyed : conveys (grant alice (key bob self)) scope_connect (pos 8) ≡ true
unfolding expired has_scope any ◌==◌
conveyed = ground arith

allows-other_edge_example :
    allows
      (store new_grant_book (grant alice (key bob self)))
      (key alice bob)
      self
      scope_connect
      (pos 8)
    ≡ true
allows-other_edge_example =
    allows-other_edge new_grant_book (grant alice (key bob self)) alice bob self scope_connect
      (pos 8) refl refl conveyed

abbrev member : Text → Participant
member id = record { id = id; kind = agent; endpoint = codes "mazzy://node"; labels = [] }

abbrev plane_ops : List PlaneOp
plane_ops =
    op_register (member alice)
    ∷ op_register (member bob)
    ∷ op_allow alice bob
    ∷ op_allow bob self
    ∷ op_deregister self
    ∷ []

abbrev plane : Plane
plane = Closed.run_ops new_plane plane_ops

run_ops-IsClosed_example : IsClosed plane
run_ops-IsClosed_example = run_ops-IsClosed plane_ops

abbrev broker : Broker
broker =
    new_broker plane (Authentic.run_ops crypto new_trust_store trust_ops)
      (Refines.run_ops crypto new_grant_book book_ops)

open_channel-admits_example :
    let r = open_channel broker alice bob scope_connect (pos 8) in
    (is_open r.1 ≡ admits broker alice bob scope_connect (pos 8))
    × IsOpening broker alice bob (pos 8) scope_connect r.0 r.1
open_channel-admits_example =
    open_channel-admits broker alice bob scope_connect (pos 8) scope_connect

abbrev three : Config
three = record { failure_limit = pos 3 }

abbrev tick : Bool → Observation
tick internet = record {
  link_present = true;
  startup_grace = false;
  internet_ok = internet;
  reason = [];
  recover_error = none;
}

small : limit three < max_int
unfolding limit
small = omega arith

recoveries-run_until_example :
    recoveries
      (run_until
        (Health.new three)
        (tick false ∷ tick false ∷ tick true ∷ tick false ∷ tick false ∷ tick false ∷ [])).1
    ≡ Streak.spec_run
        (limit three)
        0
        (tick false ∷ tick false ∷ tick true ∷ tick false ∷ tick false ∷ tick false ∷ [])
recoveries-run_until_example =
    recoveries-run_until three
      (tick false ∷ tick false ∷ tick true ∷ tick false ∷ tick false ∷ tick false ∷ []) small

recover_once_example :
    count_true (
      recoveries
        (run_until (Health.new three) (tick false ∷ tick false ∷ tick false ∷ tick false ∷ [])).1)
    ≡ (if leb
          (limit three)
          (count_failures (tick false ∷ tick false ∷ tick false ∷ tick false ∷ []))
        then 1
        else 0)
recover_once_example =
    recover_once three (tick false ∷ tick false ∷ tick false ∷ tick false ∷ []) small
      (refl, (refl, (refl, (refl, tt))))
