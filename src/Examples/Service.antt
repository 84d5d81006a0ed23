-- ===== src/Examples/Service.antt =====
-- Tests of the request router, the service, the lock and the waits (core/api, core/lock, core/livecheck,
-- mazzy-vpn-cli/cmd/mazzy-vpn/daemon.go, recover.go).
use mazzy_vpn.Base.{
  ℕ, ◌≡◌, ◌≢◌, ◌↔◌, refl, true, false, Option, none, some, [], ◌∷◌, map, codes, ◌==◌, arith,
  is_some, ==_iff, any,
}
use mazzy_vpn.Base.Dict
use mazzy_vpn.Api.{Router, new_router, handle, dispatch, result, version}
use mazzy_vpn.Api.Tokens.{at_end, reject_duplicate_keys, passed}
use mazzy_vpn.Api.Value.{
  Fields, field, no_fields, text, object, Body, complete, stream, decode, Request, no_request,
  fold_name, render,
}
use mazzy_vpn.Api.Unique.{reject_duplicate_keys-render, first_repeated, verdict}
use mazzy_vpn.Api.Policy.{IsAdmitted, dispatch-called}
use mazzy_vpn.Api.Smuggled.{twice, decode-respelled}
use mazzy_vpn.Daemon.{
  Daemon, Desired, Answers, refused, connected, tick, signal, loop, connect_zone, wants_down,
}
use mazzy_vpn.Daemon.Single.{replay, held_by, replay-loop}
use mazzy_vpn.Daemon.Failover.{IsHopeless, loop-fails_over}
use mazzy_vpn.Daemon.Wishes.{IsStubborn, loop-down_again, loop-stubborn}

abbrev router : Router
unfolding handle new_router
router = handle (new_router none) (codes "connect") (λ req. result (some (codes "{}")))

abbrev request : Request
request = record no_request {
  api_version = version;
  operation = codes "connect";
  action_id = codes "a1";
  authorization = codes "key";
}

abbrev fields : Fields
fields = field (codes "api_version") (text version) (
    field (codes "operation") (text (codes "connect")) (
      field (codes "action_id") (text (codes "a1"))
        (field (codes "authorization") (text (codes "key")) no_fields)))

abbrev body : Body
body = complete (object fields) at_end

is_called : (dispatch router body).called ≡ some request
unfolding dispatch reject_duplicate_keys render stream decode router Dict.get Dict.put ◌==◌ any
is_called = refl

dispatch-called_example : ((dispatch router body).called ≡ some request) ↔ (
    (reject_duplicate_keys (stream body) ≡ passed)
    × (decode body ≡ some request)
    × IsAdmitted request
    × (is_some (Dict.get router.handlers request.operation) ≡ true))
dispatch-called_example = dispatch-called router body request

reject_duplicate_keys-render_example :
    reject_duplicate_keys (render (object fields) at_end) ≡ verdict (first_repeated [] fields)
reject_duplicate_keys-render_example = reject_duplicate_keys-render fields at_end

folds : fold_name (codes "Operation") ≡ codes "operation"
unfolding fold_name
folds = refl

differs : codes "Operation" ≢ codes "operation"
unfolding ◌==◌
differs = λ e. ground (arith, (==_iff (codes "Operation") (codes "operation")).1 e)

decode-respelled_example :
    let smuggled =
      complete (object (twice (codes "Operation") (codes "status.get") (codes "connect"))) at_end in
    (reject_duplicate_keys (stream smuggled) ≡ passed)
    × (decode smuggled
        ≡ some (record no_request { api_version = version; operation = codes "connect" }))
decode-respelled_example =
    decode-respelled (codes "Operation") (codes "status.get") (codes "connect") at_end folds differs

-- A world in which no zone answers and `nl` is the best live zone.
abbrev dead : Option Desired → Answers
dead wish = record {
  desired = wish;
  is_protected = false;
  best = some (codes "nl");
  attempt = λ zone. refused;
}

abbrev living : Option Desired → Answers
living wish = record (dead wish) { attempt = λ zone. connected (codes "vpn-wg") true }

abbrev failing : ℕ → Daemon
failing fails = record { zone = codes "de"; conn = none; fails = fails; last_stealth = none }

abbrev working : Daemon
working = record (failing 0) { conn = some (codes "vpn-wg") }

replay-loop_example :
    let es = tick (dead none) ∷ tick (dead none) ∷ tick (living none) ∷ signal ∷ [] in
    replay (loop es working).1 (some (codes "vpn-wg")) ≡ some (held_by (loop es working).0)
replay-loop_example =
    replay-loop (tick (dead none) ∷ tick (dead none) ∷ tick (living none) ∷ signal ∷ []) working

other_zone : codes "nl" ≢ codes "de"
unfolding ◌==◌
other_zone = λ e. ground (arith, (==_iff (codes "nl") (codes "de")).1 e)

hopeless : IsHopeless (codes "de") (codes "nl") (dead none)
unfolding connect_zone
hopeless = (refl, refl, refl)

loop-fails_over_example :
    (loop (map tick (dead none ∷ [])) (failing 3)).0
    ≡ some (record (failing 3) { zone = codes "nl"; fails = 0 })
loop-fails_over_example =
    loop-fails_over (dead none ∷ []) (failing 3) (codes "nl") refl other_zone (omega arith) refl
      (hopeless, tt)

abbrev stop : Option Desired
stop = some (record { zone = []; desired = codes "down" })

stops : wants_down stop ≡ true
unfolding ◌==◌
stops = refl

comes_up : (connect_zone (codes "de") (connected (codes "vpn-wg") true)).0 ≡ some (codes "vpn-wg")
unfolding connect_zone
comes_up = refl

loop-down_again_example :
    ((loop (tick (living stop) ∷ []) working).0 ≡ some (record working { conn = none }))
    × ((loop (tick (living stop) ∷ tick (living stop) ∷ []) working).0
        ≡ some (record working { conn = some (codes "vpn-wg"); fails = 0 }))
loop-down_again_example =
    loop-down_again (living stop) working (codes "vpn-wg") (codes "vpn-wg") refl stops comes_up

abbrev go : Desired
go = record { zone = codes "de"; desired = codes "up" }

stubborn : IsStubborn go (dead (some go))
unfolding connect_zone
stubborn = (refl, refl)

named : codes "de" ≢ []
unfolding ◌==◌
named = λ e. ground (arith, (==_iff (codes "de") []).1 e)

not_best : codes "de" ≢ codes "--best"
unfolding ◌==◌
not_best = λ e. ground (arith, (==_iff (codes "de") (codes "--best")).1 e)

loop-stubborn_example :
    (d' : Daemon) × ((loop (map tick (dead (some go) ∷ dead (some go) ∷ [])) (failing 3)).0
      ≡ some d')
    × (d'.conn ≡ none)
loop-stubborn_example =
    loop-stubborn (dead (some go) ∷ dead (some go) ∷ []) go (failing 3) refl named not_best refl
      (stubborn, (stubborn, tt))
