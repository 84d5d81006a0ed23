-- ===== src/Daemon/Failover.antt =====
-- The daemon leaves a zone that cannot be reached (mazzy-vpn-cli/cmd/mazzy-vpn/daemon.go).
use mazzy_vpn.Base.{
  suc, ◌+◌, ◌<◌, ◌≡◌, ◌≢◌, refl, ◌∙◌, Option, none, some, List, [], ◌∷◌, map, if◌then◌else◌, Text,
  ==_iff, arith, ap, All, length, leb,
}
use mazzy_vpn.Daemon.{
  Daemon, connect_zone, Answers, tick, fail_over, retried, retry, serve, serve_wanted, on_tick,
  loop, failover_limit, wanted_zone,
}

-- The intent asks for no other zone, no connection to the zone comes up, and another zone is the best
-- live one.
abbrev pub IsHopeless : Text → Text → Answers → Type 0
IsHopeless zone other a =
    (wanted_zone a.desired zone ≡ none)
    × ((connect_zone zone (a.attempt zone)).0 ≡ none)
    × (a.best ≡ some other)

-- One more failure: the zone is left once the limit is reached.
abbrev missed : Text → Daemon → Daemon
missed other d =
    if leb failover_limit (d.fails + 1)
    then record d { zone = other; conn = none; fails = 0 }
    else record d { conn = none; fails = d.fails + 1 }

fail_over-missed :
    (d : Daemon) (other : Text)
    → other ≢ d.zone
    → fail_over (some other) (record d { conn = none; fails = d.fails + 1 }) ≡ missed other d
unfolding fail_over
fail_over-missed d other n = ground (arith, ==_iff other d.zone)

tick-hopeless :
    (a : Answers) (d : Daemon) (other : Text) (c : Option Text)
    → d.conn ≡ none
    → c ≡ none
    → other ≢ d.zone
    → IsHopeless d.zone other a
    → (on_tick a d c).0 ≡ missed other d
unfolding on_tick serve_wanted serve retry retried
tick-hopeless a d other c e e' n h = rw (e', h.0, e, h.1, h.2) (fail_over-missed d other n)

loop-next :
    (a : Answers) (ticks : List Answers) (d d' : Daemon) {o : Option Daemon}
    → (on_tick a d d.conn).0 ≡ d'
    → (loop (map tick ticks) d').0 ≡ o
    → (loop (map tick (a ∷ ticks)) d).0 ≡ o
unfolding loop
loop-next a ticks d d' e h = ap (λ x. (loop (map tick ticks) x).0) e ∙ h

missed-below :
    (d : Daemon) (other : Text)
    → d.conn ≡ none
    → suc d.fails < failover_limit
    → missed other d ≡ record d { fails = suc d.fails }
missed-below d other e h = ground arith

missed-last :
    (d : Daemon) (other : Text)
    → d.conn ≡ none
    → suc d.fails ≡ failover_limit
    → missed other d ≡ record d { zone = other; fails = 0 }
missed-last d other e h = ground arith

-- From a failure count below the limit, with no connection: once ticks that cannot reach the zone, and
-- in each of which no intent asks for another zone and the same other zone is the best live one, have
-- brought the count to the limit, the daemon has just moved to that zone, and counts anew.
pub loop-fails_over :
    (ticks : List Answers) (d : Daemon) (other : Text)
    → d.conn ≡ none
    → other ≢ d.zone
    → d.fails < failover_limit
    → length ticks + d.fails ≡ failover_limit
    → All (IsHopeless d.zone other) ticks
    → (loop (map tick ticks) d).0 ≡ some (record d { zone = other; fails = 0 })
loop-fails_over [] d other e n lt len h = absurd (omega arith)
loop-fails_over (a ∷ []) d other e n lt len h =
    let first = tick-hopeless a d other d.conn e e n h.0 in
    loop-next a [] d (record d { zone = other; fails = 0 })
      (first ∙ missed-last d other e (omega (arith, len))) (unfold loop in refl)
loop-fails_over (a ∷ b ∷ rest) d other e n lt len h =
    let first = tick-hopeless a d other d.conn e e n h.0 in
    let below : suc d.fails < failover_limit = omega (arith, len) in
    loop-next a (b ∷ rest) d (record d { fails = suc d.fails })
      (first ∙ missed-below d other e below)
      (loop-fails_over (b ∷ rest) (record d { fails = suc d.fails }) other e n below
        (omega (arith, len)) h.1)
