-- ===== src/Daemon.antt =====
-- The service of the CLI (mazzy-vpn-cli/cmd/mazzy-vpn/daemon.go): one connection that is checked every
-- tick, reconnected, and moved to another zone. An event brings what the world answers in it.
pub mod Single
pub mod Failover
pub mod Wishes
use mazzy_vpn.Base.{
  ℕ, zero, suc, ◌+◌, Bool, true, false, not, ◌&&◌, ◌||◌, Option, none, some, List, [], ◌∷◌, ◌++◌,
  if◌then◌else◌, Text, codes, ◌==◌, ltb, leb, is_some, nat_beq,
}

-- The loop's variables; `last_stealth` is none where the source has -1.
pub record Daemon : Type 0 where
  pub zone : Text
  pub conn : Option Text  -- the interface
  pub fails : ℕ
  pub last_stealth : Option ℕ

-- What the daemon does, in order.
pub data Action : Type 0 where
  sleep : ℕ → Action
  up : Text → Text → Action  -- the zone and the interface that came up for it
  up_failed : Text → Action
  down : Text → Action
  write_state : Text → Action
  set_desired_down : Action
  notify_connected notify_failed notify_reconnecting notify_disconnected : Text → Action

-- What stands in the way of a connection to a zone, or the interface and whether egress is confirmed.
pub data Attempt : Type 0 where
  not_found not_loaded refused : Attempt
  connected : Text → Bool → Attempt

-- connectZone
unfoldable pub connect_zone : Text → Attempt → Option Text × List Action
connect_zone zone not_found = (none, [])
connect_zone zone not_loaded = (none, [])
connect_zone zone refused = (none, up_failed zone ∷ notify_failed zone ∷ [])
connect_zone zone (connected iface true) =
    (some iface, up zone iface ∷ notify_connected zone ∷ write_state zone ∷ [])
connect_zone zone (connected iface false) = (some iface, up zone iface ∷ notify_failed zone ∷ [])

-- In seconds.
unfoldable pub backoff : ℕ → ℕ
backoff fails =
    if leb fails 0
    then 0
    else if nat_beq fails 1
    then 2
    else if nat_beq fails 2
    then 5
    else if leb fails 4
    then 15
    else 30

abbrev pub reconnect_limit : ℕ
reconnect_limit = 2

abbrev pub failover_limit : ℕ
failover_limit = 4

-- The intent file.
pub record Desired : Type 0 where
  pub zone : Text
  pub desired : Text

-- The answers in one tick: the intent file, the check of the interface, the best live zone, and what an
-- attempt at a zone would give.
pub record Answers : Type 0 where
  pub desired : Option Desired
  pub is_protected : Bool
  pub best : Option Text
  pub attempt : Text → Attempt

pub data Event : Type 0 where
  signal : Event
  stealth : Option ℕ → Event  -- the score, if the egress country is known
  tick : Answers → Event

abbrev pub next_zone : Option Text → Text → Option Text
next_zone none zone = none
next_zone (some z) zone = if z == zone then none else some z

-- `if nz, ok := d.pickBestLive(ctx); ok && nz != zone` once the limit is reached.
unfoldable pub fail_over : Option Text → Daemon → Daemon
fail_over best d =
    if leb failover_limit d.fails
    then elim (next_zone best d.zone) [ none ↦ d | some z ↦ record d { zone = z; fails = 0 } ]
    else d

-- The branch of a tick without a connection, after the attempt.
unfoldable pub retried : Option Text → Option Text → Daemon → Daemon
unfolding fail_over
retried none best d = fail_over best (record d { conn = none; fails = d.fails + 1 })
retried (some iface) best d = record d { conn = some iface; fails = 0 }

unfoldable pub retry : Answers → Daemon → Daemon × List Action
unfolding backoff connect_zone retried
retry a d =
    let r = connect_zone d.zone (a.attempt d.zone) in
    (retried r.0 a.best d, sleep (backoff d.fails) ∷ r.1)

-- The branch of a tick with a connection.
unfoldable pub watch : Answers → Text → Daemon → Daemon × List Action
unfolding backoff connect_zone fail_over
watch a iface d =
    let failing = record d { fails = d.fails + 1 } in
    if a.is_protected
    then (record d { fails = 0 }, [])
    else if ltb failing.fails reconnect_limit
    then (failing, [])
    else let moved = fail_over a.best failing in
      let r = connect_zone moved.zone (a.attempt moved.zone) in
      (
        record moved { conn = r.0 },
        notify_reconnecting d.zone ∷ down iface ∷ sleep (backoff failing.fails) ∷ r.1,
      )

unfoldable pub serve : Answers → Daemon → Option Text → Daemon × List Action
unfolding retry watch
serve a d none = retry a d
serve a d (some iface) = watch a iface d

abbrev pub wants_down : Option Desired → Bool
wants_down none = false
wants_down (some w) = w.desired == codes "down"

-- The zone that the intent asks for, if it is another one.
abbrev pub wanted_zone : Option Desired → Text → Option Text
wanted_zone none zone = none
wanted_zone (some w) zone =
    if w.desired == codes "up"
      && not (w.zone == [])
      && not (w.zone == codes "--best")
      && not (w.zone == zone)
    then some w.zone
    else none

abbrev pub take_down : Option Text → List Action
take_down none = []
take_down (some iface) = down iface ∷ []

unfoldable pub serve_wanted : Answers → Daemon → Option Text → Daemon × List Action
unfolding serve
serve_wanted a d none = serve a d d.conn
serve_wanted a d (some z) =
    let r = serve a (record d { zone = z; conn = none; fails = 0 }) none in
    (r.0, take_down d.conn ++ r.1)

unfoldable pub on_tick : Answers → Daemon → Option Text → Daemon × List Action
unfolding serve_wanted
on_tick a d none = serve_wanted a d (wanted_zone a.desired d.zone)
on_tick a d (some iface) =
    if wants_down a.desired
    then (record d { conn = none }, down iface ∷ notify_disconnected d.zone ∷ [])
    else serve_wanted a d (wanted_zone a.desired d.zone)

-- `lastStealth >= 0 && score < lastStealth-15`
abbrev pub has_dropped : Option ℕ → ℕ → Bool
has_dropped none score = false
has_dropped (some last) score = ltb (score + 15) last

unfoldable pub on_stealth : Option ℕ → Daemon → Option Text → Daemon × List Action
on_stealth score d none = (d, [])
on_stealth none d (some iface) = (d, [])
on_stealth (some score) d (some iface) = (
  record d { last_stealth = some score },
  (if has_dropped d.last_stealth score then notify_failed d.zone ∷ [] else []),
)

-- The case of a signal, after which the daemon returns.
unfoldable pub on_signal : Daemon → List Action
on_signal d = take_down d.conn ++ notify_disconnected d.zone ∷ set_desired_down ∷ []

-- The loop over events; the last state is none once the daemon has returned.
unfoldable pub loop : List Event → Daemon → Option Daemon × List Action
unfolding on_signal on_stealth on_tick
loop [] d = (some d, [])
loop (signal ∷ es) d = (none, on_signal d)
loop (stealth score ∷ es) d =
    let r = on_stealth score d d.conn in let s = loop es r.0 in (s.0, r.1 ++ s.1)
loop (tick a ∷ es) d = let r = on_tick a d d.conn in let s = loop es r.0 in (s.0, r.1 ++ s.1)

-- A word that is empty or starts with a dash names no zone.
abbrev pub named : Text → Text → Text
named [] explicit = explicit
named (c ∷ t) explicit = if nat_beq c b'-' then explicit else c ∷ t

-- The arguments: the last name and whether the best zone is asked for.
unfoldable pub daemon_args : List Text → Text → Bool → Text × Bool
daemon_args [] explicit auto_best = (explicit, auto_best)
daemon_args (a ∷ rest) explicit auto_best = elim (a == codes "--best" || a == codes "--auto") [
  | true ↦ daemon_args rest explicit true
  | false ↦ daemon_args rest (named a explicit) auto_best
]

abbrev pub initial_zone : Text → Bool → Option Text → Option Text
initial_zone explicit auto_best best =
    if explicit == [] || auto_best
    then elim best [ some z ↦ some z | none ↦ if explicit == [] then none else some explicit ]
    else some explicit

-- What cmdDaemon finds before its loop.
pub record Start : Type 0 where
  pub is_root : Bool
  pub lock_free : Bool
  pub best : Option Text
  pub attempt : Text → Attempt

pub data Started : Type 0 where
  exit : ℕ → Started
  running : Daemon → List Action → Started

abbrev first_connection : Text → Option Text × List Action → Started
first_connection zone r =
    running (record { zone = zone; conn = r.0; fails = 0; last_stealth = none }) r.1

abbrev started_at : Start → Option Text → Started
unfolding connect_zone
started_at w none = exit 1
started_at w (some zone) = first_connection zone (connect_zone zone (w.attempt zone))

-- cmdDaemon up to its loop.
unfoldable pub start : Start → List Text → Started
unfolding daemon_args connect_zone
start w [] = exit 2
start w (a ∷ args) =
    let chosen = daemon_args (a ∷ args) [] false in
    if not w.is_root
    then exit 1
    else if not w.lock_free
    then exit 1
    else started_at w (initial_zone chosen.0 chosen.1 w.best)
