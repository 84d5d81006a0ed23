-- ===== src/Daemon/Single.antt =====
-- The daemon holds one connection at a time (mazzy-vpn-cli/cmd/mazzy-vpn/daemon.go).
use mazzy_vpn.Base.{
  ℕ, ◌+◌, ◌≡◌, refl, ◌∙◌, true, false, Option, none, some, List, [], ◌∷◌, ◌++◌, if◌then◌else◌, Text,
  ◌==◌, ==_refl, arith, Bool-cases, Option-cases, inl, inr,
}
use mazzy_vpn.Daemon.{
  Daemon, Action, sleep, up, up_failed, down, write_state, set_desired_down, notify_connected,
  notify_failed, notify_reconnecting, notify_disconnected, Attempt, not_found, not_loaded, refused,
  connected, connect_zone, Answers, Event, signal, stealth, tick, fail_over, retried, retry, watch,
  serve, serve_wanted, on_tick, on_stealth, on_signal, loop, take_down, has_dropped, wanted_zone,
  next_zone,
}

-- What is held after the actions, if no connection comes up while one is held and only what is held is
-- taken down.
abbrev pub replay : List Action → Option Text → Option (Option Text)
replay [] held = some held
replay (up zone iface ∷ more) none = replay more (some iface)
replay (up zone iface ∷ more) (some _) = none
replay (down iface ∷ more) none = none
replay (down iface ∷ more) (some held) = if iface == held then replay more none else none
replay (_ ∷ more) held = replay more held

abbrev bind : Option (Option Text) → (Option Text → Option (Option Text)) → Option (Option Text)
bind none f = none
bind (some h) f = f h

replay-append :
    (xs ys : List Action) (held : Option Text)
    → replay (xs ++ ys) held ≡ bind (replay xs held) (replay ys)
replay-append [] ys held = refl
replay-append (up z i ∷ xs) ys none = replay-append xs ys (some i)
replay-append (up z i ∷ xs) ys (some j) = refl
replay-append (down i ∷ xs) ys none = refl
replay-append (down i ∷ xs) ys (some j) = ground (arith, replay-append xs ys none)
replay-append (sleep n ∷ xs) ys held = replay-append xs ys held
replay-append (up_failed z ∷ xs) ys held = replay-append xs ys held
replay-append (write_state z ∷ xs) ys held = replay-append xs ys held
replay-append (set_desired_down ∷ xs) ys held = replay-append xs ys held
replay-append (notify_connected z ∷ xs) ys held = replay-append xs ys held
replay-append (notify_failed z ∷ xs) ys held = replay-append xs ys held
replay-append (notify_reconnecting z ∷ xs) ys held = replay-append xs ys held
replay-append (notify_disconnected z ∷ xs) ys held = replay-append xs ys held

pub replay-connect_zone :
    (zone : Text) (a : Attempt) → replay (connect_zone zone a).1 none ≡ some (connect_zone zone a).0
unfolding connect_zone
replay-connect_zone zone not_found = refl
replay-connect_zone zone not_loaded = refl
replay-connect_zone zone refused = refl
replay-connect_zone zone (connected iface true) = refl
replay-connect_zone zone (connected iface false) = refl

conn-fail_over : (best : Option Text) (d : Daemon) → (fail_over best d).conn ≡ d.conn
unfolding fail_over
conn-fail_over best d = ground (arith, Option-cases (next_zone best d.zone))

conn-retried : (c best : Option Text) (d : Daemon) → (retried c best d).conn ≡ c
unfolding retried
conn-retried none best d = conn-fail_over best (record d { conn = none; fails = d.fails + 1 })
conn-retried (some iface) best d = refl

replay-retry : (a : Answers) (d : Daemon) → replay (retry a d).1 none ≡ some (retry a d).0.conn
unfolding retry
replay-retry a d =
    rw (conn-retried (connect_zone d.zone (a.attempt d.zone)).0 a.best d)
      (replay-connect_zone d.zone (a.attempt d.zone))

replay-watch :
    (a : Answers) (iface : Text) (d : Daemon)
    → d.conn ≡ some iface
    → replay (watch a iface d).1 (some iface) ≡ some (watch a iface d).0.conn
unfolding watch
replay-watch a iface d e =
    let moved = fail_over a.best (record d { fails = d.fails + 1 }) in
    ground (arith, ==_refl iface, replay-connect_zone moved.zone (a.attempt moved.zone))

replay-serve :
    (a : Answers) (d : Daemon) (c : Option Text)
    → d.conn ≡ c
    → replay (serve a d c).1 c ≡ some (serve a d c).0.conn
unfolding serve
replay-serve a d none e = replay-retry a d
replay-serve a d (some iface) e = replay-watch a iface d e

replay-take_down :
    (c : Option Text) (ys : List Action) → replay (take_down c ++ ys) c ≡ replay ys none
replay-take_down none ys = refl
replay-take_down (some iface) ys = rw (==_refl iface) refl

replay-serve_wanted :
    (a : Answers) (d : Daemon) (z : Option Text)
    → replay (serve_wanted a d z).1 d.conn ≡ some (serve_wanted a d z).0.conn
unfolding serve_wanted
replay-serve_wanted a d none = replay-serve a d d.conn refl
replay-serve_wanted a d (some z) =
    let d' = record d { zone = z; conn = none; fails = 0 } in
    replay-take_down d.conn (serve a d' none).1 ∙ replay-serve a d' none refl

replay-on_tick :
    (a : Answers) (d : Daemon) (c : Option Text)
    → d.conn ≡ c
    → replay (on_tick a d c).1 d.conn ≡ some (on_tick a d c).0.conn
unfolding on_tick
replay-on_tick a d none e = replay-serve_wanted a d (wanted_zone a.desired d.zone)
replay-on_tick a d (some iface) e =
    ground (arith, ==_refl iface, replay-serve_wanted a d (wanted_zone a.desired d.zone))

replay-on_stealth :
    (score : Option ℕ) (d : Daemon) (c : Option Text) (ys : List Action) (held : Option Text)
    → (replay ((on_stealth score d c).1 ++ ys) held ≡ replay ys held)
      × ((on_stealth score d c).0.conn ≡ d.conn)
unfolding on_stealth
replay-on_stealth score d none ys held = (refl, refl)
replay-on_stealth none d (some iface) ys held = (refl, refl)
replay-on_stealth (some score) d (some iface) ys held =
    elim (Bool-cases (has_dropped d.last_stealth score)) [
      | inl e ↦ (rw e refl, refl)
      | inr e ↦ (rw e refl, refl)
    ]

abbrev pub held_by : Option Daemon → Option Text
held_by none = none
held_by (some d) = d.conn

-- Whatever events come and whatever the world answers in them, no connection comes up while another is
-- held, only the connection that is held is taken down, what is held at the end is what the daemon
-- believes to hold, and nothing is held once it has returned.
pub replay-loop :
    (es : List Event) (d : Daemon) → replay (loop es d).1 d.conn ≡ some (held_by (loop es d).0)
unfolding loop on_signal
replay-loop [] d = refl
replay-loop (signal ∷ es) d =
    replay-take_down d.conn (notify_disconnected d.zone ∷ set_desired_down ∷ [])
replay-loop (stealth score ∷ es) d =
    let r = on_stealth score d d.conn in
    let s = replay-on_stealth score d d.conn (loop es r.0).1 d.conn in
    s.0 ∙ ground (arith, s.1, replay-loop es r.0)
replay-loop (tick a ∷ es) d =
    let r = on_tick a d d.conn in
    replay-append r.1 (loop es r.0).1 d.conn
    ∙ rw (replay-on_tick a d d.conn refl) (replay-loop es r.0)
