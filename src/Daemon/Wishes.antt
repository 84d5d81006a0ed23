-- ===== src/Daemon/Wishes.antt =====
-- The daemon and the intent file that the menu writes (mazzy-vpn-cli/cmd/mazzy-vpn/daemon.go).
use mazzy_vpn.Base.{
  ◌+◌, ◌≡◌, ◌≢◌, refl, true, Option, none, some, List, [], ◌∷◌, map, Text, codes, ◌==◌, ==_iff,
  arith, Option-cases, inl, inr, ◌⊎◌, subst, ap, All,
}
use mazzy_vpn.Daemon.{
  Daemon, connect_zone, Answers, Desired, tick, fail_over, retried, retry, serve, serve_wanted,
  on_tick, loop, wanted_zone, wants_down, next_zone,
}

not_up : (w : Option Desired) (zone : Text) → wants_down w ≡ true → wanted_zone w zone ≡ none
unfolding ◌==◌
not_up none zone h = refl
not_up (some w) zone h = rw ((==_iff w.desired (codes "down")).0 h) refl

tick-down :
    (a : Answers) (d : Daemon) (iface : Text) (c : Option Text)
    → c ≡ some iface
    → wants_down a.desired ≡ true
    → (on_tick a d c).0 ≡ record d { conn = none }
unfolding on_tick
tick-down a d iface c e w = rw e (rw w refl)

tick-up_again :
    (a : Answers) (d : Daemon) (iface : Text)
    → d.conn ≡ none
    → wants_down a.desired ≡ true
    → (connect_zone d.zone (a.attempt d.zone)).0 ≡ some iface
    → (on_tick a d d.conn).0 ≡ record d { conn = some iface; fails = 0 }
unfolding on_tick serve_wanted serve retry retried
tick-up_again a d iface c w up = rw (c, not_up a.desired d.zone w, up) refl

-- An intent to be down holds for one tick only: the daemon takes its connection down, and in the next
-- tick, with the same intent, it connects to the zone again where that succeeds.
pub loop-down_again :
    (a : Answers) (d : Daemon) (iface iface' : Text)
    → d.conn ≡ some iface
    → wants_down a.desired ≡ true
    → (connect_zone d.zone (a.attempt d.zone)).0 ≡ some iface'
    → ((loop (tick a ∷ []) d).0 ≡ some (record d { conn = none }))
      × ((loop (tick a ∷ tick a ∷ []) d).0 ≡ some (record d { conn = some iface'; fails = 0 }))
unfolding loop
loop-down_again a d iface iface' c w up = (
  ap some (tick-down a d iface d.conn c w),
  rw (tick-down a d iface d.conn c w)
      (ap some (tick-up_again a (record d { conn = none }) iface' refl w up)),
)

-- The intent asks for a zone to be up, and no connection to it comes up.
abbrev pub IsStubborn : Desired → Answers → Type 0
IsStubborn w a = (a.desired ≡ some w) × ((connect_zone w.zone (a.attempt w.zone)).0 ≡ none)

fail_over-none : (best : Option Text) (d : Daemon) → d.conn ≡ none → (fail_over best d).conn ≡ none
unfolding fail_over
fail_over-none best d e = ground (arith, Option-cases (next_zone best d.zone))

retry-none :
    (a : Answers) (d : Daemon)
    → (connect_zone d.zone (a.attempt d.zone)).0 ≡ none
    → (retry a d).0.conn ≡ none
unfolding retry retried
retry-none a d e = rw e (fail_over-none a.best (record d { conn = none; fails = d.fails + 1 }) refl)

serve-none :
    (a : Answers) (d : Daemon) (c : Option Text)
    → c ≡ none
    → (connect_zone d.zone (a.attempt d.zone)).0 ≡ none
    → (serve a d c).0.conn ≡ none
unfolding serve
serve-none a d c e h = rw e (retry-none a d h)

wanted-cases :
    (w : Desired) (zone : Text)
    → w.desired ≡ codes "up"
    → w.zone ≢ []
    → w.zone ≢ codes "--best"
    → ((wanted_zone (some w) zone ≡ none) × (w.zone ≡ zone))
      ⊎ (wanted_zone (some w) zone ≡ some w.zone)
wanted-cases w zone up named b = ground (
  arith,
  ==_iff w.desired (codes "up"),
  ==_iff w.zone [],
  ==_iff w.zone (codes "--best"),
  ==_iff w.zone zone,
)

serve_wanted-stubborn :
    (a : Answers) (w : Desired) (d : Daemon) (z : Option Text)
    → (connect_zone w.zone (a.attempt w.zone)).0 ≡ none
    → d.conn ≡ none
    → ((z ≡ none) × (w.zone ≡ d.zone)) ⊎ (z ≡ some w.zone)
    → (serve_wanted a d z).0.conn ≡ none
unfolding serve_wanted
serve_wanted-stubborn a w d z h c (inl (e, same)) =
    rw e (serve-none a d d.conn c (subst (λ t. (connect_zone t (a.attempt t)).0 ≡ none) same h))
serve_wanted-stubborn a w d z h c (inr e) =
    rw e (serve-none a (record d { zone = w.zone; conn = none; fails = 0 }) none refl h)

tick-stubborn :
    (a : Answers) (w : Desired) (d : Daemon) (co : Option Text)
    → w.desired ≡ codes "up"
    → w.zone ≢ []
    → w.zone ≢ codes "--best"
    → d.conn ≡ none
    → co ≡ none
    → IsStubborn w a
    → (on_tick a d co).0.conn ≡ none
unfolding on_tick
tick-stubborn a w d (some i) up named b c e h = cc
tick-stubborn a w d none up named b c e h =
    serve_wanted-stubborn a w d (wanted_zone a.desired d.zone) h.1 c
      (rw h.0 (wanted-cases w d.zone up named b))

-- While the intent asks for a zone that cannot be reached, the daemon without a connection stays without
-- one however many ticks pass and whatever zone is the best live one: the failover to that zone is undone
-- by the next tick before any attempt is made there.
pub loop-stubborn :
    (ticks : List Answers) (w : Desired) (d : Daemon)
    → w.desired ≡ codes "up"
    → w.zone ≢ []
    → w.zone ≢ codes "--best"
    → d.conn ≡ none
    → All (IsStubborn w) ticks
    → (d' : Daemon) × ((loop (map tick ticks) d).0 ≡ some d') × (d'.conn ≡ none)
unfolding loop
loop-stubborn [] w d up named b c h = (d, refl, c)
loop-stubborn (a ∷ rest) w d up named b c h =
    loop-stubborn rest w (on_tick a d d.conn).0 up named b
      (tick-stubborn a w d d.conn up named b c c h.0) h.1
