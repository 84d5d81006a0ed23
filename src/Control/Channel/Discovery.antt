-- ===== src/Control/Channel/Discovery.antt =====
-- Reachable lists what Open would open (core/control/channel.go).
use mazzy_vpn.Base.{
  ◌≡◌, ◌≢◌, Bool, true, false, not, ◌&&◌, ◌||◌, List, [], ◌∷◌, arith, refl, Text, ◌==◌, ==_iff, any,
  contains, Bool-cases, inl, inr, IsSorted, ◌<=◌, ℤ, is_some, any-sort, any-append, any_at,
  sort-IsSorted, <=_total, <=_trans, ◌∙◌,
}
use mazzy_vpn.Base.Dict
use mazzy_vpn.Base.Dict.{contains-keys, Dict}
use mazzy_vpn.Control.Grants.{Scope}
use mazzy_vpn.Control.Plane.{Plane, get_participant, participant_ids}
use mazzy_vpn.Control.Channel.{
  Broker, Channel, Opening, ok, err, make_channel, open_channel, reachable, reachable_loop, collect,
}
use mazzy_vpn.Control.Channel.Gates.{admits, open_channel_exact}

-- The broker changes in its open channels only, and those decide nothing.
record SameStores (b c : Broker) : Type 0 where
  same_plane : c.plane ≡ b.plane
  same_trust : c.trust ≡ b.trust
  same_grants : c.grants ≡ b.grants

open_channel_same :
    (b c : Broker) (from to : Text) (scope : Scope) (now : ℤ)
    → SameStores b c
    → ((open_channel c from to scope now).1 ≡ (open_channel b from to scope now).1)
      × SameStores b (open_channel c from to scope now).0
unfolding open_channel make_channel
open_channel_same b c from to scope now h = ground arith

-- A channel that Open returns has the target that was asked for, and is admitted.
open_channel_ok :
    (b : Broker) (from to : Text) (scope : Scope) (now : ℤ) (ch : Channel)
    → (open_channel b from to scope now).1 ≡ ok ch
    → (ch.to ≡ to) × (ch.from ≡ from) × (admits b from to scope now ≡ true)
unfolding open_channel make_channel
open_channel_ok b from to scope now ch e = ground arith

-- The channel of an opening passes the test.
abbrev hit : (Channel → Bool) → Opening → Bool
hit p (ok ch) = p ch
hit p (err _) = false

any-collect :
    (p : Channel → Bool) (o : Opening) (out : List Channel)
    → any p (collect o out) ≡ (any p out || hit p o)
unfolding any
any-collect p (ok ch) out = ground (arith, any-append p out (ch ∷ []))
any-collect p (err e) out = ground arith

contains-participant_ids :
    (p : Plane) (id : Text) → contains id (participant_ids p) ≡ is_some (get_participant p id)
unfolding participant_ids get_participant
contains-participant_ids p id =
    any-sort ◌<=◌ (λ x. x == id) (Dict.keys p.participants) ∙ contains-keys p.participants id

module _ (b : Broker) (from : Text) (scope : Scope) (now : ℤ) where
  any-reachable_loop :
      (p : Channel → Bool) (c : Broker) (out : List Channel) (ids : List Text)
      → SameStores b c
      → any p (reachable_loop c from scope now out ids).1 ≡ (
          any p out
          || any (λ to. not (to == from) && hit p (open_channel b from to scope now).1) ids)
  unfolding reachable_loop any
  any-reachable_loop p c out [] h = ground arith
  any-reachable_loop p c out (to ∷ ids) h =
      let (one, next) = open_channel_same b c from to scope now h in
      ground (
        arith,
        one,
        any-reachable_loop p c out ids h,
        any-reachable_loop p (open_channel c from to scope now).0
            (collect (open_channel c from to scope now).1 out) ids next,
        any-collect p (open_channel c from to scope now).1 out,
      )

  not_hit :
      (t : Text) (o : Opening) → ((ch : Channel) → o ≢ ok ch) → hit (λ ch. ch.to == t) o ≡ false
  not_hit t (ok ch) h = absurd (h ch refl)
  not_hit t (err e) h = refl

  hit_target :
      (t to : Text)
      → hit (λ ch. ch.to == t) (open_channel b from to scope now).1
        ≡ (to == t && admits b from to scope now)
  unfolding make_channel
  hit_target t to = elim (Bool-cases (admits b from to scope now)) [
    | inl e ↦ ground (arith, (open_channel_exact b from to scope now).0 e)
    | inr e ↦ ground (
      arith,
      not_hit t (open_channel b from to scope now).1
          ((open_channel_exact b from to scope now).1 e).1,
    )
  ]

  -- Reachable lists a channel to a target exactly where the target is not the initiator itself and
  -- Open's gates pass, and lists the channels in ascending order of their targets.
  pub reachable_admits :
      ((to : Text)
        → any (λ ch. ch.to == to) (reachable b from scope now).1
          ≡ (not (to == from) && admits b from to scope now))
      × IsSorted (λ (x y : Channel). x.to <= y.to) (reachable b from scope now).1
  unfolding reachable any
  reachable_admits = (
    λ to.
        any-sort (λ (x y : Channel). x.to <= y.to) (λ ch. ch.to == to)
          (reachable_loop b from scope now [] (participant_ids b.plane)).1
        ∙ any-reachable_loop (λ ch. ch.to == to) b [] (participant_ids b.plane)
            (record { same_plane = refl; same_trust = refl; same_grants = refl })
        ∙ any_at to _ (λ x. not (x == from) && admits b from x scope now)
            (λ x. ground (arith, hit_target to x, ==_iff x to)) (participant_ids b.plane)
        ∙ ground (arith, contains-participant_ids b.plane to),
    sort-IsSorted (λ (x y : Channel). x.to <= y.to) (λ x y. <=_total x.to y.to)
        (λ x y z. <=_trans x.to y.to z.to)
        (reachable_loop b from scope now [] (participant_ids b.plane)).1,
  )
