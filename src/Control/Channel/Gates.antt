-- ===== src/Control/Channel/Gates.antt =====
-- The three gates of Open (core/control/channel.go).
use mazzy_vpn.Base.{
  ◌≡◌, ◌≢◌, Bool, true, false, not, ◌&&◌, Option, none, some, [], arith, Text, ◌==◌, contains,
  IsSorted, ◌<=◌, ℤ, is_some, any-sort, sort-IsSorted, <=_total, <=_trans, ◌∙◌, refl, inl, inr,
  Bool-cases,
}
use mazzy_vpn.Base.Dict
use mazzy_vpn.Control.Trust.{is_trusted}
use mazzy_vpn.Control.Grants.{Scope, allows, scopes_on}
use mazzy_vpn.Control.Grants.Scopes.{contains-scopes_on}
use mazzy_vpn.Control.Plane.{Participant, get_participant}
use mazzy_vpn.Control.Channel.{
  Broker, Channel, Opening, ok, err, not_registered, make_channel, open_to, open_channel, edge,
}

abbrev pub endpoint_of : Option Participant → Text
endpoint_of none = []
endpoint_of (some part) = part.endpoint

-- Both participants are registered, the target is trusted, some grant conveys the scope, and the
-- target has an endpoint.
abbrev pub admits : Broker → Text → Text → Scope → ℤ → Bool
admits b from to scope now =
    is_some (get_participant b.plane from)
    && is_some (get_participant b.plane to)
    && is_trusted b.trust to
    && allows b.grants from to scope now
    && not (endpoint_of (get_participant b.plane to) == [])

-- The channel that Open makes.
abbrev pub channel_for : Broker → Text → Text → ℤ → Channel
channel_for b from to now = make_channel b from to (endpoint_of (get_participant b.plane to)) now

-- Open returns a channel exactly where all gates pass; it is then the channel to the registered
-- endpoint and is recorded under its edge. Where a gate fails the broker does not change and there is no channel.
pub open_channel_exact :
    (b : Broker) (from to : Text) (scope : Scope) (now : ℤ)
    → (admits b from to scope now ≡ true
        → open_channel b from to scope now ≡ (
          record b { opened = Dict.put b.opened (edge from to) (channel_for b from to now) },
          ok (channel_for b from to now),
        ))
      × (admits b from to scope now ≡ false
          → ((open_channel b from to scope now).0 ≡ b)
            × ((ch : Channel) → (open_channel b from to scope now).1 ≢ ok ch))
unfolding open_channel
open_channel_exact b from to scope now =
    (λ h. ground arith, λ h. (ground arith, λ ch e. ground arith))

abbrev pub is_open : Opening → Bool
is_open (ok ch) = true
is_open (err e) = false

-- A channel's scopes are, in ascending order, exactly those that the live grants of its edge convey.
pub scopes-make_channel :
    (b : Broker) (from to endpoint : Text) (now : ℤ)
    → ((s : Scope)
        → contains s (make_channel b from to endpoint now).scopes ≡ allows b.grants from to s now)
      × IsSorted ◌<=◌ (make_channel b from to endpoint now).scopes
unfolding make_channel
scopes-make_channel b from to endpoint now = (
  λ s.
      any-sort ◌<=◌ (λ x. x == s) (scopes_on b.grants from to now)
      ∙ contains-scopes_on b.grants from to s now,
  sort-IsSorted ◌<=◌ <=_total <=_trans (scopes_on b.grants from to now),
)

-- What is true of an answer: a channel is the one between the two, to the registered endpoint, opened now,
-- its scopes are in order and have s exactly if live grants convey it, and it is recorded under its edge;
-- without a channel the broker is as before.
abbrev pub IsOpening : Broker → Text → Text → ℤ → Scope → Broker → Opening → Type 0
IsOpening b from to now s b' (ok ch) =
    (ch.from ≡ from)
    × (ch.to ≡ to)
    × (ch.endpoint ≡ endpoint_of (get_participant b.plane to))
    × (ch.opened_at ≡ now)
    × (contains s ch.scopes ≡ allows b.grants from to s now)
    × IsSorted ◌<=◌ ch.scopes
    × (b' ≡ record b { opened = Dict.put b.opened (edge from to) ch })
IsOpening b from to now s b' (err _) = b' ≡ b

open_to-IsOpening :
    (b : Broker) (from to : Text) (scope : Scope) (now : ℤ) (s : Scope) (target : Participant)
    → get_participant b.plane to ≡ some target
    → let r = open_to b from to target scope now in
      (is_open r.1 ≡ (
        is_trusted b.trust to && allows b.grants from to scope now && not (target.endpoint == [])))
      × IsOpening b from to now s r.0 r.1
unfolding open_to make_channel
open_to-IsOpening b from to scope now s target e = elim (Bool-cases (is_trusted b.trust to)) [
  | inr u ↦ rw u (refl, refl)
  | inl trusted ↦ elim (Bool-cases (allows b.grants from to scope now)) [
    | inr u ↦ rw trusted (rw u (refl, refl))
    | inl allowed ↦ elim (Bool-cases (target.endpoint == [])) [
      | inl u ↦ rw trusted (rw allowed (rw u (refl, refl)))
      | inr there ↦
          let p = scopes-make_channel b from to target.endpoint now in
          let registered : target.endpoint ≡ endpoint_of (get_participant b.plane to) = rw e refl in
          rw trusted
            (rw allowed (rw there (refl, (refl, refl, registered, refl, p.0 s, p.1, refl))))
    ]
  ]
]

-- Open with what the registry answers for the two.
looked_up-IsOpening :
    (b : Broker) (from to : Text) (scope : Scope) (now : ℤ) (s : Scope)
    (source found : Option Participant)
    → get_participant b.plane to ≡ found
    → let r : Broker × Opening = elim source [
      | none ↦ (b, err not_registered)
      | some _ ↦ elim found [
        | none ↦ (b, err not_registered)
        | some target ↦ open_to b from to target scope now
      ]
    ] in
      (is_open r.1 ≡ (
        is_some source
        && is_some found
        && is_trusted b.trust to
        && allows b.grants from to scope now
        && not (endpoint_of found == [])))
      × IsOpening b from to now s r.0 r.1
looked_up-IsOpening b from to scope now s none found e = (refl, refl)
looked_up-IsOpening b from to scope now s (some _) none e = (refl, refl)
looked_up-IsOpening b from to scope now s (some _) (some target) e =
    open_to-IsOpening b from to scope now s target e

-- Open returns a channel exactly if both are registered, the target is trusted and has an endpoint, and a
-- live grant conveys the scope. The channel then is the one between the two, to the endpoint that is
-- registered, its scopes are sorted and are those that live grants of its edge convey, and it is recorded
-- under its edge. Else the broker is unchanged.
pub open_channel-admits :
    (b : Broker) (from to : Text) (scope : Scope) (now : ℤ) (s : Scope)
    → let r = open_channel b from to scope now in
      (is_open r.1 ≡ admits b from to scope now) × IsOpening b from to now s r.0 r.1
unfolding open_channel
open_channel-admits b from to scope now s =
    looked_up-IsOpening b from to scope now s (get_participant b.plane from)
      (get_participant b.plane to) refl
