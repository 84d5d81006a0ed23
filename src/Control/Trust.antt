-- ===== src/Control/Trust.antt =====
-- core/control/trust.go: the local store of trusted participants.
pub mod Authentic
use mazzy_vpn.Base.{
  ℕ, ◌≡◌, Bool, true, false, ◌&&◌, Option, none, some, List, [], ◌∷◌, nat_beq, if◌then◌else◌, Text,
  length,
}
use mazzy_vpn.Base.Dict
use mazzy_vpn.Base.Dict.{Dict}
use mazzy_vpn.Control.Identity.{Crypto, KeyError, id_key_mismatch, verify_id, public_key_size}

pub data TrustLevel : Type 0 where
  untrusted paired owned : TrustLevel

pub record TrustEntry : Type 0 where
  pub pub_key : Text
  pub level : TrustLevel

abbrev pub TrustStore : Type 0
TrustStore = Dict TrustEntry

abbrev pub new_trust_store : TrustStore
new_trust_store = []

abbrev pub is_owned : Option TrustEntry → Bool
is_owned none = false
is_owned (some e) = elim e.level [ owned ↦ true | _ ↦ false ]

unfoldable pub level : TrustStore → Text → TrustLevel
level s id = elim (Dict.get s id) [ none ↦ untrusted | some e ↦ e.level ]

unfoldable pub key : TrustStore → Text → Option Text
key s id = elim (Dict.get s id) [ none ↦ none | some e ↦ some e.pub_key ]

-- level >= Paired
abbrev pub at_least_paired : TrustLevel → Bool
at_least_paired untrusted = false
at_least_paired _ = true

unfoldable pub is_trusted : TrustStore → Text → Bool
unfolding level
is_trusted s id = at_least_paired (level s id)

unfoldable pub unpair : TrustStore → Text → TrustStore
unpair s id = Dict.remove s id

module _ (crypto : Crypto) where
  -- An owned entry is not downgraded.
  unfoldable pub pair : TrustStore → Text → Text → TrustStore × Option KeyError
  pair s id pub_key =
      if verify_id crypto id pub_key
      then (if is_owned (Dict.get s id)
          then (Dict.put s id (record { pub_key = pub_key; level = owned }), none)
          else (Dict.put s id (record { pub_key = pub_key; level = paired }), none))
      else (s, some id_key_mismatch)

  unfoldable pub set_owned : TrustStore → Text → Text → TrustStore × Option KeyError
  set_owned s id pub_key =
      if verify_id crypto id pub_key
      then (Dict.put s id (record { pub_key = pub_key; level = owned }), none)
      else (s, some id_key_mismatch)

  -- ed25519.Verify panics on a key that is not 32 bytes long: `none` is that panic.
  unfoldable pub verify_from : TrustStore → Text → Text → Text → Option Bool
  unfolding key
  verify_from s id msg sig = elim (key s id) [
    | none ↦ some false
    | some pub_key ↦
        if nat_beq (length pub_key) public_key_size
        then some (crypto.verify pub_key msg sig)
        else none
  ]
