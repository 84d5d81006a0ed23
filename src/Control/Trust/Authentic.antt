-- ===== src/Control/Trust/Authentic.antt =====
-- What every sequence of trust operations keeps (core/control/trust.go).
use mazzy_vpn.Base.{
  ◌≡◌, Option-cases, ◌&&◌, Bool, true, false, none, some, List, [], ◌∷◌, if◌then◌else◌, Text,
  ==_iff, ◌==◌, arith, inl, inr,
}
use mazzy_vpn.Base.Dict
use mazzy_vpn.Base.Dict.{get-put, get-remove}
use mazzy_vpn.Control.Identity.{Crypto, verify_id}
use mazzy_vpn.Control.Trust.{
  TrustStore, TrustEntry, new_trust_store, owned, paired, is_owned, pair, set_owned, unpair, level,
  is_trusted, verify_from, at_least_paired,
}

-- A call that changes the store.
pub data TrustOp : Type 0 where
  op_pair op_set_owned : Text → Text → TrustOp
  op_unpair : Text → TrustOp

module _ (crypto : Crypto) where
  unfoldable pub apply_op : TrustStore → TrustOp → TrustStore
  apply_op s (op_pair id pub_key) = (pair crypto s id pub_key).0
  apply_op s (op_set_owned id pub_key) = (set_owned crypto s id pub_key).0
  apply_op s (op_unpair id) = unpair s id

  unfoldable pub run_ops : TrustStore → List TrustOp → TrustStore
  unfolding apply_op
  run_ops s [] = s
  run_ops s (op ∷ ops) = run_ops (apply_op s op) ops

  -- The stored key of `id` accepts the signature.
  abbrev pub signed_by : TrustStore → Text → Text → Text → Bool
  signed_by s id msg sig = elim (Dict.get s id) [
    | none ↦ false
    | some e ↦ crypto.verify e.pub_key msg sig
  ]

  -- The key of an entry derives its ID, and the entry is at least paired.
  abbrev pub IsAuthenticEntry : Text → TrustEntry → Type 0
  IsAuthenticEntry id e = (verify_id crypto id e.pub_key ≡ true) × (at_least_paired e.level ≡ true)

  pub record IsAuthentic (s : TrustStore) : Type 0 where
    pub at_id : (id : Text) (e : TrustEntry) → Dict.get s id ≡ some e → IsAuthenticEntry id e

  apply_op-IsAuthentic :
      (s : TrustStore) (op : TrustOp) → IsAuthentic s → IsAuthentic (apply_op s op)
  unfolding apply_op pair set_owned unpair
  apply_op-IsAuthentic s (op_pair id pub_key) h = record {
    at_id = λ j x p. ground (
      arith,
      get-put s id (record { pub_key = pub_key; level = owned }) j,
      get-put s id (record { pub_key = pub_key; level = paired }) j,
      ==_iff id j,
      h.at_id j x,
    );
  }
  apply_op-IsAuthentic s (op_set_owned id pub_key) h = record {
    at_id = λ j x p. ground (
      arith,
      get-put s id (record { pub_key = pub_key; level = owned }) j,
      ==_iff id j,
      h.at_id j x,
    );
  }
  apply_op-IsAuthentic s (op_unpair id) h = record {
    at_id = λ j x p. ground (arith, get-remove s id j, h.at_id j x);
  }

  run_ops-IsAuthentic :
      (s : TrustStore) (ops : List TrustOp) → IsAuthentic s → IsAuthentic (run_ops s ops)
  unfolding run_ops
  run_ops-IsAuthentic s [] h = h
  run_ops-IsAuthentic s (op ∷ ops) h =
      run_ops-IsAuthentic (apply_op s op) ops (apply_op-IsAuthentic s op h)

  not-get-nil : (id : Text) (e : TrustEntry) → ¬ (Dict.get [] id ≡ some e)
  unfolding Dict.get
  not-get-nil id e p = cc

  -- After any calls on an empty store, every entry's key derives its ID and its level is at least
  -- Paired.
  pub trust_store-IsAuthentic : (ops : List TrustOp) → IsAuthentic (run_ops new_trust_store ops)
  trust_store-IsAuthentic ops =
      run_ops-IsAuthentic new_trust_store ops
        (record { at_id = λ id e p. absurd (not-get-nil id e p) })

  verify_from_of_IsAuthentic :
      (s : TrustStore) (id msg sig : Text)
      → IsAuthentic s
      → verify_from crypto s id msg sig ≡ some (is_trusted s id && signed_by s id msg sig)
  unfolding verify_from is_trusted verify_id
  verify_from_of_IsAuthentic s id msg sig h = elim (Option-cases (Dict.get s id)) [
    | inl e ↦ ground arith
    | inr (e, p) ↦ ground (arith, h.at_id id e p)
  ]

  -- After any calls on an empty store, VerifyFrom never panics, and it accepts exactly where the
  -- participant is trusted and its stored key accepts the signature.
  pub verify_from_exact :
      (ops : List TrustOp) (id msg sig : Text)
      → let s = run_ops new_trust_store ops in
        verify_from crypto s id msg sig ≡ some (is_trusted s id && signed_by s id msg sig)
  verify_from_exact ops id msg sig =
      verify_from_of_IsAuthentic (run_ops new_trust_store ops) id msg sig
        (trust_store-IsAuthentic ops)

  -- Pair changes no store where the key does not derive the ID; where it does, the ID's level is
  -- Owned if it was Owned and else Paired, and no other ID's level changes.
  pub level-pair :
      (s : TrustStore) (id pub_key j : Text)
      → level (pair crypto s id pub_key).0 j ≡ (
          if verify_id crypto id pub_key && id == j
          then (if is_owned (Dict.get s id) then owned else paired)
          else level s j)
  unfolding level pair
  level-pair s id pub_key j = ground (
    arith,
    get-put s id (record { pub_key = pub_key; level = owned }) j,
    get-put s id (record { pub_key = pub_key; level = paired }) j,
    ==_iff id j,
  )
