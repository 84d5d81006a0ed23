-- ===== src/Control/Grants/Signing.antt =====
-- Signatures of issued grants (core/control/grant.go).
use mazzy_vpn.Base.{◌≡◌, true, some, refl, Text, ℤ, ap, subst}
use mazzy_vpn.Control.Identity
use mazzy_vpn.Control.Identity.{Crypto, Identity, identity_from_key, new_identity, derive_id}
use mazzy_vpn.Control.Grants.{
  Grant, GrantBook, issued, issue, store, record_signed, stamp, signing_bytes, verify,
}

-- The signature is not among the bytes that are signed.
signing_bytes_unsigned :
    (g : Grant) (sig : Text) → signing_bytes (record g { signature = sig }) ≡ signing_bytes g
unfolding signing_bytes
signing_bytes_unsigned g sig = refl

module _ (crypto : Crypto) (priv : Text) where
  -- What new_identity makes of a private key.
  abbrev owner : Identity
  owner = record {
    id = derive_id crypto (crypto.public priv);
    public_key = crypto.public priv;
    priv = some priv;
  }

  abbrev signed : Grant → ℤ → Grant
  signed g now =
      let g' = stamp owner now g in record g' { signature = crypto.sign priv (signing_bytes g') }

  issue-owner :
      (b : GrantBook) (g : Grant) (now : ℤ)
      → issue crypto b (some owner) g now ≡ (store b (signed g now), issued (signed g now))
  unfolding issue record_signed Identity.sign
  issue-owner b g now = refl

  verify-signed :
      (g : Grant) (now : ℤ)
      → verify crypto (signed g now) (identity_from_key crypto (crypto.public priv)) ≡ true
  unfolding verify identity_from_key Identity.verify
  verify-signed g now =
      rw
        (
          crypto.length-public priv,
          signing_bytes_unsigned (stamp owner now g)
              (crypto.sign priv (signing_bytes (stamp owner now g))),
        )
        (crypto.verify-sign priv (signing_bytes (stamp owner now g)))

-- An identity generated from a private key always issues: the grant keeps its source, target,
-- scopes and expiry, names the identity as its issuer, is the one that the book stores, and
-- verifies against the identity that anybody rebuilds from the issuer's public key.
pub verify-issue :
    (crypto : Crypto) (priv : Text) (issuer : Identity) (b : GrantBook) (g : Grant) (now : ℤ)
    → new_identity crypto (some priv) ≡ some issuer
    → (out : Grant) × (issue crypto b (some issuer) g now ≡ (store b out, issued out))
      × (verify crypto out (identity_from_key crypto issuer.public_key) ≡ true)
      × (out.issued_by ≡ issuer.id)
      × (out.from ≡ g.from)
      × (out.to ≡ g.to)
      × (out.scopes ≡ g.scopes)
      × (out.expires_at ≡ g.expires_at)
unfolding new_identity
verify-issue crypto priv issuer b g now new =
    let e : owner crypto priv ≡ issuer = cc in
    (
      signed crypto priv g now,
      subst
          (λ i.
            issue crypto b (some i) g now
            ≡ (store b (signed crypto priv g now), issued (signed crypto priv g now)))
          e (issue-owner crypto priv b g now),
      subst
          (λ (i : Identity).
            verify crypto (signed crypto priv g now) (identity_from_key crypto i.public_key) ≡ true)
          e (verify-signed crypto priv g now),
      ap (λ (i : Identity). i.id) e,
      refl,
      refl,
      refl,
      refl,
    )
