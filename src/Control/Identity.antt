-- ===== src/Control/Identity.antt =====
-- core/control/identity.go: identities derived from Ed25519 keys. The primitives of crypto/ed25519
-- and crypto/sha256 are a parameter, with the laws that their documentation gives.
pub mod Alphabet
use mazzy_vpn.Base.{
  ℕ, zero, suc, ◌+◌, ◌*◌, ◌/◌, ◌%◌, ◌≤◌, ◌<◌, ◌≡◌, refl, Bool, true, false, ◌&&◌, Option, none,
  some, List, [], ◌∷◌, arith, ltb, nat_beq, if◌then◌else◌, Text, ◌==◌, codes, length,
}

-- What the program relies on of the Go standard library's cryptography.
pub record Crypto : Type 0 where
  pub sha256 : Text → Text
  pub public : Text → Text  -- the public half of a private key
  pub sign : Text → Text → Text
  pub verify : Text → Text → Text → Bool
  pub length-sha256 : (m : Text) → length (sha256 m) ≡ 32
  pub length-public : (priv : Text) → length (public priv) ≡ 32
  pub verify-sign : (priv msg : Text) → verify (public priv) msg (sign priv msg) ≡ true

abbrev pub public_key_size : ℕ
public_key_size = 32

-- A symbol of the standard base32 alphabet.
pub symbol : ℕ → ℕ
symbol n = if ltb n 26 then b'A' + n else b'2' + n % 26

-- Five bytes are eight symbols of five bits each.
pub encode_group : ℕ → ℕ → ℕ → ℕ → ℕ → Text → Text
unfolding symbol
encode_group a b c d e rest =
    symbol (a / 8 % 32)
    ∷ symbol (a % 8 * 4 + b / 64 % 4)
    ∷ symbol (b / 2 % 32)
    ∷ symbol (b % 2 * 16 + c / 16 % 16)
    ∷ symbol (c % 16 * 2 + d / 128 % 2)
    ∷ symbol (d / 4 % 32)
    ∷ symbol (d % 4 * 8 + e / 32 % 8)
    ∷ symbol (e % 32)
    ∷ rest

-- base32.StdEncoding without padding, at the whole groups of five bytes.
pub encode_base32 : Text → Text
unfolding encode_group
encode_base32 (a ∷ b ∷ c ∷ d ∷ e ∷ rest) = encode_group a b c d e (encode_base32 rest)
encode_base32 _ = []

-- sum[:n]
pub take : ℕ → Text → Text
take zero xs = []
take (suc n) [] = []
take (suc n) (x ∷ xs) = x ∷ take n xs

pub record Identity : Type 0 where
  pub id : Text
  pub public_key : Text
  pub priv : Option Text

pub data KeyError : Type 0 where
  no_private_key id_key_mismatch no_issuer : KeyError

module _ (crypto : Crypto) where
  unfoldable pub derive_id : Text → Text
  unfolding encode_base32 take
  derive_id pub_key = encode_base32 (take 10 (crypto.sha256 pub_key))

  -- `generated` is what ed25519.GenerateKey returns: a private key, or an error.
  unfoldable pub new_identity : Option Text → Option Identity
  new_identity none = none
  new_identity (some priv) =
      let pub_key = crypto.public priv in
      some (record { id = derive_id pub_key; public_key = pub_key; priv = some priv })

  unfoldable pub identity_from_key : Text → Identity
  identity_from_key pub_key = record { id = derive_id pub_key; public_key = pub_key; priv = none }

  -- `none` stands for errNoPrivateKey
  unfoldable pub sign : Identity → Text → Option Text
  sign i msg = elim i.priv [ none ↦ none | some priv ↦ some (crypto.sign priv msg) ]

  unfoldable pub verify : Identity → Text → Text → Bool
  verify i msg sig =
      if nat_beq (length i.public_key) public_key_size
      then crypto.verify i.public_key msg sig
      else false

  unfoldable pub verify_id : Text → Text → Bool
  verify_id id pub_key = nat_beq (length pub_key) public_key_size && derive_id pub_key == id
