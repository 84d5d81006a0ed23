-- ===== src/Control/Identity/Alphabet.antt =====
-- The characters of a derived ID (core/control/identity.go).
use mazzy_vpn.Base.{ℕ, zero, suc, ◌*◌, ◌≤◌, ◌<◌, ◌≡◌, refl, ◌⊎◌, [], ◌∷◌, arith, Text, length, All}
use mazzy_vpn.Control.Identity.{Crypto, symbol, encode_group, encode_base32, take, derive_id}

-- A to Z, or 2 to 7.
abbrev pub IsSymbol : ℕ → Type 0
IsSymbol c = ((b'A' ≤ c) × (c ≤ b'Z')) ⊎ ((b'2' ≤ c) × (c ≤ b'7'))

symbol-IsSymbol : (n : ℕ) → n < 32 → IsSymbol (symbol n)
unfolding symbol
symbol-IsSymbol n h = ground arith

encode_group-IsSymbol :
    (a b c d e : ℕ) (rest : Text) → All IsSymbol rest → All IsSymbol (encode_group a b c d e rest)
unfolding encode_group
encode_group-IsSymbol a b c d e rest h =
    let ok = λ (n : ℕ) (lt : n < 32). symbol-IsSymbol n lt in
    (
      ok _ (omega arith),
      (
        ok _ (omega arith),
        (
          ok _ (omega arith),
          (
            ok _ (omega arith),
            (
              ok _ (omega arith),
              (ok _ (omega arith), (ok _ (omega arith), (ok _ (omega arith), h))),
            ),
          ),
        ),
      ),
    )

encode_base32-IsSymbol : (s : Text) → All IsSymbol (encode_base32 s)
unfolding encode_base32
encode_base32-IsSymbol (a ∷ b ∷ c ∷ d ∷ e ∷ rest) =
    encode_group-IsSymbol a b c d e (encode_base32 rest) (encode_base32-IsSymbol rest)
encode_base32-IsSymbol _ = tt

-- Every character of a derived ID is one of A to Z and 2 to 7, in upper case.
pub derive_id-IsSymbol :
    (crypto : Crypto) (pub_key : Text) → All IsSymbol (derive_id crypto pub_key)
unfolding derive_id
derive_id-IsSymbol crypto pub_key = encode_base32-IsSymbol (take 10 (crypto.sha256 pub_key))

length-take : (n : ℕ) (s : Text) → n ≤ length s → length (take n s) ≡ n
unfolding take
length-take zero s h = refl
length-take (suc n) [] h = absurd (omega arith)
length-take (suc n) (x ∷ s) h = omega (arith, length-take n s)

length-encode_base32 : (s : Text) (n : ℕ) → length s ≡ 5 * n → length (encode_base32 s) ≡ 8 * n
unfolding encode_base32 encode_group
length-encode_base32 (a ∷ b ∷ c ∷ d ∷ e ∷ rest) zero h = absurd (omega arith)
length-encode_base32 (a ∷ b ∷ c ∷ d ∷ e ∷ rest) (suc n) h =
    omega (arith, length-encode_base32 rest n (omega arith))
length-encode_base32 _ n h = omega arith

-- A derived ID has sixteen characters.
pub length-derive_id : (crypto : Crypto) (pub_key : Text) → length (derive_id crypto pub_key) ≡ 16
unfolding derive_id
length-derive_id crypto pub_key =
    let sum = crypto.sha256 pub_key in
    length-encode_base32 (take 10 sum) 2
      (length-take 10 sum (omega (arith, crypto.length-sha256 pub_key)))
