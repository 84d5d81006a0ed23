-- ===== src/Control/Grants/Keys.antt =====
-- The keys "from->to" of the grant book (core/control/grant.go).
use mazzy_vpn.Base.{
  ℕ, ◌≡◌, ◌≢◌, true, [], ◌∷◌, ◌++◌, arith, refl, Text, codes, ◌==◌, ==_iff, All, has_suffix,
  has_suffix-split, has_suffix-append, append_assoc, sym, ◌&&◌,
}
use mazzy_vpn.Control.Identity.{Crypto, derive_id}
use mazzy_vpn.Control.Identity.Alphabet.{IsSymbol, derive_id-IsSymbol}
use mazzy_vpn.Control.Grants.{key, targets}

-- No hyphen, which derived IDs satisfy.
abbrev pub NoDash : Text → Type 0
NoDash s = All (λ c. c ≢ b'-') s

head_tail : (a b : ℕ) (s t : Text) → Path Text (a ∷ s) (b ∷ t) → (a ≡ b) × (s ≡ t)
head_tail a b s t p = ground arith

key_injective_from : (a b c d : Text) → NoDash a → NoDash c → key a b ≡ key c d → (a ≡ c) × (b ≡ d)
unfolding key
key_injective_from [] b [] d ha hc p = (refl, (head_tail _ _ _ _ (head_tail _ _ _ _ p).1).1)
key_injective_from [] b (y ∷ ys) d ha hc p = absurd (hc.0 (sym (head_tail _ _ _ _ p).0))
key_injective_from (x ∷ xs) b [] d ha hc p = absurd (ha.0 (head_tail _ _ _ _ p).0)
key_injective_from (x ∷ xs) b (y ∷ ys) d ha hc p =
    let (e, q) = head_tail _ _ _ _ p in
    let (f, g) = key_injective_from xs b ys d ha.1 hc.1 q in (cc, g)

-- Keys whose sources have no hyphen are equal exactly for the same source and the same target.
pub key==key : (a b c d : Text) → NoDash a → NoDash c → (key a b == key c d) ≡ (a == c && b == d)
key==key a b c d ha hc =
    ground
      (arith, ==_iff (key a b) (key c d), ==_iff a c, ==_iff b d, key_injective_from a b c d ha hc)

-- The key of a -> "b->c" is the key of "a->b" -> c.
pub key_collision : (a b c : Text) → key a (key b c) ≡ key (key a b) c
unfolding key
key_collision a b c = simp (append_assoc, codes)

symbols-NoDash : (s : Text) → All IsSymbol s → NoDash s
symbols-NoDash [] h = tt
symbols-NoDash (c ∷ s) h = (omega (arith, h.0), symbols-NoDash s h.1)

pub derive_id-NoDash : (crypto : Crypto) (pub_key : Text) → NoDash (derive_id crypto pub_key)
derive_id-NoDash crypto pub_key =
    symbols-NoDash (derive_id crypto pub_key) (derive_id-IsSymbol crypto pub_key)

NoDash-within : (b x y : Text) → NoDash x → ¬ (x ≡ b ++ (b'-' ∷ y))
NoDash-within [] [] y h p = cc
NoDash-within [] (d ∷ x) y h p = h.0 (head_tail _ _ _ _ p).0
NoDash-within (c ∷ b) [] y h p = cc
NoDash-within (c ∷ b) (d ∷ x) y h p = NoDash-within b x y h.1 (head_tail _ _ _ _ p).1

-- The last hyphen of the two sides stands at one place.
last_dash :
    (a b : Text) (x y : Text) → NoDash x → NoDash y → a ++ (b'-' ∷ x) ≡ b ++ (b'-' ∷ y) → x ≡ y
last_dash [] [] x y hx hy p = (head_tail _ _ _ _ p).1
last_dash [] (c ∷ b) x y hx hy p = absurd (NoDash-within b x y hx (head_tail _ _ _ _ p).1)
last_dash (c ∷ a) [] x y hx hy p = absurd (NoDash-within a y x hy (sym (head_tail _ _ _ _ p).1))
last_dash (c ∷ a) (d ∷ b) x y hx hy p = last_dash a b x y hx hy (head_tail _ _ _ _ p).1

same_target :
    (from x to : Text)
    → NoDash x
    → NoDash to
    → has_suffix (key from x) (codes "->" ++ to) ≡ true
    → x ≡ to
unfolding key
same_target from x to hx ht h =
    let (r, e) = has_suffix-split (key from x) (codes "->" ++ to) h in
    (head_tail _ _ _ _
      (last_dash from r (b'>' ∷ x) (b'>' ∷ to) (omega arith, hx) (omega arith, ht) e)).1

-- "from->x" ends in "->to" exactly for the target `to`.
pub targets-key : (from x to : Text) → NoDash x → NoDash to → targets to (key from x) ≡ (x == to)
unfolding targets key
targets-key from x to hx ht =
    ground
      (arith, ==_iff x to, same_target from x to hx ht, has_suffix-append from (codes "->" ++ to))
