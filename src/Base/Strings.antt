-- ===== src/Base/Strings.antt =====
-- Go strings as lists of code points, with the equality and the order of Go's `==` and `<`, and the
-- functions of package `strings` that the program calls.
use Prim.Native.Nat.{ℕ}
use Prim.Native.Char.{code}
use Prim.Native.String.{String}
use mathlib.Core.Path.{◌≡◌, refl, sym, ap, ◌≡⟨◌⟩◌, ◌∎}
use mathlib.Core.Logic.{◌↔◌}
use mathlib.Core.Bool.{Bool, true, false, ◌&&◌, ◌||◌}
use mathlib.Core.List.{List, [], ◌∷◌, ◌++◌, reverse, reverse-reverse, reverse-append}
use native.Mathlib.Omega.{arith}
use mazzy_vpn.Base.Tests.{ltb, leb, nat_beq, if◌then◌else◌}

abbrev pub Text : Type 0
Text = List ℕ

-- A string literal.
abbrev pub codes : String → Text
codes String.[] = []
codes (String.◌∷◌ c s) = code c ∷ codes s

infix 50 ◌==◌
unfoldable pub ◌==◌ : Text → Text → Bool
[] == [] = true
[] == (y ∷ ys) = false
(x ∷ xs) == [] = false
(x ∷ xs) == (y ∷ ys) = nat_beq x y && xs == ys

pub ==_iff : (s t : Text) → ((s == t) ≡ true) ↔ (s ≡ t)
unfolding ◌==◌
==_iff [] [] = ground arith
==_iff [] (y ∷ ys) = ground arith
==_iff (x ∷ xs) [] = ground arith
==_iff (x ∷ xs) (y ∷ ys) = ground (arith, ==_iff xs ys)

pub ==_refl : (s : Text) → (s == s) ≡ true
==_refl s = (==_iff s s).1 refl

-- Go compares strings byte by byte, which is the order of their code points.
infix 50 ◌<=◌
unfoldable pub ◌<=◌ : Text → Text → Bool
[] <= ys = true
(x ∷ xs) <= [] = false
(x ∷ xs) <= (y ∷ ys) = ltb x y || (nat_beq x y && xs <= ys)

pub <=_total : (s t : Text) → (s <= t) ≡ false → (t <= s) ≡ true
unfolding ◌<=◌
<=_total [] ys h = ground arith
<=_total (x ∷ xs) [] h = refl
<=_total (x ∷ xs) (y ∷ ys) h = ground (arith, <=_total xs ys)

pub <=_trans : (s t u : Text) → (s <= t) ≡ true → (t <= u) ≡ true → (s <= u) ≡ true
unfolding ◌<=◌
<=_trans [] t u h k = refl
<=_trans (x ∷ xs) [] u h k = ground arith
<=_trans (x ∷ xs) (y ∷ ys) [] h k = ground arith
<=_trans (x ∷ xs) (y ∷ ys) (z ∷ zs) h k = ground (arith, <=_trans xs ys zs)

-- unicode.IsSpace
unfoldable pub is_space : ℕ → Bool
is_space c =
    (leb 9 c && leb c 13)
    || nat_beq c 32
    || nat_beq c 0x85
    || nat_beq c 0xa0
    || nat_beq c 0x1680
    || (leb 0x2000 c && leb c 0x200a)
    || nat_beq c 0x2028
    || nat_beq c 0x2029
    || nat_beq c 0x202f
    || nat_beq c 0x205f
    || nat_beq c 0x3000

unfoldable pub trim_left : Text → Text
trim_left [] = []
trim_left (c ∷ s) = if is_space c then trim_left s else c ∷ s

-- strings.TrimSpace
unfoldable pub trim_space : Text → Text
unfolding trim_left is_space
trim_space s = reverse (trim_left (reverse (trim_left s)))

-- strings.HasPrefix
unfoldable pub has_prefix : Text → Text → Bool
has_prefix s [] = true
has_prefix [] (y ∷ ys) = false
has_prefix (x ∷ xs) (y ∷ ys) = nat_beq x y && has_prefix xs ys

-- strings.HasSuffix
unfoldable pub has_suffix : Text → Text → Bool
unfolding has_prefix
has_suffix s t = has_prefix (reverse s) (reverse t)

has_prefix-split : (s t : Text) → has_prefix s t ≡ true → (rest : Text) × (s ≡ t ++ rest)
unfolding has_prefix
has_prefix-split s [] h = (s, refl)
has_prefix-split [] (y ∷ ys) h = cc
has_prefix-split (x ∷ xs) (y ∷ ys) h =
    let (rest, e) = has_prefix-split xs ys (ground arith) in (rest, ground arith)

has_prefix-append : (s t : Text) → has_prefix (s ++ t) s ≡ true
unfolding has_prefix
has_prefix-append [] t = ground arith
has_prefix-append (x ∷ xs) t = ground (arith, has_prefix-append xs t)

pub has_suffix-split : (s t : Text) → has_suffix s t ≡ true → (r : Text) × (s ≡ r ++ t)
unfolding has_suffix
has_suffix-split s t h =
    let (rest, e) = has_prefix-split (reverse s) (reverse t) h in
    (
      reverse rest,
      s
          ≡⟨ sym (reverse-reverse s) ⟩ reverse (reverse s)
          ≡⟨ ap reverse e ⟩ reverse (reverse t ++ rest)
          ≡⟨ reverse-append (reverse t) rest ⟩ reverse rest ++ reverse (reverse t)
          ≡⟨ ap (◌++◌ (reverse rest)) (reverse-reverse t) ⟩ reverse rest ++ t ∎,
    )

pub has_suffix-append : (r t : Text) → has_suffix (r ++ t) t ≡ true
unfolding has_suffix
has_suffix-append r t = rw (reverse-append r t) (has_prefix-append (reverse t) (reverse r))
