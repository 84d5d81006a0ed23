-- ===== src/Base/Decimal/RoundTrip.antt =====
-- ParseInt reads what the decimal notation writes.
use Prim.Native.Nat.{ℕ, zero, suc, ◌+◌, ◌-◌, ◌/◌, ◌%◌, ◌^◌, ◌<◌, ◌≤◌}
use mathlib.Core.List.{[], ◌∷◌}
use mathlib.Core.Path.{◌≡◌}
use mathlib.Core.Bool.{Bool, true, false, not}
use mathlib.Core.Option.{some}
use mathlib.Core.Logic.{ite, dite}
use mathlib.Core.WellFounded
use mathlib.Core.WellFounded.{Acc, Acc-prop}
use native.Mathlib.Decide.{dec_lt}
use native.Mathlib.Omega.{arith}
use mazzy_vpn.Base.Tests.{leb}
use mazzy_vpn.Base.Strings.{Text}
use mazzy_vpn.Base.Lists.{any, length}
use mazzy_vpn.Base.Int.{ℤ, pos, negsuc}
use mazzy_vpn.Base.Decimal.{
  emit, lt_wf, format_ℕ, format_ℤ, is_digit, parse_digits, parse_unsigned, below, positive,
  negative, parse_int,
}

abbrev digits : ℕ → Text → Text
digits n = emit n (lt_wf.apply n)

-- One round of the loop; the proof of termination that it is called with does not matter.
emit_round :
    (n : ℕ) (a : Acc ◌<◌ n) (b : Acc ◌<◌ (n / 10)) (out : Text)
    → emit n a out ≡ ite (dec_lt 0 n) (emit (n / 10) b ((b'0' + n % 10) ∷ out)) out
unfolding emit
emit_round n (Acc.intro _ smaller) b out = λ i.
    dite (dec_lt 0 n)
      (λ h. emit (n / 10) (Acc-prop (smaller (n / 10) (omega arith)) b i) ((b'0' + n % 10) ∷ out))
      (λ _. out)

round :
    (n : ℕ) (out : Text)
    → digits n out ≡ ite (dec_lt 0 n) (digits (n / 10) ((b'0' + n % 10) ∷ out)) out
round n out = emit_round n (lt_wf.apply n) (lt_wf.apply (n / 10)) out

parse_last :
    (n : ℕ) (out : Text) → parse_digits ((b'0' + n % 10) ∷ out) (n / 10) ≡ parse_digits out n
unfolding parse_digits
parse_last n out = ground arith

parse_digits-digits : (n : ℕ) (out : Text) → parse_digits (digits n out) 0 ≡ parse_digits out n
parse_digits-digits n =
    WellFounded.induction lt_wf
      {C = λ m. (out : Text) → parse_digits (digits m out) 0 ≡ parse_digits out m} n
      (λ m ih out. grind (arith, round m out, parse_last m out, ih (m / 10)))

abbrev pub is_number : Text → Bool
is_number s = not (any (λ c. not (is_digit c)) s)

abbrev starts_digit : Text → Bool
starts_digit [] = false
starts_digit (c ∷ s) = is_digit c

any-last :
    (n : ℕ) (out : Text)
    → any (λ c. not (is_digit c)) ((b'0' + n % 10) ∷ out) ≡ any (λ c. not (is_digit c)) out
unfolding any
any-last n out = ground arith

any-digits :
    (n : ℕ) (out : Text)
    → any (λ c. not (is_digit c)) (digits n out) ≡ any (λ c. not (is_digit c)) out
any-digits n =
    WellFounded.induction lt_wf
      {C = λ m.
        (out : Text) → any (λ c. not (is_digit c)) (digits m out) ≡ any (λ c. not (is_digit c)) out}
      n (λ m ih out. grind (arith, round m out, any-last m out, ih (m / 10)))

starts-last : (n : ℕ) (out : Text) → starts_digit ((b'0' + n % 10) ∷ out) ≡ true
starts-last n out = ground arith

starts-digits : (n : ℕ) (out : Text) → starts_digit out ≡ true → starts_digit (digits n out) ≡ true
starts-digits n =
    WellFounded.induction lt_wf
      {C = λ m. (out : Text) → starts_digit out ≡ true → starts_digit (digits m out) ≡ true} n
      (λ m ih out h. grind (arith, round m out, starts-last m out, ih (m / 10)))

length-digits : (k n : ℕ) (out : Text) → n < 10 ^ k → length (digits n out) ≤ k + length out
length-digits zero n out h = grind (arith, round n out)
length-digits (suc k) n out h =
    let ih = length-digits k (n / 10) ((b'0' + n % 10) ∷ out) (omega arith) in
    grind (arith, round n out, ih)

-- The notation of a number is its digits, with a first one, and is read back.
pub format_ℕ_lem :
    (n : ℕ)
    → (starts_digit (format_ℕ n) ≡ true)
      × (is_number (format_ℕ n) ≡ true)
      × (parse_digits (format_ℕ n) 0 ≡ some n)
unfolding format_ℕ any parse_digits
format_ℕ_lem n = ground (
  arith,
  round n [],
  starts-last n [],
  starts-digits (n / 10) ((b'0' + n % 10) ∷ []),
  any-digits n [],
  parse_digits-digits n [],
)

pub length-format_ℕ : (k n : ℕ) → n < 10 ^ suc k → length (format_ℕ n) ≤ suc k
unfolding format_ℕ
length-format_ℕ k n h = ground (arith, length-digits (suc k) n [] h)

abbrev pub is_int64 : ℤ → Bool
is_int64 (pos n) = leb n (2 ^ 63 - 1)
is_int64 (negsuc n) = leb (suc n) (2 ^ 63)

read_unsigned :
    (t : Text) (n : ℕ)
    → starts_digit t ≡ true
    → parse_digits t 0 ≡ some n
    → (parse_unsigned t ≡ some n)
      × (parse_int t ≡ positive (below (2 ^ 63 - 1) (some n)))
      × (parse_int (b'-' ∷ t) ≡ negative (below (2 ^ 63) (some n)))
unfolding parse_int
read_unsigned [] n s h = ground arith
read_unsigned (c ∷ t) n s h = ground arith

-- Every int64 is read back from its decimal notation.
pub parse_int-format_ℤ : (z : ℤ) → is_int64 z ≡ true → parse_int (format_ℤ z) ≡ some z
unfolding format_ℤ
parse_int-format_ℤ (pos n) h =
    let f = format_ℕ_lem n in ground (arith, read_unsigned (format_ℕ n) n f.0 f.2)
parse_int-format_ℤ (negsuc n) h =
    let f = format_ℕ_lem (suc n) in ground (arith, read_unsigned (format_ℕ (suc n)) (suc n) f.0 f.2)
