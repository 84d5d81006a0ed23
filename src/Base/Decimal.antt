-- ===== src/Base/Decimal.antt =====
-- strconv's decimal notation of integers, by repeated division, and ParseInt of it.
pub mod RoundTrip
use Prim.Native.Nat.{ℕ, zero, suc, ◌+◌, ◌-◌, ◌*◌, ◌^◌, ◌/◌, ◌%◌, ◌<◌}
use mathlib.Core.List.{[], ◌∷◌}
use mathlib.Core.Bool.{Bool, true, false, ◌&&◌}
use mathlib.Core.Option.{Option, none, some}
use mathlib.Core.Logic.{dite}
use mathlib.Core.WellFounded.{Acc, WellFounded}
use native.Mathlib.Decide.{dec_lt}
use native.Mathlib.Omega.{arith}
use mazzy_vpn.Base.Tests.{nat_beq, leb, if◌then◌else◌}
use mazzy_vpn.Base.Strings.{Text}
use mazzy_vpn.Base.Int.{ℤ, pos, negsuc}

Acc-below : (k n : ℕ) → n < k → Acc ◌<◌ n
Acc-below zero n h = elim h [ ]
Acc-below (suc k) n h = Acc.intro n (λ m hm. Acc-below k m (omega arith))

unfoldable pub lt_wf : WellFounded ◌<◌
unfolding Acc-below
lt_wf = record { apply = λ n. Acc-below (suc n) n (omega arith) }

unfoldable pub emit : (n : ℕ) → Acc ◌<◌ n → Text → Text
emit n (Acc.intro _ smaller) out =
    dite (dec_lt 0 n) (λ h. emit (n / 10) (smaller (n / 10) (omega arith)) ((b'0' + n % 10) ∷ out))
      (λ _. out)

-- The digits of `n`; zero has one digit.
unfoldable pub format_ℕ : ℕ → Text
unfolding emit lt_wf dec_lt
format_ℕ n = if nat_beq n 0 then b'0' ∷ [] else emit n (lt_wf.apply n) []

unfoldable pub format_ℤ : ℤ → Text
unfolding format_ℕ
format_ℤ (pos n) = format_ℕ n
format_ℤ (negsuc n) = b'-' ∷ format_ℕ (suc n)

abbrev pub is_digit : ℕ → Bool
is_digit c = leb b'0' c && leb c b'9'

unfoldable pub parse_digits : Text → ℕ → Option ℕ
parse_digits [] n = some n
parse_digits (c ∷ s) n = if is_digit c then parse_digits s (n * 10 + (c - b'0')) else none

abbrev pub opposite : ℕ → ℤ
opposite zero = pos 0
opposite (suc n) = negsuc n

abbrev pub below : ℕ → Option ℕ → Option ℕ
below m none = none
below m (some n) = if leb n m then some n else none

abbrev pub positive : Option ℕ → Option ℤ
positive none = none
positive (some n) = some (pos n)

abbrev pub negative : Option ℕ → Option ℤ
negative none = none
negative (some n) = some (opposite n)

abbrev pub parse_unsigned : Text → Option ℕ
parse_unsigned [] = none
parse_unsigned (c ∷ s) = parse_digits (c ∷ s) 0

-- strconv.ParseInt(s, 10, 64), an error being `none`.
unfoldable pub parse_int : Text → Option ℤ
unfolding parse_digits
parse_int [] = none
parse_int (c ∷ s) =
    if nat_beq c b'-'
    then negative (below (2 ^ 63) (parse_unsigned s))
    else if nat_beq c b'+'
    then positive (below (2 ^ 63 - 1) (parse_unsigned s))
    else positive (below (2 ^ 63 - 1) (parse_unsigned (c ∷ s)))
