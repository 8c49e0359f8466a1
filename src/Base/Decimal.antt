-- ===== src/Base/Decimal.antt =====
-- `std::to_string` of an unsigned number, and `std::stoi`.
pub mod RoundTrip
use Prim.Native.Nat.{ℕ, zero, suc, ◌+◌, ◌-◌, ◌*◌, ◌/◌, ◌%◌, ◌^◌}
use mathlib.Core.Bool.{Bool, ◌&&◌, ◌||◌}
use mathlib.Core.List.{List, [], ◌∷◌}
use exposure.Base.Tests.{ltb, leb, ◌==◌, if◌then◌else◌}
use exposure.Base.Text.{Text}
use exposure.Base.Outcome.{Outcome, ok, err, uncaught}

-- Each round puts the last digit in front. There are fewer digits than the number says.
unfoldable pub emit : (fuel n : ℕ) → Text → Text
emit zero n out = out
emit (suc fuel) n out =
    let rest = emit fuel (n / 10) ((b'0' + n % 10) ∷ out) in if n == 0 then out else rest

unfoldable pub to_string : ℕ → Text
unfolding emit
to_string n = if n == 0 then b'0' ∷ [] else emit n n []

pub data Signed : Type 0 where
  plus minus : ℕ → Signed

abbrev pub is_space : ℕ → Bool
is_space c = c == 32 || (leb 9 c && leb c 13)

abbrev pub is_digit : ℕ → Bool
is_digit c = leb b'0' c && leb c b'9'

unfoldable pub skip_spaces : Text → Text
skip_spaces [] = []
skip_spaces (c ∷ s) = if is_space c then skip_spaces s else c ∷ s

-- The digits in front, with what stands before them.
unfoldable pub digits : Text → ℕ → ℕ
digits [] n = n
digits (c ∷ s) n = let more = digits s (n * 10 + (c - b'0')) in if is_digit c then more else n

-- `invalid_argument` if there is no digit.
unfoldable pub number : Text → Outcome ℕ
unfolding digits
number [] = err uncaught
number (c ∷ s) = if is_digit c then ok (digits (c ∷ s) 0) else err uncaught

abbrev pub in_int : (ℕ → Signed) → ℕ → Outcome ℕ → Outcome Signed
in_int sign limit (err e) = err e
in_int sign limit (ok n) = if leb n limit then ok (sign n) else err uncaught

unfoldable pub signed : Text → Outcome Signed
unfolding number
signed [] = err uncaught
signed (c ∷ s) =
    if c == b'-'
    then in_int minus (2 ^ 31) (number s)
    else if c == b'+'
    then in_int plus (2 ^ 31 - 1) (number s)
    else in_int plus (2 ^ 31 - 1) (number (c ∷ s))

-- `invalid_argument` and `out_of_range` are uncaught. What stands after the digits is ignored.
unfoldable pub stoi : Text → Outcome Signed
unfolding skip_spaces signed
stoi s = signed (skip_spaces s)

-- The conversion of an `int` to `uint16_t`
unfoldable pub to_uint16 : Signed → ℕ
to_uint16 (plus n) = n % 2 ^ 16
to_uint16 (minus n) = (2 ^ 16 - n % 2 ^ 16) % 2 ^ 16
