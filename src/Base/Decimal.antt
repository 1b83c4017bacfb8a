-- ===== src/Base/Decimal.antt =====
-- Decimal numbers in text: fmt's %d and strconv.Atoi on int64.
pub mod RoundTrip
mod Tests
use Prim.Native.Nat.{ℕ, zero, suc, ◌+◌, ◌-◌, ◌*◌, ◌/◌, ◌%◌, ◌^◌, ◌≤◌, ◌<◌}
use Prim.Native.Char.{Char, code}
use Prim.Native.String.{String, [], ◌∷◌}
use mathlib.Core.Path.{◌≡◌, refl, ◌∙◌, ap}
use mathlib.Core.Bool.{Bool, true, false, ◌&&◌, not}
use mathlib.Core.Option.{Option, none, some}
use native.Mathlib.Omega.{arith}
use controlled_job.Base.Tests.{ltb, leb, ◌==◌, if◌then◌else◌}
use controlled_job.Base.Int.{ℤ, pos, negsuc}

abbrev pub digit_char : ℕ → Char
digit_char zero = "0"
digit_char (suc zero) = "1"
digit_char (suc (suc zero)) = "2"
digit_char (suc (suc (suc zero))) = "3"
digit_char (suc (suc (suc (suc zero)))) = "4"
digit_char (suc (suc (suc (suc (suc zero))))) = "5"
digit_char (suc (suc (suc (suc (suc (suc zero)))))) = "6"
digit_char (suc (suc (suc (suc (suc (suc (suc zero))))))) = "7"
digit_char (suc (suc (suc (suc (suc (suc (suc (suc zero)))))))) = "8"
digit_char _ = "9"

-- The digits of `n` in front of `rest`. Each round drops a digit, so fuel `n + 1` is enough.
unfoldable pub print_onto : ℕ → ℕ → String → String
print_onto zero n rest = rest
print_onto (suc fuel) n rest =
    let more = print_onto fuel (n / 10) (digit_char (n % 10) ∷ rest) in
    if ltb n 10 then digit_char n ∷ rest else more

unfoldable pub print_ℕ : ℕ → String
unfolding print_onto
print_ℕ n = print_onto (suc n) n []

unfoldable pub print_ℤ : ℤ → String
unfolding print_ℕ
print_ℤ (pos n) = print_ℕ n
print_ℤ (negsuc n) = "-" ∷ print_ℕ (suc n)

unfoldable pub is_digit : Char → Bool
is_digit c = leb b'0' (code c) && leb (code c) b'9'

read_digits : ℕ → String → Option ℕ
unfolding is_digit
read_digits n [] = some n
read_digits n (c ∷ s) = if is_digit c then read_digits (n * 10 + (code c - b'0')) s else none

-- An unsigned number has at least one digit.
read_ℕ : String → Option ℕ
unfolding read_digits
read_ℕ [] = none
read_ℕ (c ∷ s) = read_digits 0 (c ∷ s)

in_range_pos : Option ℕ → Option ℤ
in_range_pos none = none
in_range_pos (some n) = if ltb n (2 ^ 63) then some (pos n) else none

in_range_neg : Option ℕ → Option ℤ
in_range_neg none = none
in_range_neg (some zero) = some (pos 0)
in_range_neg (some (suc n)) = if ltb n (2 ^ 63) then some (negsuc n) else none

-- strconv.Atoi: an optional sign, digits, and the range of int64.
unfoldable pub atoi : String → Option ℤ
unfolding in_range_pos in_range_neg read_ℕ
atoi [] = none
atoi (c ∷ s) =
    if code c == b'-'
    then in_range_neg (read_ℕ s)
    else if code c == b'+'
    then in_range_pos (read_ℕ s)
    else in_range_pos (read_ℕ (c ∷ s))
