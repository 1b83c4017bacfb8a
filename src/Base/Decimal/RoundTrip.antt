-- ===== src/Base/Decimal/RoundTrip.antt =====
-- strconv.Atoi reads back what %d prints.
use Prim.Native.Char.{Char, code}
use Prim.Native.Nat.{ℕ, zero, suc, ◌+◌, ◌*◌, ◌/◌, ◌%◌, ◌^◌, ◌≤◌, ◌<◌}
use Prim.Native.String.{String, [], ◌∷◌}
use mathlib.Core.Path.{◌≡◌, refl, ◌∙◌, ap}
use mathlib.Core.Option.{some}
use mathlib.Core.Logic.{inl, inr}
use native.Mathlib.Omega.{arith}
use controlled_job.Base.Tests.{ltb, Bool-cases, ltb→lt}
use controlled_job.Base.Int.{ℤ, pos, negsuc}
use controlled_job.Base.Decimal.{
  digit_char, print_onto, print_ℕ, print_ℤ, is_digit, read_digits, read_ℕ, in_range_pos, atoi,
}

pub code-digit_char : (k : ℕ) → k < 10 → code (digit_char k) ≡ 48 + k
code-digit_char zero h = refl
code-digit_char (suc zero) h = refl
code-digit_char (suc (suc zero)) h = refl
code-digit_char (suc (suc (suc zero))) h = refl
code-digit_char (suc (suc (suc (suc zero)))) h = refl
code-digit_char (suc (suc (suc (suc (suc zero))))) h = refl
code-digit_char (suc (suc (suc (suc (suc (suc zero)))))) h = refl
code-digit_char (suc (suc (suc (suc (suc (suc (suc zero))))))) h = refl
code-digit_char (suc (suc (suc (suc (suc (suc (suc (suc zero)))))))) h = refl
code-digit_char (suc (suc (suc (suc (suc (suc (suc (suc (suc zero))))))))) h = refl
code-digit_char (suc (suc (suc (suc (suc (suc (suc (suc (suc (suc n)))))))))) h =
    absurd (omega arith)

read_digit :
    (a k : ℕ) (s : String) → k < 10 → read_digits a (digit_char k ∷ s) ≡ read_digits (a * 10 + k) s
unfolding read_digits is_digit
read_digit a k s h = ground (arith, code-digit_char k h)

read-print_onto :
    (fuel n : ℕ) (rest : String)
    → n < fuel
    → read_digits 0 (print_onto fuel n rest) ≡ read_digits n rest
unfolding print_onto
read-print_onto zero n rest h = elim h [ ]
read-print_onto (suc fuel) n rest h = elim (Bool-cases (ltb n 10)) [
  | inl e ↦ rw e (read_digit 0 n rest (ltb→lt n 10 e) ∙ ap (λ k. read_digits k rest) (omega arith))
  | inr e ↦ rw e (
      read-print_onto fuel (n / 10) (digit_char (n % 10) ∷ rest) (ground arith)
      ∙ read_digit (n / 10) (n % 10) rest (omega arith)
      ∙ ap (λ k. read_digits k rest) (omega arith))
]

-- A text that begins with a digit is read without a sign.
abbrev pub StartsWithDigit : String → Type 0
StartsWithDigit s = (c : Char) × (r : String) × (s ≡ c ∷ r) × (48 ≤ code c)

print_onto-StartsWithDigit :
    (fuel n : ℕ) (rest : String) → n < fuel → StartsWithDigit (print_onto fuel n rest)
unfolding print_onto
print_onto-StartsWithDigit zero n rest h = elim h [ ]
print_onto-StartsWithDigit (suc fuel) n rest h = elim (Bool-cases (ltb n 10)) [
  | inl e ↦ rw e (digit_char n, rest, refl, omega (arith, code-digit_char n (ltb→lt n 10 e)))
  | inr e ↦ rw e (print_onto-StartsWithDigit fuel (n / 10) _ (ground arith))
]

pub print_ℕ-StartsWithDigit : (n : ℕ) → StartsWithDigit (print_ℕ n)
unfolding print_ℕ
print_ℕ-StartsWithDigit n = print_onto-StartsWithDigit (suc n) n [] (omega arith)

read_ℕ_of : (s : String) → StartsWithDigit s → read_ℕ s ≡ read_digits 0 s
unfolding read_ℕ
read_ℕ_of s (c, r, e, d) = rw e

read_digits-print_ℕ : (n : ℕ) → read_digits 0 (print_ℕ n) ≡ some n
unfolding print_ℕ read_digits
read_digits-print_ℕ n = read-print_onto (suc n) n [] (omega arith)

read-print_ℕ : (n : ℕ) → read_ℕ (print_ℕ n) ≡ some n
read-print_ℕ n = read_ℕ_of (print_ℕ n) (print_ℕ-StartsWithDigit n) ∙ read_digits-print_ℕ n

atoi_unsigned : (s : String) → StartsWithDigit s → atoi s ≡ in_range_pos (read_ℕ s)
unfolding atoi
atoi_unsigned s (c, r, e, d) = rw e (ground arith)

pub atoi-print_ℕ : (n : ℕ) → n < 2 ^ 63 → atoi (print_ℕ n) ≡ some (pos n)
atoi-print_ℕ n h =
    atoi_unsigned (print_ℕ n) (print_ℕ-StartsWithDigit n)
    ∙ ap in_range_pos (read-print_ℕ n)
    ∙ unfold in_range_pos in ground arith

atoi_minus : (n : ℕ) → n < 2 ^ 63 → atoi ("-" ∷ print_ℕ (suc n)) ≡ some (negsuc n)
unfolding atoi
atoi_minus n h = rw (read-print_ℕ (suc n)) (ground arith)

abbrev pub IsInt64 : ℤ → Type 0
IsInt64 (pos n) = n < 2 ^ 63
IsInt64 (negsuc n) = n < 2 ^ 63

-- Every int64 comes back from its decimal text.
pub atoi-print_ℤ : (z : ℤ) → IsInt64 z → atoi (print_ℤ z) ≡ some z
unfolding print_ℤ
atoi-print_ℤ (pos n) h = atoi-print_ℕ n h
atoi-print_ℤ (negsuc n) h = atoi_minus n h
