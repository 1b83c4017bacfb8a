-- ===== src/Base/Int.antt =====
-- Signed numbers, for durations and for int64 values.
use Prim.Native.Nat.{ℕ, suc, ◌+◌, ◌-◌, ◌*◌, ◌^◌, ◌%◌}
use mathlib.Core.Bool.{Bool}
use controlled_job.Base.Tests.{ltb, leb, if◌then◌else◌}

-- `negsuc n` is -(n + 1).
pub data ℤ : Type 0 where
  pos : ℕ → ℤ
  negsuc : ℕ → ℤ

abbrev pub pos_part : ℤ → ℕ
pos_part (pos n) = n
pos_part (negsuc n) = 0

abbrev pub neg_part : ℤ → ℕ
neg_part (pos n) = 0
neg_part (negsuc n) = suc n

-- a - b, as an integer.
abbrev pub sub_ℕ : ℕ → ℕ → ℤ
sub_ℕ a b = if leb b a then pos (a - b) else negsuc (b - a - 1)

abbrev pub ltb_ℤ : ℤ → ℤ → Bool
ltb_ℤ a b = ltb (pos_part a + neg_part b) (pos_part b + neg_part a)

-- The int64 whose bit pattern is `n`, a number below 2 ^ 64.
abbrev pub of_bits : ℕ → ℤ
of_bits n = if ltb n (2 ^ 63) then pos n else negsuc (2 ^ 64 - 1 - n)

-- The int64 product of two numbers that are not negative: it wraps.
unfoldable pub mul_i64 : ℕ → ℕ → ℤ
mul_i64 a b = of_bits ((a * b) % 2 ^ 64)

-- n + 1 on int64, which wraps at the top.
unfoldable pub incr_i64 : ℤ → ℤ
incr_i64 (pos n) = if ltb (n + 1) (2 ^ 63) then pos (n + 1) else negsuc (2 ^ 63 - 1)
incr_i64 (negsuc n) = if ltb 0 n then negsuc (n - 1) else pos 0
