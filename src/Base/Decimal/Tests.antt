-- ===== src/Base/Decimal/Tests.antt =====
-- Decimal numbers, at small inputs.
use mathlib.Core.Path.{◌≡◌, refl}
use mathlib.Core.Option.{some}
use native.Mathlib.Omega.{arith}
use controlled_job.Base.Int.{pos, negsuc}
use controlled_job.Base.Decimal.{atoi, print_ℤ}
use controlled_job.Base.Decimal.RoundTrip.{atoi-print_ℤ}

atoi_test : atoi "0017" ≡ some (pos 17)
unfolding atoi
atoi_test = refl

print_test : print_ℤ (negsuc 1699999999) ≡ "-1700000000"
unfolding print_ℤ
print_test = refl

atoi-print_ℤ_example : atoi (print_ℤ (negsuc 41)) ≡ some (negsuc 41)
atoi-print_ℤ_example = atoi-print_ℤ (negsuc 41) (omega arith)
