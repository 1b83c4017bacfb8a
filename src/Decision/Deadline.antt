-- ===== src/Decision/Deadline.antt =====
-- The range of StartingDeadlineSeconds in pkg/reconciliation/decision.go, an int64 that is
-- multiplied by a second on int64.
use controlled_job.Base.{ℕ, ◌+◌, ◌*◌, ◌-◌, ◌%◌, ◌^◌, ◌≤◌, ◌<◌, ◌≡◌, ◌↔◌, true, some, arith}
use controlled_job.Base.Int.{pos, negsuc, mul_i64}
use controlled_job.Kube.{Time}
use controlled_job.Api.{ControlledJob}
use controlled_job.Decision.{starting_deadline_seconds_exceeded}

exact_product : (s : ℕ) → s ≤ 9223372036 → mul_i64 (10 ^ 9) s ≡ pos (s * 10 ^ 9)
unfolding mul_i64
exact_product s h =
    let small : (10 ^ 9 * s) % 2 ^ 64 ≡ s * 10 ^ 9 = omega arith in rw small (ground arith)

wrapped_product :
    (s : ℕ)
    → 9223372036 < s
    → s ≤ 18446744073
    → mul_i64 (10 ^ 9) s ≡ negsuc (2 ^ 64 - 1 - s * 10 ^ 9)
unfolding mul_i64
wrapped_product s h k =
    let small : (10 ^ 9 * s) % 2 ^ 64 ≡ s * 10 ^ 9 = omega arith in rw small (ground arith)

-- Up to 9223372036 seconds, which is 292 years, the starting deadline is exceeded exactly after
-- that many seconds from the start; for longer ones, up to twice as many, the product is negative
-- and every deadline is exceeded from the start on.
pub starting_deadline_range :
    (cj : ControlledJob) (s : ℕ) (start now : Time)
    → cj.spec.starting_deadline_seconds ≡ some (pos s)
    → 1 ≤ s
    → 0 < start
    → (s ≤ 9223372036
        → (starting_deadline_seconds_exceeded cj (some start) now ≡ true)
          ↔ (start + s * 10 ^ 9 < now))
      × (9223372036 < s
          → s ≤ 18446744073
          → start ≤ now
          → starting_deadline_seconds_exceeded cj (some start) now ≡ true)
unfolding starting_deadline_seconds_exceeded
starting_deadline_range cj s start now e one after = rw e (
  λ small. rw (exact_product s small) (ground arith, ground arith),
  λ large bound late. rw (wrapped_product s large bound) (ground arith),
)
