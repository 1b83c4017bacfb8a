-- ===== src/Reconcile/Results.antt =====
-- What Reconcile of pkg/reconciliation/reconcile.go returns.
use controlled_job.Base.{◌-◌, ◌^◌, Bool, true, false, Option, none, some, ltb, if◌then◌else◌}
use controlled_job.Base.Int.{ℤ, pos, negsuc, sub_ℕ}
use controlled_job.Errors.{Error}
use controlled_job.Kube.{Time}

-- A duration in nanoseconds, and an error with whether it is retryable.
pub record ReconcileResult : Type 0 where
  pub requeue_after : ℤ
  pub error : Option (Error × Bool)

unfoldable pub transient_error_result : Error → ReconcileResult
transient_error_result e = record { requeue_after = pos 0; error = some (e, true) }

unfoldable pub non_retryable_error_result : Error → ReconcileResult
non_retryable_error_result e = record { requeue_after = pos 0; error = some (e, false) }

-- ctrl.Result's RequeueAfter, and the error returned to the controller runtime.
unfoldable pub as_controller_result_and_error : ReconcileResult → ℤ × Option Error
as_controller_result_and_error r = elim r.error [
  | none ↦ (r.requeue_after, none)
  | some (e, true) ↦ (pos 0, some e)
  | some (e, false) ↦ (pos 0, none)
]

saturated : ℤ → ℤ
saturated (pos n) = if ltb n (2 ^ 63) then pos n else pos (2 ^ 63 - 1)
saturated (negsuc n) = if ltb n (2 ^ 63) then negsuc n else negsuc (2 ^ 63 - 1)

-- Time.Sub
unfoldable pub sub_time : Time → Time → ℤ
unfolding saturated
sub_time t u = saturated (sub_ℕ t u)
