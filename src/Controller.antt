-- ===== src/Controller.antt =====
-- The controller: controllers/controlledjob_controller.go and controllers/error_handling.go.
pub mod Requests
pub mod Listing
mod Tests
use controlled_job.Base.{
  ℕ, suc, ◌+◌, ◌*◌, ◌-◌, ◌^◌, ◌%◌, String, Bool, true, false, not, Option, none, some, List, [],
  ◌∷◌, ◌&&◌, ◌||◌, str_eq, keep, any, if◌then◌else◌,
}
use controlled_job.Base.Int.{ℤ, pos, negsuc, of_bits, ltb_ℤ, mul_i64}
use controlled_job.Errors.{Error}
use controlled_job.Kube.{Time, Job, OwnerReference}
use controlled_job.Api.{ActionHistoryEntry}
use controlled_job.Env.{Env}
use controlled_job.Metadata.{api_gv_str}
use controlled_job.Client.{Cluster, Call, World, record_event}
use controlled_job.Schedule.{Calendar}
use controlled_job.Reconcile.{reconcile}
use controlled_job.Reconcile.Results.{ReconcileResult, as_controller_result_and_error, sub_time}

-- The index `.metadata.controller` of SetupWithManager: the name of the ControlledJob that controls
-- a job. metav1.GetControllerOf is the field `controller`.
abbrev pub index_of : Option OwnerReference → List String
index_of none = []
index_of (some owner) =
    if not (str_eq owner.api_version api_gv_str) || not (str_eq owner.kind "ControlledJob")
    then []
    else owner.owner_name ∷ []

unfoldable pub owner_index : Job → List String
owner_index job = index_of job.controller

-- What the cache lists for a namespace and a value of that index.
unfoldable pub listed : String → String → List Job → List Job
listed name namespace =
    keep (λ job. str_eq job.namespace namespace && any (λ n. str_eq n name) (owner_index job))

-- The Result of controller-runtime: RequeueAfter, and the error returned.
abbrev pub returned : Option ReconcileResult → Option (ℤ × Option Error)
returned none = none
returned (some r) = some (as_controller_result_and_error r)

-- Reconcile of the controller; `none` is a panic.
unfoldable pub reconcile_request :
    Env → Cluster → Calendar → Bool → String → String → Time → Option (ℤ × Option Error) × List Call
reconcile_request env cluster cal auto_recreate name namespace now =
    let (result, calls) = reconcile env cluster cal auto_recreate name namespace now in
    (returned result, calls)

-- Product with a second on int64, which wraps.
abbrev times_second : ℤ → ℤ
times_second (pos n) = mul_i64 (10 ^ 9) n
times_second (negsuc n) = of_bits ((2 ^ 64 - (n + 1) * 10 ^ 9 % 2 ^ 64) % 2 ^ 64)

-- missedStartingDeadline, which nothing calls; time.Since reads the clock.
unfoldable pub missed_starting_deadline : Time → Time → Option ℤ → Bool
missed_starting_deadline now start_of_current_period none = false
missed_starting_deadline now start_of_current_period (some starting_deadline_seconds) =
    ltb_ℤ (times_second starting_deadline_seconds) (sub_time now start_of_current_period)

-- handleError, which nothing calls: the action is recorded and Requeue is `retryable`.
unfoldable pub handle_error : ActionHistoryEntry → Bool → World → Bool × World
handle_error failure_action retryable w = (retryable, record_event failure_action w)
