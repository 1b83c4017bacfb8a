-- ===== src/Reconcile.antt =====
-- The reconcile loop: pkg/reconciliation/reconcile.go.
pub mod Overall
pub mod Results
pub mod Operations
pub mod Order
pub mod Refusals
pub mod Status
pub mod Safety
pub mod Settled
mod Tests
use controlled_job.Base.{
  ℕ, suc, ◌+◌, ◌-◌, ◌^◌, String, Bool, true, false, Option, none, some, List, [], ◌∷◌, ◌++◌, ltb,
  leb, is_some, if◌then◌else◌,
}
use controlled_job.Base.Int.{ℤ, pos, negsuc, sub_ℕ, pos_part, neg_part}
use controlled_job.Base.Text.{concat}
use controlled_job.Errors.{
  Error, message, wrap, Result, ok, err, Run, wrap_error, error_text, event_of,
}
use controlled_job.Kube.{Time, Job, condition_true, condition_false}
use controlled_job.Api.{ControlledJob, ActionHistoryEntry}
use controlled_job.Api.Conditions.{Live, set_condition}
use controlled_job.Api.ConditionTypes.{
  condition_type_failed_to_create_job, condition_type_failed_to_suspend_job,
  condition_type_failed_to_unsuspend_job, condition_type_failed_to_delete_job,
}
use controlled_job.Env.{Env}
use controlled_job.Events.{
  new_job_started_action, new_job_stopped_action, new_job_suspended_action,
  new_job_unsuspended_action, new_failed_action, failed_to_reconcile, failed_to_list_jobs,
  failed_to_create_job, failed_to_delete_job, failed_to_suspend_job, failed_to_unsuspend_job,
}
use controlled_job.Client.{
  Cluster, World, Call, get_call, list_call, on_live, get_controlled_job,
  list_jobs_for_controlled_job, update_status, create_job, suspend_job, unsuspend_job, delete_job,
  record_action,
}
use controlled_job.Schedule.{Calendar}
use controlled_job.State.{State, Handle}
use controlled_job.State.Build.{build_state}
use controlled_job.Decision.{Decision, Outcome, no_decision, decide}
use Overall.{calculate_overall_conditions}
use Results.{ReconcileResult, transient_error_result, non_retryable_error_result, sub_time}
use Operations.{Ended, completed, stopped, carry_out}

-- loadFromCluster: the ControlledJob, its jobs, and an error.
unfoldable pub load_from_cluster :
    Cluster → String → String → (Option (ControlledJob × List Job)) × (Option Error) × List Call
load_from_cluster cluster name namespace =
    let (found, is_found, failure) = get_controlled_job cluster name namespace in
    let (list_failure, jobs) = list_jobs_for_controlled_job cluster name namespace in
    let got = get_call name namespace ∷ [] in
    elim found [
      | none ↦ (none, none, got)
      | some cj ↦
          if is_found
          then elim list_failure [
            | none ↦ (some (cj, jobs), none, got ++ list_call name namespace ∷ [])
            | some e ↦ (
              none,
              some (
                  wrap_error e failed_to_list_jobs (
                    concat (
                      "Failed to list jobs for controlled job " ∷ cj.name ∷ " in namespace "
                      ∷ cj.namespace ∷ []))),
              got ++ list_call name namespace ∷ [],
            )
          ]
          else (
            none,
            wrapped failure (
                concat (
                  "failed to find target ControlledJob " ∷ name ∷ " in namespace " ∷ namespace
                  ∷ [])),
            got,
          )
    ]
  where
    -- errors.Wrap
    wrapped : Option Error → String → Option Error
    wrapped none m = none
    wrapped (some e) m = some (wrap e m)

-- makeDecision. Without a state nothing is written. `none` is a panic.
unfoldable pub make_decision : Env → Calendar → Bool → Time → List Job → Live → Option Outcome
make_decision env cal auto_recreate now jobs live =
    elim (build_state env cal live.object jobs now) [
      | none ↦ none
      | some (err e) ↦ some (record { live = live; decision = no_decision; error = some e })
      | some (ok state) ↦ some (decide env auto_recreate now state live)
    ]

-- The event that an error carries, or FailedToReconcile.
unfoldable pub record_failed_reconcile : (ℕ → Time) → Option Error → World → World
record_failed_reconcile clock none w = w
record_failed_reconcile clock (some e) w =
    record_action clock (λ t. new_failed_action t (event_or_default (event_of e)) e) w
  where
    event_or_default : Option String → String
    event_or_default none = failed_to_reconcile
    event_or_default (some event) = event

-- The deferred calls, the last one deferred first: the overall conditions and the update of the
-- status, whose failure is only logged, and then the record of the error.
unfoldable pub deferred : Env → Cluster → Option Error → World → World
deferred env cluster e w =
    let judged = on_live (calculate_overall_conditions env.clock e) w in
    record_failed_reconcile env.clock e (update_status cluster judged.live.object judged).1

-- What is returned after the loops.
unfoldable pub return_ended : Env → Cluster → Time → Decision → Ended → ReconcileResult × World
return_ended env cluster now d (completed w) = (
  record { requeue_after = sub_time d.requeue_at now; error = none },
  deferred env cluster none w,
)
return_ended env cluster now d (stopped e w) =
    (transient_error_result e, deferred env cluster (some e) w)

-- What is done with a decision or its error.
unfoldable pub act_on :
    Env → Cluster → Time → Decision → Option Error → World → ReconcileResult × World
act_on env cluster now d none w = return_ended env cluster now d (carry_out env cluster d w)
act_on env cluster now d (some e) w =
    (non_retryable_error_result e, deferred env cluster (some e) w)

-- Reconcile for a ControlledJob that was loaded, where makeDecision has ended so. In a panic, whose
-- result is `none`, the deferred calls run with no error.
unfoldable pub reconcile_decided :
    Env → Cluster → Time → Option Outcome → World → (Option ReconcileResult) × World
reconcile_decided env cluster now none w = (none, deferred env cluster none w)
reconcile_decided env cluster now (some o) w =
    let (r, done) = act_on env cluster now o.decision o.error (on_live (λ _. o.live) w) in
    (some r, done)

unfoldable pub reconcile_loaded :
    Env → Cluster → Calendar → Bool → Time → List Job → World → (Option ReconcileResult) × World
reconcile_loaded env cluster cal auto_recreate now jobs w =
    reconcile_decided env cluster now (make_decision env cal auto_recreate now jobs w.live) w

-- What follows loadFromCluster. Where nothing was loaded there is nothing to write to.
unfoldable pub reconcile_found :
    Env
    → Cluster
    → Calendar
    → Bool
    → Time
    → (Option (ControlledJob × List Job)) × (Option Error) × List Call
    → (Option ReconcileResult) × List Call
reconcile_found env cluster cal auto_recreate now (loaded, some e, calls) =
    (some (transient_error_result e), calls)
reconcile_found env cluster cal auto_recreate now (none, none, calls) =
    (some (record { requeue_after = pos 0; error = none }), calls)
reconcile_found env cluster cal auto_recreate now (some (cj, jobs), none, calls) =
    let (r, w) =
      reconcile_loaded env cluster cal auto_recreate now jobs
        (record { live = record { object = cj; readings = 0 }; calls = calls }) in
    (r, w.calls)

unfoldable pub reconcile :
    Env → Cluster → Calendar → Bool → String → String → Time → (Option ReconcileResult) × List Call
reconcile env cluster cal auto_recreate name namespace now =
    reconcile_found env cluster cal auto_recreate now (load_from_cluster cluster name namespace)
