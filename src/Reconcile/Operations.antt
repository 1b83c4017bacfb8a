-- ===== src/Reconcile/Operations.antt =====
-- The four loops of Reconcile of pkg/reconciliation/reconcile.go that carry out a decision.
use controlled_job.Base.{String, Option, none, some, List, [], ◌∷◌}
use controlled_job.Base.Text.{concat}
use controlled_job.Errors.{Error, wrap_error, error_text}
use controlled_job.Kube.{Time, Job, condition_true, condition_false}
use controlled_job.Api.{ActionHistoryEntry}
use controlled_job.Api.Conditions.{Live, set_condition}
use controlled_job.Api.ConditionTypes.{
  condition_type_failed_to_create_job, condition_type_failed_to_suspend_job,
  condition_type_failed_to_unsuspend_job, condition_type_failed_to_delete_job,
}
use controlled_job.Env.{Env}
use controlled_job.Events.{
  new_job_started_action, new_job_stopped_action, new_job_suspended_action,
  new_job_unsuspended_action, failed_to_create_job, failed_to_delete_job, failed_to_suspend_job,
  failed_to_unsuspend_job,
}
use controlled_job.Client.{
  Cluster, World, on_live, create_job, suspend_job, unsuspend_job, delete_job, record_action,
}
use controlled_job.State.{Handle}
use controlled_job.Decision.{Decision}

-- A loop over jobs ends after the last one or at the first error.
pub data Ended : Type 0 where
  completed : World → Ended
  stopped : Error → World → Ended

abbrev pub and_then : Ended → (World → Ended) → Ended
and_then (completed w) f = f w
and_then (stopped e w) f = stopped e w

unfoldable pub each : (Job → World → Ended) → List Handle → World → Ended
each f [] w = completed w
each f (h ∷ hs) w = and_then (f h.job w) (each f hs)

-- What tells one of the four loops from the others: its event, texts, condition and action.
pub record Operation : Type 0 where
  pub perform : Cluster → Job → World → (Option Error) × World
  pub event : String
  pub verb : String
  pub condition_type : String
  pub on_success : Live → Live
  pub action : Time → String → ActionHistoryEntry

abbrev pub failure_text : String → Job → String
failure_text verb job =
    concat ("failed to " ∷ verb ∷ " job " ∷ job.name ∷ " in namespace " ∷ job.namespace ∷ [])

module _ (env : Env) (cluster : Cluster) where
  unfoldable pub perform_step : Operation → Job → World → Ended
  perform_step op job w =
      let (failure, called) = op.perform cluster job w in
      elim failure [
        | some e ↦
            let wrapped = wrap_error e op.event (failure_text op.verb job) in
            stopped wrapped (
              on_live
                (set_condition env.clock op.condition_type condition_true op.event
                  (error_text wrapped))
                called)
        | none ↦
            completed
              (on_live op.on_success (record_action env.clock (λ t. op.action t job.name) called))
      ]

  unfoldable pub deletion : Operation
  deletion = record {
    perform = λ c job. delete_job c job "Foreground";
    event = failed_to_delete_job;
    verb = "delete";
    condition_type = condition_type_failed_to_delete_job;
    on_success =
        set_condition env.clock condition_type_failed_to_delete_job condition_false "DeletedJob"
          "Successfully deleted job";
    action = new_job_stopped_action;
  }

  unfoldable pub creation : Operation
  creation = record {
    perform = create_job;
    event = failed_to_create_job;
    verb = "create";
    condition_type = condition_type_failed_to_create_job;
    on_success =
        set_condition env.clock condition_type_failed_to_create_job condition_false "CreatedJob"
          "Successfully created job";
    action = new_job_started_action;
  }

  -- The condition FailedToSuspendJob is set to True on success as well.
  unfoldable pub suspension : Operation
  suspension = record {
    perform = suspend_job;
    event = failed_to_suspend_job;
    verb = "suspend";
    condition_type = condition_type_failed_to_suspend_job;
    on_success =
        set_condition env.clock condition_type_failed_to_suspend_job condition_true "SuspendedJob"
          "Successfully suspended job";
    action = new_job_suspended_action;
  }

  -- And so is FailedToUnsuspendJob.
  unfoldable pub unsuspension : Operation
  unsuspension = record {
    perform = unsuspend_job;
    event = failed_to_unsuspend_job;
    verb = "unsuspend";
    condition_type = condition_type_failed_to_unsuspend_job;
    on_success =
        set_condition env.clock condition_type_failed_to_unsuspend_job condition_true
          "UnsuspendedJob" "Successfully unsuspended job";
    action = new_job_unsuspended_action;
  }

  unfoldable pub carry_out : Decision → World → Ended
  unfolding perform_step
  carry_out d w = and_then (each (perform_step deletion) d.jobs_to_delete w) (λ w.
      and_then (each (perform_step creation) d.jobs_to_create w) (λ w.
        and_then (each (perform_step suspension) d.jobs_to_suspend w)
          (each (perform_step unsuspension) d.jobs_to_unsuspend)))
