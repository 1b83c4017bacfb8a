-- ===== src/Decision.antt =====
-- makeDecision of pkg/reconciliation/decision.go, from a built state on.
pub mod Types
pub mod Candidate
pub mod Conditions
pub mod Loops
pub mod Choosing
pub mod Deadline
pub mod Sorting
pub mod Selection
pub mod Results
pub mod Deletion
pub mod AtMostOne
pub mod Finishing
pub mod Unsuspension
pub mod Schedule
pub mod Settled
pub mod Convergence
pub mod OneActive
pub mod Evolution
mod Tests
use controlled_job.Base.{
  ℕ, ◌+◌, Bool, not, Option, none, some, List, [], ◌∷◌, ◌++◌, ◌&&◌, ◌||◌, ◌==◌, is_some, keep,
  if◌then◌else◌,
}
use controlled_job.Kube.{Time, condition_true, condition_false, ObjectReference}
use controlled_job.Api.Conditions.{Live, with_status, set_condition}
use controlled_job.Api.ConditionTypes.{condition_type_suspended}
use controlled_job.Env.{Env}
use controlled_job.Metadata.{
  was_job_stopped_by_the_user, is_job_being_deleted, is_job_suspended, is_job_completed,
}
use controlled_job.State.{State, Handle}
use Conditions.{
  in_order, set_should_be_running_status, set_conditions_for_all_jobs, set_job_conditions,
}
use Loops.{survey, sort_jobs}
pub use Types.{
  Decision, no_decision, Outcome, Progress, Step, go, fail, and_then, map_live, is_chosen, is_only,
  unsuspended,
}
unfoldable pub use Types.{starting_deadline_seconds_exceeded}
pub use Choosing.{should_be_running, new_handle}
unfoldable pub use Choosing.{
  adopt, stop_outside_schedule, refresh_chosen, deadline_condition_false, start_new, ensure_running,
  select,
}

module _ (env : Env) (auto_recreate : Bool) (now : Time) (state : State) where
  -- What the two loops at the end pass over.
  unfoldable pub is_kept : Option Handle → Handle → Bool
  is_kept chosen h = is_job_being_deleted h.job || (is_chosen chosen h || is_job_completed h.job)

  unfoldable pub delete_others : Progress → Progress
  unfolding is_kept
  delete_others p = record p {
    decision = record p.decision {
      jobs_to_delete =
          (p.decision.jobs_to_delete ++ keep (λ h. not (is_job_being_deleted h.job)) p.expired)
          ++ keep (λ h. not (is_kept p.chosen h)) p.non_expired;
    };
  }

  unfoldable pub may_unsuspend : ℕ → Handle → Bool
  may_unsuspend running c =
      running == 1
      && (is_job_suspended c.job
          && (not (is_job_being_deleted c.job) && not (was_job_stopped_by_the_user c.job)))

  -- A chosen job that this decision creates is created unsuspended.
  unfoldable pub unsuspend_chosen : Progress → Progress
  unfolding may_unsuspend
  unsuspend_chosen p = elim p.chosen [
    | none ↦ p
    | some c ↦
        if not (may_unsuspend p.potentially_running c)
        then p
        else if is_only c p.decision.jobs_to_create
        then record p {
          decision = record p.decision { jobs_to_create = unsuspended c ∷ [] };
          chosen = some (unsuspended c);
        }
        else record p {
          decision = record p.decision {
            jobs_to_unsuspend = p.decision.jobs_to_unsuspend ++ c ∷ [];
          };
        }
  ]

  unfoldable pub set_requeue : Progress → Progress
  set_requeue p = elim state.next_event_time [
    | none ↦ p
    | some t ↦ record p { decision = record p.decision { requeue_at = t } }
  ]

  -- The deferred write of Status.IsRunning sees the job chosen when the function returns.
  record_is_running : Option Handle → Live → Live
  record_is_running chosen live = record live {
    object =
        with_status live.object (record live.object.status { is_running = some (is_some chosen) });
  }

  unfoldable pub conclude : Step → Outcome
  unfolding record_is_running
  conclude (go p) = record {
    live = record_is_running p.chosen p.live;
    decision = p.decision;
    error = none;
  }
  conclude (fail e p) = record {
    live = record_is_running p.chosen p.live;
    decision = p.decision;
    error = some e;
  }

  unfoldable pub put_header : Live → Live
  put_header live = record live {
    object = with_status live.object (record live.object.status {
      is_suspended = some state.is_suspended;
      last_scheduled_start_time = state.start_of_current_run_period;
    });
  }

  put_active : List ObjectReference → Live → Live
  put_active refs live = record live {
    object = with_status live.object (record live.object.status { active = refs });
  }

  -- The conditions of the jobs as they were found, and the list of active jobs.
  unfoldable pub observe : Live → Live
  unfolding put_active
  observe live = put_active (sort_jobs env state).active (
      in_order
        (set_condition env.clock condition_type_suspended condition_false "NotSuspended"
            "IsSuspended flag not set"
          ∷ set_conditions_for_all_jobs env.clock state.all_jobs
          ∷ set_job_conditions env.clock (survey state).best
          ∷ [])
        live)

  unfoldable pub initial_progress : Live → Progress
  unfolding observe
  initial_progress live =
      let s = sort_jobs env state in
      record {
        live = observe live;
        decision = no_decision;
        potentially_running = s.potentially_running;
        expired = s.expired;
        non_expired = s.non_expired;
        chosen = s.chosen;
      }

  unfoldable pub finish : Progress → Progress
  finish p = set_requeue (unsuspend_chosen (delete_others p))

  unfoldable pub decide : Live → Outcome
  unfolding put_header
  decide live =
      let begun = set_should_be_running_status env.clock state (put_header live) in
      if state.is_suspended
      then record {
        live =
            set_condition env.clock condition_type_suspended condition_true "Suspended"
              "IsSuspended flag set" begun;
        decision = record no_decision { jobs_to_delete = state.all_jobs };
        error = none;
      }
      else conclude (
          and_then (select env auto_recreate now state (initial_progress begun))
            (λ p. go (finish p)))
