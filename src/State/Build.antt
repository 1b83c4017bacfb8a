-- ===== src/State/Build.antt =====
-- buildState of pkg/reconciliation/state.go.
use controlled_job.Base.{or_false, none, some, List, [], ◌∷◌, is_some, if◌then◌else◌}
use controlled_job.Base.Text.{concat, equal_fold}
use controlled_job.Errors.{ok, err, Run, wrap_error}
use controlled_job.Kube.{Time, Job}
use controlled_job.Api.{ControlledJob, recreate_spec_change_policy}
use controlled_job.Env.{Env}
use controlled_job.Metadata.{calculate_hash_for}
use controlled_job.Events.{failed_to_calculate_schedule}
use controlled_job.Schedule.{Calendar}
use controlled_job.Schedule.Period.{ScheduleState, state_for, should_be_running, next_event_time}
use controlled_job.State.{State, pointers_from}

-- The state for a schedule's state. Without a start of the current run period, whether the job
-- should be running is left open.
unfoldable pub state_of : Env → ControlledJob → List Job → ScheduleState → State
unfolding should_be_running next_event_time
state_of env cj jobs s = record {
  is_suspended = or_false cj.spec.suspend;
  should_be_running =
      if is_some s.start_of_current_run_period then some (should_be_running s) else none;
  start_of_current_run_period = s.start_of_current_run_period;
  last_stop_time = s.last_stop_time;
  next_event_time = next_event_time s;
  all_jobs = pointers_from 0 jobs;
  desired_hash = calculate_hash_for env.digest cj.spec.job_template;
  auto_restart_is_enabled = equal_fold cj.spec.spec_change_policy recreate_spec_change_policy;
}

unfoldable pub build_state : Env → Calendar → ControlledJob → List Job → Time → Run State
build_state env cal cj jobs now = elim (state_for cal cj now) [
  | none ↦ none
  | some (err e) ↦ some (
      err (
        wrap_error e failed_to_calculate_schedule (
          concat (
            "Failed to calculate schedule for controlled job " ∷ cj.name ∷ " in namespace "
            ∷ cj.namespace ∷ []))))
  | some (ok s) ↦ some (ok (state_of env cj jobs s))
]
