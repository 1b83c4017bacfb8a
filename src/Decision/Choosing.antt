-- ===== src/Decision/Choosing.antt =====
-- Which job makeDecision of pkg/reconciliation/decision.go goes on with: the part between its
-- second loop and its last ones, which may rebuild the chosen job or start a new one.
use controlled_job.Base.{
  or_false, ◌+◌, String, Bool, true, false, not, Option, none, some, [], ◌∷◌, ◌++◌, ◌&&◌, ◌||◌,
  is_some, length, if◌then◌else◌,
}
use controlled_job.Base.Int.{ℤ, pos, incr_i64}
use controlled_job.Errors.{message, wrap, ok, err}
use controlled_job.Kube.{Time, condition_true, condition_false, condition_unknown, Job}
use controlled_job.Api.Conditions.{Live, set_condition}
use controlled_job.Api.ConditionTypes.{
  condition_type_out_of_date, condition_type_starting_deadline_exceeded,
}
use controlled_job.Env.{Env}
use controlled_job.Builder.{build_for_controlled_job, recreate_job_with_new_spec}
use controlled_job.Metadata.{
  is_manually_scheduled_job, is_job_potentially_running, was_job_stopped_by_the_user,
  is_job_being_deleted,
}
use controlled_job.State.{State, Handle}
use controlled_job.Decision.Candidate.{is_out_of_date}
use controlled_job.Decision.Loops.{survey}
use controlled_job.Decision.Types.{
  Progress, Step, go, fail, and_then, map_live, starting_deadline_seconds_exceeded,
}

module _ (env : Env) (auto_recreate : Bool) (now : Time) (state : State) where
  abbrev pub should_be_running : Bool
  should_be_running = or_false state.should_be_running

  -- The pointer to a job that this call builds: an address that no existing job has.
  abbrev pub new_handle : Job → Handle
  new_handle job = record { addr = length state.all_jobs; job = job }

  -- A new job takes the place of the chosen one.
  unfoldable pub adopt : Job → Progress → Progress
  adopt job p = record p {
    decision = record p.decision {
      jobs_to_create = p.decision.jobs_to_create ++ new_handle job ∷ [];
    };
    potentially_running = p.potentially_running + 1;
    non_expired = p.non_expired ++ new_handle job ∷ [];
    chosen = some (new_handle job);
  }

  unfoldable pub stop_outside_schedule : Progress → Progress
  stop_outside_schedule p = elim p.chosen [
    | none ↦ p
    | some c ↦
        if not should_be_running && not (is_manually_scheduled_job c.job)
        then record p { chosen = none }
        else p
  ]

  report : Bool → String → String → Progress → Progress
  report flag reason text = map_live (
      set_condition env.clock condition_type_out_of_date
        (if flag then condition_true else condition_false) reason text)

  replace : Handle → ℤ → Progress → Step
  unfolding report adopt
  replace c run_id p = elim (recreate_job_with_new_spec env p.live.object c.job run_id true) [
    | err e ↦ fail (wrap e "Failed to create job") p
    | ok job ↦ go (report false "NotOutOfDate" "Running job matches desired spec" (adopt job p))
  ]

  -- Whether the chosen job has an outdated specification, and what is done about it.
  unfoldable pub refresh_chosen : ℤ → Progress → Step
  unfolding report replace
  refresh_chosen run_id p = elim p.chosen [
    | none ↦ go (report false "NoRunningJob" "Not currently running" p)
    | some c ↦
        if not (is_out_of_date c.job state)
        then go (report false "NotOutOfDate" "Running job matches desired spec" p)
        else if not (is_job_potentially_running c.job) || was_job_stopped_by_the_user c.job
        then go
            (report true "JobIsNotRunning" "Job is out of date, but is not running so ignoring" p)
        else if is_job_being_deleted c.job
        then go (
            report true "JobIsBeingDeleted" "Job is out of date, but is being deleted so ignoring"
              p)
        else if not (auto_recreate && state.auto_restart_is_enabled)
        then go (
            report true "ShouldNotAutoRestart"
              "Job is out of date, but auto-recreation is not enabled so will leave it running as is"
              p)
        else replace c run_id p
  ]

  unfoldable pub deadline_condition_false : Live → Live
  deadline_condition_false =
      set_condition env.clock condition_type_starting_deadline_exceeded condition_false
        "StartingDeadlineNotExceeded" "Still in time to start a new job"

  unfoldable pub start_new : Option Time → Progress → Step
  unfolding adopt
  start_new none p =
      fail
        (message
          "Tried to create a job, but the StartOfCurrentRunPeriod is nil, which was unexpected")
        p
  start_new (some start) p =
      elim (build_for_controlled_job env p.live.object start (pos 0) false true) [
        | err e ↦ fail (wrap e "Failed to create job") p
        | ok job ↦ go (adopt job p)
      ]

  -- Where a job should be running and none is chosen, one is created.
  unfoldable pub ensure_running : Progress → Step
  unfolding deadline_condition_false start_new
  ensure_running p =
      if should_be_running && not (is_some p.chosen)
      then (if starting_deadline_seconds_exceeded p.live.object state.start_of_current_run_period
            now
          then fail
              (message
                "Tried to create a job, but we have exceeded the specified StartingDeadlineSeconds after the scheduled start time")
              (map_live
                (set_condition env.clock condition_type_starting_deadline_exceeded condition_true
                  "StartingDeadlineExceeded"
                  "We expect to be running, but have exceeded the starting deadline")
                p)
          else start_new state.start_of_current_run_period (map_live deadline_condition_false p))
      else go (
          map_live
            (set_condition env.clock condition_type_starting_deadline_exceeded condition_unknown
              "NoNewJobRequired" "We're not trying to start a job at the moment")
            p)

  unfoldable pub select : Progress → Step
  select p =
      and_then (refresh_chosen (incr_i64 (survey state).max_job_run_id) (stop_outside_schedule p))
        ensure_running
