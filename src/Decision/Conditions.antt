-- ===== src/Decision/Conditions.antt =====
-- The status conditions that a decision records: setShouldBeRunningStatus, setConditionsForAllJobs,
-- setJobConditions and setConditionIfTrueForAnyJob of pkg/reconciliation/decision.go.
use controlled_job.Base.{
  ℕ, String, Bool, true, false, Option, none, some, List, [], ◌∷◌, any, if◌then◌else◌,
}
use controlled_job.Kube.{
  Time, ConditionStatus, condition_true, condition_false, condition_unknown, Job, JobCondition,
}
use controlled_job.Api.Conditions.{
  Live, with_status, set_condition, set_condition_based_on_flag, job_condition_to_reason,
}
use controlled_job.Api.ConditionTypes.{
  condition_type_should_be_running, condition_type_job_manually_scheduled,
  condition_type_job_being_deleted, condition_type_job_exists, condition_type_job_running,
  condition_type_job_complete, condition_type_job_failed, condition_type_job_suspended,
  condition_type_job_stopped_by_user,
}
use controlled_job.Metadata.{
  is_manually_scheduled_job, is_job_being_deleted, is_job_suspended, is_job_running,
  was_job_stopped_by_the_user, job_has_ready_status, get_job_condition, job_complete, job_failed,
}
use controlled_job.State.{State, Handle}

-- Statements one after the other.
abbrev pub in_order : List (Live → Live) → Live → Live
in_order [] live = live
in_order (f ∷ fs) live = in_order fs (f live)

module _ (clock : ℕ → Time) where
  abbrev set : String → ConditionStatus → String → String → Live → Live
  set = set_condition clock

  abbrev set_flag : String → Bool → String → String → String → String → Live → Live
  set_flag = set_condition_based_on_flag clock

  -- controlledJob.Status.ShouldBeRunning = flag
  put_should_be_running : Option Bool → Live → Live
  put_should_be_running flag live = record live {
    object = with_status live.object (record live.object.status { should_be_running = flag });
  }

  should_be_running_status : Option Bool → Live → Live
  unfolding put_should_be_running
  should_be_running_status none live =
      set condition_type_should_be_running condition_unknown "NoStartEvent"
        "No start events defined" (put_should_be_running (some false) live)
  should_be_running_status (some true) live =
      set condition_type_should_be_running condition_true "InsideRunPeriod"
        "Currently between a start and stop time in the schedule"
        (put_should_be_running (some true) live)
  should_be_running_status (some false) live =
      set condition_type_should_be_running condition_false "OutsideRunPeriod"
        "Currently outside of a start and stop time in the schedule"
        (put_should_be_running (some false) live)

  unfoldable pub set_should_be_running_status : State → Live → Live
  unfolding should_be_running_status
  set_should_be_running_status state = should_be_running_status state.should_be_running

  unfoldable pub set_condition_if_true_for_any_job :
      String → List Handle → (Job → Bool) → String → String → String → String → Live → Live
  set_condition_if_true_for_any_job t jobs test reason_true message_true reason_false
        message_false =
      set_flag t (any (λ h. test h.job) jobs) reason_true message_true reason_false message_false

  unfoldable pub set_conditions_for_all_jobs : List Handle → Live → Live
  unfolding set_condition_if_true_for_any_job
  set_conditions_for_all_jobs [] = in_order (
      set condition_type_job_manually_scheduled condition_unknown "NoCurrentJob" "No jobs"
      ∷ set condition_type_job_being_deleted condition_unknown "NoCurrentJob" "No jobs"
      ∷ [])
  set_conditions_for_all_jobs (j ∷ js) = in_order (
      set_condition_if_true_for_any_job condition_type_job_manually_scheduled (j ∷ js)
        is_manually_scheduled_job "CreatedByUser" "The user has scheduled a job manually"
        "NoManuallyScheduledJobs" "There are no manually scheduled jobs"
      ∷ set_condition_if_true_for_any_job condition_type_job_being_deleted (j ∷ js)
          is_job_being_deleted "JobBeingDeleted" "A job is being deleted" "JobNotBeingDeleted"
          "No jobs are being deleted"
      ∷ [])

  running_condition : Job → Live → Live
  running_condition job =
      if job_has_ready_status job
      then set_flag condition_type_job_running (is_job_running job) "ReadyCountSufficient"
          "Job has the expected number of ready pods and hasn't completed" "ReadyCountNotSufficient"
          "Job does not yet have the expected number of ready pods (or it's completed). It could be struggling to start"
      else set condition_type_job_running condition_unknown "CannotDetermine"
          "Job has no ready status, so we can't determine if it's running"

  -- A condition of the job is relayed; `missing` is said where it has none of the type.
  relayed_condition : String → Option JobCondition → String → String → String → String → Live → Live
  relayed_condition t (some c) prefix relaying unknown missing =
      set t c.status (job_condition_to_reason c prefix) relaying
  relayed_condition t none prefix relaying unknown missing = set t condition_unknown unknown missing

  unfoldable pub set_job_conditions : Option Handle → Live → Live
  unfolding running_condition relayed_condition
  set_job_conditions none = in_order (
      set condition_type_job_exists condition_false "NoCurrentJob" "No jobs"
      ∷ set condition_type_job_running condition_unknown "NoCurrentJob" "No jobs"
      ∷ set condition_type_job_complete condition_unknown "NoCurrentJob" "No jobs"
      ∷ set condition_type_job_failed condition_unknown "NoCurrentJob" "No jobs"
      ∷ set condition_type_job_suspended condition_unknown "NoCurrentJob" "No jobs"
      ∷ set condition_type_job_stopped_by_user condition_unknown "NoCurrentJob" "No jobs"
      ∷ [])
  set_job_conditions (some h) = in_order (
      set condition_type_job_exists condition_true "JobExists" "At least one job exists"
      ∷ running_condition h.job
      ∷ relayed_condition condition_type_job_complete (get_job_condition h.job job_complete)
          "JobComplete" "Relaying JobComplete status from the Job" "JobCompleteUnkown"
          "Job has not reported a complete condition yet"
      ∷ relayed_condition condition_type_job_failed (get_job_condition h.job job_failed) "JobFailed"
          "Relaying JobFailed status from the Job" "JobFailedUnkown"
          "Job has not reported a failed condition yet"
      ∷ set_flag condition_type_job_suspended (is_job_suspended h.job) "JobSuspended"
          "The current job is suspended" "JobNotSuspended" "The current job is not suspended"
      ∷ set_flag condition_type_job_stopped_by_user (was_job_stopped_by_the_user h.job)
          "JobStoppedByUser" "The current job was manually stopped by a user" "JobNotStoppedByUser"
          "The current job was not stopped by a user"
      ∷ [])
