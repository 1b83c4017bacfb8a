-- ===== src/Reconcile/Overall.antt =====
-- calculateOverallConditions of pkg/reconciliation/reconcile.go.
pub mod Exclusive
use controlled_job.Base.{
  ℕ, String, Bool, true, false, not, Option, none, some, List, [], ◌∷◌, ◌&&◌, if◌then◌else◌,
}
use controlled_job.Errors.{Error, error_text}
use controlled_job.Kube.{Time, condition_true, condition_false, condition_unknown}
use controlled_job.Api.Conditions.{Live, set_condition, find_condition, coerce_condition_to_boolean}
use controlled_job.Decision.Conditions.{in_order}
use controlled_job.Api.ConditionTypes.{
  condition_type_error, condition_type_job_exists, condition_type_job_failed,
  condition_type_should_be_running, condition_type_job_manually_scheduled,
  condition_type_running_expectedly, condition_type_running_unexpectedly,
  condition_type_not_running_expectedly, condition_type_not_running_unexpectedly,
}

-- Whether the condition of the type is True.
abbrev pub holds : String → Live → Bool
holds t live = coerce_condition_to_boolean (find_condition t live.object.status.conditions)

module _ (clock : ℕ → Time) where
  abbrev because : String → String → String → Live → Live
  because t reason message = set_condition clock t condition_true reason message

  abbrev is_unknown : String → String → Live → Live
  is_unknown t message = set_condition clock t condition_unknown "CannotDetermine" message

  running_expectedly_is_unknown : Live → Live
  running_expectedly_is_unknown =
      is_unknown condition_type_running_expectedly
        "Job either not running, or it is running and we don't expect it to be (see other conditions for details)"

  running_unexpectedly_is_unknown : Live → Live
  running_unexpectedly_is_unknown =
      is_unknown condition_type_running_unexpectedly
        "Job either not running, or it is running and we expect it to be (see other conditions for details)"

  not_running_expectedly_is_unknown : Live → Live
  not_running_expectedly_is_unknown =
      is_unknown condition_type_not_running_expectedly
        "Job either running, or it's not running but we expect it to be (see other conditions for details)"

  not_running_unexpectedly_is_unknown : Live → Live
  not_running_unexpectedly_is_unknown =
      is_unknown condition_type_not_running_unexpectedly
        "Job either not running, or it is running and we expect it to be (see other conditions for details)"

  expected : String → String → Live → Live
  unfolding running_unexpectedly_is_unknown not_running_expectedly_is_unknown
      not_running_unexpectedly_is_unknown
  expected reason message = in_order (
      because condition_type_running_expectedly reason message
      ∷ running_unexpectedly_is_unknown
      ∷ not_running_expectedly_is_unknown
      ∷ not_running_unexpectedly_is_unknown
      ∷ [])

  unexpected : String → String → Live → Live
  unfolding running_expectedly_is_unknown not_running_expectedly_is_unknown
      not_running_unexpectedly_is_unknown
  unexpected reason message = in_order (
      running_expectedly_is_unknown
      ∷ because condition_type_running_unexpectedly reason message
      ∷ not_running_expectedly_is_unknown
      ∷ not_running_unexpectedly_is_unknown
      ∷ [])

  missing : String → String → Live → Live
  unfolding running_expectedly_is_unknown running_unexpectedly_is_unknown
      not_running_expectedly_is_unknown
  missing reason message = in_order (
      running_expectedly_is_unknown
      ∷ running_unexpectedly_is_unknown
      ∷ not_running_expectedly_is_unknown
      ∷ because condition_type_not_running_unexpectedly reason message
      ∷ [])

  absent : String → String → Live → Live
  unfolding running_expectedly_is_unknown running_unexpectedly_is_unknown
      not_running_unexpectedly_is_unknown
  absent reason message = in_order (
      running_expectedly_is_unknown
      ∷ running_unexpectedly_is_unknown
      ∷ because condition_type_not_running_expectedly reason message
      ∷ not_running_unexpectedly_is_unknown
      ∷ [])

  -- The branches: whether the job exists and has not failed, it failed, it should be running, and it
  -- was started by hand.
  unfoldable pub set_overall : Bool → Bool → Bool → Bool → Live → Live
  unfolding expected unexpected missing absent
  set_overall exists_and_not_failed job_failed should_be_running manually_scheduled =
      if exists_and_not_failed
      then (if should_be_running
          then expected "RunningBasedOnSchedule"
              "Job is running, and that's expected because of the schedule"
          else if manually_scheduled
          then expected "RunningManually"
              "Job is running, and that's expected because the user has manually scheduled a job"
          else unexpected "RunningUnexpectedly"
              "Job is running, but it should not be - neither inside the scheduled times, nor manually scheduled")
      else if should_be_running
      then (if job_failed
          then missing "JobFailed"
              "Job failed, but according to the schedule it should currently be running"
          else missing "NoJobExists"
              "No job currently exists, but according to the schedule it should currently be running")
      else if manually_scheduled
      then (if job_failed
          then missing "JobFailed" "Job failed after the user scheduled it"
          else missing "NoJobExists"
              "The user requested to schedule a Job, but one hasn't been created")
      else absent "NotRunningExpectedly"
          "No job exists, and that's expected as we're outside the scheduled times, and the user has not manually scheduled a job"

  unfoldable pub set_error : Option Error → Live → Live
  set_error none =
      set_condition clock condition_type_error condition_false "NoError" "No error encountered"
  set_error (some e) =
      set_condition clock condition_type_error condition_true "Error" (error_text e)

  unfoldable pub calculate_overall_conditions : Option Error → Live → Live
  unfolding set_error
  calculate_overall_conditions e live =
      let begun = set_error e live in
      let job_exists = holds condition_type_job_exists begun in
      let job_failed = holds condition_type_job_failed begun in
      set_overall (job_exists && not job_failed) job_failed
        (holds condition_type_should_be_running begun)
        (holds condition_type_job_manually_scheduled begun) begun
