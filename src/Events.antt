-- ===== src/Events.antt =====
-- Events and actions: pkg/events/events.go and pkg/events/action_entry_helpers.go.
pub mod History
use Prim.Native.String.{[], ◌∷◌}
use Prim.Native.Char.{Char, code}
use controlled_job.Base.{
  ℕ, String, Bool, true, false, Option, none, some, ◌&&◌, ◌==◌, str_append, if◌then◌else◌,
}
use controlled_job.Kube.{Time}
use controlled_job.Errors.{Error, error_text}
use controlled_job.Api.{ActionHistoryEntry}

abbrev pub event_job_started : String
event_job_started = "JobStarted"

abbrev pub event_job_stopped : String
event_job_stopped = "JobStopped"

abbrev pub event_job_suspended : String
event_job_suspended = "JobSuspended"

abbrev pub event_job_unsuspended : String
event_job_unsuspended = "JobUnsuspended"

abbrev pub failed_to_reconcile : String
failed_to_reconcile = "FailedToReconcile"

abbrev pub failed_to_list_jobs : String
failed_to_list_jobs = "FailedToListJobs"

abbrev pub failed_to_calculate_schedule : String
failed_to_calculate_schedule = "FailedToCalculateSchedule"

abbrev pub failed_to_create_job : String
failed_to_create_job = "FailedToCreateJob"

abbrev pub failed_to_delete_job : String
failed_to_delete_job = "FailedToDeleteJob"

abbrev pub failed_to_suspend_job : String
failed_to_suspend_job = "FailedToSuspendJob"

abbrev pub failed_to_unsuspend_job : String
failed_to_unsuspend_job = "FailedToUnsuspendJob"

-- strings.HasPrefix
unfoldable pub has_prefix : String → String → Bool
has_prefix s [] = true
has_prefix [] (d ∷ p) = false
has_prefix (c ∷ s) (d ∷ p) = code c == code d && has_prefix s p

unfoldable pub is_warning_event : String → Bool
unfolding has_prefix
is_warning_event event = has_prefix event "Failed"

-- The zero time gives none.
abbrev pub time_or_nil_if_zero : Time → Option Time
time_or_nil_if_zero t = if t == 0 then none else some t

-- The constructors of actions take the time that NowFunc gives.
unfoldable pub new_action_for_job : Time → String → String → String → ActionHistoryEntry
new_action_for_job t event_type text job_name = record {
  event_type = event_type;
  timestamp = time_or_nil_if_zero t;
  message = text;
  scheduled_start_time = none;
  job_index = none;
  job_name = job_name;
}

unfoldable pub new_job_started_action : Time → String → ActionHistoryEntry
new_job_started_action t name =
    new_action_for_job t event_job_started (str_append "Created job: " name) name

unfoldable pub new_job_suspended_action : Time → String → ActionHistoryEntry
new_job_suspended_action t name =
    new_action_for_job t event_job_suspended (str_append "Suspended job: " name) name

unfoldable pub new_job_unsuspended_action : Time → String → ActionHistoryEntry
new_job_unsuspended_action t name =
    new_action_for_job t event_job_unsuspended (str_append "Unsuspended job: " name) name

unfoldable pub new_job_stopped_action : Time → String → ActionHistoryEntry
new_job_stopped_action t name =
    new_action_for_job t event_job_stopped (str_append "Deleted job: " name) name

unfoldable pub new_job_failed_action : Time → String → Error → String → ActionHistoryEntry
new_job_failed_action t event e name =
    new_action_for_job t event
      (str_append "Job " (str_append name (str_append " failed: " (error_text e)))) name

unfoldable pub new_failed_action : Time → String → Error → ActionHistoryEntry
new_failed_action t event e = record {
  event_type = event;
  timestamp = time_or_nil_if_zero t;
  message = error_text e;
  scheduled_start_time = none;
  job_index = none;
  job_name = "";
}
