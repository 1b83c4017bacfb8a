-- ===== src/Api/ConditionTypes.antt =====
-- The condition types of api/v1/controlledjob_types.go.
use controlled_job.Base.{String}

abbrev pub condition_type_should_be_running : String
condition_type_should_be_running = "ShouldBeRunning"

abbrev pub condition_type_suspended : String
condition_type_suspended = "Suspended"

abbrev pub condition_type_out_of_date : String
condition_type_out_of_date = "OutOfDate"

abbrev pub condition_type_job_manually_scheduled : String
condition_type_job_manually_scheduled = "JobManuallyScheduled"

abbrev pub condition_type_job_exists : String
condition_type_job_exists = "JobExists"

abbrev pub condition_type_job_running : String
condition_type_job_running = "JobRunning"

abbrev pub condition_type_job_complete : String
condition_type_job_complete = "JobComplete"

abbrev pub condition_type_job_failed : String
condition_type_job_failed = "JobFailed"

abbrev pub condition_type_job_being_deleted : String
condition_type_job_being_deleted = "JobBeingDeleted"

abbrev pub condition_type_job_suspended : String
condition_type_job_suspended = "JobSuspended"

abbrev pub condition_type_job_stopped_by_user : String
condition_type_job_stopped_by_user = "JobStoppedByUser"

abbrev pub condition_type_failed_to_create_job : String
condition_type_failed_to_create_job = "FailedToCreateJob"

abbrev pub condition_type_failed_to_suspend_job : String
condition_type_failed_to_suspend_job = "FailedToSuspendJob"

abbrev pub condition_type_failed_to_unsuspend_job : String
condition_type_failed_to_unsuspend_job = "FailedToUnsuspendJob"

abbrev pub condition_type_failed_to_delete_job : String
condition_type_failed_to_delete_job = "FailedToDeleteJob"

abbrev pub condition_type_starting_deadline_exceeded : String
condition_type_starting_deadline_exceeded = "StartingDeadlineExceeded"

abbrev pub condition_type_running_expectedly : String
condition_type_running_expectedly = "RunningExpectedly"

abbrev pub condition_type_running_unexpectedly : String
condition_type_running_unexpectedly = "RunningUnexpectedly"

abbrev pub condition_type_not_running_expectedly : String
condition_type_not_running_expectedly = "NotRunningExpectedly"

abbrev pub condition_type_not_running_unexpectedly : String
condition_type_not_running_unexpectedly = "NotRunningUnexpectedly"

abbrev pub condition_type_error : String
condition_type_error = "Error"
