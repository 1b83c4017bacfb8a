-- ===== src/Api.antt =====
-- The ControlledJob resource: api/v1/controlledjob_types.go.
pub mod Conditions
pub mod ConditionTypes
pub mod CronSpec
use controlled_job.Base.{ℕ, String, Bool, Option, List}
use controlled_job.Base.Int.{ℤ}
use controlled_job.Kube.{Time, ConditionStatus, JobTemplate, ObjectReference}

pub record TimezoneSpec : Type 0 where
  pub zone : String
  pub offset_seconds : ℤ

-- EventType is a string type; these are the two actions that the code compares with.
abbrev pub event_type_start : String
event_type_start = "start"

abbrev pub event_type_stop : String
event_type_stop = "stop"

pub record FriendlyScheduleSpec : Type 0 where
  pub time_of_day : String
  pub days_of_week : String

pub record EventSpec : Type 0 where
  pub action : String
  pub cron_schedule : String
  pub schedule : Option FriendlyScheduleSpec

pub record ControlledJobSpec : Type 0 where
  pub timezone : TimezoneSpec
  pub events : List EventSpec
  pub job_template : JobTemplate
  pub starting_deadline_seconds : Option ℤ
  pub spec_change_policy : String
  pub suspend : Option Bool

abbrev pub recreate_spec_change_policy : String
recreate_spec_change_policy = "Recreate"

-- `metav1.Condition`
pub record Condition : Type 0 where
  pub type_name : String
  pub status : ConditionStatus
  pub last_transition_time : Time
  pub observed_generation : ℕ
  pub reason : String
  pub message : String

pub record ActionHistoryEntry : Type 0 where
  pub event_type : String
  pub timestamp : Option Time
  pub message : String
  pub scheduled_start_time : Option Time
  pub job_index : Option ℤ
  pub job_name : String

pub record ControlledJobStatus : Type 0 where
  pub active : List ObjectReference
  pub last_scheduled_start_time : Option Time
  pub should_be_running : Option Bool
  pub is_running : Option Bool
  pub is_suspended : Option Bool
  pub most_recent_action : Option ActionHistoryEntry
  pub action_history : List ActionHistoryEntry
  pub conditions : List Condition

pub record ControlledJob : Type 0 where
  pub name : String
  pub namespace : String
  pub annotations : List (String × String)
  pub generation : ℕ
  pub spec : ControlledJobSpec
  pub status : ControlledJobStatus
