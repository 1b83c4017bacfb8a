-- ===== src/Api/Conditions.antt =====
-- Status conditions: api/v1/helpers.go.
-- The wall clock is a function from the number of readings made so far; the object under work is
-- carried together with that number.
mod Upsert
pub mod Stability
mod Tests
use controlled_job.Base.{
  ℕ, suc, String, Bool, true, false, not, Option, none, some, List, [], ◌∷◌, ◌++◌, ◌||◌,
  if◌then◌else◌, ◌==◌, same, str_eq, is_some, str_append,
}
use controlled_job.Kube.{
  Time, ConditionStatus, condition_true, condition_false, condition_unknown, JobCondition,
}
use controlled_job.Api.{Condition, ControlledJob, ControlledJobStatus}

-- A ControlledJob in memory, and how often `time.Now` has been read.
pub record Live : Type 0 where
  pub object : ControlledJob
  pub readings : ℕ

abbrev pub same_status : ConditionStatus → ConditionStatus → Bool
same_status condition_true condition_true = true
same_status condition_false condition_false = true
same_status condition_unknown condition_unknown = true
same_status _ _ = false

unfoldable pub find_condition : String → List Condition → Option Condition
find_condition t [] = none
find_condition t (c ∷ cs) = if str_eq c.type_name t then some c else find_condition t cs

-- What SetCondition writes through the pointer to the existing condition.
unfoldable pub refresh : Condition → Condition → Condition
refresh new old =
    if not (same_status old.status new.status) || old.last_transition_time == 0
    then record {
      type_name = old.type_name;
      status = new.status;
      last_transition_time = new.last_transition_time;
      observed_generation = new.observed_generation;
      reason = new.reason;
      message = new.message;
    }
    else record old { status = new.status; reason = new.reason; message = new.message }

-- The write goes to the condition that `find_condition` finds.
unfoldable pub update_found : String → Condition → List Condition → List Condition
update_found t new [] = []
update_found t new (c ∷ cs) =
    if str_eq c.type_name t then refresh new c ∷ cs else c ∷ update_found t new cs

unfoldable pub upsert : Condition → List Condition → List Condition
upsert new cs =
    if is_some (find_condition new.type_name cs)
    then update_found new.type_name new cs
    else cs ++ new ∷ []

abbrev pub with_status : ControlledJob → ControlledJobStatus → ControlledJob
with_status cj s = record cj { status = s }

-- `RemoveCondition`: the first condition of the type goes.
unfoldable pub remove_condition : String → List Condition → List Condition
remove_condition t [] = []
remove_condition t (c ∷ cs) = if str_eq c.type_name t then cs else c ∷ remove_condition t cs

unfoldable pub coerce_condition_to_boolean : Option Condition → Bool
coerce_condition_to_boolean none = false
coerce_condition_to_boolean (some c) = same_status c.status condition_true

unfoldable pub status_as_condition_status : Bool → ConditionStatus
status_as_condition_status true = condition_true
status_as_condition_status false = condition_false

unfoldable pub optional_status_as_condition_status : Option Bool → ConditionStatus
unfolding status_as_condition_status
optional_status_as_condition_status none = condition_unknown
optional_status_as_condition_status (some flag) = status_as_condition_status flag

unfoldable pub job_condition_to_reason : JobCondition → String → String
job_condition_to_reason c prefix =
    if same_status c.status condition_true
    then str_append prefix "True"
    else if same_status c.status condition_false
    then str_append prefix "False"
    else str_append prefix "Unknown"

module _ (clock : ℕ → Time) where
  unfoldable pub set_condition : String → ConditionStatus → String → String → Live → Live
  set_condition t status reason message live = record {
    object = with_status cj (record cj.status { conditions = upsert new cj.status.conditions });
    readings = suc live.readings;
  }
    where
      cj : ControlledJob
      cj = live.object

      new : Condition
      new = record {
        type_name = t;
        status = status;
        last_transition_time = clock live.readings;
        observed_generation = live.object.generation;
        reason = reason;
        message = message;
      }

  unfoldable pub set_condition_based_on_flag :
      String → Bool → String → String → String → String → Live → Live
  set_condition_based_on_flag t flag reason_true message_true reason_false message_false live =
      if flag
      then set_condition t condition_true reason_true message_true live
      else set_condition t condition_false reason_false message_false live
