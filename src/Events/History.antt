-- ===== src/Events/History.antt =====
-- The history of actions in a status: pkg/events/action_history.go.
pub mod Invariant
mod Tests
use Prim.Native.Nat.{min}
use controlled_job.Base.{
  ℕ, ◌-◌, Bool, true, false, Option, none, some, List, [], ◌∷◌, ◌++◌, ◌&&◌, ◌==◌, str_eq, length,
  take, if◌then◌else◌,
}
use controlled_job.Base.Int.{ℤ, pos, negsuc}
use controlled_job.Kube.{Time}
use controlled_job.Api.{ActionHistoryEntry, ControlledJobStatus}

abbrev pub history_entries_to_keep : ℕ
history_entries_to_keep = 16

abbrev same_option {ℓ} : {A : Type ℓ} → (A → A → Bool) → Option A → Option A → Bool
same_option eq none none = true
same_option eq (some a) (some b) = eq a b
same_option eq _ _ = false

abbrev same_number : ℤ → ℤ → Bool
same_number (pos a) (pos b) = a == b
same_number (negsuc a) (negsuc b) = a == b
same_number _ _ = false

-- The comparison of all fields but the timestamp.
unfoldable pub same_fields : ActionHistoryEntry → ActionHistoryEntry → Bool
same_fields a b =
    str_eq a.event_type b.event_type
    && (str_eq a.message b.message
        && (same_option (λ (s t : Time). s == t) a.scheduled_start_time b.scheduled_start_time
            && (same_option same_number a.job_index b.job_index && str_eq a.job_name b.job_name)))

unfoldable pub is_same_action : Option ActionHistoryEntry → ActionHistoryEntry → Bool
unfolding same_fields
is_same_action none proposed = false
is_same_action (some existing) proposed = same_fields existing proposed

-- `existing[:min(len(existing), maxLength-1)]`, behind the new entry.
unfoldable pub prepend_and_truncate_if_needed :
    List ActionHistoryEntry → ActionHistoryEntry → ℕ → List ActionHistoryEntry
prepend_and_truncate_if_needed existing new_entry max_length =
    new_entry ∷ take (min (length existing) (max_length - 1)) existing

unfoldable pub add_action_history_entry_impl :
    ControlledJobStatus → ActionHistoryEntry → Bool → ControlledJobStatus
add_action_history_entry_impl status action ignore_duplicates =
    if ignore_duplicates && is_same_action status.most_recent_action action
    then status
    else record status {
      most_recent_action = some action;
      action_history =
          prepend_and_truncate_if_needed status.action_history action history_entries_to_keep;
    }

unfoldable pub add_action_history_entry :
    ControlledJobStatus → ActionHistoryEntry → ControlledJobStatus
add_action_history_entry status action = add_action_history_entry_impl status action false

unfoldable pub add_action_history_entry_ignoring_duplicates :
    ControlledJobStatus → ActionHistoryEntry → ControlledJobStatus
add_action_history_entry_ignoring_duplicates status action =
    add_action_history_entry_impl status action true
