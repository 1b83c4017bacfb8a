-- ===== src/Events/History/Tests.antt =====
-- The history of pkg/events/action_history.go at a short list, and its theorem there.
use controlled_job.Base.{◌≡◌, refl, some, [], ◌∷◌, arith}
use controlled_job.Api.{ControlledJobStatus}
use controlled_job.Samples.{empty_status}
use controlled_job.Events.{new_job_started_action, new_job_stopped_action, new_action_for_job}
use controlled_job.Events.History.{
  add_action_history_entry_ignoring_duplicates, add_action_history_entry_impl, is_same_action,
  same_fields,
}
use controlled_job.Events.History.Invariant.{IsHistory, add_action_history_entry-IsHistory}

abbrev one_entry : ControlledJobStatus
one_entry = record empty_status {
  most_recent_action = some (new_job_started_action 5 "cj-1");
  action_history = new_job_started_action 5 "cj-1" ∷ [];
}

-- The same action again, later, is left out.
repeated_left_out :
    add_action_history_entry_ignoring_duplicates one_entry (new_job_started_action 9 "cj-1")
    ≡ one_entry
unfolding add_action_history_entry_ignoring_duplicates add_action_history_entry_impl is_same_action
    same_fields new_job_started_action new_action_for_job
repeated_left_out = refl

one_entry-IsHistory : IsHistory one_entry
unfolding is_same_action
one_entry-IsHistory = record { bounded = omega arith; recent = refl; changing = (refl, tt) }

add_action_history_entry-IsHistory_example :
    IsHistory
      (add_action_history_entry_ignoring_duplicates one_entry (new_job_stopped_action 9 "cj-1"))
add_action_history_entry-IsHistory_example =
    add_action_history_entry-IsHistory one_entry (new_job_stopped_action 9 "cj-1")
      one_entry-IsHistory
