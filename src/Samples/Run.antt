-- ===== src/Samples/Run.antt =====
-- Runs of the decision on the samples.
use controlled_job.Base.{true, Option, List}
use controlled_job.Base.Int.{mul_i64, incr_i64}
use controlled_job.Base.Text.{gt_text, equal_fold}
use controlled_job.Base.Decimal.{atoi, print_ℕ, print_ℤ}
use controlled_job.Api.Conditions.{
  set_condition, set_condition_based_on_flag, upsert, find_condition, update_found, refresh,
  job_condition_to_reason, Live, coerce_condition_to_boolean,
}
use controlled_job.Builder.{
  unix, job_name, copy_into, job_annotations, templated_job, build_job, build_for_controlled_job,
  recreate_job_with_new_spec,
}
use controlled_job.Mutators.{apply_all}
use controlled_job.Metadata.{
  lookup, value_of, put, parse_bool, is_manually_scheduled_job, get_job_condition,
  job_has_condition, is_job_completed, is_job_potentially_running, is_job_being_deleted,
  is_job_suspended, was_job_stopped_by_the_user, job_has_ready_status, is_job_running,
  get_scheduled_time, get_job_run_id, calculate_hash_for,
}
use controlled_job.State.{State, pointers_from}
use controlled_job.Samples.{sample_env, sample_live, read_time, sample_calendar, read_schedule}
use controlled_job.Decision.Candidate.{
  is_out_of_date, has_desired_spec, is_better_candidate_job, better_of,
}
use controlled_job.Decision.Conditions.{
  set_should_be_running_status, set_condition_if_true_for_any_job, set_conditions_for_all_jobs,
  set_job_conditions,
}
use controlled_job.Decision.Loops.{
  survey_step, survey_from, survey, is_expired, sort_step, sort_from, sort_jobs,
}
use controlled_job.Decision.{
  Outcome, decide, conclude, select, finish, initial_progress, observe, refresh_chosen,
  stop_outside_schedule, ensure_running, delete_others, unsuspend_chosen, set_requeue, adopt,
  starting_deadline_seconds_exceeded, may_unsuspend, is_kept, put_header,
}
use controlled_job.Kube.{Time, Job}
use controlled_job.Api.CronSpec.{as_cron_spec}
use controlled_job.Errors.{error_text, wrap_error, event_of}
use controlled_job.Client.{
  Call, Cluster, get_controlled_job, update_status, create_job, suspend_job, unsuspend_job,
  delete_job, record_event, record_action,
}
use controlled_job.Events.{
  has_prefix, is_warning_event, new_action_for_job, new_job_started_action,
  new_job_suspended_action, new_job_unsuspended_action, new_job_stopped_action, new_failed_action,
}
use controlled_job.Events.History.{
  same_fields, is_same_action, prepend_and_truncate_if_needed, add_action_history_entry_impl,
  add_action_history_entry_ignoring_duplicates,
}
use controlled_job.Schedule.{
  nth, event_is_nearer, nearest_step, map_event_to_spec_schedule, adjacent_time, nearest_from,
  find_nearest_schedule_time, collect, find_nearest_event,
}
use controlled_job.Schedule.Period.{
  next_event_time, should_be_running, find_most_recent_stop_time, find_start_of_current_run_period,
  state_for,
}
use controlled_job.State.Build.{build_state, state_of}
use controlled_job.Reconcile.{
  load_from_cluster, make_decision, record_failed_reconcile, deferred, return_ended, act_on,
  reconcile_decided, reconcile_loaded, reconcile_found, reconcile,
}
use controlled_job.Reconcile.Operations.{
  each, perform_step, deletion, creation, suspension, unsuspension, carry_out,
}
use controlled_job.Reconcile.Results.{
  ReconcileResult, transient_error_result, non_retryable_error_result, sub_time,
}
use controlled_job.Reconcile.Overall.{set_overall, set_error, calculate_overall_conditions}

-- The decision on a state in the sample environment. Its line opens all that a run calls.
unfoldable pub evaluate : State → Outcome
unfolding decide conclude select finish initial_progress observe refresh_chosen
    stop_outside_schedule ensure_running delete_others unsuspend_chosen set_requeue adopt
    starting_deadline_seconds_exceeded may_unsuspend is_kept put_header survey_step survey_from
    survey is_expired sort_step sort_from sort_jobs is_out_of_date has_desired_spec
    is_better_candidate_job better_of gt_text lookup value_of put parse_bool
    is_manually_scheduled_job get_job_condition job_has_condition is_job_completed
    is_job_potentially_running is_job_being_deleted is_job_suspended was_job_stopped_by_the_user
    get_scheduled_time get_job_run_id calculate_hash_for unix job_name copy_into job_annotations
    templated_job build_job build_for_controlled_job recreate_job_with_new_spec apply_all
    pointers_from read_time atoi print_ℕ print_ℤ incr_i64 mul_i64 equal_fold
    set_should_be_running_status set_condition_if_true_for_any_job set_conditions_for_all_jobs
    set_job_conditions set_condition set_condition_based_on_flag upsert find_condition update_found
    refresh job_condition_to_reason job_has_ready_status is_job_running
evaluate state = decide sample_env true 110 state sample_live

-- makeDecision and Reconcile open these as well.
unfoldable pub made : Time → List Job → Live → Option Outcome
unfolding evaluate make_decision build_state state_of state_for find_most_recent_stop_time
    find_start_of_current_run_period find_nearest_event collect map_event_to_spec_schedule
    as_cron_spec find_nearest_schedule_time nearest_from nearest_step event_is_nearer adjacent_time
    nth read_schedule should_be_running next_event_time
made now jobs live = make_decision sample_env sample_calendar true now jobs live

unfoldable pub reconciled : Time → Cluster → (Option ReconcileResult) × List Call
unfolding made reconcile reconcile_found reconcile_loaded reconcile_decided act_on return_ended
    deferred record_failed_reconcile load_from_cluster get_controlled_job carry_out perform_step
    each deletion creation suspension unsuspension delete_job create_job suspend_job unsuspend_job
    update_status record_action record_event is_warning_event has_prefix
    add_action_history_entry_ignoring_duplicates add_action_history_entry_impl
    prepend_and_truncate_if_needed is_same_action same_fields new_job_started_action
    new_job_stopped_action new_job_suspended_action new_job_unsuspended_action new_failed_action
    new_action_for_job calculate_overall_conditions set_overall set_error
    coerce_condition_to_boolean transient_error_result non_retryable_error_result sub_time
    error_text wrap_error event_of
reconciled now cluster = reconcile sample_env cluster sample_calendar true "cj" "ns" now
