-- ===== src/Samples/Surprises.antt =====
-- Small runs in which the code does what its comments and names do not say.
use controlled_job.Base.{
  ℕ, ◌+◌, ◌*◌, ◌^◌, ◌≡◌, refl, Bool, true, false, Option, none, some, List, [], ◌∷◌, map, String,
}
use controlled_job.Base.Int.{pos, mul_i64}
use controlled_job.Errors.{ok}
use controlled_job.Kube.{Time}
use controlled_job.Api.{ControlledJob}
use controlled_job.Api.CronSpec.{as_cron_spec}
use controlled_job.Schedule.{
  Calendar, direction_next, constant_delay, map_event_to_spec_schedule, find_nearest_event,
  find_nearest_schedule_time, nearest_from, collect,
}
use controlled_job.Client.{
  Call, event_call, create_call, delete_call, update_call, update_status_call, update_object_call,
  get_call, list_call, Failure, failed,
}
use controlled_job.Decision.{starting_deadline_seconds_exceeded}
use controlled_job.Reconcile.Status.{status_updates}
use controlled_job.Reconcile.Overall.{holds}
use controlled_job.Samples.{
  sample_controlled_job, sample_calendar, sample_cluster, suspended_job, event_at,
}
use controlled_job.Samples.Run.{reconciled}

-- A start in the year 1997, in nanoseconds.
abbrev start : Time
start = 63000000000 * 10 ^ 9

abbrev with_deadline : ℕ → ControlledJob
with_deadline seconds = record sample_controlled_job {
  spec = record sample_controlled_job.spec { starting_deadline_seconds = some (pos seconds) };
}

-- A deadline of 292 years is not exceeded one second after the start; one second more overflows.
long_deadline :
    starting_deadline_seconds_exceeded (with_deadline 9223372036) (some start) (start + 10 ^ 9)
    ≡ false
unfolding starting_deadline_seconds_exceeded mul_i64
long_deadline = refl

longer_deadline :
    starting_deadline_seconds_exceeded (with_deadline 9223372037) (some start) (start + 10 ^ 9)
    ≡ true
unfolding starting_deadline_seconds_exceeded mul_i64
longer_deadline = refl

-- An event with neither a cron schedule nor a schedule panics.
no_schedule : as_cron_spec (event_at "start" "") ≡ none
unfolding as_cron_spec
no_schedule = refl

abbrev delaying_calendar : Calendar
delaying_calendar = record sample_calendar { parse_standard = λ text. ok (constant_delay 300) }

-- An event at a constant delay panics in the search.
constant_delay_panics :
    find_nearest_event delaying_calendar
      (event_at "start" "@every 5m" ∷ [])
      120
      "GMT"
      (pos 0)
      direction_next
      (λ e. true)
    ≡ none
unfolding find_nearest_event collect map_event_to_spec_schedule as_cron_spec
    find_nearest_schedule_time nearest_from
constant_delay_panics = refl

abbrev failing_conditions : ControlledJob → Bool
failing_conditions cj = holds "FailedToUnsuspendJob" (record { object = cj; readings = 0 })

abbrev take_all : List Call → Call → Option Failure
take_all calls c = none

-- A job was unsuspended without a failure, and the status says FailedToUnsuspendJob.
unsuspended_and_failed :
    map failing_conditions (
      status_updates
        (reconciled 120 (sample_cluster (suspended_job "cj-110-0" "110" ∷ []) take_all)).1)
    ≡ true ∷ []
unfolding reconciled
unsuspended_and_failed = refl

abbrev kind_of : Call → String
kind_of (get_call a b) = "get"
kind_of (list_call a b) = "list"
kind_of (create_call a) = "create"
kind_of (update_call a) = "update"
kind_of (delete_call a b) = "delete"
kind_of (update_status_call a) = "status"
kind_of (update_object_call a) = "object"
kind_of (event_call a b c) = b

abbrev refuse_creation : List Call → Call → Option Failure
refuse_creation calls (create_call job) = some (failed "no")
refuse_creation calls _ = none

-- The failed action is recorded when the status has been written already, so the status lacks it.
recorded_too_late :
    (map kind_of (reconciled 120 (sample_cluster [] refuse_creation)).1
      ≡ "get" ∷ "list" ∷ "create" ∷ "status" ∷ "FailedToCreateJob" ∷ [])
    × (map
          (λ (cj : ControlledJob). cj.status.action_history)
          (status_updates (reconciled 120 (sample_cluster [] refuse_creation)).1)
        ≡ [] ∷ [])
unfolding reconciled
recorded_too_late = (refl, refl)
