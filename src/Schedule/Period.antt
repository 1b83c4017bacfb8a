-- ===== src/Schedule/Period.antt =====
-- The state of the schedule at an instant: pkg/schedule/state.go.
use controlled_job.Base.{
  String, Bool, true, false, not, Option, none, some, List, any, str_eq, str_append, if◌then◌else◌,
}
use controlled_job.Base.Int.{ℤ}
use controlled_job.Errors.{message, wrap, ok, err, Run, then_run, wrap_run}
use controlled_job.Kube.{Time}
use controlled_job.Api.{EventSpec, ControlledJob, event_type_start, event_type_stop}
use controlled_job.Schedule.{
  Calendar, direction_next, direction_previous, ScheduledEvent, find_nearest_event,
}

pub record ScheduleState : Type 0 where
  pub last_stop_time : Option Time
  pub start_of_current_run_period : Option Time
  pub previous_event : Option ScheduledEvent
  pub next_event : Option ScheduledEvent

abbrev pub time_of : Option ScheduledEvent → Option Time
time_of none = none
time_of (some e) = some e.scheduled_time_utc

unfoldable pub next_event_time : ScheduleState → Option Time
next_event_time s = time_of s.next_event

unfoldable pub should_be_running : ScheduleState → Bool
should_be_running s = elim s.previous_event [
  | none ↦ false
  | some e ↦ str_eq e.event_type event_type_start
]

abbrev pub is_start : EventSpec → Bool
is_start e = str_eq e.action event_type_start

abbrev pub is_stop : EventSpec → Bool
is_stop e = str_eq e.action event_type_stop

abbrev every_event : EventSpec → Bool
every_event e = true

module _ (cal : Calendar) (events : List EventSpec) (location : String) (offset : ℤ)
    (now : Time) where
  unfoldable pub find_most_recent_stop_time : Run (Option Time)
  find_most_recent_stop_time =
      then_run (find_nearest_event cal events now location offset direction_previous is_stop)
        (λ e. some (ok (time_of e)))

  -- From the last stop on to the next start. With no stop, start events are an error.
  unfoldable pub find_start_of_current_run_period : Run (Option Time)
  unfolding find_most_recent_stop_time
  find_start_of_current_run_period = then_run find_most_recent_stop_time (λ last. elim last [
    | none ↦
        if not (any is_start events)
        then some (ok none)
        else some (
            err (
              message
                "No previous stop events found, only start events. We don't currently support start-only schedules (as it's not clear what the semantics should be)"))
    | some stop ↦
        then_run (find_nearest_event cal events stop location offset direction_next is_start)
          (λ e. some (ok (time_of e)))
  ])

  resolved_state : Run ScheduleState
  unfolding find_most_recent_stop_time find_start_of_current_run_period
  resolved_state =
      then_run
        (wrap_run "failed to find previous event in the schedule"
          (find_nearest_event cal events now location offset direction_previous every_event))
        (λ previous.
          then_run
            (wrap_run "failed to find next event in the schedule"
              (find_nearest_event cal events now location offset direction_next every_event))
            (λ next.
              then_run (wrap_run "failed to find most recent stop time" find_most_recent_stop_time)
                (λ stop.
                  then_run
                    (wrap_run "failed to find start of current run period"
                      find_start_of_current_run_period)
                    (λ start. some (
                      ok (record {
                        last_stop_time = stop;
                        start_of_current_run_period = start;
                        previous_event = previous;
                        next_event = next;
                      }))))))

unfoldable pub state_for : Calendar → ControlledJob → Time → Run ScheduleState
unfolding resolved_state
state_for cal cj now = elim (cal.load_location cj.spec.timezone.zone) [
  | err e ↦
      some (err (wrap e (str_append "failed to resolve timezone named " cj.spec.timezone.zone)))
  | ok location ↦ resolved_state cal cj.spec.events location cj.spec.timezone.offset_seconds now
]
