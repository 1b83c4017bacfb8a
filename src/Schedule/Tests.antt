-- ===== src/Schedule/Tests.antt =====
-- Searches of pkg/schedule/nearest_event.go at a small schedule, and their theorems there.
use controlled_job.Base.{ℕ, ◌≡◌, refl, true, Option, some, List, [], ◌∷◌, Memᴰ, map, arith}
use controlled_job.Base.Int.{pos}
use controlled_job.Base.Decimal.{atoi}
use controlled_job.Errors.{ok}
use controlled_job.Api.CronSpec.{as_cron_spec}
use controlled_job.Schedule.Search.{
  IsNearestOf, AreNonZero, times, find_nearest_schedule_time-IsNearestOf,
}
use controlled_job.Schedule.Event.{IsNearestEvent, find_nearest_event-IsNearestEvent}
use controlled_job.Schedule.{
  CronSpec, Nearest, ScheduledEvent, direction_previous, collect, map_event_to_spec_schedule,
  adjacent_time, find_nearest_schedule_time, find_nearest_event,
}
use controlled_job.Samples.{sample_calendar, daily_events, read_schedule}

abbrev spec_of : ℕ → CronSpec
spec_of n = record {
  second = 0;
  minute = n;
  hour = 0;
  dom = 0;
  month = 0;
  dow = 0;
  location = "GMT";
}

abbrev two_specs : List CronSpec
two_specs = spec_of 10 ∷ spec_of 60 ∷ []

times_at_120 :
    times sample_calendar 120 direction_previous (pos 0) two_specs ≡ some 110 ∷ some 60 ∷ []
unfolding adjacent_time
times_at_120 = refl

nonzero_110_60 : AreNonZero direction_previous (some 110 ∷ some 60 ∷ [])
nonzero_110_60 t (Memᴰ.head e) z = ground (arith, e, z)
nonzero_110_60 t (Memᴰ.tail (Memᴰ.head e)) z = ground (arith, e, z)
nonzero_110_60 t (Memᴰ.tail (Memᴰ.tail m)) z = elim m [ ]

find_nearest_schedule_time-IsNearestOf_example :
    (r : Nearest) × (find_nearest_schedule_time sample_calendar
        (map some two_specs)
        120
        direction_previous
        (pos 0)
      ≡ some r)
    × IsNearestOf direction_previous (some 110 ∷ some 60 ∷ []) r
unfolding adjacent_time
find_nearest_schedule_time-IsNearestOf_example =
    find_nearest_schedule_time-IsNearestOf sample_calendar 120 direction_previous (pos 0) two_specs
      nonzero_110_60

find_nearest_event-IsNearestEvent_example :
    (o : Option ScheduledEvent) × (find_nearest_event sample_calendar daily_events 120 "GMT"
        (pos 0)
        direction_previous
        (λ e. true)
      ≡ some (ok o))
    × IsNearestEvent sample_calendar direction_previous 120
        (pos 0)
        two_specs
        ("start" ∷ "stop" ∷ [])
        o
unfolding adjacent_time collect map_event_to_spec_schedule as_cron_spec read_schedule atoi
find_nearest_event-IsNearestEvent_example =
    find_nearest_event-IsNearestEvent sample_calendar direction_previous 120 (pos 0) two_specs
      ("start" ∷ "stop" ∷ []) daily_events "GMT" (λ e. true) refl nonzero_110_60
