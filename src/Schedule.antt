-- ===== src/Schedule.antt =====
-- Where an instant stands in the schedule: pkg/schedule/util.go, pkg/schedule/nearest_event.go and
-- pkg/schedule/state.go.
pub mod Period
pub mod Search
pub mod Event
pub mod Collected
pub mod Cron
pub mod RunPeriod
pub mod CronPrev
mod Tests
use controlled_job.Base.{
  ℕ, zero, suc, ◌+◌, ◌*◌, ◌-◌, ◌^◌, String, Bool, true, false, Option, none, some, List, [], ◌∷◌,
  ◌++◌, ◌&&◌, ◌==◌, ltb, any, str_eq, str_append, if◌then◌else◌,
}
use controlled_job.Base.Int.{ℤ, pos, negsuc}
use controlled_job.Errors.{message, wrap, Result, ok, err, Run, then_run, wrap_run}
use controlled_job.Kube.{Time, add_duration}
use controlled_job.Api.{EventSpec, TimezoneSpec, ControlledJob, event_type_start, event_type_stop}
use controlled_job.Api.CronSpec.{as_cron_spec}

-- cron.SpecSchedule: a set of admissible values per field, as bits, and the location.
pub record CronSpec : Type 0 where
  pub second : ℕ
  pub minute : ℕ
  pub hour : ℕ
  pub dom : ℕ
  pub month : ℕ
  pub dow : ℕ
  pub location : String

-- What cron.ParseStandard returns: a specification, or the constant delay of `@every`.
pub data Parsed : Type 0 where
  spec_schedule : CronSpec → Parsed
  constant_delay : ℕ → Parsed

-- The cron library and time zones, and cronPrev, which Schedule.CronPrev.Activation.searching_back
-- fills in with the code.
pub record Calendar : Type 0 where
  pub load_location : String → Result String
  pub parse_standard : String → Result Parsed
  pub next : CronSpec → Time → Time
  pub cron_prev : CronSpec → Time → Time

pub data Direction : Type 0 where
  direction_next direction_previous : Direction

pub record ScheduledEvent : Type 0 where
  pub event_type : String
  pub scheduled_time_utc : Time

-- The time found so far and the index of its schedule; 0 and `none` stand for the zero time and -1.
pub record Nearest : Type 0 where
  pub time : Time
  pub index : Option ℕ

-- time.Second * time.Duration(seconds); an int32 of seconds does not overflow.
unfoldable pub seconds : ℤ → ℤ
seconds (pos n) = pos (n * 10 ^ 9)
seconds (negsuc n) = negsuc ((n + 1) * 10 ^ 9 - 1)

-- The negation of an int32: the least number is its own.
unfoldable pub negated_i32 : ℤ → ℤ
negated_i32 (pos zero) = pos 0
negated_i32 (pos (suc n)) = negsuc n
negated_i32 (negsuc n) = if n == 2 ^ 31 - 1 then negsuc n else pos (n + 1)

unfoldable pub event_is_nearer : Time → Time → Direction → Bool
event_is_nearer test reference direction = if reference == 0 then true else elim direction [
  | direction_next ↦ ltb test reference
  | direction_previous ↦ ltb reference test
]

unfoldable pub nth {ℓ} : {A : Type ℓ} → ℕ → List A → Option A
nth n [] = none
nth zero (x ∷ xs) = some x
nth (suc n) (x ∷ xs) = nth n xs

unfoldable pub nearest_step : Direction → ℕ → Nearest → Option Time → Nearest
nearest_step direction index best none = best
nearest_step direction index best (some t) =
    if event_is_nearer t best.time direction then record { time = t; index = some index } else best

-- The action of the schedule found; a zero time is no event.
scheduled_event : Nearest → List String → Run (Option ScheduledEvent)
unfolding nth
scheduled_event found actions = if found.time == 0 then some (ok none) else elim found.index [
  | none ↦ none
  | some i ↦ elim (nth i actions) [
    | none ↦ none
    | some action ↦
        some (ok (some (record { event_type = action; scheduled_time_utc = found.time })))
  ]
]

module _ (cal : Calendar) where
  -- A constant delay is no SpecSchedule: errors.Wrap of a nil error is nil, and so the pointer
  -- returned is nil with no error. `none` is that pointer.
  unfoldable pub map_event_to_spec_schedule : EventSpec → String → Run (Option CronSpec)
  map_event_to_spec_schedule event location = then_run (as_cron_spec event) (λ text.
      elim (cal.parse_standard text) [
        | err e ↦ some (err (wrap e "Failed to parse cron schedule"))
        | ok (constant_delay n) ↦ some (ok none)
        | ok (spec_schedule s) ↦ some (ok (some (record s { location = location })))
      ])

  -- The next or previous time of one schedule, offset taken into account; `none` where it is zero.
  unfoldable pub adjacent_time : Time → Direction → ℤ → CronSpec → Option Time
  unfolding seconds negated_i32
  adjacent_time now direction offset spec =
      let shifted = add_duration now (seconds offset) in
      let found : Time = elim direction [
        | direction_next ↦ cal.next spec shifted
        | direction_previous ↦ cal.cron_prev spec shifted
      ] in
      if found == 0 then none else some (add_duration found (seconds (negated_i32 offset)))

  -- A nil pointer to a schedule is dereferenced.
  unfoldable pub nearest_from :
      Time → Direction → ℤ → ℕ → Nearest → List (Option CronSpec) → Option Nearest
  nearest_from now direction offset index best [] = some best
  nearest_from now direction offset index best (none ∷ specs) = none
  nearest_from now direction offset index best (some spec ∷ specs) =
      nearest_from now direction offset (suc index)
        (nearest_step direction index best (adjacent_time now direction offset spec)) specs

  unfoldable pub find_nearest_schedule_time :
      List (Option CronSpec) → Time → Direction → ℤ → Option Nearest
  find_nearest_schedule_time specs now direction offset =
      nearest_from now direction offset 0 (record { time = 0; index = none }) specs

  -- The schedules to search and the actions of their events.
  unfoldable pub collect :
      (EventSpec → Bool) → String → List EventSpec → Run (List (Option CronSpec) × List String)
  collect filter location [] = some (ok ([], []))
  collect filter location (event ∷ events) =
      let rest = collect filter location events in
      if filter event
      then then_run (map_event_to_spec_schedule event location) (λ spec.
        then_run rest (λ (specs, actions). some (ok (spec ∷ specs, event.action ∷ actions))))
      else rest

  unfoldable pub find_nearest_event :
      List EventSpec
      → Time
      → String
      → ℤ
      → Direction
      → (EventSpec → Bool)
      → Run (Option ScheduledEvent)
  unfolding scheduled_event
  find_nearest_event events now location offset direction filter =
      then_run (collect filter location events) (λ (specs, actions).
        elim (find_nearest_schedule_time specs now direction offset) [
          | none ↦ none
          | some found ↦ scheduled_event found actions
        ])
