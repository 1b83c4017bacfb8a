-- ===== src/Schedule/CronPrev/RunPeriod.antt =====
-- The current run period of pkg/schedule/state.go, where the search backwards is cronPrev of
-- pkg/schedule/cron_prev.go.
mod Tests
use controlled_job.Base.{
  ℕ, ◌+◌, ◌*◌, ◌-◌, ◌%◌, ◌≤◌, ◌<◌, ◌≡◌, ◌≢◌, ◌∙◌, sym, ap, subst, refl, ◌⊎◌, inl, inr, Bool, true,
  false, Option, none, some, List, ◌&&◌, ◌==◌, ltb, Memᴰ, String, arith, Bool-cases,
}
use controlled_job.Base.Int.{pos}
use controlled_job.Errors.{Result, ok}
use controlled_job.Kube.{Time}
use controlled_job.Api.{EventSpec, event_type_start, event_type_stop}
use controlled_job.Schedule.{
  Calendar, CronSpec, Parsed, ScheduledEvent, direction_previous, find_nearest_event,
}
use controlled_job.Schedule.Collected.{HaveSchedules}
use controlled_job.Schedule.Cron.{IsCron}
use controlled_job.Schedule.Period.{find_most_recent_stop_time, find_start_of_current_run_period}
use controlled_job.Schedule.RunPeriod.{run_period_start}
use controlled_job.Schedule.CronPrev.{Zone, one_second, cron_prev}
use controlled_job.Schedule.CronPrev.Regular.{IsLatest, IsSameOrWhole, NoneBetween, matches}
use controlled_job.Schedule.CronPrev.Latest.{cron_prev-IsLatest}
use controlled_job.Schedule.CronPrev.Activation.{IsOrdinary, searching_back, time_found}

module _ (zones : String → Zone) where
  -- The schedule is activated at the instant, a whole second.
  abbrev pub activates : CronSpec → Time → Bool
  activates s t = t % one_second == 0 && matches (zones s.location) s t

  -- What cron documents of Next: the first activation after an instant; the zero time is none.
  pub record IsNext (next : CronSpec → Time → Time) (s : CronSpec) : Type 0 where
    pub next_activates : (t : Time) → next s t ≢ 0 → activates s (next s t) ≡ true
    pub next_after : (t : Time) → next s t ≢ 0 → t < next s t
    pub next_first : (t u : Time) → activates s u ≡ true → t < u → (next s t ≢ 0) × (next s t ≤ u)

  -- The schedule recurs: after an activation up to now there is one in the current year or the five
  -- before it, or it is one.
  abbrev pub Recurs : Time → CronSpec → Type 0
  Recurs now s =
      (u : Time)
      → activates s u ≡ true
      → u ≤ now
      → (v : Time) × (activates s v ≡ true)
        × (u ≤ v)
        × (v ≤ now)
        × ((zones s.location).year now - 5 ≤ (zones s.location).year v)

  module _ (load : String → Result String) (parse : String → Result Parsed)
      (next : CronSpec → Time → Time) (own : Zone) (now : Time) (whole : now % one_second ≡ 0) where
    abbrev pub cal : Calendar
    cal = searching_back load parse next zones own

    -- At a whole second cronPrev gives the last activation up to it.
    abbrev IsPrevious : CronSpec → Time → Type 0
    IsPrevious s r =
        (r ≢ 0 → activates s r ≡ true)
        × (r ≤ now)
        × ((u : Time) → activates s u ≡ true → u ≢ 0 → u ≤ now → (r ≢ 0) × (u ≤ r))

    parts :
        (s : CronSpec) (v : Time)
        → activates s v ≡ true
        → (v % one_second ≡ 0) × (matches (zones s.location) s v ≡ true)
    parts s v a = ground (arith, a)

    both_parts :
        (s : CronSpec) (v : Time)
        → v % one_second ≡ 0
        → matches (zones s.location) s v ≡ true
        → activates s v ≡ true
    both_parts s v w m = rw (w, m) refl

    is_whole :
        (s : CronSpec) (r : Time) → IsSameOrWhole (zones s.location) s now r → r % one_second ≡ 0
    is_whole s r (inl same) = ap (λ x. x % one_second) same ∙ whole
    is_whole s r (inr (w, _)) = w

    -- What is not skipped is not later.
    not_later :
        (s : CronSpec) (r v : Time)
        → NoneBetween (zones s.location) s r now
        → activates s v ≡ true
        → v ≤ now
        → v ≤ r
    not_later s r v none_since a h = elim (Bool-cases (ltb r v)) [
      | inl later ↦
          let (w, m) = parts s v a in absurd (cc (m, none_since v w (ground (arith, later)) h))
      | inr le ↦ ground (arith, le)
    ]

    latest-IsPrevious :
        (s : CronSpec) (r : Time)
        → Recurs now s
        → IsLatest (zones s.location) s ((zones s.location).year now - 5) now r
        → IsPrevious s r
    latest-IsPrevious s r again (inl (m, le, none_since, exact)) = (
      λ nz. both_parts s r (is_whole s r exact) m,
      le,
      λ u a nz h.
          let (v, active, after, before, year) = again u a h in
          let bound = not_later s r v none_since active before in
          (λ z. nz (omega (arith, z, bound, after)), omega (arith, bound, after)),
    )
    latest-IsPrevious s r again (inr (e, none_at_all)) = (
      λ nz. absurd (nz e),
      omega (arith, e),
      λ u a nz h.
          let (v, active, after, before, year) = again u a h in
          let (w, m) = parts s v active in absurd (cc (m, none_at_all v w before year)),
    )

    cron_prev-IsPrevious :
        (s : CronSpec) → IsOrdinary zones now s → Recurs now s → IsPrevious s (cal.cron_prev s now)
    cron_prev-IsPrevious s (elsewhere, regular, late) again =
        let (r, e, latest) = cron_prev-IsLatest zones own s now elsewhere regular late in
        rw e (latest-IsPrevious s r again latest)

    -- The calendar meets what the run period relies on.
    pub searching_back-IsCron :
        (s : CronSpec)
        → IsOrdinary zones now s
        → IsNext next s
        → Recurs now s
        → IsCron cal activates now s
    searching_back-IsCron s ordinary is_next again =
        let (active, before, last) = cron_prev-IsPrevious s ordinary again in
        record {
          next_activates = is_next.next_activates;
          next_after = is_next.next_after;
          next_first = is_next.next_first;
          prev_activates = active;
          prev_before = before;
          prev_last = last;
        }

    -- What is asked of every schedule: a location of its own whose clock is never set, now in the
    -- year 7 or later there, Next as cron documents it, and an activation in the years searched.
    abbrev pub IsScheduled : CronSpec → Type 0
    IsScheduled s = IsOrdinary zones now s × IsNext next s × Recurs now s

    -- With cronPrev as the search backwards, no offset, and now a whole second: every event has a cron
    -- schedule in a location whose clock is never set, now is in the year 7 or later there, Next gives
    -- the first activation after an instant, and a schedule with an activation up to now has one in
    -- the current year or the five before it. Where some stop came before now, the last event is not
    -- earlier than the last stop. If it is a later start, the current run period has a start, which
    -- lies after the stop and not after that event. If it is a stop, or falls on the instant of the
    -- last stop, a start that the current run period has lies in the future.
    pub run_period_bounds :
        (location : String) (spec_of : EventSpec → CronSpec) (events : List EventSpec)
        → HaveSchedules cal location spec_of events
        → ((e : EventSpec) → Memᴰ e events → IsScheduled (spec_of e))
        → (p : ScheduledEvent) (s : Time)
        → find_nearest_event cal events now location (pos 0) direction_previous (λ e. true)
          ≡ some (ok (some p))
        → find_most_recent_stop_time cal events location (pos 0) now ≡ some (ok (some s))
        → (s ≤ p.scheduled_time_utc)
          × (p.scheduled_time_utc ≤ now)
          × (s ≢ p.scheduled_time_utc
              → p.event_type ≡ event_type_start
              → (b : Time) × (find_start_of_current_run_period cal events location (pos 0) now
                  ≡ some (ok (some b)))
                × (s < b)
                × (b ≤ p.scheduled_time_utc))
          × ((p.event_type ≡ event_type_stop) ⊎ (s ≡ p.scheduled_time_utc)
              → (b : Time)
              → find_start_of_current_run_period cal events location (pos 0) now
                ≡ some (ok (some b))
              → now < b)
    run_period_bounds location spec_of events have scheduled =
        run_period_start cal activates now location spec_of events have (λ e m.
          let (ordinary, is_next, again) = scheduled e m in
          searching_back-IsCron (spec_of e) ordinary is_next again)
