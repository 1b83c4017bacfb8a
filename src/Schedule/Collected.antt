-- ===== src/Schedule/Collected.antt =====
-- The schedules that pkg/schedule/nearest_event.go searches, where every event has one.
use controlled_job.Base.{
  ℕ, zero, suc, ◌≡◌, ◌∙◌, sym, ap, refl, String, Bool, true, Option, none, some, List, [], ◌∷◌,
  Memᴰ, map, keep, arith, inl, inr, Bool-cases,
}
use controlled_job.Base.Lists.Membership.{mem-keep, mem_of_mem-keep}
use controlled_job.Base.Int.{ℤ}
use controlled_job.Errors.{ok}
use controlled_job.Kube.{Time}
use controlled_job.Api.{EventSpec}
use controlled_job.Schedule.{
  Calendar, CronSpec, Direction, ScheduledEvent, nth, adjacent_time, collect,
  map_event_to_spec_schedule, find_nearest_event,
}
use controlled_job.Schedule.Search.{NotBeyond, AreNonZero, times}
use controlled_job.Schedule.Event.{IsNearestEvent, find_nearest_event-IsNearestEvent}

abbrev action_of : EventSpec → String
action_of e = e.action

module _ (cal : Calendar) (location : String) (spec_of : EventSpec → CronSpec) where
  -- Every event of the list has the schedule that `spec_of` says.
  abbrev pub HaveSchedules : List EventSpec → Type 0
  HaveSchedules events =
      (e : EventSpec)
      → Memᴰ e events
      → map_event_to_spec_schedule cal e location ≡ some (ok (some (spec_of e)))

  abbrev specs_for : (EventSpec → Bool) → List EventSpec → List CronSpec
  specs_for filter events = map spec_of (keep filter events)

  collected :
      (filter : EventSpec → Bool) (events : List EventSpec)
      → HaveSchedules events
      → collect cal filter location events
        ≡ some (ok (map some (specs_for filter events), map action_of (keep filter events)))
  unfolding collect
  collected filter [] have = refl
  collected filter (e ∷ events) have = elim (Bool-cases (filter e)) [
    | inl t ↦
        rw t
          (rw (have e (Memᴰ.head refl), collected filter events (λ x m. have x (Memᴰ.tail m))) refl)
    | inr t ↦ rw t (collected filter events (λ x m. have x (Memᴰ.tail m)))
  ]

  module _ (now : Time) (direction : Direction) (offset : ℤ) where
    abbrev adjacent : EventSpec → Option Time
    adjacent e = adjacent_time cal now direction offset (spec_of e)

    -- The event found is one of the list that passes the filter, at its time in the direction, and
    -- no other such event's time lies before it; none is found only where none has a time.
    abbrev pub IsFirst : (EventSpec → Bool) → List EventSpec → Option ScheduledEvent → Type 0
    IsFirst filter events none =
        (e : EventSpec) (t : Time) → Memᴰ e events → filter e ≡ true → ¬ (adjacent e ≡ some t)
    IsFirst filter events (some found) =
        ((e : EventSpec) × Memᴰ e events
          × (filter e ≡ true)
          × (e.action ≡ found.event_type)
          × (adjacent e ≡ some found.scheduled_time_utc))
        × ((e : EventSpec) (t : Time)
            → Memᴰ e events
            → filter e ≡ true
            → adjacent e ≡ some t
            → NotBeyond direction found.scheduled_time_utc t)

    mem_times_of :
        (e : EventSpec) (t : Time) (events : List EventSpec)
        → Memᴰ e events
        → adjacent e ≡ some t
        → Memᴰ (some t) (times cal now direction offset (map spec_of events))
    mem_times_of e t [] m h = elim m [ ]
    mem_times_of e t (x ∷ events) (Memᴰ.head q) h = Memᴰ.head (sym h ∙ ap adjacent q)
    mem_times_of e t (x ∷ events) (Memᴰ.tail m) h = Memᴰ.tail (mem_times_of e t events m h)

    nth_event :
        (i : ℕ) (events : List EventSpec) (o : Option Time) (a : String)
        → nth i (times cal now direction offset (map spec_of events)) ≡ some o
        → nth i (map action_of events) ≡ some a
        → (e : EventSpec) × Memᴰ e events × (e.action ≡ a) × (adjacent e ≡ o)
    unfolding nth
    nth_event i [] o a h k = absurd (ground (arith, h))
    nth_event zero (x ∷ events) o a h k = (x, Memᴰ.head refl, cc, cc)
    nth_event (suc i) (x ∷ events) o a h k =
        let (e, m, p, q) = nth_event i events o a h k in (e, Memᴰ.tail m, p, q)

    nearest-IsFirst :
        (filter : EventSpec → Bool) (events : List EventSpec) (o : Option ScheduledEvent)
        → IsNearestEvent cal direction now offset
            (specs_for filter events)
            (map action_of (keep filter events))
            o
        → IsFirst filter events o
    nearest-IsFirst filter events none nothing = λ e t m f h.
        nothing t (mem_times_of e t (keep filter events) (mem-keep filter e events m f) h)
    nearest-IsFirst filter events (some found) (i, at, acts, nearest) =
        let (e, m, p, q) =
          nth_event i (keep filter events) (some found.scheduled_time_utc) found.event_type at
            acts in
        let (n, f) = mem_of_mem-keep filter e events m in
        (
          (e, n, f, p, q),
          λ x t k g h.
              nearest t (mem_times_of x t (keep filter events) (mem-keep filter x events k g) h),
        )

    pub found-IsFirst :
        (filter : EventSpec → Bool) (events : List EventSpec)
        → HaveSchedules events
        → AreNonZero direction (times cal now direction offset (specs_for filter events))
        → (o : Option ScheduledEvent) × (find_nearest_event cal events now location offset direction
              filter
            ≡ some (ok o))
          × IsFirst filter events o
    found-IsFirst filter events have nz =
        let (o, e, nearest) =
          find_nearest_event-IsNearestEvent cal direction now offset (specs_for filter events)
            (map action_of (keep filter events)) events location filter
            (collected filter events have) nz in
        (o, e, nearest-IsFirst filter events o nearest)
