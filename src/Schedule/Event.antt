-- ===== src/Schedule/Event.antt =====
-- What findNearestEvent of pkg/schedule/nearest_event.go finds.
use controlled_job.Base.{
  ℕ, zero, suc, ◌≡◌, ◌∙◌, sym, ap, refl, subst, String, Bool, Option, none, some, List, [], ◌∷◌,
  arith, Memᴰ, inl, inr, length, map, Bool-cases,
}
use controlled_job.Base.Int.{ℤ}
use controlled_job.Errors.{ok, err, Run, then_run}
use controlled_job.Kube.{Time}
use controlled_job.Api.{EventSpec}
use controlled_job.Schedule.Search.{
  NotBeyond, IsNearestOf, AreNonZero, times, mem_of_nth, find_nearest_schedule_time-IsNearestOf,
}
use controlled_job.Schedule.{
  Calendar, CronSpec, Direction, Nearest, ScheduledEvent, nth, map_event_to_spec_schedule, collect,
  scheduled_event, find_nearest_event,
}

nth_within {ℓ κ} :
    {A : Type ℓ} {B : Type κ} (i : ℕ) (xs : List A) (ys : List B) (x : A)
    → length xs ≡ length ys
    → nth i xs ≡ some x
    → (y : B) × (nth i ys ≡ some y)
unfolding nth
nth_within i [] ys x e h = absurd (ground (arith, h))
nth_within i (z ∷ xs) [] x e h = absurd (omega (arith, e))
nth_within zero (z ∷ xs) (y ∷ ys) x e h = (y, refl)
nth_within (suc i) (z ∷ xs) (y ∷ ys) x e h = nth_within i xs ys x (omega (arith, e)) h

length-map {ℓ κ} :
    {A : Type ℓ} {B : Type κ} (f : A → B) (xs : List A) → length (map f xs) ≡ length xs
length-map f [] = refl
length-map f (x ∷ xs) = ap suc (length-map f xs)

module _ (cal : Calendar) where
  -- As many actions are collected as schedules.
  abbrev AsMany : Run (List (Option CronSpec) × List String) → Type 0
  AsMany none = Unit
  AsMany (some (err e)) = Unit
  AsMany (some (ok (specs, actions))) = length specs ≡ length actions

  AsMany-more :
      (spec : Run (Option CronSpec)) (rest : Run (List (Option CronSpec) × List String))
      (a : String)
      → AsMany rest
      → AsMany (
          then_run spec
            (λ spec. then_run rest (λ (specs, actions). some (ok (spec ∷ specs, a ∷ actions)))))
  AsMany-more none rest a h = tt
  AsMany-more (some (err e)) rest a h = tt
  AsMany-more (some (ok s)) none a h = tt
  AsMany-more (some (ok s)) (some (err e)) a h = tt
  AsMany-more (some (ok s)) (some (ok (specs, actions))) a h = ap suc h

  as_many :
      (filter : EventSpec → Bool) (location : String) (events : List EventSpec)
      → AsMany (collect cal filter location events)
  unfolding collect
  as_many filter location [] = refl
  as_many filter location (event ∷ events) = elim (Bool-cases (filter event)) [
    | inl e ↦ rw e (
        AsMany-more (map_event_to_spec_schedule cal event location)
          (collect cal filter location events) event.action (as_many filter location events))
    | inr e ↦ rw e (as_many filter location events)
  ]

  module _ (direction : Direction) (now : Time) (offset : ℤ) (specs : List CronSpec)
      (actions : List String) where
    abbrev its_times : List (Option Time)
    its_times = times cal now direction offset specs

    -- The event found has the nearest time, and the action that stands beside its schedule; none is
    -- found only where no schedule has a time.
    abbrev pub IsNearestEvent : Option ScheduledEvent → Type 0
    IsNearestEvent none = (t : Time) → ¬ Memᴰ (some t) its_times
    IsNearestEvent (some e) =
        (i : ℕ) × (nth i its_times ≡ some (some e.scheduled_time_utc))
        × (nth i actions ≡ some e.event_type)
        × ((t : Time) → Memᴰ (some t) its_times → NotBeyond direction e.scheduled_time_utc t)

    event_of_found :
        (r : Nearest)
        → length specs ≡ length actions
        → AreNonZero direction its_times
        → IsNearestOf direction its_times r
        → (o : Option ScheduledEvent) × (scheduled_event r actions ≡ some (ok o)) × IsNearestEvent o
    unfolding scheduled_event
    event_of_found r e nz (inl (none_at, zero_time, none_there)) =
        (none, ground (arith, zero_time), none_there)
    event_of_found r e nz (inr (i, found_at, stands, nearest)) =
        let (a, at_a) =
          nth_within i its_times actions (some r.time) (length-map _ specs ∙ e) stands in
        (
          some (record { event_type = a; scheduled_time_utc = r.time }),
          ground (
            arith,
            found_at,
            at_a,
            nz r.time (mem_of_nth direction i its_times (some r.time) stands),
          ),
          (i, stands, at_a, nearest),
        )

    -- Where every event that passes the filter has a schedule, and no schedule's time falls, offset
    -- taken into account, on the zero time, the search for an event returns without a panic or an
    -- error: the nearest event in the direction, with its own action, or none where there is none.
    pub find_nearest_event-IsNearestEvent :
        (events : List EventSpec) (location : String) (filter : EventSpec → Bool)
        → collect cal filter location events ≡ some (ok (map some specs, actions))
        → AreNonZero direction its_times
        → (o : Option ScheduledEvent) × (find_nearest_event cal events now location offset direction
              filter
            ≡ some (ok o))
          × IsNearestEvent o
    unfolding find_nearest_event
    find_nearest_event-IsNearestEvent events location filter collected nz =
        let (r, found, nearest) =
          find_nearest_schedule_time-IsNearestOf cal now direction offset specs nz in
        let (o, eq, is_it) =
          event_of_found r
            (sym (length-map some specs) ∙ subst AsMany collected (as_many filter location events))
            nz nearest in
        (o, rw (collected, then_run, found) eq, is_it)
