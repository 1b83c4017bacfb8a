-- ===== src/Schedule/CronPrev/RunPeriod/Tests.antt =====
-- The current run period of pkg/schedule/state.go in UTC, with cronPrev: a job runs from second 10 to
-- second 40 of every minute.
use controlled_job.Base.{
  ℕ, zero, suc, ◌+◌, ◌*◌, ◌-◌, ◌%◌, ◌≤◌, ◌<◌, ◌≡◌, ◌≢◌, ◌⊎◌, ◌∙◌, sym, refl, inl, inr, String, Bool,
  true, false, not, some, List, [], ◌∷◌, ◌&&◌, ◌||◌, ◌^◌, ◌==◌, ltb, str_eq, Memᴰ, arith,
  Bool-cases, if◌then◌else◌,
}
use controlled_job.Base.Int.{pos}
use controlled_job.Errors.{Result, ok}
use controlled_job.Kube.{Time}
use controlled_job.Api.{EventSpec, event_type_start, event_type_stop}
use controlled_job.Api.CronSpec.{as_cron_spec}
use controlled_job.Samples.{event_at}
use controlled_job.Schedule.{
  CronSpec, Calendar, Parsed, spec_schedule, ScheduledEvent, find_nearest_event, collect,
  map_event_to_spec_schedule, find_nearest_schedule_time, nearest_from, nearest_step,
  event_is_nearer, adjacent_time, nth,
}
use controlled_job.Schedule.Collected.{HaveSchedules}
use controlled_job.Schedule.Period.{find_most_recent_stop_time, find_start_of_current_run_period}
use controlled_job.Schedule.CronPrev.{Zone, cron_prev, search_back, step, has_bit, day_matches}
use controlled_job.Schedule.CronPrev.Regular.{matches}
use controlled_job.Schedule.CronPrev.Activation.{searching_back}
use controlled_job.Schedule.CronPrev.Utc.Regularity.{utc-IsRegular}
use controlled_job.Schedule.CronPrev.Utc.{
  utc, year_place, month_place, walk, total, is_leap, year_length, month_length, day_number,
}
use controlled_job.Schedule.CronPrev.RunPeriod.{
  activates, IsNext, Recurs, IsScheduled, run_period_bounds,
}

abbrev everywhere : String → Zone
everywhere name = utc

-- The second 10 or 40 of every minute of every day.
abbrev at_second : ℕ → CronSpec
at_second n = record {
  second = 2 ^ n;
  minute = 1_152_921_504_606_846_975;
  hour = 16_777_215;
  dom = 2;
  month = 8190;
  dow = 127;
  location = "GMT";
}

abbrev spec_of : EventSpec → CronSpec
spec_of e = if str_eq e.action "start" then at_second 10 else at_second 40

abbrev read : String → Result Parsed
read text = ok (spec_schedule (if str_eq text "10 * * * * *" then at_second 10 else at_second 40))

abbrev load : String → Result String
load name = ok name

abbrev events : List EventSpec
events = event_at "start" "10 * * * * *" ∷ event_at "stop" "40 * * * * *" ∷ []

-- The nanoseconds in the minute at which a schedule is activated.
abbrev place : CronSpec → ℕ
place s = if s.second == 1024 then 10_000_000_000 else 40_000_000_000

-- The first instant after another one with that place in its minute.
abbrev next_from : ℕ → Time → Time
next_from p t =
    let into = t % 60_000_000_000 in
    if ltb into p then t - into + p else t - into + 60_000_000_000 + p

abbrev next : CronSpec → Time → Time
next s t = next_from (place s) t

-- 10 April 2022, 02:34:15.
abbrev now : Time
now = 63_785_154_855_000_000_000

all_below : (ℕ → Bool) → ℕ → Bool
all_below f zero = true
all_below f (suc n) = f n && all_below f n

below : (f : ℕ → Bool) (n i : ℕ) → all_below f n ≡ true → i < n → f i ≡ true
unfolding all_below
below f zero i all h = absurd (omega (arith, h))
below f (suc n) i all h = elim (Bool-cases (i == n)) [
  | inl e ↦ let same : i ≡ n = ground (arith, e) in rw same (ground (arith, all))
  | inr e ↦ below f n i (ground (arith, all)) (ground (arith, e, h))
]

has_minute : (i : ℕ) → i < 60 → has_bit i 1_152_921_504_606_846_975 ≡ true
unfolding has_bit all_below
has_minute i = below (λ n. has_bit n 1_152_921_504_606_846_975) 60 i refl

has_hour : (i : ℕ) → i < 24 → has_bit i 16_777_215 ≡ true
unfolding has_bit all_below
has_hour i = below (λ n. has_bit n 16_777_215) 24 i refl

has_weekday : (i : ℕ) → i < 7 → has_bit i 127 ≡ true
unfolding has_bit all_below
has_weekday i = below (λ n. has_bit n 127) 7 i refl

has_month : (i : ℕ) → 1 ≤ i → i ≤ 12 → has_bit i 8190 ≡ true
unfolding has_bit all_below
has_month i a b =
    ground (arith, a, below (λ n. n == 0 || has_bit n 8190) 13 i refl (omega (arith, b)))

abbrev only : ℕ → ℕ → Bool
only m n = if n == m then has_bit n (2 ^ m) else not (has_bit n (2 ^ m))

has_second : (m i : ℕ) → (m ≡ 10) ⊎ (m ≡ 40) → i < 60 → has_bit i (2 ^ m) ≡ (i == m)
unfolding has_bit all_below
has_second m i (inl e) h = rw e (elim (Bool-cases (i == 10)) [
  | inl t ↦ ground (arith, t, below (only 10) 60 i refl h)
  | inr t ↦ ground (arith, t, below (only 10) 60 i refl h)
])
has_second m i (inr e) h = rw e (elim (Bool-cases (i == 40)) [
  | inl t ↦ ground (arith, t, below (only 40) 60 i refl h)
  | inr t ↦ ground (arith, t, below (only 40) 60 i refl h)
])

walk_range :
    (len : ℕ → ℕ) (fuel n d : ℕ)
    → (n ≤ (walk len fuel n d).at) × ((walk len fuel n d).at ≤ n + fuel)
unfolding walk
walk_range len zero n d = (omega arith, omega arith)
walk_range len (suc fuel) n d =
    let (a, b) = walk_range len fuel (n + 1) (d - len n) in
    (ground (arith, a, b), ground (arith, a, b))

month_range : (t : Time) → (1 ≤ utc.month t) × (utc.month t ≤ 12)
unfolding utc month_place
month_range t = walk_range _ 11 1 _

no_star : (has_bit 63 2 || has_bit 63 127) ≡ false
unfolding has_bit
no_star = refl

or_true : (b : Bool) → (b || true) ≡ true
or_true false = refl
or_true true = refl

-- Every day matches, and every hour and minute.
matches_second :
    (m : ℕ) (t : Time) → (m ≡ 10) ⊎ (m ≡ 40) → matches utc (at_second m) t ≡ (utc.second t == m)
unfolding matches day_matches utc
matches_second m t which =
    let (a, b) = month_range t in
    rw
      (
        has_month (utc.month t) a b,
        has_weekday (utc.weekday t) (omega arith),
        has_hour (utc.hour t) (omega arith),
        has_minute (utc.minute t) (omega arith),
        has_second m (utc.second t) which (omega arith),
      )
      (rw (no_star, or_true (has_bit (utc.day t) 2)) refl)

place_at : (m : ℕ) → (m ≡ 10) ⊎ (m ≡ 40) → place (at_second m) ≡ m * 1_000_000_000
place_at m (inl e) = rw e refl
place_at m (inr e) = rw e refl

below_60 : (m : ℕ) → (m ≡ 10) ⊎ (m ≡ 40) → m < 60
below_60 m (inl e) = omega (arith, e)
below_60 m (inr e) = omega (arith, e)

in_minute :
    (m : ℕ) (t : Time)
    → (m ≡ 10) ⊎ (m ≡ 40)
    → activates everywhere (at_second m) t ≡ true
    → t % 60_000_000_000 ≡ m * 1_000_000_000
unfolding utc
in_minute m t which a =
    let (w, at) = parts (t % 1_000_000_000) (utc.second t) m (rw (← matches_second m t which) a) in
    omega (arith, w, at, below_60 m which)
  where
    parts : (x y m : ℕ) → (x == 0 && y == m) ≡ true → (x ≡ 0) × (y ≡ m)
    parts x y m h = ground (arith, h)

seconds_of :
    (m : ℕ) (t : Time)
    → (m ≡ 10) ⊎ (m ≡ 40)
    → t % 60_000_000_000 ≡ m * 1_000_000_000
    → utc.second t ≡ m
unfolding utc
seconds_of m t which a = omega (arith, a, below_60 m which)

of_minute :
    (m : ℕ) (t : Time)
    → (m ≡ 10) ⊎ (m ≡ 40)
    → t % 60_000_000_000 ≡ m * 1_000_000_000
    → activates everywhere (at_second m) t ≡ true
of_minute m t which a =
    rw (matches_second m t which)
      (joined (t % 1_000_000_000) (utc.second t) m (omega (arith, a)) (seconds_of m t which a))
  where
    joined : (x y m : ℕ) → x ≡ 0 → y ≡ m → (x == 0 && y == m) ≡ true
    joined x y m h k = ground (arith, h, k)

next_in_place : (p : ℕ) (t : Time) → p < 60_000_000_000 → next_from p t % 60_000_000_000 ≡ p
next_in_place p t h = elim (Bool-cases (ltb (t % 60_000_000_000) p)) [
  | inl e ↦ rw e (omega (arith, h))
  | inr e ↦ rw e (omega (arith, h))
]

next_later : (p : ℕ) (t : Time) → t < next_from p t
next_later p t = elim (Bool-cases (ltb (t % 60_000_000_000) p)) [
  | inl e ↦ rw e (ground (arith, e))
  | inr e ↦ rw e (omega arith)
]

next_soonest : (p : ℕ) (t u : Time) → u % 60_000_000_000 ≡ p → t < u → next_from p t ≤ u
next_soonest p t u e h = elim (Bool-cases (ltb (t % 60_000_000_000) p)) [
  | inl k ↦ rw k (omega (arith, e, h))
  | inr k ↦ let le : p ≤ t % 60_000_000_000 = ground (arith, k) in rw k (omega (arith, e, h, le))
]

at_second-IsNext : (m : ℕ) → (m ≡ 10) ⊎ (m ≡ 40) → IsNext everywhere next (at_second m)
at_second-IsNext m which =
    let p = place_at m which in
    let small : place (at_second m) < 60_000_000_000 = omega (arith, p, below_60 m which) in
    record {
      next_activates = λ t nz.
          of_minute m (next (at_second m) t) which
            (next_in_place (place (at_second m)) t small ∙ p);
      next_after = λ t nz. next_later (place (at_second m)) t;
      next_first = λ t u a h. (
        λ z. absurd (omega (arith, z, next_later (place (at_second m)) t)),
        next_soonest (place (at_second m)) t u (in_minute m u which a ∙ sym p) h,
      );
    }

-- The years of the last activations.
years :
    (utc.year now ≡ 2022)
    × (utc.year 63_785_154_850_000_000_000 ≡ 2022)
    × (utc.year 63_785_154_820_000_000_000 ≡ 2022)
unfolding utc year_place walk is_leap year_length day_number
years = (refl, refl, refl)

at_second-Recurs : (m : ℕ) → (m ≡ 10) ⊎ (m ≡ 40) → Recurs everywhere now (at_second m)
at_second-Recurs m (inl e) u a h =
    let p = in_minute m u (inl e) a in
    let (y, z, _) = years in
    (
      63_785_154_850_000_000_000,
      of_minute m 63_785_154_850_000_000_000 (inl e) (omega (arith, e)),
      omega (arith, p, e, h),
      omega arith,
      rw (y, z) (omega arith),
    )
at_second-Recurs m (inr e) u a h =
    let p = in_minute m u (inr e) a in
    let (y, _, z) = years in
    (
      63_785_154_820_000_000_000,
      of_minute m 63_785_154_820_000_000_000 (inr e) (omega (arith, e)),
      omega (arith, p, e, h),
      omega arith,
      rw (y, z) (omega arith),
    )

at_second-IsScheduled :
    (m : ℕ) → (m ≡ 10) ⊎ (m ≡ 40) → IsScheduled everywhere load read next utc now refl (at_second m)
at_second-IsScheduled m which = (
  (refl, utc-IsRegular, rw years.0 (omega arith)),
  at_second-IsNext m which,
  at_second-Recurs m which,
)

events-IsScheduled :
    (e : EventSpec) → Memᴰ e events → IsScheduled everywhere load read next utc now refl (spec_of e)
events-IsScheduled e (Memᴰ.head q) = rw q (at_second-IsScheduled 10 (inl refl))
events-IsScheduled e (Memᴰ.tail (Memᴰ.head q)) = rw q (at_second-IsScheduled 40 (inr refl))
events-IsScheduled e (Memᴰ.tail (Memᴰ.tail m)) = elim m [ ]

abbrev calendar : Calendar
calendar = searching_back load read next everywhere utc

events-HaveSchedules : HaveSchedules calendar "GMT" spec_of events
unfolding map_event_to_spec_schedule as_cron_spec
events-HaveSchedules e (Memᴰ.head q) = rw q refl
events-HaveSchedules e (Memᴰ.tail (Memᴰ.head q)) = rw q refl
events-HaveSchedules e (Memᴰ.tail (Memᴰ.tail m)) = elim m [ ]

abbrev last_event : ScheduledEvent
last_event = record { event_type = "start"; scheduled_time_utc = 63_785_154_850_000_000_000 }

abbrev last_stop : Time
last_stop = 63_785_154_820_000_000_000

run_period_bounds_example :
    (last_stop ≤ last_event.scheduled_time_utc)
    × (last_event.scheduled_time_utc ≤ now)
    × (last_stop ≢ last_event.scheduled_time_utc
        → last_event.event_type ≡ event_type_start
        → (b : Time) × (find_start_of_current_run_period calendar events "GMT" (pos 0) now
            ≡ some (ok (some b)))
          × (last_stop < b)
          × (b ≤ last_event.scheduled_time_utc))
    × ((last_event.event_type ≡ event_type_stop) ⊎ (last_stop ≡ last_event.scheduled_time_utc)
        → (b : Time)
        → find_start_of_current_run_period calendar events "GMT" (pos 0) now ≡ some (ok (some b))
        → now < b)
unfolding find_nearest_event collect map_event_to_spec_schedule as_cron_spec
    find_nearest_schedule_time nearest_from nearest_step event_is_nearer adjacent_time nth
    find_most_recent_stop_time cron_prev search_back step has_bit day_matches utc year_place
    month_place walk total is_leap year_length month_length day_number
run_period_bounds_example =
    run_period_bounds everywhere load read next utc now refl "GMT" spec_of events
      events-HaveSchedules events-IsScheduled last_event last_stop refl refl
