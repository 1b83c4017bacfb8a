-- ===== src/Schedule/CronPrev/Utc/Regularity.antt =====
-- UTC, as Go's time package computes it, is a zone on which cronPrev of pkg/schedule/cron_prev.go can
-- rely.
use controlled_job.Base.{ℕ, ◌*◌, ◌-◌, ◌/◌, ◌≤◌, ◌≡◌, ◌≢◌, refl, inl, inr, ltb, arith, Bool-cases}
use controlled_job.Kube.{Time}
use controlled_job.Schedule.CronPrev.{
  one_second, one_minute, truncate, month_start, day_start, hour_start,
}
use controlled_job.Schedule.CronPrev.Regular.{IsRegular, InOneMonth, InOneDay}
use controlled_job.Schedule.CronPrev.Utc.{
  one_day_long, one_hour_long, walk, is_leap, year_length, year_place, month_place, day_number, utc,
}
use controlled_job.Schedule.CronPrev.Utc.Walks.{
  days_of_fields, december, month_in_year, month_within, walk_in_order, walk_within,
}

utc-month_start :
    (t : Time)
    → month_start utc t ≡ (day_number t - (month_place (day_number t)).rest) * one_day_long
unfolding utc
utc-month_start t = let sum = days_of_fields (day_number t) in omega (arith, sum)

utc-day_start : (t : Time) → day_start utc t ≡ day_number t * one_day_long
unfolding utc
utc-day_start t = let sum = days_of_fields (day_number t) in omega (arith, sum)

utc-hour_start : (t : Time) → hour_start utc t ≡ t / one_hour_long * one_hour_long
unfolding utc day_number
utc-hour_start t = let sum = days_of_fields (day_number t) in omega (arith, sum)

same_days : (t u : Time) → day_number u ≡ day_number t → InOneDay utc u t
unfolding utc
same_days t u e = rw e ((refl, refl), (refl, refl))

utc_one_month : (t u : Time) → month_start utc t ≤ u → u ≤ t → InOneMonth utc u t
unfolding utc
utc_one_month t u a b =
    let start = utc-month_start t in
    month_within (day_number t) (day_number u) (unfold day_number in omega arith)
      (unfold day_number in omega (arith, start))

-- The day before the first of a month is in the same year or in December.
before_month_days :
    (d e : ℕ)
    → e ≡ d - (month_place d).rest - 1
    → (month_place e).at ≢ 12
    → (year_place e).at ≡ (year_place d).at
before_month_days d e h not_december =
    let small = month_in_year d in
    elim (Bool-cases (ltb e (d - (year_place d).rest))) [
      | inr inside ↦
          unfold year_place in
          (walk_within year_length 9999 1 d e (omega arith) (ground (arith, inside))).0
      | inl outside ↦
          let all : e ≡ d - (year_place d).rest - 1 = ground (arith, outside) in
          absurd (not_december (rw all (december d (ground (arith, outside)))))
    ]

utc_before_month :
    (t : Time)
    → utc.month (month_start utc t - one_second) ≢ 12
    → utc.year (month_start utc t - one_second) ≡ utc.year t
unfolding utc
utc_before_month t h =
    let start = utc-month_start t in
    before_month_days (day_number t) (day_number (month_start utc t - one_second))
      (unfold day_number in omega (arith, start)) h

utc_before_day :
    (t : Time) → utc.day (day_start utc t) ≢ 1 → InOneMonth utc (day_start utc t - one_second) t
unfolding utc
utc_before_day t h =
    let start = utc-day_start t in
    let same : day_number (day_start utc t) ≡ day_number t =
      unfold day_number in omega (arith, start) in
    let later : (month_place (day_number t)).rest ≢ 0 = λ e. h (rw (same, e) refl) in
    month_within (day_number t) (day_number (day_start utc t - one_second))
      (unfold day_number in omega (arith, start)) (unfold day_number in omega (arith, start, later))

utc_before_hour :
    (t : Time)
    → utc.hour (hour_start utc t - one_second) ≢ 23
    → day_number (hour_start utc t - one_second) ≡ day_number t
unfolding utc day_number
utc_before_hour t h = let start = utc-hour_start t in omega (arith, start, h)

utc_before_minute :
    (t : Time)
    → utc.minute (truncate one_minute t - one_second) ≢ 59
    → (truncate one_minute t - one_second) / one_hour_long ≡ t / one_hour_long
unfolding utc
utc_before_minute t h = omega (arith, h)

utc_before_second :
    (t : Time)
    → utc.second (truncate one_second t - one_second) ≢ 59
    → (truncate one_second t - one_second) / one_minute ≡ t / one_minute
unfolding utc
utc_before_second t h = omega (arith, h)

same_hours :
    (t u : Time)
    → u / one_hour_long ≡ t / one_hour_long
    → (day_number u ≡ day_number t) × (utc.hour u ≡ utc.hour t)
unfolding utc day_number
same_hours t u e = omega (arith, e)

same_minutes :
    (t u : Time)
    → u / one_minute ≡ t / one_minute
    → (u / one_hour_long ≡ t / one_hour_long) × (utc.minute u ≡ utc.minute t)
unfolding utc
same_minutes t u e = omega (arith, e)

utc_one_day : (t u : Time) → day_start utc t ≤ u → u ≤ t → day_number u ≡ day_number t
unfolding day_number
utc_one_day t u a b = let start = utc-day_start t in unfold day_number in omega (arith, start)

utc_one_hour : (t u : Time) → hour_start utc t ≤ u → u ≤ t → u / one_hour_long ≡ t / one_hour_long
utc_one_hour t u a b = let start = utc-hour_start t in omega (arith, start)

utc_first_year : utc.year 0 ≤ 1
unfolding utc year_place walk year_length is_leap day_number
utc_first_year = omega arith

pub utc-IsRegular : IsRegular utc
utc-IsRegular = record {
  whole_dates = λ y m d h. unfold utc in omega arith;
  month_start_le = λ t. let start = utc-month_start t in unfold day_number in omega (arith, start);
  day_start_le = λ t. let start = utc-day_start t in unfold day_number in omega (arith, start);
  hour_start_le = λ t. let start = utc-hour_start t in omega (arith, start);
  one_month = λ t u a b. (utc_one_month t u a b).1;
  one_day = λ t u a b. (same_days t u (utc_one_day t u a b)).1;
  one_hour = λ t u a b. (same_hours t u (utc_one_hour t u a b)).1;
  minute_constant = λ t u a b. (same_minutes t u (omega arith)).1;
  second_constant = λ t u a b. unfold utc in omega arith;
  before_month = utc_before_month;
  before_day = utc_before_day;
  before_hour = λ t h. same_days t (hour_start utc t - one_second) (utc_before_hour t h);
  before_minute = λ t h.
      let (same_day, same_hour) =
        same_hours t (truncate one_minute t - one_second) (utc_before_minute t h) in
      (same_days t (truncate one_minute t - one_second) same_day, same_hour);
  before_second = λ t h.
      let (in_hour, same_minute) =
        same_minutes t (truncate one_second t - one_second) (utc_before_second t h) in
      let (same_day, same_hour) = same_hours t (truncate one_second t - one_second) in_hour in
      (same_days t (truncate one_second t - one_second) same_day, same_hour, same_minute);
  years_in_order = λ t u h.
      unfold utc year_place in
      walk_in_order year_length 9999 1 (day_number u) (day_number t)
        (unfold day_number in omega arith);
  first_year = utc_first_year;
}
