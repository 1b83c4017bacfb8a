-- ===== src/Schedule/CronPrev.antt =====
-- The search backwards for an activation: pkg/schedule/cron_prev.go.
pub mod Regular
pub mod Steps
pub mod Latest
pub mod Utc
pub mod Activation
pub mod RunPeriod
mod Tests
use controlled_job.Base.{
  ℕ, zero, suc, ◌+◌, ◌*◌, ◌-◌, ◌/◌, ◌%◌, ◌^◌, String, Bool, true, false, Option, none, some, ◌&&◌,
  ◌||◌, ◌==◌, ltb, str_eq, if◌then◌else◌,
}
use controlled_job.Kube.{Time}
use controlled_job.Schedule.{CronSpec}

-- A time.Location: the fields of an instant there, and time.Date of a year, a month, a day and an
-- hour, with no minutes, seconds or nanoseconds.
pub record Zone : Type 0 where
  pub year : Time → ℕ
  pub month : Time → ℕ
  pub day : Time → ℕ
  pub weekday : Time → ℕ
  pub hour : Time → ℕ
  pub minute : Time → ℕ
  pub second : Time → ℕ
  pub date : ℕ → ℕ → ℕ → ℕ → Time

-- `1<<n & bits` is not zero.
unfoldable pub has_bit : ℕ → ℕ → Bool
has_bit n bits = bits / 2 ^ n % 2 == 1

-- t.Truncate of a unit of time.
abbrev pub truncate : ℕ → Time → Time
truncate unit t = t - t % unit

abbrev pub one_second : ℕ
one_second = 1_000_000_000

abbrev pub one_minute : ℕ
one_minute = 60_000_000_000

-- Bit 63 says that the expression of the field had a star.
unfoldable pub day_matches : Zone → CronSpec → Time → Bool
day_matches z s t =
    let dom_match = has_bit (z.day t) s.dom in
    let dow_match = has_bit (z.weekday t) s.dow in
    if has_bit 63 s.dom || has_bit 63 s.dow then dom_match && dow_match else dom_match || dow_match

-- The label WRAP and the five loops after it.
pub data Phase : Type 0 where
  at_wrap in_month in_day in_hour in_minute in_second : Phase

-- What one test of the code leads to: another test of a time, or the time returned.
pub data Move : Type 0 where
  go : Phase → Time → Move
  found : Time → Move

-- One test follows another until one returns.
abbrev pub follow : (Phase → Time → Option Time) → Move → Option Time
follow next (go p t) = next p t
follow next (found t) = some t

module _ (z : Zone) where
  abbrev pub month_start : Time → Time
  month_start t = z.date (z.year t) (z.month t) 1 0

  abbrev pub day_start : Time → Time
  day_start t = z.date (z.year t) (z.month t) (z.day t) 0

  abbrev pub hour_start : Time → Time
  hour_start t = z.date (z.year t) (z.month t) (z.day t) (z.hour t)

  module _ (s : CronSpec) (year_limit : ℕ) where
    -- One test, and what the code does after it. The zero time is 0.
    unfoldable pub step : Phase → Time → Move
    step at_wrap t = if ltb (z.year t) year_limit then found 0 else go in_month t
    step in_month t =
        let back = month_start t - one_second in
        if has_bit (z.month t) s.month
        then go in_day t
        else go (if z.month back == 12 then at_wrap else in_month) back
    step in_day t =
        let start = day_start t in
        if day_matches z s t
        then go in_hour t
        else go (if z.day start == 1 then at_wrap else in_day) (start - one_second)
    step in_hour t =
        let back = hour_start t - one_second in
        if has_bit (z.hour t) s.hour
        then go in_minute t
        else go (if z.hour back == 23 then at_wrap else in_hour) back
    step in_minute t =
        let back = truncate one_minute t - one_second in
        if has_bit (z.minute t) s.minute
        then go in_second t
        else go (if z.minute back == 59 then at_wrap else in_minute) back
    step in_second t =
        let back = truncate one_second t - one_second in
        if has_bit (z.second t) s.second
        then found t
        else go (if z.second back == 59 then at_wrap else in_second) back

    -- The tests one after the other; `none` where the fuel ends.
    unfoldable pub search_back : ℕ → Phase → Time → Option Time
    search_back zero p t = none
    search_back (suc fuel) p t = follow (search_back fuel) (step p t)

-- An instant and the nanoseconds since the zero time make the same tests at most 6 times each.
abbrev pub enough : Time → ℕ
enough t = 6 * t + 6

-- A specification for time.Local takes the location of the time given. The year limit stops at 0;
-- years before 6 are centuries away from any time that occurs.
unfoldable pub cron_prev : (String → Zone) → Zone → CronSpec → Time → Option Time
cron_prev zones own s t =
    let z = if str_eq s.location "Local" then own else zones s.location in
    search_back z s (z.year t - 5) (enough t) at_wrap t
