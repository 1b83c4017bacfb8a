-- ===== src/Schedule/CronPrev/Utc.antt =====
-- The proleptic Gregorian calendar of Go's time package in UTC, as a time zone for cronPrev of
-- pkg/schedule/cron_prev.go.
pub mod Walks
pub mod Regularity
use controlled_job.Base.{
  ℕ, zero, suc, ◌+◌, ◌*◌, ◌-◌, ◌/◌, ◌%◌, ◌≤◌, ◌<◌, ◌≡◌, ◌≢◌, refl, Bool, true, false, not, ◌&&◌,
  ◌||◌, ◌==◌, inl, inr, ltb, if◌then◌else◌, arith, Bool-cases,
}
use controlled_job.Kube.{Time}
use controlled_job.Schedule.CronPrev.{
  Zone, one_second, one_minute, truncate, month_start, day_start, hour_start,
}
use controlled_job.Schedule.CronPrev.Regular.{IsRegular, InOneMonth, InOneDay}

abbrev one_day_long : ℕ
one_day_long = 86_400_000_000_000

abbrev one_hour_long : ℕ
one_hour_long = 3_600_000_000_000

-- A number and what is left over: a year and the day in it, a month and the day in it.
pub record Place : Type 0 where
  pub at : ℕ
  pub rest : ℕ

-- Walks over periods of the given lengths, from the one numbered `n` on.
unfoldable pub walk : (ℕ → ℕ) → ℕ → ℕ → ℕ → Place
walk len zero n d = record { at = n; rest = d }
walk len (suc fuel) n d =
    let further = walk len fuel (n + 1) (d - len n) in
    if ltb d (len n) then record { at = n; rest = d } else further

-- The days of `k` periods from the one numbered `n` on.
unfoldable pub total : (ℕ → ℕ) → ℕ → ℕ → ℕ
total len n zero = 0
total len n (suc k) = len n + total len (n + 1) k

unfoldable pub is_leap : ℕ → Bool
is_leap y = (y % 4 == 0 && not (y % 100 == 0)) || y % 400 == 0

unfoldable pub year_length : ℕ → ℕ
year_length y = if is_leap y then 366 else 365

unfoldable pub month_length : Bool → ℕ → ℕ
month_length leap m =
    if m == 2
    then (if leap then 29 else 28)
    else (if m == 4 || m == 6 || m == 9 || m == 11 then 30 else 31)

-- Years end at 10000, the first that RFC 3339 cannot write.
unfoldable pub year_place : ℕ → Place
year_place d = walk year_length 9999 1 d

unfoldable pub month_place : ℕ → Place
month_place d = let y = year_place d in walk (month_length (is_leap y.at)) 11 1 y.rest

unfoldable pub day_number : Time → ℕ
day_number t = t / one_day_long

-- 1 January of year 1 was a Monday.
unfoldable pub utc : Zone
utc = record {
  year = λ t. (year_place (day_number t)).at;
  month = λ t. (month_place (day_number t)).at;
  day = λ t. (month_place (day_number t)).rest + 1;
  weekday = λ t. (day_number t + 1) % 7;
  hour = λ t. t / one_hour_long % 24;
  minute = λ t. t / one_minute % 60;
  second = λ t. t / one_second % 60;
  date = λ y m d h.
      (total year_length 1 (y - 1) + total (month_length (is_leap y)) 1 (m - 1) + (d - 1))
        * one_day_long
      + h * one_hour_long;
}
