-- ===== src/Schedule/CronPrev/Regular.antt =====
-- What cronPrev of pkg/schedule/cron_prev.go looks for, and the time zones in which it finds that:
-- those whose fields stay the same from a start of a month, day, hour or minute up to the instant
-- that it is the start for.
use controlled_job.Base.{ℕ, ◌-◌, ◌%◌, ◌≤◌, ◌<◌, ◌≡◌, ◌≢◌, ◌⊎◌, Bool, true, false, ◌&&◌}
use controlled_job.Kube.{Time}
use controlled_job.Schedule.{CronSpec}
use controlled_job.Schedule.CronPrev.{
  Zone, has_bit, day_matches, truncate, one_second, one_minute, month_start, day_start, hour_start,
}

abbrev pub InOneMonth : Zone → Time → Time → Type 0
InOneMonth z u t = (z.year u ≡ z.year t) × (z.month u ≡ z.month t)

abbrev pub InOneWeekday : Zone → Time → Time → Type 0
InOneWeekday z u t = (z.day u ≡ z.day t) × (z.weekday u ≡ z.weekday t)

abbrev pub InOneDay : Zone → Time → Time → Type 0
InOneDay z u t = InOneMonth z u t × InOneWeekday z u t

-- Time zones whose clock is never set, with offsets of whole minutes.
pub record IsRegular (z : Zone) : Type 0 where
  pub whole_dates : (y m d h : ℕ) → z.date y m d h % one_second ≡ 0
  pub month_start_le : (t : Time) → month_start z t ≤ t
  pub day_start_le : (t : Time) → day_start z t ≤ t
  pub hour_start_le : (t : Time) → hour_start z t ≤ t
  pub one_month : (t u : Time) → month_start z t ≤ u → u ≤ t → z.month u ≡ z.month t
  pub one_day :
      (t u : Time) → day_start z t ≤ u → u ≤ t → (z.day u ≡ z.day t) × (z.weekday u ≡ z.weekday t)
  pub one_hour : (t u : Time) → hour_start z t ≤ u → u ≤ t → z.hour u ≡ z.hour t
  pub minute_constant : (t u : Time) → truncate one_minute t ≤ u → u ≤ t → z.minute u ≡ z.minute t
  pub second_constant : (t u : Time) → truncate one_second t ≤ u → u ≤ t → z.second u ≡ z.second t
  -- One second earlier than such a start, the greater fields change only where the code looks.
  pub before_month :
      (t : Time)
      → z.month (month_start z t - one_second) ≢ 12
      → z.year (month_start z t - one_second) ≡ z.year t
  pub before_day :
      (t : Time) → z.day (day_start z t) ≢ 1 → InOneMonth z (day_start z t - one_second) t
  pub before_hour :
      (t : Time)
      → z.hour (hour_start z t - one_second) ≢ 23
      → InOneDay z (hour_start z t - one_second) t
  pub before_minute :
      (t : Time)
      → z.minute (truncate one_minute t - one_second) ≢ 59
      → InOneDay z (truncate one_minute t - one_second) t
        × (z.hour (truncate one_minute t - one_second) ≡ z.hour t)
  pub before_second :
      (t : Time)
      → z.second (truncate one_second t - one_second) ≢ 59
      → InOneDay z (truncate one_second t - one_second) t
        × (z.hour (truncate one_second t - one_second) ≡ z.hour t)
        × (z.minute (truncate one_second t - one_second) ≡ z.minute t)
  pub years_in_order : (t u : Time) → t ≤ u → z.year t ≤ z.year u
  pub first_year : z.year 0 ≤ 1

-- The schedule is activated in the second of `t`.
unfoldable pub matches : Zone → CronSpec → Time → Bool
matches z s t =
    has_bit (z.month t) s.month
    && day_matches z s t
    && has_bit (z.hour t) s.hour
    && has_bit (z.minute t) s.minute
    && has_bit (z.second t) s.second

module _ (z : Zone) (s : CronSpec) where
  -- No whole second after `u` and up to `t` is an activation.
  abbrev pub NoneBetween : Time → Time → Type 0
  NoneBetween u t = (v : Time) → v % one_second ≡ 0 → u < v → v ≤ t → matches z s v ≡ false

  -- `u` is `t` itself, or a whole second, where the second of `t` is no activation.
  abbrev pub IsSameOrWhole : Time → Time → Type 0
  IsSameOrWhole t u = (u ≡ t) ⊎ ((u % one_second ≡ 0) × (matches z s t ≡ false))

  -- `r` is `t`, in a second that is an activation, or else the last activation up to `t`, a whole
  -- second; or there was none from the year `limit` on and `r` is the zero time.
  abbrev pub IsLatest : ℕ → Time → Time → Type 0
  IsLatest limit t r =
      ((matches z s r ≡ true) × (r ≤ t) × NoneBetween r t × IsSameOrWhole t r)
      ⊎ ((r ≡ 0)
          × ((v : Time) → v % one_second ≡ 0 → v ≤ t → limit ≤ z.year v → matches z s v ≡ false))
