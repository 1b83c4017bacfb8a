-- ===== src/Schedule/CronPrev/Tests.antt =====
-- cronPrev of pkg/schedule/cron_prev.go on concrete times.
use controlled_job.Base.{
  ℕ, ◌-◌, ◌≤◌, ◌≡◌, refl, String, some, none, true, arith, List, [], ◌∷◌, map, Memᴰ, ◌⊎◌,
}
use controlled_job.Kube.{Time}
use controlled_job.Errors.{ok}
use controlled_job.Base.Int.{pos}
use controlled_job.Schedule.{
  CronSpec, Calendar, Nearest, constant_delay, direction_previous, nth, find_nearest_schedule_time,
}
use controlled_job.Schedule.CronPrev.Activation.{
  AreOrdinary, NoneSince, searching_back, find_nearest_schedule_time_last_activation,
}
use controlled_job.Schedule.CronPrev.{Zone, cron_prev, search_back, step, has_bit, day_matches}
use controlled_job.Schedule.CronPrev.Regular.{IsLatest, IsSameOrWhole, matches}
use controlled_job.Schedule.CronPrev.Latest.{cron_prev-IsLatest}
use controlled_job.Schedule.CronPrev.Utc.Regularity.{utc-IsRegular}
use controlled_job.Schedule.CronPrev.Utc.{
  utc, year_place, month_place, walk, total, is_leap, year_length, month_length, day_number,
}

-- `0 9 8 * *`: at 9 o'clock on the 8th.
abbrev on_the_eighth : CronSpec
on_the_eighth = record {
  second = 1;
  minute = 1;
  hour = 512;
  dom = 256;
  month = 9_223_372_036_854_783_998;
  dow = 9_223_372_036_854_775_935;
  location = "Europe/London";
}

abbrev everywhere_utc : String → Zone
everywhere_utc name = utc

-- 10 April 2022, 02:34:56.
abbrev in_april : Time
in_april = 63_785_154_896_000_000_000

runs : cron_prev everywhere_utc utc on_the_eighth in_april ≡ some 63_785_005_200_000_000_000
unfolding cron_prev search_back step has_bit day_matches utc year_place month_place walk total
    is_leap year_length month_length day_number
runs = refl

-- What stands at the wrong place of the second leap year.
in_april_year : utc.year in_april ≡ 2022
unfolding utc year_place walk is_leap year_length day_number
in_april_year = refl

cron_prev-IsLatest_example :
    (r : Time) × (cron_prev everywhere_utc utc on_the_eighth in_april ≡ some r)
    × IsLatest utc on_the_eighth (utc.year in_april - 5) in_april r
cron_prev-IsLatest_example =
    cron_prev-IsLatest everywhere_utc utc on_the_eighth in_april refl utc-IsRegular
      (rw in_april_year (omega arith))

-- `30 18 * * 1`: at 18:30 on Mondays.
abbrev on_mondays : CronSpec
on_mondays = record {
  second = 1;
  minute = 1_073_741_824;
  hour = 262_144;
  dom = 9_223_372_041_149_743_102;
  month = 9_223_372_036_854_783_998;
  dow = 2;
  location = "Europe/London";
}

abbrev two_specs : List CronSpec
two_specs = on_the_eighth ∷ on_mondays ∷ []

two_specs-AreOrdinary : AreOrdinary everywhere_utc in_april two_specs
two_specs-AreOrdinary s (Memᴰ.head e) = rw e (refl, utc-IsRegular, rw in_april_year (omega arith))
two_specs-AreOrdinary s (Memᴰ.tail (Memᴰ.head e)) =
    rw e (refl, utc-IsRegular, rw in_april_year (omega arith))
two_specs-AreOrdinary s (Memᴰ.tail (Memᴰ.tail m)) = elim m [ ]

abbrev utc_calendar : Calendar
utc_calendar =
    searching_back (λ name. ok name) (λ text. ok (constant_delay 0)) (λ s t. 0) everywhere_utc utc

find_nearest_schedule_time_last_activation_example :
    (r : Nearest) × (find_nearest_schedule_time utc_calendar
        (map some two_specs)
        in_april
        direction_previous
        (pos 0)
      ≡ some r)
    × ((s : CronSpec) → Memᴰ s two_specs → NoneSince everywhere_utc in_april r.time s)
    × (((r.index ≡ none) × (r.time ≡ 0))
        ⊎ ((i : ℕ) × (s : CronSpec) × (r.index ≡ some i)
            × (nth i two_specs ≡ some s)
            × (matches utc s r.time ≡ true)
            × (r.time ≤ in_april)
            × IsSameOrWhole utc s in_april r.time))
find_nearest_schedule_time_last_activation_example =
    find_nearest_schedule_time_last_activation everywhere_utc in_april (λ name. ok name)
      (λ text. ok (constant_delay 0)) (λ s t. 0) utc two_specs two_specs-AreOrdinary
