-- ===== src/Api/CronSpec.antt =====
-- AsCronSpec of api/v1/controlledjob_types.go, with its two regular expressions.
pub mod Fields
mod Tests
use Prim.Native.Char.{Char, code}
use Prim.Native.String.{[], ◌∷◌}
use controlled_job.Base.{
  ℕ, zero, suc, String, Bool, true, false, not, Option, none, some, ◌&&◌, ◌||◌, ◌==◌, leb, str_eq,
  if◌then◌else◌,
}
use controlled_job.Base.Text.{concat}
use controlled_job.Base.Decimal.{is_digit}
use controlled_job.Errors.{message, Result, ok, err, Run}
use controlled_job.Api.{EventSpec, FriendlyScheduleSpec}
use mathlib.Core.List.{List}

is_letter : Char → Bool
is_letter c = leb b'a' (code c) && leb (code c) b'z' || leb b'A' (code c) && leb (code c) b'Z'

-- `^(\d{2}):(\d{2})$`, with the hours and the minutes.
unfoldable pub time_of_day_parts : String → Option (String × String)
unfolding is_digit
time_of_day_parts (a ∷ b ∷ c ∷ d ∷ e ∷ []) =
    if (is_digit a && is_digit b) && (code c == b':' && (is_digit d && is_digit e))
    then some (a ∷ b ∷ [], d ∷ e ∷ [])
    else none
time_of_day_parts _ = none

-- `[a-zA-Z]{3}`, with what follows.
day_name : String → Option String
unfolding is_letter
day_name (a ∷ b ∷ c ∷ s) = if is_letter a && (is_letter b && is_letter c) then some s else none
day_name _ = none

-- `(?:,[a-zA-Z]{3})?` at most `n` times, then the end.
more_days : ℕ → String → Bool
unfolding day_name
more_days n [] = true
more_days zero (c ∷ s) = false
more_days (suc n) (c ∷ s) =
    code c == b',' && elim (day_name s) [ none ↦ false | some rest ↦ more_days n rest ]

-- `-[a-zA-Z]{3}$`
range_end : String → Bool
unfolding day_name
range_end [] = false
range_end (c ∷ s) =
    code c == b'-' && elim (day_name s) [ none ↦ false | some rest ↦ str_eq rest "" ]

-- A list of one to seven days, or a range of two.
unfoldable pub matches_days_of_week : String → Bool
unfolding day_name more_days range_end
matches_days_of_week s = elim (day_name s) [
  | none ↦ false
  | some rest ↦ more_days 6 rest || range_end rest
]

friendly_cron_spec : FriendlyScheduleSpec → Result String
unfolding time_of_day_parts matches_days_of_week
friendly_cron_spec s =
    if str_eq s.time_of_day "" || str_eq s.days_of_week ""
    then err (message "must specify either cronSchedule or schedule")
    else elim (time_of_day_parts s.time_of_day) [
      | none ↦ err (message "timeOfDay must be in the format hh:mm")
      | some (hours, minutes) ↦
          if not (matches_days_of_week s.days_of_week)
          then err (message "daysOfWeek must be in the format MON-FRI or SAT,SUN,TUE,WED")
          else ok (
              concat (
                List.◌∷◌ minutes (
                  List.◌∷◌ " "
                    (List.◌∷◌ hours (List.◌∷◌ " * * " (List.◌∷◌ s.days_of_week List.[]))))))
    ]

-- A nil Schedule is dereferenced where there is no CronSchedule: that is a panic.
unfoldable pub as_cron_spec : EventSpec → Run String
unfolding friendly_cron_spec
as_cron_spec e =
    if not (str_eq e.cron_schedule "")
    then some (ok e.cron_schedule)
    else elim e.schedule [ none ↦ none | some s ↦ some (friendly_cron_spec s) ]
