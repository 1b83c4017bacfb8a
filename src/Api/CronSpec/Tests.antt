-- ===== src/Api/CronSpec/Tests.antt =====
-- Half past nine on working days, as AsCronSpec of api/v1/controlledjob_types.go writes it.
use Prim.Native.String.{String, ◌∷◌, ◌++◌}
use controlled_job.Base.{◌≡◌, refl, true, some, List}
use controlled_job.Api.{EventSpec, FriendlyScheduleSpec}
use controlled_job.Api.CronSpec.{as_cron_spec, matches_days_of_week}
use controlled_job.Api.CronSpec.Fields.{words, is_two_digits, as_cron_spec_fields}

abbrev working_days : FriendlyScheduleSpec
working_days = record { days_of_week = "MON-FRI"; time_of_day = "09:30" }

abbrev morning : EventSpec
morning = record { action = "start"; cron_schedule = ""; schedule = some working_days }

all_days : matches_days_of_week "MON,TUE,WED,THU,FRI,SAT,SUN" ≡ true
unfolding matches_days_of_week
all_days = refl

as_cron_spec_fields_example :
    (hours minutes : String) × (is_two_digits hours ≡ true)
    × (is_two_digits minutes ≡ true)
    × (working_days.time_of_day ≡ hours ++ (":" ∷ minutes))
    × (words "30 09 * * MON-FRI"
        ≡ List.◌∷◌ minutes (
            List.◌∷◌ hours
              (List.◌∷◌ "*" (List.◌∷◌ "*" (List.◌∷◌ working_days.days_of_week List.[])))))
unfolding as_cron_spec
as_cron_spec_fields_example =
    as_cron_spec_fields morning working_days "30 09 * * MON-FRI" refl refl refl
