-- ===== src/Builder/Naming/Tests.antt =====
-- ParseJobName of pkg/metadata/job_naming.go on names of jobs.
use controlled_job.Base.{◌≡◌, refl, none, some, true, arith}
use controlled_job.Base.Int.{pos, sub_ℕ}
use controlled_job.Base.Decimal.{is_digit, atoi}
use controlled_job.Kube.{Time}
use controlled_job.Builder.{unix, job_name}
use controlled_job.Builder.Naming.{
  ParsedName, split_last, all_digits, is_line, find_submatch, parse_job_name,
}
use controlled_job.Builder.Naming.RoundTrip.{parse-job_name}

abbrev parsed : ParsedName
parsed = record {
  controlled_job_name = "daily-report";
  scheduled_time = some (pos 1649412000);
  job_run_id = some (pos 2);
  error = none;
}

-- 8 April 2022, 10:00.
abbrev at_ten : Time
at_ten = 63_785_008_800_000_000_000

reads : parse_job_name "daily-report-1649412000-2" ≡ parsed
unfolding parse_job_name find_submatch split_last all_digits is_line is_digit atoi
reads = refl

no_run_id : (parse_job_name "daily-report-1649412000").scheduled_time ≡ none
unfolding parse_job_name find_submatch split_last all_digits is_line is_digit atoi
no_run_id = refl

unix-at_ten : unix at_ten ≡ pos 1649412000
unfolding unix sub_ℕ
unix-at_ten = refl

parse-job_name_example : parse_job_name (job_name "daily-report" at_ten (pos 2)) ≡ parsed
parse-job_name_example =
    parse-job_name "daily-report" at_ten 1649412000 2 refl daily_is_line unix-at_ten (omega arith)
      (omega arith)
  where
    daily_is_line : is_line "daily-report" ≡ true
    daily_is_line = unfold is_line in refl
