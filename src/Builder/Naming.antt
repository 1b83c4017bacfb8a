-- ===== src/Builder/Naming.antt =====
-- Reading job names: ParseJobName of pkg/metadata/job_naming.go.
pub mod RoundTrip
mod Tests
use Prim.Native.Char.{Char, code}
use Prim.Native.String.{String, [], ◌∷◌}
use controlled_job.Base.{
  ℕ, Bool, true, false, not, Option, none, some, List, ◌&&◌, ◌==◌, if◌then◌else◌,
}
use controlled_job.Base.Int.{ℤ}
use controlled_job.Base.Text.{concat}
use controlled_job.Base.Decimal.{is_digit, atoi}
use controlled_job.Errors.{Error, message}

-- The results of ParseJobName; a scheduled time is given by its seconds since 1970.
pub record ParsedName : Type 0 where
  pub controlled_job_name : String
  pub scheduled_time : Option ℤ
  pub job_run_id : Option ℤ
  pub error : Option Error

-- The last dash is in the rest, or it is the character before the rest, or there is none.
abbrev pub last_dash : Char → String → Option (String × String) → Option (String × String)
last_dash c s none = if code c == b'-' then some ([], s) else none
last_dash c s (some (front, back)) = some (c ∷ front, back)

-- What stands before and after the last dash of a text.
unfoldable pub split_last : String → Option (String × String)
split_last [] = none
split_last (c ∷ s) = last_dash c s (split_last s)

unfoldable pub all_digits : String → Bool
unfolding is_digit
all_digits [] = true
all_digits (c ∷ s) = is_digit c && all_digits s

-- `.` does not match a newline.
unfoldable pub is_line : String → Bool
is_line [] = true
is_line (c ∷ s) = not (code c == b'\n') && is_line s

abbrev pub is_nonempty : String → Bool
is_nonempty [] = false
is_nonempty (c ∷ s) = true

abbrev pub matching : String → String → String → Option (String × String × String)
matching name seconds run_id =
    if (is_nonempty name && is_line name)
      && (is_nonempty seconds && all_digits seconds)
      && (is_nonempty run_id && all_digits run_id)
    then some (name, seconds, run_id)
    else none

abbrev pub match_front : String → Option (String × String) → Option (String × String × String)
match_front run_id none = none
match_front run_id (some (name, seconds)) = matching name seconds run_id

abbrev pub match_parts : Option (String × String) → Option (String × String × String)
match_parts none = none
match_parts (some (front, run_id)) = match_front run_id (split_last front)

-- jobNameRegex.FindStringSubmatch: the last two groups have no dash, so that they stand behind the
-- last two dashes.
unfoldable pub find_submatch : String → Option (String × String × String)
find_submatch job_name = match_parts (split_last job_name)

abbrev out_of_range : String → Error
out_of_range digits = message (
    concat (
      List.◌∷◌ "strconv.Atoi: parsing \""
        (List.◌∷◌ digits (List.◌∷◌ "\": value out of range" List.[]))))

abbrev pub with_run_id : String → ℤ → String → Option ℤ → ParsedName
with_run_id name seconds digits none = record {
  controlled_job_name = name;
  scheduled_time = some seconds;
  job_run_id = none;
  error = some (out_of_range digits);
}
with_run_id name seconds digits (some run_id) = record {
  controlled_job_name = name;
  scheduled_time = some seconds;
  job_run_id = some run_id;
  error = none;
}

abbrev pub with_seconds : String → String → String → Option ℤ → ParsedName
with_seconds name digits run_id none = record {
  controlled_job_name = name;
  scheduled_time = none;
  job_run_id = none;
  error = some (out_of_range digits);
}
with_seconds name digits run_id (some seconds) = with_run_id name seconds run_id (atoi run_id)

abbrev pub read_submatch : String → Option (String × String × String) → ParsedName
read_submatch job_name none = record {
  controlled_job_name = [];
  scheduled_time = none;
  job_run_id = none;
  error = some (
      message (
        concat (
          List.◌∷◌ "Failed to parse "
            (List.◌∷◌ job_name (List.◌∷◌ " as a valid job name" List.[])))));
}
read_submatch job_name (some (name, seconds, run_id)) =
    with_seconds name seconds run_id (atoi seconds)

unfoldable pub parse_job_name : String → ParsedName
parse_job_name job_name = read_submatch job_name (find_submatch job_name)
