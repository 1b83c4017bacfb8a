-- ===== src/Metadata.antt =====
-- Annotations and the state of a job: pkg/metadata/constants.go and pkg/metadata/job_metadata.go.
use controlled_job.Base.{
  or_false, String, Bool, true, false, not, Option, none, some, List, [], ◌∷◌, ◌&&◌, ◌||◌, str_eq,
  is_some, ltb, if◌then◌else◌,
}
use controlled_job.Base.Int.{ℤ}
use controlled_job.Base.Decimal.{atoi}
use controlled_job.Base.Text.{concat}
use controlled_job.Errors.{Result, err, message}
use controlled_job.Kube.{Time, condition_true, JobCondition, Job, JobTemplate}
use controlled_job.Api.Conditions.{same_status}

abbrev pub job_owner_key : String
job_owner_key = ".metadata.controller"

abbrev pub api_gv_str : String
api_gv_str = "batch.gresearch.co.uk/v1"

abbrev pub scheduled_time_annotation : String
scheduled_time_annotation = "batch.gresearch.co.uk/scheduled-at"

abbrev pub job_run_id_annotation : String
job_run_id_annotation = "batch.gresearch.co.uk/job-run-id"

abbrev pub controlled_job_label : String
controlled_job_label = "batch.gresearch.co.uk/controlled-job"

abbrev pub manual_job_annotation : String
manual_job_annotation = "batch.gresearch.co.uk/is-manually-scheduled"

abbrev pub template_hash_annotation : String
template_hash_annotation = "batch.gresearch.co.uk/job-template-hash"

abbrev pub suspend_reason : String
suspend_reason = "batch.gresearch.co.uk/suspend-reason"

abbrev pub apply_mutations_annotation : String
apply_mutations_annotation = "batch.gresearch.co.uk/apply-mutations"

abbrev pub time_zone_annotation : String
time_zone_annotation = "batch.gresearch.co.uk/timezone"

abbrev pub time_zone_offset_seconds_annotation : String
time_zone_offset_seconds_annotation = "batch.gresearch.co.uk/timezone-offset-seconds"

-- A map[string]string as an association list. `lookup` is the two-valued read.
unfoldable pub lookup : String → List (String × String) → Option String
lookup k [] = none
lookup k ((j, v) ∷ m) = if str_eq j k then some v else lookup k m

-- The one-valued read gives the empty text for a missing key.
unfoldable pub value_of : String → List (String × String) → String
unfolding lookup
value_of k m = elim (lookup k m) [ none ↦ "" | some v ↦ v ]

-- m[k] = v
unfoldable pub put : String → String → List (String × String) → List (String × String)
put k v [] = (k, v) ∷ []
put k v ((j, w) ∷ m) = if str_eq j k then (k, v) ∷ m else (j, w) ∷ put k v m

abbrev one_of : String → List String → Bool
one_of s [] = false
one_of s (t ∷ ts) = str_eq s t || one_of s ts

-- strconv.ParseBool
unfoldable pub parse_bool : String → Option Bool
parse_bool s =
    if one_of s ("1" ∷ "t" ∷ "T" ∷ "true" ∷ "TRUE" ∷ "True" ∷ [])
    then some true
    else if one_of s ("0" ∷ "f" ∷ "F" ∷ "false" ∷ "FALSE" ∷ "False" ∷ [])
    then some false
    else none

-- The loop over the annotations, up to the entry for the key.
unfoldable pub manual_flag : List (String × String) → Bool
unfolding parse_bool
manual_flag [] = false
manual_flag ((key, annotation) ∷ rest) =
    if not (str_eq key manual_job_annotation)
    then manual_flag rest
    else or_false (parse_bool annotation)

unfoldable pub is_manually_scheduled_job : Job → Bool
unfolding manual_flag
is_manually_scheduled_job job = manual_flag job.annotations

find_job_condition : String → List JobCondition → Option JobCondition
find_job_condition t [] = none
find_job_condition t (c ∷ cs) =
    if str_eq c.type_name t && same_status c.status condition_true
    then some c
    else find_job_condition t cs

unfoldable pub get_job_condition : Job → String → Option JobCondition
unfolding find_job_condition
get_job_condition job t = find_job_condition t job.status.conditions

unfoldable pub job_has_condition : Job → String → Bool
unfolding get_job_condition
job_has_condition job t = elim (get_job_condition job t) [
  | none ↦ false
  | some c ↦ same_status c.status condition_true
]

abbrev pub job_complete : String
job_complete = "Complete"

abbrev pub job_failed : String
job_failed = "Failed"

unfoldable pub is_job_completed : Job → Bool
unfolding job_has_condition
is_job_completed job =
    if job_has_condition job job_complete || job_has_condition job job_failed then true else false

unfoldable pub is_job_potentially_running : Job → Bool
is_job_potentially_running job = not (is_job_completed job)

unfoldable pub is_job_being_deleted : Job → Bool
is_job_being_deleted job = is_some job.deletion_timestamp

unfoldable pub is_job_suspended : Job → Bool
is_job_suspended job = or_false job.spec.suspend

unfoldable pub was_job_stopped_by_the_user : Job → Bool
unfolding is_job_suspended
was_job_stopped_by_the_user job =
    is_job_suspended job && str_eq (value_of suspend_reason job.annotations) "user-stop"

unfoldable pub job_has_ready_status : Job → Bool
job_has_ready_status job = is_some job.status.ready

unfoldable pub is_job_running : Job → Bool
is_job_running job =
    if is_job_completed job
    then false
    else elim job.status.ready [ none ↦ ltb 0 job.status.active | some ready ↦ ltb 0 ready ]

-- time.Parse with the RFC 3339 layout is `parse_time`. An absent annotation is an error too.
unfoldable pub get_scheduled_time : (String → Result Time) → Job → Result Time
get_scheduled_time parse_time job =
    let raw = value_of scheduled_time_annotation job.annotations in
    if str_eq raw ""
    then err (
        message (
          concat ("No " ∷ scheduled_time_annotation ∷ " annotation found on job " ∷ job.name ∷ [])))
    else parse_time raw

-- No caller reads the error of GetJobRunId: `none` stands for each.
unfoldable pub get_job_run_id : Job → Option ℤ
get_job_run_id job =
    let raw = value_of job_run_id_annotation job.annotations in
    if str_eq raw "" then none else atoi raw

-- Suspension is left out of the hash. JSON, SHA-256 and hex are `digest`.
unfoldable pub calculate_hash_for : (JobTemplate → String) → JobTemplate → String
calculate_hash_for digest template =
    digest (record template { spec = record template.spec { suspend = none } })
