-- ===== src/Builder.antt =====
-- Building jobs: pkg/job/builder.go, and their names: pkg/metadata/job_naming.go.
pub mod Suspension
pub mod Annotations
pub mod Naming
mod Tests
use controlled_job.Base.{
  ℕ, ◌/◌, ◌^◌, String, Bool, true, false, not, Option, none, some, List, [], ◌∷◌, str_eq, ◌==◌,
  if◌then◌else◌,
}
use controlled_job.Base.Int.{ℤ, pos, negsuc, sub_ℕ}
use controlled_job.Base.Text.{concat, equal_fold}
use controlled_job.Base.Decimal.{print_ℤ}
use controlled_job.Errors.{Result, ok, err, ◌>>=◌}
use controlled_job.Kube.{Time, Job, JobSpec}
use controlled_job.Api.{ControlledJob}
use controlled_job.Env.{Env}
use controlled_job.Mutators.{apply_all}
use controlled_job.Metadata.{
  lookup, put, scheduled_time_annotation, job_run_id_annotation, template_hash_annotation,
  time_zone_annotation, time_zone_offset_seconds_annotation, manual_job_annotation,
  controlled_job_label, apply_mutations_annotation, calculate_hash_for, is_manually_scheduled_job,
  get_scheduled_time,
}

-- Time.Unix: whole seconds since 1970.
unfoldable pub unix : Time → ℤ
unix t = sub_ℕ (t / 10 ^ 9) 62135596800

unfoldable pub job_name : String → Time → ℤ → String
unfolding unix
job_name controlled_job scheduled run_id =
    concat (controlled_job ∷ "-" ∷ print_ℤ (unix scheduled) ∷ "-" ∷ print_ℤ run_id ∷ [])

-- for k, v := range from { to[k] = v }
unfoldable pub copy_into : List (String × String) → List (String × String) → List (String × String)
copy_into [] to = to
copy_into ((k, v) ∷ from) to = copy_into from (put k v to)

-- An assignment under an `if`.
abbrev pub put_if : Bool → String → String → List (String × String) → List (String × String)
put_if b k v m = if b then put k v m else m

abbrev pub is_zero : ℤ → Bool
is_zero (pos n) = n == 0
is_zero (negsuc n) = false

module _ (env : Env) (cj : ControlledJob) where
  unfoldable pub job_annotations : Time → ℤ → Bool → List (String × String)
  job_annotations scheduled run_id manual = put_if manual manual_job_annotation "true" (
      put_if (not (is_zero zone.offset_seconds)) time_zone_offset_seconds_annotation
        (print_ℤ zone.offset_seconds)
        (put_if (not (str_eq zone.zone "")) time_zone_annotation zone.zone (
          put template_hash_annotation (calculate_hash_for env.digest cj.spec.job_template) (
            put job_run_id_annotation (print_ℤ run_id) (
              put scheduled_time_annotation (env.format_time scheduled)
                (copy_into cj.spec.job_template.annotations []))))))
    where
      open cj.spec use {timezone as zone}

  -- The job as it stands before the owner is set and the mutators run.
  unfoldable pub templated_job : Time → ℤ → Bool → Bool → Job
  templated_job scheduled run_id manual start_suspended = record {
    name = job_name cj.name scheduled run_id;
    namespace = cj.namespace;
    labels = put controlled_job_label cj.name (copy_into cj.spec.job_template.labels []);
    annotations = job_annotations scheduled run_id manual;
    deletion_timestamp = none;
    controller = none;
    spec =
        if start_suspended
        then record cj.spec.job_template.spec { suspend = some true }
        else cj.spec.job_template.spec;
    status = record { active = 0; ready = none; conditions = [] };
  }

  unfoldable pub wants_mutations : Bool
  wants_mutations = elim (lookup apply_mutations_annotation cj.annotations) [
    | none ↦ false
    | some v ↦ equal_fold v "true"
  ]

  unfoldable pub build_job : Time → ℤ → Bool → Bool → Result Job
  unfolding wants_mutations
  build_job scheduled run_id manual start_suspended = do
    job ← env.set_controller_reference cj (templated_job scheduled run_id manual start_suspended)
    if wants_mutations then apply_all env.registered_mutators job else ok job

  unfoldable pub build_for_controlled_job : Time → ℤ → Bool → Bool → Result Job
  build_for_controlled_job scheduled run_id manual start_suspended =
      build_job scheduled run_id manual start_suspended

  unfoldable pub recreate_job_with_new_spec : Job → ℤ → Bool → Result Job
  recreate_job_with_new_spec existing run_id start_suspended = do
    scheduled ← get_scheduled_time env.parse_time existing
    build_job scheduled run_id (is_manually_scheduled_job existing) start_suspended
