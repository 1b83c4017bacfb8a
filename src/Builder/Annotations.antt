-- ===== src/Builder/Annotations.antt =====
-- The annotations that pkg/job/builder.go writes and pkg/metadata/job_metadata.go reads.
use controlled_job.Base.{
  or_false, ◌≡◌, ◌∙◌, sym, ap, refl, String, Bool, true, false, not, ◌&&◌, none, some, List, [],
  ◌∷◌, arith, inl, inr, Bool-cases, str_eq, eq_iff,
}
use controlled_job.Base.Int.{ℤ}
use controlled_job.Base.Decimal.{atoi, print_ℤ}
use controlled_job.Base.Decimal.RoundTrip.{IsInt64, atoi-print_ℤ}
use controlled_job.Errors.{ok, Result-cases}
use controlled_job.Kube.{Time, Job}
use controlled_job.Api.{ControlledJob}
use controlled_job.Env.{Env}
use controlled_job.State.{State}
use controlled_job.Decision.Candidate.{is_out_of_date}
use controlled_job.Metadata.{
  lookup, value_of, put, parse_bool, manual_flag, is_manually_scheduled_job, get_job_run_id,
  get_scheduled_time, calculate_hash_for, scheduled_time_annotation, job_run_id_annotation,
  template_hash_annotation, time_zone_annotation, time_zone_offset_seconds_annotation,
  manual_job_annotation, apply_mutations_annotation,
}
use controlled_job.Builder.{
  put_if, job_annotations, templated_job, wants_mutations, build_job, recreate_job_with_new_spec,
}

lookup-put : (k v : String) (m : List (String × String)) → lookup k (put k v m) ≡ some v
unfolding lookup put
lookup-put k v [] = ground (arith, eq_iff k k)
lookup-put k v ((j, w) ∷ m) = ground (arith, eq_iff k k, lookup-put k v m)

lookup-put_other :
    (k j v : String) (m : List (String × String))
    → str_eq j k ≡ false
    → lookup k (put j v m) ≡ lookup k m
unfolding lookup put
lookup-put_other k j v [] e = rw e
lookup-put_other k j v ((i, w) ∷ m) e = elim (Bool-cases (str_eq i j)) [
  | inl same ↦ rw (same, e, ap (λ (s : String). str_eq s k) ((eq_iff i j).0 same) ∙ e)
  | inr other ↦ rw (other, lookup-put_other k j v m e)
]

lookup-put_if_other :
    (b : Bool) (k j v : String) (m : List (String × String))
    → str_eq j k ≡ false
    → lookup k (put_if b j v m) ≡ lookup k m
lookup-put_if_other true k j v m e = lookup-put_other k j v m e
lookup-put_if_other false k j v m e = refl

value_of_found :
    (k v : String) (m : List (String × String)) → lookup k m ≡ some v → value_of k m ≡ v
unfolding value_of
value_of_found k v m e = rw (value_of, e)

-- The loop over the annotations finds the first entry for the key.
manual_flag_found :
    (v : String) (m : List (String × String))
    → lookup manual_job_annotation m ≡ some v
    → manual_flag m ≡ or_false (parse_bool v)
unfolding manual_flag lookup
manual_flag_found v [] e = absurd (ground (arith, e))
manual_flag_found v ((key, w) ∷ m) e = elim (Bool-cases (str_eq key manual_job_annotation)) [
  | inl same ↦ ground (arith, same, e)
  | inr other ↦ ground (arith, other, e, manual_flag_found v m)
]

module _ (env : Env) (cj : ControlledJob) (t : Time) (id : ℤ) (manual : Bool) where
  abbrev written : List (String × String)
  written = job_annotations env cj t id manual

  found_hash :
      lookup template_hash_annotation written
      ≡ some (calculate_hash_for env.digest cj.spec.job_template)
  unfolding job_annotations
  found_hash =
      lookup-put_if_other manual template_hash_annotation manual_job_annotation _ _ refl
      ∙ lookup-put_if_other _ template_hash_annotation time_zone_offset_seconds_annotation _ _ refl
      ∙ lookup-put_if_other _ template_hash_annotation time_zone_annotation _ _ refl
      ∙ lookup-put template_hash_annotation _ _

  found_run_id : lookup job_run_id_annotation written ≡ some (print_ℤ id)
  unfolding job_annotations
  found_run_id =
      lookup-put_if_other manual job_run_id_annotation manual_job_annotation _ _ refl
      ∙ lookup-put_if_other _ job_run_id_annotation time_zone_offset_seconds_annotation _ _ refl
      ∙ lookup-put_if_other _ job_run_id_annotation time_zone_annotation _ _ refl
      ∙ lookup-put_other job_run_id_annotation template_hash_annotation _ _ refl
      ∙ lookup-put job_run_id_annotation _ _

  found_scheduled : lookup scheduled_time_annotation written ≡ some (env.format_time t)
  unfolding job_annotations
  found_scheduled =
      lookup-put_if_other manual scheduled_time_annotation manual_job_annotation _ _ refl
      ∙ lookup-put_if_other _ scheduled_time_annotation time_zone_offset_seconds_annotation _ _ refl
      ∙ lookup-put_if_other _ scheduled_time_annotation time_zone_annotation _ _ refl
      ∙ lookup-put_other scheduled_time_annotation template_hash_annotation _ _ refl
      ∙ lookup-put_other scheduled_time_annotation job_run_id_annotation _ _ refl
      ∙ lookup-put scheduled_time_annotation _ _

-- ctrl.SetControllerReference leaves a job's annotations alone.
abbrev pub OwnerKeepsAnnotations : Env → Type 0
OwnerKeepsAnnotations env =
    (cj : ControlledJob) (job owned : Job)
    → env.set_controller_reference cj job ≡ ok owned
    → owned.annotations ≡ job.annotations

module _ (env : Env) (keeps : OwnerKeepsAnnotations env) (cj : ControlledJob)
    (plain : lookup apply_mutations_annotation cj.annotations ≡ none) where
  -- The annotations of a job that is built are those written.
  built_annotations :
      (t : Time) (id : ℤ) (manual suspended : Bool) (job : Job)
      → build_job env cj t id manual suspended ≡ ok job
      → job.annotations ≡ job_annotations env cj t id manual
  unfolding build_job wants_mutations templated_job
  built_annotations t id manual suspended job built =
      elim (Result-cases
        (env.set_controller_reference cj (templated_job env cj t id manual suspended))) [
          | inl (owned, e) ↦
              keeps cj (templated_job env cj t id manual suspended) job
                (e ∙ ap ok (ground (arith, e, plain)))
          | inr (x, e) ↦ absurd (ground (arith, e))
        ]

  run_id_of :
      (job : Job) (id : ℤ)
      → lookup job_run_id_annotation job.annotations ≡ some (print_ℤ id)
      → IsInt64 id
      → get_job_run_id job ≡ some id
  unfolding get_job_run_id
  run_id_of job id e range = elim (Bool-cases (str_eq (print_ℤ id) "")) [
    | inl empty ↦
        absurd
          (not_empty (ap atoi (sym ((eq_iff (print_ℤ id) "").0 empty)) ∙ atoi-print_ℤ id range))
    | inr other ↦
        rw (value_of_found job_run_id_annotation (print_ℤ id) job.annotations e, other)
          (atoi-print_ℤ id range)
  ]
    where
      not_empty : ¬ (atoi "" ≡ some id)
      not_empty h = unfold atoi in cc

  -- A job that is built without mutators, by an owner reference that keeps annotations, is up to
  -- date in any state that wants the ControlledJob's template. Its run id, an int64, reads back as
  -- it was given, and its start as the result of parsing the text that its start is written as,
  -- which is not empty: RFC 3339 with whole seconds.
  pub build_job_reads_back :
      (t : Time) (id : ℤ) (manual suspended : Bool) (job : Job) (state : State)
      → build_job env cj t id manual suspended ≡ ok job
      → IsInt64 id
      → str_eq (env.format_time t) "" ≡ false
      → state.desired_hash ≡ calculate_hash_for env.digest cj.spec.job_template
      → (is_out_of_date job state ≡ false)
        × (get_job_run_id job ≡ some id)
        × (get_scheduled_time env.parse_time job ≡ env.parse_time (env.format_time t))
  unfolding is_out_of_date get_scheduled_time
  build_job_reads_back t id manual suspended job state built range shown wanted =
      let same = built_annotations t id manual suspended job built in
      (
        rw
            (
              same,
              value_of_found template_hash_annotation _ _ (found_hash env cj t id manual),
              wanted,
            )
            (up_to_date (calculate_hash_for env.digest cj.spec.job_template)),
        run_id_of job id (rw same (found_run_id env cj t id manual)) range,
        rw (
          same,
          value_of_found scheduled_time_annotation _ _ (found_scheduled env cj t id manual),
          shown,
        ),
      )
    where
      up_to_date : (s : String) → (not (str_eq s "") && not (str_eq s s)) ≡ false
      up_to_date s = ground (arith, eq_iff s s)

  -- A job that replaces a manually scheduled one is manually scheduled, where no mutator runs and an
  -- owner reference keeps annotations.
  recreate_job-manual :
      (existing job : Job) (id : ℤ) (suspended : Bool)
      → recreate_job_with_new_spec env cj existing id suspended ≡ ok job
      → is_manually_scheduled_job existing ≡ true
      → is_manually_scheduled_job job ≡ true
  unfolding recreate_job_with_new_spec
  recreate_job-manual existing job id suspended built by_hand =
      elim (Result-cases (get_scheduled_time env.parse_time existing)) [
        | inl (t, e) ↦
            manual_of job t (built_annotations t id true suspended job (ground (arith, e, by_hand)))
        | inr (x, e) ↦ absurd (ground (arith, e))
      ]
    where
      manual_of :
          (job : Job) (t : Time)
          → job.annotations ≡ job_annotations env cj t id true
          → is_manually_scheduled_job job ≡ true
      manual_of job t same =
          unfold is_manually_scheduled_job job_annotations parse_bool in
          ap manual_flag same
          ∙ manual_flag_found "true" (job_annotations env cj t id true)
              (lookup-put manual_job_annotation "true" _)
