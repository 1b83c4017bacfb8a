-- ===== src/Builder/Suspension.antt =====
-- The suspension of new jobs: pkg/job/builder.go.
use controlled_job.Base.{◌≡◌, refl, ◌∙◌, Bool, true, [], ◌∷◌, arith, inl, inr, Bool-cases}
use controlled_job.Base.Int.{ℤ}
use controlled_job.Errors.{ok, Result-cases}
use controlled_job.Kube.{Time, Job}
use controlled_job.Api.{ControlledJob}
use controlled_job.Env.{Env}
use controlled_job.Mutators.{Registry, apply_all}
use controlled_job.Metadata.{is_job_suspended, get_scheduled_time, is_manually_scheduled_job}
use controlled_job.Builder.{templated_job, wants_mutations, build_job, recreate_job_with_new_spec}

-- ctrl.SetControllerReference writes the owner references of a job and nothing else of it.
abbrev pub OwnerKeepsSpec : Env → Type 0
OwnerKeepsSpec env =
    (cj : ControlledJob) (job owned : Job)
    → env.set_controller_reference cj job ≡ ok owned
    → owned.spec ≡ job.spec

-- No mutator of the list unsuspends a job.
abbrev pub KeepSuspension : Registry → Type 0
KeepSuspension [] = Unit {0}
KeepSuspension ((name, m) ∷ r) =
    ((job changed : Job)
      → m.apply job ≡ ok changed
      → is_job_suspended job ≡ true
      → is_job_suspended changed ≡ true)
    × KeepSuspension r

apply_all-suspended :
    (r : Registry) (job changed : Job)
    → KeepSuspension r
    → apply_all r job ≡ ok changed
    → is_job_suspended job ≡ true
    → is_job_suspended changed ≡ true
unfolding apply_all
apply_all-suspended [] job changed k h s = ground arith
apply_all-suspended ((name, m) ∷ r) job changed k h s = elim (Result-cases (m.apply job)) [
  | inl (next, e) ↦ apply_all-suspended r next changed k.1 (ground (arith, e)) (k.0 job next e s)
  | inr (x, e) ↦ absurd (ground (arith, e))
]

module _ (env : Env) (keeps : OwnerKeepsSpec env)
    (mutators : KeepSuspension env.registered_mutators) (cj : ControlledJob) where
  templated_suspended :
      (t : Time) (id : ℤ) (manual : Bool)
      → is_job_suspended (templated_job env cj t id manual true) ≡ true
  unfolding templated_job is_job_suspended
  templated_suspended t id manual = refl

  owned_suspended :
      (t : Time) (id : ℤ) (manual : Bool) (owned : Job)
      → env.set_controller_reference cj (templated_job env cj t id manual true) ≡ ok owned
      → is_job_suspended owned ≡ true
  owned_suspended t id manual owned e =
      same_spec owned (templated_job env cj t id manual true) (keeps cj _ owned e)
      ∙ templated_suspended t id manual
    where
      same_spec : (a b : Job) → a.spec ≡ b.spec → is_job_suspended a ≡ is_job_suspended b
      same_spec a b p = unfold is_job_suspended in cc

  -- A job that is built to start suspended is suspended, whatever the time, run id and the mutators
  -- are, if setting an owner keeps the specification and no mutator unsuspends.
  pub build_job-suspended :
      (t : Time) (id : ℤ) (manual : Bool) (job : Job)
      → build_job env cj t id manual true ≡ ok job
      → is_job_suspended job ≡ true
  unfolding build_job
  build_job-suspended t id manual job h =
      elim (Result-cases
        (env.set_controller_reference cj (templated_job env cj t id manual true))) [
          | inl (owned, e) ↦ elim (Bool-cases (wants_mutations env cj)) [
            | inl w ↦
                apply_all-suspended env.registered_mutators owned job mutators
                  (ground (arith, e, w)) (owned_suspended t id manual owned e)
            | inr w ↦ owned_suspended t id manual job (ground (arith, e, w))
          ]
          | inr (x, e) ↦ absurd (ground (arith, e))
        ]

  pub recreate-suspended :
      (existing : Job) (id : ℤ) (job : Job)
      → recreate_job_with_new_spec env cj existing id true ≡ ok job
      → is_job_suspended job ≡ true
  unfolding recreate_job_with_new_spec
  recreate-suspended existing id job h =
      elim (Result-cases (get_scheduled_time env.parse_time existing)) [
        | inl (t, e) ↦
            build_job-suspended t id (is_manually_scheduled_job existing) job (ground (arith, e))
        | inr (x, e) ↦ absurd (ground (arith, e))
      ]
