-- ===== src/Decision/Convergence/Later.antt =====
-- The decisions of pkg/reconciliation/decision.go on the first job of a run period, later.
use controlled_job.Base.{
  ℕ, ◌≡◌, refl, sym, ap, ◌∙◌, subst, Bool, true, false, Option, none, some, List, [], ◌∷◌, ◌==◌,
  keep, count, arith, Memᴰ, inl, inr, Bool-cases, ltb, str_eq,
}
use controlled_job.Base.Lists.Membership.{eq_of_mem-singleton}
use controlled_job.Base.Int.{pos}
use controlled_job.Errors.{ok}
use controlled_job.Kube.{Time, Job}
use controlled_job.Api.Conditions.{Live}
use controlled_job.Env.{Env}
use controlled_job.Builder.{build_for_controlled_job}
use controlled_job.Builder.Annotations.{OwnerKeepsAnnotations, build_job_reads_back}
use controlled_job.Metadata.{
  lookup, apply_mutations_annotation, calculate_hash_for, get_scheduled_time, is_job_suspended,
  is_job_being_deleted, was_job_stopped_by_the_user,
}
use controlled_job.State.{State, Handle, pointers_from}
use controlled_job.Decision.Candidate.{is_out_of_date, better_of}
use controlled_job.Decision.Candidate.Best.{best_from}
use controlled_job.Decision.Loops.{is_expired}
use controlled_job.Decision.Sorting.{remains, runs}
use controlled_job.Decision.Deletion.{is_removed}
use controlled_job.Decision.Settled.{IsSettled, decide_settled}
use controlled_job.Decision.{decide, may_unsuspend}
use controlled_job.Decision.Convergence.{IsFirst, decided-IsFirst}

-- The last stop is after the instant.
abbrev pub is_before_stop : Time → Option Time → Bool
is_before_stop start none = false
is_before_stop start (some stop) = ltb start stop

-- A later state in which nothing has changed but that the job is there, under any name and with any
-- status, and the restart policy, which may be another.
pub record GoesOn (state : State) (c : Handle) (later : State) (job : Job) : Type 0 where
  pub not_suspended : later.is_suspended ≡ false
  pub wanted : later.should_be_running ≡ some true
  pub same_hash : later.desired_hash ≡ state.desired_hash
  pub only : later.all_jobs ≡ pointers_from 0 (job ∷ [])
  pub same_annotations : job.annotations ≡ c.job.annotations
  pub same_spec : job.spec ≡ c.job.spec
  pub same_deletion : job.deletion_timestamp ≡ c.job.deletion_timestamp

may_unsuspend_alike :
    (env : Env) (auto_recreate restart : Bool) (now later_now : Time) (state later : State) (n : ℕ)
    (c h : Handle)
    → h.job.annotations ≡ c.job.annotations
    → h.job.spec ≡ c.job.spec
    → h.job.deletion_timestamp ≡ c.job.deletion_timestamp
    → may_unsuspend env auto_recreate now state 1 c ≡ false
    → may_unsuspend env restart later_now later n h ≡ false
unfolding may_unsuspend is_job_suspended is_job_being_deleted was_job_stopped_by_the_user
may_unsuspend_alike env auto_recreate restart now later_now state later n c h a b d q =
    elim (Bool-cases (n == 1)) [
      | inl e ↦ rw (a, b, d) (ground (arith, e, q))
      | inr e ↦ ground (arith, e)
    ]

module _ (env : Env) (keeps : OwnerKeepsAnnotations env) (later : State) (job : Job)
    (only : later.all_jobs ≡ pointers_from 0 (job ∷ [])) where
  abbrev h : Handle
  h = record { addr = 0; job = job }

  stands_alone : later.all_jobs ≡ h ∷ []
  unfolding pointers_from
  stands_alone = only

  module _ (unexpired : is_expired env later job ≡ false) where
    best_alone : best_from later none (keep (remains env later) later.all_jobs) ≡ some h
    unfolding best_from better_of
    best_alone =
        ap (λ (l : List Handle). best_from later none (keep (remains env later) l)) stands_alone
        ∙ rw unexpired refl

    nobody_removed :
        (restart : Bool) (later_now : Time) (k : Handle)
        → Memᴰ k later.all_jobs
        → is_removed env restart later_now later (some h) k ≡ false
    nobody_removed restart later_now k m =
        rw (eq_of_mem-singleton (subst (Memᴰ k) stands_alone m)) (ground (arith, unexpired))

module _ (env : Env) (auto_recreate : Bool) (now : Time) (state : State) (live : Live)
    (keeps : OwnerKeepsAnnotations env)
    (plain : lookup apply_mutations_annotation live.object.annotations ≡ none)
    (hashed : state.desired_hash
      ≡ calculate_hash_for env.digest live.object.spec.job_template) where
  -- The job that was created is neither expired nor out of date later.
  reads_later :
      (c : Handle) (later : State) (job : Job) (t r : Time)
      → IsFirst env auto_recreate now state live c
      → GoesOn state c later job
      → state.start_of_current_run_period ≡ some t
      → str_eq (env.format_time t) "" ≡ false
      → env.parse_time (env.format_time t) ≡ ok r
      → is_before_stop r later.last_stop_time ≡ false
      → (is_expired env later job ≡ false) × (is_out_of_date job later ≡ false)
  unfolding is_expired is_out_of_date get_scheduled_time build_for_controlled_job
  reads_later c later job t r first on starts shown parsed past =
      let same_start : first.start ≡ t = cc (first.starts, starts) in
      let (fresh, id, start) =
        build_job_reads_back env keeps first.source
          (ap (lookup apply_mutations_annotation) first.same_annotations ∙ plain) first.start
          (pos 0) false true first.job later first.built (omega arith) (rw same_start shown)
          (on.same_hash
            ∙ hashed
            ∙ ap (λ x. calculate_hash_for env.digest x.job_template) (sym first.same_spec)) in
      let same : job.annotations ≡ first.job.annotations = on.same_annotations ∙ first.noted in
      (ground (arith, same, start, same_start, parsed, past), ground (arith, same, fresh))

  -- What it takes for the later decision to find all settled.
  pub later-IsSettled :
      (c : Handle) (t r : Time) (later : State) (job : Job) (restart : Bool) (later_now : Time)
      → state.is_suspended ≡ false
      → state.all_jobs ≡ []
      → state.should_be_running ≡ some true
      → (decide env auto_recreate now state live).error ≡ none
      → (decide env auto_recreate now state live).decision.jobs_to_create ≡ c ∷ []
      → state.start_of_current_run_period ≡ some t
      → str_eq (env.format_time t) "" ≡ false
      → env.parse_time (env.format_time t) ≡ ok r
      → GoesOn state c later job
      → is_before_stop r later.last_stop_time ≡ false
      → IsSettled env restart later_now later (record { addr = 0; job = job })
  later-IsSettled c t r later job restart later_now s e w ok_lem g starts shown parsed on past =
      let first = decided-IsFirst env auto_recreate now state live c s e w ok_lem g in
      let (unexpired, fresh) = reads_later c later job t r first on starts shown parsed past in
      record {
        wanted = on.wanted;
        best = best_alone env keeps later job on.only unexpired;
        current = ground (arith, fresh);
        stays_suspended =
            may_unsuspend_alike env auto_recreate restart now later_now state later
              (count (runs env later) later.all_jobs) c (record { addr = 0; job = job })
              on.same_annotations on.same_spec on.same_deletion first.quiet;
        others_done = nobody_removed env keeps later job on.only unexpired restart later_now;
      }

  -- Inside the run period, with no job there, a decision without suspension and error creates a job
  -- `c`. Later that job stands alone, under any name and with any status, but with its annotations,
  -- specification and deletion timestamp; the schedule still wants a job, the wanted specification
  -- is the same, and the last stop is not after the start as it reads back. Then a decision, made at
  -- any time, has no error, creates, deletes and unsuspends nothing, and records that a job runs.
  -- Setting an owner keeps a job's annotations, the ControlledJob asks for no mutators, and the state
  -- wants its template.
  pub first_run_settles :
      (c : Handle) (t r : Time) (later : State) (job : Job) (restart : Bool) (later_now : Time)
      (later_live : Live)
      → state.is_suspended ≡ false
      → state.all_jobs ≡ []
      → state.should_be_running ≡ some true
      → (decide env auto_recreate now state live).error ≡ none
      → (decide env auto_recreate now state live).decision.jobs_to_create ≡ c ∷ []
      → state.start_of_current_run_period ≡ some t
      → str_eq (env.format_time t) "" ≡ false
      → env.parse_time (env.format_time t) ≡ ok r
      → GoesOn state c later job
      → is_before_stop r later.last_stop_time ≡ false
      → let out = decide env restart later_now later later_live in
        (out.error ≡ none)
        × (out.decision.jobs_to_create ≡ [])
        × (out.decision.jobs_to_delete ≡ [])
        × (out.decision.jobs_to_unsuspend ≡ [])
        × (out.live.object.status.is_running ≡ some true)
  first_run_settles c t r later job restart later_now later_live s e w ok_lem g starts shown parsed
        on past =
      decide_settled env restart later_now later later_live (record { addr = 0; job = job })
        (later-IsSettled c t r later job restart later_now s e w ok_lem g starts shown parsed on
          past)
        on.not_suspended
