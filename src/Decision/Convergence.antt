-- ===== src/Decision/Convergence.antt =====
-- A second decision of pkg/reconciliation/decision.go after the one that starts the first job.
pub mod Later
mod Tests
use controlled_job.Base.{
  ℕ, suc, ◌≡◌, refl, sym, ap, ◌∙◌, subst, String, Bool, true, false, not, Option, none, some, List,
  [], ◌∷◌, ◌++◌, ◌&&◌, ◌||◌, ◌==◌, keep, count, arith, Memᴰ, inl, inr, ◌⊎◌, Bool-cases,
  Option-cases, is_some, ltb, str_eq, if◌then◌else◌,
}
use controlled_job.Base.Lists.Membership.{eq_of_mem-singleton}
use controlled_job.Base.Int.{pos}
use controlled_job.Base.Decimal.RoundTrip.{IsInt64}
use controlled_job.Errors.{ok}
use controlled_job.Kube.{Time, Job}
use controlled_job.Api.{ControlledJob}
use controlled_job.Api.Conditions.{Live, set_condition}
use controlled_job.Env.{Env}
use controlled_job.Builder.{build_job, build_for_controlled_job}
use controlled_job.Builder.Annotations.{OwnerKeepsAnnotations, build_job_reads_back}
use controlled_job.Metadata.{
  lookup, apply_mutations_annotation, calculate_hash_for, get_scheduled_time, is_job_suspended,
  is_job_being_deleted, was_job_stopped_by_the_user,
}
use controlled_job.State.{State, Handle, pointers_from}
use controlled_job.Decision.Candidate.{is_out_of_date, better_of}
use controlled_job.Decision.Candidate.Best.{best_from}
use controlled_job.Decision.Conditions.{
  set_should_be_running_status, set_conditions_for_all_jobs, set_job_conditions,
}
use controlled_job.Decision.Loops.{is_expired, survey, survey_from, sort_jobs, sort_from}
use controlled_job.Decision.Sorting.{remains, runs}
use controlled_job.Decision.Results.{initial, decide_ok}
use controlled_job.Decision.Deletion.{initial_lists, is_removed}
use controlled_job.Decision.Selection.{
  Selected, as_found, replaced, started, Adopted, allowed, Built,
}
use controlled_job.Decision.Finishing.{initial_running, allowed_found}
use controlled_job.Decision.Settled.{IsSettled, decide_settled}
use controlled_job.Decision.{
  Decision, Progress, decide, finish, set_requeue, unsuspend_chosen, delete_others, may_unsuspend,
  new_handle, unsuspended, initial_progress, observe, put_header, stop_outside_schedule,
}

module _ (env : Env) (auto_recreate : Bool) (now : Time) (state : State) where
  -- Up to the selection only the status of the ControlledJob is written.
  initial_spec :
      (live : Live)
      → state.all_jobs ≡ []
      → state.should_be_running ≡ some true
      → ((initial env auto_recreate now state live).live.object.spec ≡ live.object.spec)
        × ((initial env auto_recreate now state live).live.object.annotations
            ≡ live.object.annotations)
  unfolding initial_progress observe put_header set_should_be_running_status
      set_conditions_for_all_jobs set_job_conditions set_condition survey survey_from sort_jobs
      sort_from
  initial_spec live e w = rw (e, w) (refl, refl)

  -- A job that the decision creates is not one that it would unsuspend.
  created_quiet :
      (q : Progress) (job : Job) (c : Handle)
      → q.potentially_running ≡ 1
      → q.decision.jobs_to_create ≡ new_handle env auto_recreate now state job ∷ []
      → q.chosen ≡ some (new_handle env auto_recreate now state job)
      → (finish env auto_recreate now state q).decision.jobs_to_create ≡ c ∷ []
      → (may_unsuspend env auto_recreate now state 1 c ≡ false)
        × (c.job.annotations ≡ job.annotations)
  unfolding finish set_requeue unsuspend_chosen delete_others may_unsuspend is_job_suspended
  created_quiet q job c n e f g = ground (arith, n, e, f, g)

  -- With no jobs at all there is none to choose.
  nobody :
      (live : Live)
      → state.all_jobs ≡ []
      → (c : Handle)
      → ¬ (allowed env auto_recreate now state (initial env auto_recreate now state live) ≡ some c)
  unfolding best_from
  nobody live e c a =
      let found =
        sym (initial_running env auto_recreate now state live).1
        ∙ allowed_found env auto_recreate now state (initial env auto_recreate now state live) c
            a in
      cc (rw e at found)

  -- What is known of the one job that is created.
  pub record IsFirst (live : Live) (c : Handle) : Type 0 where
    pub quiet : may_unsuspend env auto_recreate now state 1 c ≡ false
    pub source : ControlledJob
    pub start : Time
    pub job : Job
    pub starts : state.start_of_current_run_period ≡ some start
    pub built : build_for_controlled_job env source start (pos 0) false true ≡ ok job
    pub same_spec : source.spec ≡ live.object.spec
    pub same_annotations : source.annotations ≡ live.object.annotations
    pub noted : c.job.annotations ≡ job.annotations

  Adopted-IsFirst :
      (live : Live) (q : Progress) (job : Job) (c : Handle)
      → state.all_jobs ≡ []
      → state.should_be_running ≡ some true
      → Built env auto_recreate now state (initial env auto_recreate now state live) job
      → Adopted env auto_recreate now state (initial env auto_recreate now state live) q job
      → (finish env auto_recreate now state q).decision.jobs_to_create ≡ c ∷ []
      → IsFirst live c
  Adopted-IsFirst live q job c e w (cj, t, s, b, spec, annotations) a g =
      let (expired₀, rest₀, deletes₀, creates₀, unsuspends₀) =
        initial_lists env auto_recreate now state live in
      let (spec₀, annotations₀) = initial_spec live e w in
      let none_before : count (runs env state) state.all_jobs ≡ 0 = rw e refl in
      let (quiet, noted) =
        created_quiet q job c
          (a.one_more ∙ ap suc ((initial_running env auto_recreate now state live).0 ∙ none_before))
          (a.created
            ∙ ap (λ (l : List Handle). l ++ new_handle env auto_recreate now state job ∷ [])
                creates₀)
          a.chosen_new g in
      record {
        quiet = quiet;
        source = cj;
        start = t;
        job = job;
        starts = s;
        built = b;
        same_spec = spec ∙ spec₀;
        same_annotations = annotations ∙ annotations₀;
        noted = noted;
      }

  Selected-IsFirst :
      (live : Live) (q : Progress) (c : Handle)
      → state.all_jobs ≡ []
      → state.should_be_running ≡ some true
      → Selected env auto_recreate now state (initial env auto_recreate now state live) q
      → (finish env auto_recreate now state q).decision.jobs_to_create ≡ c ∷ []
      → IsFirst live c
  Selected-IsFirst live q c e w (started job v b a) g = Adopted-IsFirst live q job c e w b a g
  Selected-IsFirst live q c e w (replaced k job f v b a) g = absurd (nobody live e k f)
  Selected-IsFirst live q c e w (as_found u f v) g =
      elim (Option-cases
        (allowed env auto_recreate now state (initial env auto_recreate now state live))) [
          | inr (k, a) ↦ absurd (nobody live e k a)
          | inl a ↦ absurd (ground (arith, a, v, w))
        ]

  pub decided-IsFirst :
      (live : Live) (c : Handle)
      → state.is_suspended ≡ false
      → state.all_jobs ≡ []
      → state.should_be_running ≡ some true
      → (decide env auto_recreate now state live).error ≡ none
      → (decide env auto_recreate now state live).decision.jobs_to_create ≡ c ∷ []
      → IsFirst live c
  decided-IsFirst live c s e w ok_lem g =
      let (q, sel, dec, running, chosen) = decide_ok env auto_recreate now state live s ok_lem in
      Selected-IsFirst live q c e w sel (ap (λ (d : Decision). d.jobs_to_create) (sym dec) ∙ g)
