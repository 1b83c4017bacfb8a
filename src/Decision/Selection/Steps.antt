-- ===== src/Decision/Selection/Steps.antt =====
-- The steps of makeDecision of pkg/reconciliation/decision.go that replace the chosen job or start
-- a new one, each on every branch.
use controlled_job.Base.{
  suc, ◌≡◌, refl, ◌⊎◌, inl, inr, Bool, true, false, not, Option, none, some, [], ◌∷◌, ◌++◌, ◌&&◌,
  ◌∙◌, sym, arith, Option-cases, Bool-cases, is_some,
}
use controlled_job.Base.Int.{ℤ, pos, incr_i64}
use controlled_job.Errors.{Error, ok, err, Result-cases}
use controlled_job.Kube.{Time, Job}
use controlled_job.Api.{ControlledJob}
use controlled_job.Api.Conditions.{set_condition}
use controlled_job.Env.{Env}
use controlled_job.Builder.{build_for_controlled_job, recreate_job_with_new_spec}
use controlled_job.Metadata.{
  is_job_potentially_running, is_job_being_deleted, was_job_stopped_by_the_user,
}
use controlled_job.State.{State, Handle}
use controlled_job.Decision.Candidate.{is_out_of_date}
use controlled_job.Decision.Loops.{survey}
use controlled_job.Decision.{
  Progress, Step, go, fail, new_handle, should_be_running, adopt, stop_outside_schedule,
  refresh_chosen, ensure_running, start_new, map_live, deadline_condition_false,
  starting_deadline_seconds_exceeded,
}

pub Step-cases :
    (s : Step) → ((p : Progress) × (s ≡ go p)) ⊎ ((e : Error) × (p : Progress) × (s ≡ fail e p))
Step-cases (go p) = inl (p, refl)
Step-cases (fail e p) = inr (e, p, refl)

module _ (env : Env) (auto_recreate : Bool) (now : Time) (state : State) where
  -- The lists, the count and the decision are as they were.
  pub record Untouched (p q : Progress) : Type 0 where
    pub same_decision : q.decision ≡ p.decision
    pub same_running : q.potentially_running ≡ p.potentially_running
    pub same_expired : q.expired ≡ p.expired
    pub same_rest : q.non_expired ≡ p.non_expired
    pub same_spec : q.live.object.spec ≡ p.live.object.spec
    pub same_annotations : q.live.object.annotations ≡ p.live.object.annotations

  -- A new job was added to the lists and is now the chosen one.
  pub record Adopted (p q : Progress) (job : Job) : Type 0 where
    pub created :
        q.decision.jobs_to_create
        ≡ p.decision.jobs_to_create ++ new_handle env auto_recreate now state job ∷ []
    pub same_deletes : q.decision.jobs_to_delete ≡ p.decision.jobs_to_delete
    pub same_unsuspends : q.decision.jobs_to_unsuspend ≡ p.decision.jobs_to_unsuspend
    pub same_suspends : q.decision.jobs_to_suspend ≡ p.decision.jobs_to_suspend
    pub one_more : q.potentially_running ≡ suc p.potentially_running
    pub same_expired : q.expired ≡ p.expired
    pub rest : q.non_expired ≡ p.non_expired ++ new_handle env auto_recreate now state job ∷ []
    pub chosen_new : q.chosen ≡ some (new_handle env auto_recreate now state job)

  pub stop_Untouched :
      (p : Progress) → Untouched p (stop_outside_schedule env auto_recreate now state p)
  unfolding stop_outside_schedule
  stop_Untouched p = ground arith

  refresh_none :
      (run_id : ℤ) (p q : Progress)
      → p.chosen ≡ none
      → refresh_chosen env auto_recreate now state run_id p ≡ go q
      → Untouched p q × (q.chosen ≡ none)
  unfolding refresh_chosen set_condition
  refresh_none run_id p q e h = ground arith

  -- When a chosen job is replaced.
  abbrev pub must_replace : Handle → Bool
  must_replace c =
      (is_out_of_date c.job state && is_job_potentially_running c.job)
      && ((not (was_job_stopped_by_the_user c.job) && not (is_job_being_deleted c.job))
          && (auto_recreate && state.auto_restart_is_enabled))

  pub refresh_kept :
      (run_id : ℤ) (p q : Progress) (c : Handle)
      → p.chosen ≡ some c
      → must_replace c ≡ false
      → refresh_chosen env auto_recreate now state run_id p ≡ go q
      → Untouched p q × (q.chosen ≡ some c)
  unfolding refresh_chosen set_condition
  refresh_kept run_id p q c e w h = ground arith

  refresh_replaced :
      (run_id : ℤ) (p q : Progress) (c : Handle) (job : Job)
      → p.chosen ≡ some c
      → must_replace c ≡ true
      → recreate_job_with_new_spec env p.live.object c.job run_id true ≡ ok job
      → refresh_chosen env auto_recreate now state run_id p ≡ go q
      → Adopted p q job
  unfolding refresh_chosen adopt
  refresh_replaced run_id p q c job e w b h = ground arith

  refresh_failed :
      (run_id : ℤ) (p q : Progress) (c : Handle) (x : Error)
      → p.chosen ≡ some c
      → must_replace c ≡ true
      → recreate_job_with_new_spec env p.live.object c.job run_id true ≡ err x
      → ¬ (refresh_chosen env auto_recreate now state run_id p ≡ go q)
  unfolding refresh_chosen
  refresh_failed run_id p q c x e w b h = ground arith

  -- Where the step goes on, the chosen job stays, or a rebuilt one takes its place.
  pub refresh_cases :
      (run_id : ℤ) (p q : Progress)
      → refresh_chosen env auto_recreate now state run_id p ≡ go q
      → Untouched p q × (q.chosen ≡ p.chosen)
        ⊎ ((c : Handle) × (job : Job) × (p.chosen ≡ some c)
            × (must_replace c ≡ true)
            × (recreate_job_with_new_spec env p.live.object c.job run_id true ≡ ok job)
            × Adopted p q job)
  refresh_cases run_id p q h = elim (Option-cases p.chosen) [
    | inl e ↦ let (u, n) = refresh_none run_id p q e h in inl (u, n ∙ sym e)
    | inr (c, e) ↦ elim (Bool-cases (must_replace c)) [
      | inr w ↦ let (u, s) = refresh_kept run_id p q c e w h in inl (u, s ∙ sym e)
      | inl w ↦
          elim (Result-cases (recreate_job_with_new_spec env p.live.object c.job run_id true)) [
            | inl (job, b) ↦ inr (c, job, e, w, b, refresh_replaced run_id p q c job e w b h)
            | inr (x, b) ↦ absurd (refresh_failed run_id p q c x e w b h)
          ]
    ]
  ]

  pub ensure_kept :
      (p q : Progress)
      → (should_be_running env auto_recreate now state && not (is_some p.chosen)) ≡ false
      → ensure_running env auto_recreate now state p ≡ go q
      → Untouched p q × (q.chosen ≡ p.chosen)
  unfolding ensure_running set_condition
  ensure_kept p q w h = ground arith

  start_new_cases :
      (start : Option Time) (p q : Progress)
      → start_new env auto_recreate now state start p ≡ go q
      → (job : Job) × (t : Time) × (start ≡ some t)
        × (build_for_controlled_job env p.live.object t (pos 0) false true ≡ ok job)
        × Adopted p q job
  unfolding start_new adopt
  start_new_cases none p q h = cc
  start_new_cases (some t) p q h =
      elim (Result-cases (build_for_controlled_job env p.live.object t (pos 0) false true)) [
        | inl (job, b) ↦ (job, t, refl, b, ground arith)
        | inr (x, b) ↦ absurd (ground arith)
      ]

  -- What the object is when a new job is built: only its conditions have changed.
  abbrev in_time : Progress → Progress
  in_time p = map_live (deadline_condition_false env auto_recreate now state) p

  ensure_in_time :
      (p q : Progress)
      → (should_be_running env auto_recreate now state && not (is_some p.chosen)) ≡ true
      → ensure_running env auto_recreate now state p ≡ go q
      → (starting_deadline_seconds_exceeded p.live.object state.start_of_current_run_period now
          ≡ false)
        × (start_new env auto_recreate now state state.start_of_current_run_period (in_time p)
            ≡ go q)
  unfolding ensure_running
  ensure_in_time p q w h = ground arith

  Adopted-in_time : (p q : Progress) (job : Job) → Adopted (in_time p) q job → Adopted p q job
  Adopted-in_time p q job a = ground arith

  -- The job was built from an outdated one, as the next run.
  abbrev pub Rebuilt : Handle → Job → Type 0
  Rebuilt c job =
      (cj : ControlledJob) × (recreate_job_with_new_spec env cj c.job
          (incr_i64 (survey state).max_job_run_id) true
        ≡ ok job)

  -- The job was built as the first run of the run period, from the ControlledJob as it is specified.
  abbrev pub Built : Progress → Job → Type 0
  Built p job =
      (cj : ControlledJob) × (t : Time) × (state.start_of_current_run_period ≡ some t)
      × (build_for_controlled_job env cj t (pos 0) false true ≡ ok job)
      × (cj.spec ≡ p.live.object.spec)
      × (cj.annotations ≡ p.live.object.annotations)

  spec-in_time :
      (p : Progress)
      → ((in_time p).live.object.spec ≡ p.live.object.spec)
        × ((in_time p).live.object.annotations ≡ p.live.object.annotations)
  unfolding deadline_condition_false set_condition
  spec-in_time p = (refl, refl)

  -- Where a job should run and none is chosen, the step goes on only with a new one, built for the
  -- start of the run period and in time.
  pub ensure_created :
      (p q : Progress)
      → (should_be_running env auto_recreate now state && not (is_some p.chosen)) ≡ true
      → ensure_running env auto_recreate now state p ≡ go q
      → (job : Job) × Built p job × Adopted p q job
  ensure_created p q w h =
      let (late, started) = ensure_in_time p q w h in
      let (job, t, s, b, a) =
        start_new_cases state.start_of_current_run_period (in_time p) q started in
      let (spec, annotations) = spec-in_time p in
      (job, ((in_time p).live.object, t, s, b, spec, annotations), Adopted-in_time p q job a)

  -- A step that changes only conditions before leaves what a job is built from.
  pub Built-before : (p q : Progress) (job : Job) → Untouched p q → Built q job → Built p job
  Built-before p q job u (cj, t, s, b, spec, annotations) =
      (cj, t, s, b, spec ∙ u.same_spec, annotations ∙ u.same_annotations)

  pub Untouched-trans : (p q r : Progress) → Untouched p q → Untouched q r → Untouched p r
  Untouched-trans p q r u v = ground arith

  pub Adopted-after :
      (p q r : Progress) (job : Job) → Untouched p q → Adopted q r job → Adopted p r job
  Adopted-after p q r job u a = ground arith

  pub Adopted-before :
      (p q r : Progress) (job : Job)
      → Adopted p q job
      → Untouched q r
      → r.chosen ≡ q.chosen
      → Adopted p r job
  Adopted-before p q r job a u e = ground arith
