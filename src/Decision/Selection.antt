-- ===== src/Decision/Selection.antt =====
-- Which job makeDecision of pkg/reconciliation/decision.go ends up with, before the deletions:
-- the three steps between its second loop and its last ones.
pub mod Steps
use controlled_job.Base.{
  suc, ◌≡◌, refl, ◌⊎◌, inl, inr, Bool, true, false, not, Option, none, some, [], ◌∷◌, ◌++◌, ◌&&◌,
  ◌∙◌, sym, arith, Option-cases, Bool-cases, is_some,
}
use controlled_job.Base.Int.{ℤ, pos, incr_i64}
use controlled_job.Errors.{Error, ok, err, Result-cases}
use controlled_job.Kube.{Time, Job}
use controlled_job.Api.{ControlledJob}
use controlled_job.Env.{Env}
use controlled_job.Builder.{build_for_controlled_job, recreate_job_with_new_spec}
use controlled_job.Metadata.{
  is_job_potentially_running, is_job_being_deleted, was_job_stopped_by_the_user,
}
use controlled_job.State.{State, Handle}
use controlled_job.Decision.Candidate.{is_out_of_date}
use controlled_job.Decision.Loops.{survey}
use controlled_job.Decision.{
  Progress, Step, go, fail, new_handle, should_be_running, adopt, stop_outside_schedule,
  refresh_chosen, ensure_running, start_new, map_live, deadline_condition_false, select,
  starting_deadline_seconds_exceeded,
}
pub use Steps.{
  Step-cases, Untouched, Adopted, stop_Untouched, must_replace, refresh_kept, refresh_cases,
  ensure_kept, Rebuilt, Built, Built-before, ensure_created, Untouched-trans, Adopted-after,
  Adopted-before,
}

module _ (env : Env) (auto_recreate : Bool) (now : Time) (state : State) where
  -- The chosen job that the schedule allows, replaced or not.
  abbrev pub allowed : Progress → Option Handle
  allowed p = (stop_outside_schedule env auto_recreate now state p).chosen

  -- The three ways through: no new job, one for an outdated job, or one where there was none.
  pub data Selected (p q : Progress) : Type 0 where
    as_found :
        Untouched env auto_recreate now state p q
        → q.chosen ≡ allowed p
        → (should_be_running env auto_recreate now state && not (is_some (allowed p))) ≡ false
        → Selected p q
    replaced :
        (c : Handle) (job : Job)
        → allowed p ≡ some c
        → must_replace env auto_recreate now state c ≡ true
        → Rebuilt env auto_recreate now state c job
        → Adopted env auto_recreate now state p q job
        → Selected p q
    started :
        (job : Job)
        → (should_be_running env auto_recreate now state && not (is_some (allowed p))) ≡ true
        → Built env auto_recreate now state p job
        → Adopted env auto_recreate now state p q job
        → Selected p q

  ensured :
      (p p₁ q : Progress)
      → Untouched env auto_recreate now state p p₁
      → p₁.chosen ≡ allowed p
      → ensure_running env auto_recreate now state p₁ ≡ go q
      → Selected p q
  ensured p p₁ q u c h =
      elim (Bool-cases (should_be_running env auto_recreate now state && not (is_some p₁.chosen))) [
        | inl w ↦
            let (job, built, a) = ensure_created env auto_recreate now state p₁ q w h in
            started job (cc (c, w)) (Built-before env auto_recreate now state p p₁ job u built)
              (Adopted-after env auto_recreate now state p p₁ q job u a)
        | inr w ↦
            let (v, e) = ensure_kept env auto_recreate now state p₁ q w h in
            as_found (Untouched-trans env auto_recreate now state p p₁ q u v) (e ∙ c) (cc (c, w))
      ]

  refreshed :
      (p p₁ q : Progress)
      → refresh_chosen env auto_recreate now state
          (incr_i64 (survey state).max_job_run_id)
          (stop_outside_schedule env auto_recreate now state p)
        ≡ go p₁
      → ensure_running env auto_recreate now state p₁ ≡ go q
      → Selected p q
  refreshed p p₁ q h k =
      elim (refresh_cases env auto_recreate now state (incr_i64 (survey state).max_job_run_id) _ p₁
        h) [
          | inl (u, e) ↦
              ensured p p₁ q
                (Untouched-trans env auto_recreate now state p _ p₁
                  (stop_Untouched env auto_recreate now state p) u)
                e k
          | inr (c, job, e, w, b, a) ↦
              let (v, f) = ensure_kept env auto_recreate now state p₁ q (ground (arith, a)) k in
              replaced c job e w (_, b)
                (Adopted-before env auto_recreate now state p p₁ q job
                  (Adopted-after env auto_recreate now state p _ p₁ job
                    (stop_Untouched env auto_recreate now state p) a)
                  v f)
        ]

  pub select-Selected :
      (p q : Progress) → select env auto_recreate now state p ≡ go q → Selected p q
  unfolding select
  select-Selected p q h = elim (Step-cases (refresh_chosen env auto_recreate now state run_id p₀)) [
    | inl (p₁, e) ↦ refreshed p p₁ q e (ground arith)
    | inr (x, p₁, e) ↦ absurd (ground (arith, h, e))
  ]
    where
      run_id : ℤ
      run_id = incr_i64 (survey state).max_job_run_id

      p₀ : Progress
      p₀ = stop_outside_schedule env auto_recreate now state p
