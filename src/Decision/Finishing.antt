-- ===== src/Decision/Finishing.antt =====
-- What the last part of makeDecision of pkg/reconciliation/decision.go, which lets the chosen job
-- start, makes of the variables it is given.
use controlled_job.Base.{
  ℕ, ◌≡◌, ◌⊎◌, inl, inr, Bool, true, false, none, some, [], ◌∷◌, arith, Bool-cases, Option-cases,
  count, keep,
}
use controlled_job.Kube.{Time, Job}
use controlled_job.Api.Conditions.{Live}
use controlled_job.Env.{Env}
use controlled_job.Metadata.{is_job_being_deleted, is_job_suspended, was_job_stopped_by_the_user}
use controlled_job.State.{State, Handle}
use controlled_job.Decision.Candidate.Best.{best_from}
use controlled_job.Decision.Sorting.{runs, remains, sort_jobs_lem}
use controlled_job.Decision.Selection.{allowed}
use controlled_job.Decision.Results.{initial}
use controlled_job.Decision.{
  Progress, finish, set_requeue, unsuspend_chosen, delete_others, new_handle, may_unsuspend,
  unsuspended, initial_progress, stop_outside_schedule,
}

module _ (env : Env) (auto_recreate : Bool) (now : Time) (state : State) where
  abbrev may : ℕ → Handle → Bool
  may = may_unsuspend env auto_recreate now state

  abbrev new : Job → Handle
  new = new_handle env auto_recreate now state

  -- The jobs to unsuspend and to create, where no new job was adopted.
  pub finish_as_found :
      (q : Progress)
      → q.decision.jobs_to_create ≡ []
      → q.decision.jobs_to_unsuspend ≡ []
      → ((finish env auto_recreate now state q).decision.jobs_to_create ≡ [])
        × (((finish env auto_recreate now state q).decision.jobs_to_unsuspend ≡ [])
            ⊎ ((c : Handle) × (q.chosen ≡ some c)
                × (may q.potentially_running c ≡ true)
                × ((finish env auto_recreate now state q).decision.jobs_to_unsuspend ≡ c ∷ [])))
  unfolding finish set_requeue unsuspend_chosen delete_others
  finish_as_found q e f = elim (Option-cases q.chosen) [
    | inl n ↦ (ground (arith, n), inl (ground (arith, n)))
    | inr (c, n) ↦ elim (Bool-cases (may q.potentially_running c)) [
      | inl t ↦ (ground (arith, n, t), inr (c, n, t, ground (arith, n, t)))
      | inr t ↦ (ground (arith, n, t), inl (ground (arith, n, t)))
    ]
  ]

  -- The same where a new job was adopted.
  pub finish_adopted :
      (q : Progress) (job : Job)
      → q.decision.jobs_to_create ≡ new job ∷ []
      → q.decision.jobs_to_unsuspend ≡ []
      → q.chosen ≡ some (new job)
      → ((finish env auto_recreate now state q).decision.jobs_to_unsuspend ≡ [])
        × (((finish env auto_recreate now state q).decision.jobs_to_create ≡ new job ∷ [])
            ⊎ (may q.potentially_running (new job) ≡ true)
              × ((finish env auto_recreate now state q).decision.jobs_to_create
                  ≡ unsuspended (new job) ∷ []))
  unfolding finish set_requeue unsuspend_chosen delete_others
  finish_adopted q job e f c = ground arith

  pub initial_running :
      (live : Live)
      → ((initial env auto_recreate now state live).potentially_running
          ≡ count (runs env state) state.all_jobs)
        × ((initial env auto_recreate now state live).chosen
            ≡ best_from state none (keep (remains env state) state.all_jobs))
  unfolding initial_progress
  initial_running live = ((sort_jobs_lem env state).3, (sort_jobs_lem env state).2)

  pub allowed_found :
      (p : Progress) (c : Handle)
      → allowed env auto_recreate now state p ≡ some c
      → p.chosen ≡ some c
  unfolding stop_outside_schedule
  allowed_found p c e = ground arith

  pub may_facts :
      (n : ℕ) (c : Handle)
      → may n c ≡ true
      → (n ≡ 1)
        × (is_job_suspended c.job ≡ true)
        × (is_job_being_deleted c.job ≡ false)
        × (was_job_stopped_by_the_user c.job ≡ false)
  unfolding may_unsuspend
  may_facts n c t = ground arith

  pub suspends-finish :
      (q : Progress)
      → (finish env auto_recreate now state q).decision.jobs_to_suspend ≡ q.decision.jobs_to_suspend
  unfolding finish set_requeue unsuspend_chosen delete_others
  suspends-finish q = ground arith
