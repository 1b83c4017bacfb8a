-- ===== src/Decision/AtMostOne.antt =====
-- How many jobs stay: the design goal of docs/user-manual/how-it-works.md, section 3, for
-- makeDecision of pkg/reconciliation/decision.go.
use controlled_job.Base.{
  ◌≡◌, ◌≢◌, ◌<◌, ◌⊎◌, inl, inr, Bool, true, false, Option, none, some, [], ◌∙◌, ap, arith, Memᴰ,
  length,
}
use controlled_job.Kube.{Time, Job}
use controlled_job.Api.Conditions.{Live}
use controlled_job.Env.{Env}
use controlled_job.Metadata.{is_job_being_deleted, is_job_potentially_running}
use controlled_job.State.{State, Handle, IsNumbered}
use controlled_job.Decision.Selection.{Selected, as_found, replaced, started}
use controlled_job.Decision.Results.{initial, decide_ok}
use controlled_job.Decision.Deletion.{is_removed, mem-deletes, initial_lists}
use controlled_job.Decision.{
  Decision, Progress, is_chosen, finish, set_requeue, unsuspend_chosen, delete_others, decide,
  new_handle,
}

-- A job that may be running goes on unharmed.
abbrev pub Survives : Decision → Handle → Type 0
Survives d h =
    (is_job_potentially_running h.job ≡ true)
    × (is_job_being_deleted h.job ≡ false)
    × ¬ Memᴰ h d.jobs_to_delete

module _ (env : Env) (auto_recreate : Bool) (now : Time) (state : State) where
  chosen_of_kept :
      (c : Option Handle) (h : Handle)
      → ¬ (is_removed env auto_recreate now state c h ≡ true)
      → is_job_potentially_running h.job ≡ true
      → is_job_being_deleted h.job ≡ false
      → is_chosen c h ≡ true
  unfolding is_job_potentially_running
  chosen_of_kept c h r running alive = ground arith

  chosen_unique :
      (c : Option Handle) (h k : Handle)
      → is_chosen c h ≡ true
      → is_chosen c k ≡ true
      → h.addr ≡ k.addr
  chosen_unique none h k e f = cc
  chosen_unique (some c) h k e f = ground arith

  pub survivor_chosen :
      (live : Live) (q : Progress) (h : Handle)
      → Selected env auto_recreate now state (initial env auto_recreate now state live) q
      → (decide env auto_recreate now state live).decision
        ≡ (finish env auto_recreate now state q).decision
      → Memᴰ h state.all_jobs
      → Survives (decide env auto_recreate now state live).decision h
      → is_chosen q.chosen h ≡ true
  survivor_chosen live q h sel dec here (running, alive, left) =
      chosen_of_kept q.chosen h
        (λ r. left ((mem-deletes env auto_recreate now state live q h sel dec here).1 r)) running
        alive

  pub created-finish :
      (q : Progress)
      → q.decision.jobs_to_create ≡ []
      → (finish env auto_recreate now state q).decision.jobs_to_create ≡ []
  unfolding finish set_requeue unsuspend_chosen delete_others
  created-finish q e = ground arith

  -- A new job is the chosen one.
  chosen_of_created :
      (p q : Progress)
      → Selected env auto_recreate now state p q
      → p.decision.jobs_to_create ≡ []
      → (q.decision.jobs_to_create ≡ [])
        ⊎ ((job : Job) × (q.chosen ≡ some (new_handle env auto_recreate now state job)))
  chosen_of_created p q (as_found u c w) e =
      inl (ap (λ (d : Decision). d.jobs_to_create) u.same_decision ∙ e)
  chosen_of_created p q (replaced c job x w b a) e = inr (job, a.chosen_new)
  chosen_of_created p q (started job w b a) e = inr (job, a.chosen_new)

  pub chosen_not_old :
      (c : Option Handle) (job : Job) (h : Handle)
      → c ≡ some (new_handle env auto_recreate now state job)
      → h.addr < length state.all_jobs
      → ¬ (is_chosen c h ≡ true)
  chosen_not_old none job h e l t = cc
  chosen_not_old (some c) job h e l t = ground arith

  -- Where the existing jobs are numbered, a decision without suspension and error leaves at most
  -- one of those that may be running and are not being deleted.
  pub at_most_one-Survives :
      (live : Live) (h k : Handle)
      → IsNumbered state.all_jobs
      → state.is_suspended ≡ false
      → (decide env auto_recreate now state live).error ≡ none
      → Memᴰ h state.all_jobs
      → Memᴰ k state.all_jobs
      → Survives (decide env auto_recreate now state live).decision h
      → Survives (decide env auto_recreate now state live).decision k
      → h ≡ k
  at_most_one-Survives live h k numbered s e here there x y =
      let (q, sel, dec, running, at_end) = decide_ok env auto_recreate now state live s e in
      numbered.distinct h k here there (
        chosen_unique q.chosen h k (survivor_chosen live q h sel dec here x)
          (survivor_chosen live q k sel dec there y))

  -- Where the existing jobs are numbered, a decision without suspension and error that creates a
  -- job leaves none of those that may be running and are not being deleted.
  pub none-Survives_creation :
      (live : Live) (h : Handle)
      → IsNumbered state.all_jobs
      → state.is_suspended ≡ false
      → (decide env auto_recreate now state live).error ≡ none
      → Memᴰ h state.all_jobs
      → (decide env auto_recreate now state live).decision.jobs_to_create ≢ []
      → ¬ Survives (decide env auto_recreate now state live).decision h
  none-Survives_creation live h numbered s e here creates x =
      let (q, sel, dec, running, at_end) = decide_ok env auto_recreate now state live s e in
      elim (chosen_of_created (initial env auto_recreate now state live) q sel
        (initial_lists env auto_recreate now state live).3) [
          | inl none_new ↦
              creates (ap (λ (d : Decision). d.jobs_to_create) dec ∙ created-finish q none_new)
          | inr (job, new) ↦
              chosen_not_old q.chosen job h new (numbered.bounded h here)
                (survivor_chosen live q h sel dec here x)
        ]
