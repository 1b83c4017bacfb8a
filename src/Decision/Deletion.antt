-- ===== src/Decision/Deletion.antt =====
-- Which jobs makeDecision of pkg/reconciliation/decision.go deletes.
use controlled_job.Base.{
  ◌≡◌, refl, ◌⊎◌, inl, inr, Bool, true, false, not, Option, none, [], ◌∷◌, ◌++◌, ◌&&◌, ◌||◌, ◌∙◌,
  sym, ap, subst, arith, keep, Bool-cases, Memᴰ, ◌↔◌,
}
use controlled_job.Base.Lists.Membership.{
  mem-append_left, mem-append_right, mem_of_mem-append, mem-keep, mem_of_mem-keep,
}
use controlled_job.Kube.{Time, Job}
use controlled_job.Api.Conditions.{Live}
use controlled_job.Env.{Env}
use controlled_job.Metadata.{is_job_being_deleted, is_job_completed}
use controlled_job.State.{State, Handle}
use controlled_job.Decision.Loops.{is_expired}
use controlled_job.Decision.Sorting.{expires, remains, sort_jobs_lem}
use controlled_job.Decision.Selection.{Selected, as_found, replaced, started}
use controlled_job.Decision.Results.{
  is_alive, is_dropped, doomed, deletes-finish, initial, chosen_at_end, decide_ok,
}
use controlled_job.Decision.{
  Decision, Progress, is_kept, is_chosen, finish, initial_progress, decide, new_handle,
}

module _ (env : Env) (auto_recreate : Bool) (now : Time) (state : State) where
  abbrev kept : Option Handle → Handle → Bool
  kept = is_kept env auto_recreate now state

  pub initial_lists :
      (live : Live)
      → let p = initial env auto_recreate now state live in
        (p.expired ≡ keep (expires env state) state.all_jobs)
        × (p.non_expired ≡ keep (remains env state) state.all_jobs)
        × (p.decision.jobs_to_delete ≡ [])
        × (p.decision.jobs_to_create ≡ [])
        × (p.decision.jobs_to_unsuspend ≡ [])
  unfolding initial_progress
  initial_lists live = ((sort_jobs_lem env state).0, (sort_jobs_lem env state).1, refl, refl, refl)

  -- Whether a job goes, given the chosen one.
  abbrev pub is_removed : Option Handle → Handle → Bool
  is_removed c h =
      not (is_job_being_deleted h.job)
      && (is_expired env state h.job || not (is_chosen c h || is_job_completed h.job))

  -- The expired jobs are those found; of the others at most one is new, and then it is chosen.
  lists_after :
      (p q : Progress)
      → Selected env auto_recreate now state p q
      → (q.expired ≡ p.expired)
        × (q.decision.jobs_to_delete ≡ p.decision.jobs_to_delete)
        × ((q.non_expired ≡ p.non_expired)
            ⊎ ((job : Job) × (q.non_expired
                  ≡ p.non_expired ++ new_handle env auto_recreate now state job ∷ [])))
  lists_after p q (as_found u c w) = (u.same_expired, ground arith, inl u.same_rest)
  lists_after p q (replaced c job e w b a) = (a.same_expired, a.same_deletes, inr (job, a.rest))
  lists_after p q (started job w b a) = (a.same_expired, a.same_deletes, inr (job, a.rest))

  module _ (q : Progress) (h : Handle) (here : Memᴰ h state.all_jobs)
      (expired_lem : q.expired ≡ keep (expires env state) state.all_jobs) where
    pub removed_of_mem :
        Memᴰ h (doomed env auto_recreate now state q) → is_removed q.chosen h ≡ true
    unfolding is_kept
    removed_of_mem m =
        elim (mem_of_mem-append (keep (is_alive env auto_recreate now state) q.expired)
          (keep (is_dropped env auto_recreate now state q.chosen) q.non_expired) m) [
            | inl l ↦ gone (mem_of_mem-keep (is_alive env auto_recreate now state) h q.expired l)
            | inr r ↦
                let (m₁, dropped) =
                  mem_of_mem-keep (is_dropped env auto_recreate now state q.chosen) h q.non_expired
                    r in
                ground (arith, dropped)
          ]
      where
        gone :
            Memᴰ h q.expired × (is_alive env auto_recreate now state h ≡ true)
            → is_removed q.chosen h ≡ true
        gone (m₁, alive) =
            let (m₂, x) =
              mem_of_mem-keep (expires env state) h state.all_jobs
                (subst (Memᴰ h) expired_lem m₁) in
            ground (arith, alive, x)

    mem_of_removed :
        (remains env state h ≡ true → Memᴰ h q.non_expired)
        → is_removed q.chosen h ≡ true
        → Memᴰ h (doomed env auto_recreate now state q)
    unfolding is_kept
    mem_of_removed rest r = elim (Bool-cases (expires env state h)) [
      | inl e ↦ mem-append_left _ _ (
          mem-keep _ h q.expired
            (subst (Memᴰ h) (sym expired_lem)
              (mem-keep (expires env state) h state.all_jobs here e))
            (ground arith))
      | inr e ↦
          mem-append_right _ _ (mem-keep _ h q.non_expired (rest (ground arith)) (ground arith))
    ]

  rest_mem :
      (p q : Progress) (h : Handle)
      → Memᴰ h state.all_jobs
      → p.non_expired ≡ keep (remains env state) state.all_jobs
      → (q.non_expired ≡ p.non_expired)
        ⊎ ((job : Job) × (q.non_expired
              ≡ p.non_expired ++ new_handle env auto_recreate now state job ∷ []))
      → remains env state h ≡ true
      → Memᴰ h q.non_expired
  rest_mem p q h here e (inl s) r =
      subst (Memᴰ h) (sym (s ∙ e)) (mem-keep (remains env state) h state.all_jobs here r)
  rest_mem p q h here e (inr (job, s)) r = subst (Memᴰ h) (sym s) (
      mem-append_left p.non_expired _
        (subst (Memᴰ h) (sym e) (mem-keep (remains env state) h state.all_jobs here r)))

  -- The deletions of a decision that ended with the local variables `q`.
  pub mem-deletes :
      (live : Live) (q : Progress) (h : Handle)
      → Selected env auto_recreate now state (initial env auto_recreate now state live) q
      → (decide env auto_recreate now state live).decision
        ≡ (finish env auto_recreate now state q).decision
      → Memᴰ h state.all_jobs
      → Memᴰ h (decide env auto_recreate now state live).decision.jobs_to_delete
        ↔ (is_removed q.chosen h ≡ true)
  mem-deletes live q h sel dec here =
      let p = initial env auto_recreate now state live in
      let (expired₀, rest₀, deletes₀, creates₀, unsuspends₀) = initial_lists live in
      let (expired_lem, deletes_lem, rest_lem) = lists_after p q sel in
      let all_deletes =
        ap (λ (d : Decision). d.jobs_to_delete) dec
        ∙ deletes-finish env auto_recreate now state q (deletes_lem ∙ deletes₀) in
      (
        λ m. removed_of_mem q h here (expired_lem ∙ expired₀) (subst (Memᴰ h) all_deletes m),
        λ r. subst (Memᴰ h) (sym all_deletes) (
            mem_of_removed q h here (expired_lem ∙ expired₀) (rest_mem p q h here rest₀ rest_lem)
              r),
      )

  -- Without suspension and error an existing job is deleted exactly if it is not being deleted
  -- already and is expired, or is neither the job chosen in the end nor completed.
  pub decide_deletes :
      (live : Live) (h : Handle)
      → state.is_suspended ≡ false
      → (decide env auto_recreate now state live).error ≡ none
      → Memᴰ h state.all_jobs
      → Memᴰ h (decide env auto_recreate now state live).decision.jobs_to_delete
        ↔ (is_removed (chosen_at_end env auto_recreate now state live) h ≡ true)
  decide_deletes live h s e here =
      let (q, sel, dec, running, chosen) = decide_ok env auto_recreate now state live s e in
      rw chosen (mem-deletes live q h sel dec here)
