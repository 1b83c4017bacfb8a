-- ===== src/Decision/Settled.antt =====
-- When makeDecision of pkg/reconciliation/decision.go leaves everything as it is.
use controlled_job.Base.{
  ◌≡◌, refl, ◌⊎◌, inl, inr, Bool, true, false, Option, none, some, List, [], ◌∷◌, ◌∙◌, ap, subst,
  arith, keep, count, Memᴰ, is_some, Option-cases,
}
use controlled_job.Base.Lists.Membership.{mem_of_mem-append, mem_of_mem-keep}
use controlled_job.Base.Int.{ℤ, incr_i64}
use controlled_job.Errors.{Error}
use controlled_job.Kube.{Time}
use controlled_job.Api.Conditions.{Live}
use controlled_job.Env.{Env}
use controlled_job.State.{State, Handle}
use controlled_job.Decision.Candidate.Best.{best_from}
use controlled_job.Decision.Loops.{survey}
use controlled_job.Decision.Sorting.{expires, remains, runs}
use controlled_job.Decision.Selection.{
  Step-cases, Selected, as_found, replaced, started, must_replace, allowed, refresh_kept, Untouched,
}
use controlled_job.Decision.Results.{
  initial, is_alive, is_dropped, doomed, deletes-finish, decide_ok,
}
use controlled_job.Decision.Deletion.{initial_lists, is_removed, removed_of_mem}
use controlled_job.Decision.Finishing.{suspends-finish, finish_as_found, initial_running}
use controlled_job.Decision.{
  set_requeue, unsuspend_chosen, delete_others, initial_progress, Decision, Progress, fail,
  stop_outside_schedule, refresh_chosen, ensure_running, select, conclude, decide, finish,
  may_unsuspend,
}

-- The zero time where there is no next event.
abbrev pub requeue_time : Option Time → Time
requeue_time none = 0
requeue_time (some t) = t

empty_of_no_mem {ℓ} : {A : Type ℓ} (xs : List A) → ((a : A) → ¬ Memᴰ a xs) → xs ≡ []
empty_of_no_mem [] none_there = refl
empty_of_no_mem (x ∷ xs) none_there = absurd (none_there x (Memᴰ.head refl))

module _ (env : Env) (auto_recreate : Bool) (now : Time) (state : State) where
  -- The schedule wants a job, `c` is the best job that is not expired, and the function neither
  -- replaces nor unsuspends it nor deletes another one.
  pub record IsSettled (c : Handle) : Type 0 where
    pub wanted : state.should_be_running ≡ some true
    pub best : best_from state none (keep (remains env state) state.all_jobs) ≡ some c
    pub current : must_replace env auto_recreate now state c ≡ false
    pub stays_suspended :
        may_unsuspend env auto_recreate now state (count (runs env state) state.all_jobs) c ≡ false
    pub others_done :
        (h : Handle)
        → Memᴰ h state.all_jobs
        → is_removed env auto_recreate now state (some c) h ≡ false

  module _ (live : Live) (c : Handle) (settled : IsSettled c) where
    abbrev p : Progress
    p = initial env auto_recreate now state live

    p_chosen : p.chosen ≡ some c
    p_chosen = (initial_running env auto_recreate now state live).1 ∙ settled.best

    stop_keeps :
        (q : Progress)
        → q.chosen ≡ some c
        → (stop_outside_schedule env auto_recreate now state q).chosen ≡ some c
    unfolding stop_outside_schedule
    stop_keeps q e = ground (arith, e, settled.wanted)

    refresh_goes :
        (run_id : ℤ) (q r : Progress) (x : Error)
        → q.chosen ≡ some c
        → ¬ (refresh_chosen env auto_recreate now state run_id q ≡ fail x r)
    unfolding refresh_chosen
    refresh_goes run_id q r x e h = ground (arith, e, h, settled.current)

    ensure_goes :
        (q r : Progress) (x : Error)
        → q.chosen ≡ some c
        → ¬ (ensure_running env auto_recreate now state q ≡ fail x r)
    unfolding ensure_running
    ensure_goes q r x e h = ground (arith, e, h)

    select_goes : (r : Progress) (x : Error) → ¬ (select env auto_recreate now state p ≡ fail x r)
    unfolding select
    select_goes r x h =
        elim (Step-cases (
          refresh_chosen env auto_recreate now state (incr_i64 (survey state).max_job_run_id)
            (stop_outside_schedule env auto_recreate now state p))) [
              | inr (y, q, e) ↦ refresh_goes _ _ q y (stop_keeps p p_chosen) e
              | inl (q, e) ↦
                  let (_, kept) =
                    refresh_kept env auto_recreate now state _ _ q c (stop_keeps p p_chosen)
                      settled.current e in
                  ensure_goes q r x kept (ground (arith, e, h))
            ]

    no_error : state.is_suspended ≡ false → (decide env auto_recreate now state live).error ≡ none
    unfolding decide conclude
    no_error s = elim (Step-cases (select env auto_recreate now state p)) [
      | inl (q, e) ↦ ground (arith, s, e)
      | inr (x, q, e) ↦ absurd (select_goes q x e)
    ]

    -- A job that is deleted is one of those found.
    doomed_found :
        (q : Progress)
        → Untouched env auto_recreate now state p q
        → (h : Handle) → Memᴰ h (doomed env auto_recreate now state q)
        → Memᴰ h state.all_jobs
    doomed_found q u h m =
        let (expired₀, rest₀, deletes₀, creates₀, unsuspends₀) =
          initial_lists env auto_recreate now state live in
        elim (mem_of_mem-append (keep (is_alive env auto_recreate now state) q.expired)
          (keep (is_dropped env auto_recreate now state q.chosen) q.non_expired) m) [
            | inl l ↦
                (mem_of_mem-keep (expires env state) h state.all_jobs (
                  subst (Memᴰ h) (u.same_expired ∙ expired₀)
                    (mem_of_mem-keep (is_alive env auto_recreate now state) h q.expired l).0)).0
            | inr r ↦
                (mem_of_mem-keep (remains env state) h state.all_jobs (
                  subst (Memᴰ h) (u.same_rest ∙ rest₀)
                    (mem_of_mem-keep (is_dropped env auto_recreate now state q.chosen) h
                      q.non_expired r).0)).0
          ]

    abbrev EndState : Progress → Type 0
    EndState q = (q.chosen ≡ some c) × Untouched env auto_recreate now state p q

    -- Of the ways through the selection only the one without a new job is left.
    as_it_was : (q : Progress) → Selected env auto_recreate now state p q → EndState q
    as_it_was q (as_found u chosen w) = (chosen ∙ stop_keeps p p_chosen, u)
    as_it_was q (replaced k job e w b a) = absurd (k_is_current (cc (e, stop_keeps p p_chosen)) w)
      where
        k_is_current : k ≡ c → ¬ (must_replace env auto_recreate now state k ≡ true)
        k_is_current same t = cc (same, t, settled.current)
    as_it_was q (started job w b a) = absurd (none_left (stop_keeps p p_chosen))
      where
        none_left : ¬ (allowed env auto_recreate now state p ≡ some c)
        none_left e = ground (arith, e, w)

    may_not :
        (q : Progress)
        → Untouched env auto_recreate now state p q
        → may_unsuspend env auto_recreate now state q.potentially_running c ≡ false
    may_not q u =
        rw (u.same_running ∙ (initial_running env auto_recreate now state live).0)
          settled.stays_suspended

    nothing_doomed : (q : Progress) → EndState q → doomed env auto_recreate now state q ≡ []
    nothing_doomed q (chosen, u) = empty_of_no_mem (doomed env auto_recreate now state q) (λ h m.
        let here = doomed_found q u h m in
        cc (
          removed_of_mem env auto_recreate now state q h here
              (u.same_expired ∙ (initial_lists env auto_recreate now state live).0) m,
          chosen,
          settled.others_done h here,
        ))

    requeue-finish :
        (q : Progress)
        → q.decision.requeue_at ≡ 0
        → (finish env auto_recreate now state q).decision.requeue_at
          ≡ requeue_time state.next_event_time
    unfolding finish set_requeue unsuspend_chosen delete_others
    requeue-finish q e = elim (Option-cases state.next_event_time) [
      | inl n ↦ ground (arith, n, e)
      | inr (t, n) ↦ ground (arith, n)
    ]

    initial_plain : (p.decision.jobs_to_suspend ≡ []) × (p.decision.requeue_at ≡ 0)
    unfolding initial_progress
    initial_plain = (refl, refl)

    -- No job is suspended, and the next event is waited for.
    pub decide_settled_rest :
        state.is_suspended ≡ false
        → let out = decide env auto_recreate now state live in
          (out.decision.jobs_to_suspend ≡ [])
          × (out.decision.requeue_at ≡ requeue_time state.next_event_time)
    decide_settled_rest s =
        let (q, sel, dec, running, chosen) =
          decide_ok env auto_recreate now state live s (no_error s) in
        let d = (as_it_was q sel).1.same_decision in
        (
          ap (λ (x : Decision). x.jobs_to_suspend) dec
              ∙ (suspends-finish env auto_recreate now state q
                  ∙ (ap (λ (x : Decision). x.jobs_to_suspend) d ∙ initial_plain.0)),
          ap (λ (x : Decision). x.requeue_at) dec
              ∙ requeue-finish q (ap (λ (x : Decision). x.requeue_at) d ∙ initial_plain.1),
        )

    -- Without suspension, where the schedule wants a job, the best job that is not expired need not be
    -- replaced and may not be unsuspended, and every other job is being deleted or is completed and
    -- not expired, the decision is made without an error, creates, deletes and unsuspends nothing,
    -- and records that a job runs.
    pub decide_settled :
        state.is_suspended ≡ false
        → let out = decide env auto_recreate now state live in
          (out.error ≡ none)
          × (out.decision.jobs_to_create ≡ [])
          × (out.decision.jobs_to_delete ≡ [])
          × (out.decision.jobs_to_unsuspend ≡ [])
          × (out.live.object.status.is_running ≡ some true)
    decide_settled s =
        let e = no_error s in
        let (q, sel, dec, running, chosen) = decide_ok env auto_recreate now state live s e in
        let (expired₀, rest₀, deletes₀, creates₀, unsuspends₀) =
          initial_lists env auto_recreate now state live in
        let (same, u) = as_it_was q sel in
        let d = u.same_decision in
        let (creates, unsuspends) =
          finish_as_found env auto_recreate now state q
            (ap (λ (x : Decision). x.jobs_to_create) d ∙ creates₀)
            (ap (λ (x : Decision). x.jobs_to_unsuspend) d ∙ unsuspends₀) in
        (
          e,
          ap (λ (x : Decision). x.jobs_to_create) dec ∙ creates,
          ap (λ (x : Decision). x.jobs_to_delete) dec
              ∙ (deletes-finish env auto_recreate now state q
                    (ap (λ (x : Decision). x.jobs_to_delete) d ∙ deletes₀)
                  ∙ nothing_doomed q (same, u)),
          ap (λ (x : Decision). x.jobs_to_unsuspend) dec
              ∙ none_waits q same (may_not q u) unsuspends,
          running ∙ ap (λ (x : Option Handle). some (is_some x)) same,
        )
      where
        none_waits :
            (q : Progress)
            → q.chosen ≡ some c
            → may_unsuspend env auto_recreate now state q.potentially_running c ≡ false
            → ((finish env auto_recreate now state q).decision.jobs_to_unsuspend ≡ [])
              ⊎ ((k : Handle) × (q.chosen ≡ some k)
                  × (may_unsuspend env auto_recreate now state q.potentially_running k ≡ true)
                  × ((finish env auto_recreate now state q).decision.jobs_to_unsuspend ≡ k ∷ []))
            → (finish env auto_recreate now state q).decision.jobs_to_unsuspend ≡ []
        none_waits q same quiet (inl e) = e
        none_waits q same quiet (inr (k, f, t, e)) = absurd (cc (same, f, t, quiet))
