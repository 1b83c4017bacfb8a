-- ===== src/Decision/Schedule.antt =====
-- What makeDecision of pkg/reconciliation/decision.go does inside and outside the run period.
use controlled_job.Base.{
  Bool-cases, keep, or_false, ◌≡◌, ◌≢◌, refl, ◌⊎◌, inl, inr, Bool, true, false, not, Option, none,
  some, List, [], ◌∷◌, ◌++◌, ◌∙◌, ◌&&◌, sym, ap, subst, arith, Option-cases, Memᴰ, is_some,
}
use controlled_job.Kube.{Time, Job}
use controlled_job.Api.Conditions.{Live}
use controlled_job.Env.{Env}
use controlled_job.Metadata.{is_manually_scheduled_job, is_job_being_deleted}
use controlled_job.State.{State, Handle, IsNumbered}
use controlled_job.Decision.Loops.{is_expired}
use controlled_job.Decision.Sorting.{remains}
use controlled_job.Decision.Candidate.{is_better_candidate_job}
use controlled_job.Decision.Candidate.Best.{IsBestOf, best_from-IsBestOf}
use controlled_job.Base.Lists.Membership.{mem-keep}
use controlled_job.Decision.Selection.{Selected, as_found, replaced, started, allowed, Adopted}
use controlled_job.Decision.Results.{initial, decide_ok}
use controlled_job.Decision.Deletion.{is_removed, mem-deletes, initial_lists}
use controlled_job.Decision.AtMostOne.{Survives, survivor_chosen, chosen_not_old, created-finish}
use controlled_job.Decision.Finishing.{initial_running, allowed_found, finish_adopted}
use controlled_job.Decision.Unsuspension.{chosen_mem}
use controlled_job.Decision.{
  Decision, Progress, is_chosen, finish, decide, new_handle, should_be_running,
  stop_outside_schedule,
}

not_running : (o : Option Bool) → o ≢ some true → or_false o ≡ false
not_running none r = refl
not_running (some true) r = absurd (r refl)
not_running (some false) r = refl

module _ (env : Env) (auto_recreate : Bool) (now : Time) (state : State) where
  abbrev shall_run : Bool
  shall_run = should_be_running env auto_recreate now state

  abbrev start_of : Live → Progress
  start_of = initial env auto_recreate now state

  -- Outside the run period only a manually scheduled job is chosen.
  allowed_manual :
      (p : Progress) (c : Handle)
      → shall_run ≡ false
      → allowed env auto_recreate now state p ≡ some c
      → is_manually_scheduled_job c.job ≡ true
  unfolding stop_outside_schedule
  allowed_manual p c s e = ground arith

  -- An existing job that is chosen was found by the loop.
  allowed_mem :
      (live : Live) (c : Handle)
      → allowed env auto_recreate now state (start_of live) ≡ some c
      → Memᴰ c state.all_jobs × (remains env state c ≡ true)
  allowed_mem live c e = chosen_mem env auto_recreate now state c (
      sym (initial_running env auto_recreate now state live).1
      ∙ allowed_found env auto_recreate now state (start_of live) c e)

  kept_of_chosen :
      (c : Handle)
      → remains env state c ≡ true
      → ¬ (is_removed env auto_recreate now state (some c) c ≡ true)
  kept_of_chosen c r k = ground arith

  -- The chosen job of a decision that keeps an existing one is not deleted.
  chosen_stays :
      (live : Live) (q : Progress) (c : Handle)
      → Selected env auto_recreate now state (start_of live) q
      → (decide env auto_recreate now state live).decision
        ≡ (finish env auto_recreate now state q).decision
      → q.chosen ≡ some c
      → Memᴰ c state.all_jobs
      → remains env state c ≡ true
      → ¬ Memᴰ c (decide env auto_recreate now state live).decision.jobs_to_delete
  chosen_stays live q c sel dec e m r d = kept_of_chosen c r (
      subst (λ (o : Option Handle). is_removed env auto_recreate now state o c ≡ true) e
        ((mem-deletes env auto_recreate now state live q c sel dec m).0 d))

  -- The job is not being deleted, or every existing job that is not expired is.
  abbrev pub IsAliveIfAny : Handle → Type 0
  IsAliveIfAny c =
      (is_job_being_deleted c.job ≡ false)
      ⊎ ((h : Handle)
          → Memᴰ h state.all_jobs
          → is_expired env state h.job ≡ false
          → is_job_being_deleted h.job ≡ true)

  -- What keeps a ControlledJob running: an existing job that is not expired, is not deleted by the
  -- decision, and is not being deleted while another could be kept; or a new one.
  abbrev pub IsRunBy : Decision → Type 0
  IsRunBy d =
      ((c : Handle) × Memᴰ c state.all_jobs
        × (is_expired env state c.job ≡ false)
        × IsAliveIfAny c
        × ¬ Memᴰ c d.jobs_to_delete)
      ⊎ (d.jobs_to_create ≢ [])

  creates-finish :
      (live : Live) (q : Progress) (job : Job)
      → Adopted env auto_recreate now state (start_of live) q job
      → (finish env auto_recreate now state q).decision.jobs_to_create ≢ []
  creates-finish live q job a e =
      let (expired₀, rest₀, deletes₀, creates₀, unsuspends₀) =
        initial_lists env auto_recreate now state live in
      elim (finish_adopted env auto_recreate now state q job
        (a.created
          ∙ ap (λ (l : List Handle). l ++ new_handle env auto_recreate now state job ∷ []) creates₀)
        (a.same_unsuspends ∙ unsuspends₀) a.chosen_new).1 [
          | inl c ↦ cc (c, e)
          | inr (t, c) ↦ cc (c, e)
        ]

  allowed-some :
      (p : Progress)
      → shall_run ≡ true
      → (shall_run && not (is_some (allowed env auto_recreate now state p))) ≡ false
      → (c : Handle) × (allowed env auto_recreate now state p ≡ some c)
  allowed-some p s w = elim (Option-cases (allowed env auto_recreate now state p)) [
    | inl n ↦ absurd (ground (arith, n))
    | inr x ↦ x
  ]

  -- The job that the loop chooses is not being deleted where another need not be.
  chosen_alive :
      (live : Live) (c : Handle)
      → allowed env auto_recreate now state (start_of live) ≡ some c
      → IsAliveIfAny c
  unfolding is_better_candidate_job
  chosen_alive live c e = elim (Bool-cases (is_job_being_deleted c.job)) [
    | inr alive ↦ inl alive
    | inl dying ↦ inr (λ h m fresh. elim (Bool-cases (is_job_being_deleted h.job)) [
      | inl too ↦ too
      | inr alive ↦ absurd (
          best.1 h (mem-keep (remains env state) h state.all_jobs m (rw fresh refl))
            (rw (alive, dying) refl))
    ])
  ]
    where
      best : IsBestOf state (keep (remains env state) state.all_jobs) (some c)
      best =
          subst (IsBestOf state (keep (remains env state) state.all_jobs))
            (sym (initial_running env auto_recreate now state live).1
              ∙ allowed_found env auto_recreate now state (start_of live) c e)
            (best_from-IsBestOf state (keep (remains env state) state.all_jobs))

  run_by :
      (live : Live) (q : Progress)
      → shall_run ≡ true
      → Selected env auto_recreate now state (start_of live) q
      → (decide env auto_recreate now state live).decision
        ≡ (finish env auto_recreate now state q).decision
      → (is_some q.chosen ≡ true) × IsRunBy (decide env auto_recreate now state live).decision
  run_by live q s (as_found u c w) dec =
      let (h, e) = allowed-some (start_of live) s w in
      let (m, r) = allowed_mem live h e in
      (
        ground (arith, c, e),
        inl (
          h,
          m,
          ground (arith, r),
          chosen_alive live h e,
          chosen_stays live q h (as_found u c w) dec (c ∙ e) m r,
        ),
      )
  run_by live q s (replaced c job e w b a) dec = (
    ground (arith, a),
    inr (λ n. creates-finish live q job a (sym (ap (λ (d : Decision). d.jobs_to_create) dec) ∙ n)),
  )
  run_by live q s (started job w b a) dec = (
    ground (arith, a),
    inr (λ n. creates-finish live q job a (sym (ap (λ (d : Decision). d.jobs_to_create) dec) ∙ n)),
  )

  -- Inside the run period, after a decision without suspension and error, Status.IsRunning is true,
  -- and the decision creates a job, or keeps an existing one: a job that is not expired, that it does
  -- not delete, and that is not being deleted already, unless all jobs that are not expired are.
  pub decide_runs :
      (live : Live)
      → state.is_suspended ≡ false
      → state.should_be_running ≡ some true
      → (decide env auto_recreate now state live).error ≡ none
      → ((decide env auto_recreate now state live).live.object.status.is_running ≡ some true)
        × IsRunBy (decide env auto_recreate now state live).decision
  decide_runs live s r e =
      let (q, sel, dec, running, at_end) = decide_ok env auto_recreate now state live s e in
      let (chosen, by) = run_by live q (ground (arith, r)) sel dec in (running ∙ ap some chosen, by)

  outside_chosen :
      (live : Live) (q : Progress)
      → shall_run ≡ false
      → Selected env auto_recreate now state (start_of live) q
      → ((q.decision.jobs_to_create ≡ [])
          × (q.chosen ≡ allowed env auto_recreate now state (start_of live)))
        ⊎ ((c : Handle) × (job : Job) × Memᴰ c state.all_jobs
            × (is_expired env state c.job ≡ false)
            × (is_manually_scheduled_job c.job ≡ true)
            × (q.chosen ≡ some (new_handle env auto_recreate now state job)))
  outside_chosen live q s (as_found u c w) = inl (
    ap (λ (d : Decision). d.jobs_to_create) u.same_decision
        ∙ (initial_lists env auto_recreate now state live).3,
    c,
  )
  outside_chosen live q s (replaced c job e w b a) =
      let (m, r) = allowed_mem live c e in
      inr (c, job, m, ground (arith, r), allowed_manual (start_of live) c s e, a.chosen_new)
  outside_chosen live q s (started job w b a) = absurd (ground (arith, s, w))

  manual_survivor :
      (live : Live) (o : Option Handle) (h : Handle)
      → IsNumbered state.all_jobs
      → shall_run ≡ false
      → o ≡ allowed env auto_recreate now state (start_of live)
      → Memᴰ h state.all_jobs
      → is_chosen o h ≡ true
      → is_manually_scheduled_job h.job ≡ true
  manual_survivor live none h numbered s e m t = cc
  manual_survivor live (some c) h numbered s e m t =
      let (mc, r) = allowed_mem live c (sym e) in
      let same = numbered.distinct h c m mc (ground arith) in
      ap (λ (x : Handle). is_manually_scheduled_job x.job) same
      ∙ allowed_manual (start_of live) c s (sym e)

  -- Where the existing jobs are numbered, a decision without suspension and error outside the run
  -- period (or with no start events) leaves alone a job that may be running and is not being deleted
  -- only if it is manually scheduled.
  pub outside_survivor_manual :
      (live : Live) (h : Handle)
      → IsNumbered state.all_jobs
      → state.is_suspended ≡ false
      → state.should_be_running ≢ some true
      → (decide env auto_recreate now state live).error ≡ none
      → Memᴰ h state.all_jobs
      → Survives (decide env auto_recreate now state live).decision h
      → is_manually_scheduled_job h.job ≡ true
  outside_survivor_manual live h numbered s r e here x =
      let (q, sel, dec, running, at_end) = decide_ok env auto_recreate now state live s e in
      let off : shall_run ≡ false = not_running state.should_be_running r in
      let is_it = survivor_chosen env auto_recreate now state live q h sel dec here x in
      elim (outside_chosen live q off sel) [
        | inl (none_new, ch) ↦ manual_survivor live q.chosen h numbered off ch here is_it
        | inr (c, job, m, y, manual, new) ↦ absurd (
            chosen_not_old env auto_recreate now state q.chosen job h new (numbered.bounded h here)
              is_it)
      ]

  -- Outside the run period (or with no start events) a decision without suspension and error
  -- creates a job only where an existing job is manually scheduled and not expired.
  pub outside_creation_manual :
      (live : Live)
      → state.is_suspended ≡ false
      → state.should_be_running ≢ some true
      → (decide env auto_recreate now state live).error ≡ none
      → (decide env auto_recreate now state live).decision.jobs_to_create ≢ []
      → (c : Handle) × Memᴰ c state.all_jobs
        × (is_expired env state c.job ≡ false)
        × (is_manually_scheduled_job c.job ≡ true)
  outside_creation_manual live s r e created =
      let (q, sel, dec, running, at_end) = decide_ok env auto_recreate now state live s e in
      elim (outside_chosen live q (not_running state.should_be_running r) sel) [
        | inl (none_new, ch) ↦ absurd (
            created (
              ap (λ (d : Decision). d.jobs_to_create) dec
              ∙ created-finish env auto_recreate now state q none_new))
        | inr (c, job, m, x, manual, new) ↦ (c, m, x, manual)
      ]
