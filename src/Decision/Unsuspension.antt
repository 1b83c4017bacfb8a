-- ===== src/Decision/Unsuspension.antt =====
-- When makeDecision of pkg/reconciliation/decision.go lets a job start its pods.
use mathlib.Core.Bool.{false≢true}
use controlled_job.Base.{
  ℕ, suc, ◌≡◌, ◌⊎◌, inl, inr, Bool, true, false, none, some, List, [], ◌∷◌, ◌++◌, ◌∙◌, sym, ap,
  subst, arith, Memᴰ, count, keep,
}
use controlled_job.Base.Lists.Membership.{
  count-zero, count-one, mem_of_mem-keep, eq_of_mem-singleton, not-mem_of_nil,
}
use controlled_job.Base.Int.{pos, incr_i64}
use controlled_job.Kube.{Time, Job}
use controlled_job.Api.Conditions.{Live}
use controlled_job.Env.{Env}
use controlled_job.Builder.{build_for_controlled_job}
use controlled_job.Builder.Suspension.{
  OwnerKeepsSpec, KeepSuspension, build_job-suspended, recreate-suspended,
}
use controlled_job.Metadata.{
  is_job_being_deleted, is_job_suspended, was_job_stopped_by_the_user, is_job_potentially_running,
}
use controlled_job.State.{State, Handle}
use controlled_job.Decision.Candidate.Best.{best_from, best_from-IsBestOf, IsBestOf}
use controlled_job.Decision.Loops.{survey, is_expired}
use controlled_job.Decision.Sorting.{runs, remains}
use controlled_job.Decision.Selection.{Selected, as_found, replaced, started, allowed, Adopted}
use controlled_job.Decision.Results.{initial, decide_ok}
use controlled_job.Decision.Deletion.{initial_lists}
use controlled_job.Decision.{
  Decision, Progress, finish, decide, new_handle, may_unsuspend, unsuspended,
}
use controlled_job.Decision.Finishing.{
  finish_as_found, finish_adopted, initial_running, allowed_found, may_facts,
}

module _ (env : Env) (auto_recreate : Bool) (now : Time) (state : State) where
  abbrev may : ℕ → Handle → Bool
  may = may_unsuspend env auto_recreate now state

  abbrev new : Job → Handle
  new = new_handle env auto_recreate now state

  pub chosen_mem :
      (c : Handle)
      → best_from state none (keep (remains env state) state.all_jobs) ≡ some c
      → Memᴰ c state.all_jobs × (remains env state c ≡ true)
  chosen_mem c e =
      mem_of_mem-keep (remains env state) c state.all_jobs
        (subst (IsBestOf state (keep (remains env state) state.all_jobs)) e
          (best_from-IsBestOf state (keep (remains env state) state.all_jobs))).0

  -- What is known of a job that is unsuspended.
  record MayStart (h : Handle) : Type 0 where
    existing : Memᴰ h state.all_jobs
    current : remains env state h ≡ true
    suspended : is_job_suspended h.job ≡ true
    not_deleted : is_job_being_deleted h.job ≡ false
    not_stopped : was_job_stopped_by_the_user h.job ≡ false
    only :
        runs env state h ≡ true
        → (k : Handle) → Memᴰ k state.all_jobs
        → runs env state k ≡ true
        → k ≡ h

  MayStart-of_may :
      (c : Handle)
      → may (count (runs env state) state.all_jobs) c ≡ true
      → best_from state none (keep (remains env state) state.all_jobs) ≡ some c
      → MayStart c
  MayStart-of_may c t e =
      let (one, s, d, u) =
        may_facts env auto_recreate now state (count (runs env state) state.all_jobs) c t in
      let (m, r) = chosen_mem c e in
      record {
        existing = m;
        current = r;
        suspended = s;
        not_deleted = d;
        not_stopped = u;
        only = λ rh k mk rk. count-one (runs env state) k c state.all_jobs one mk m rk rh;
      }

  -- A job that is created unsuspended is the only one that may be running.
  abbrev StartsAlone : Handle → Type 0
  StartsAlone h =
      is_job_suspended h.job ≡ false
      → (k : Handle) → Memᴰ k state.all_jobs
      → runs env state k ≡ false

  abbrev Starts : Decision → Type 0
  Starts d =
      ((h : Handle) → Memᴰ h d.jobs_to_unsuspend → MayStart h)
      × ((h : Handle) → Memᴰ h d.jobs_to_create → StartsAlone h)

  as_found_start :
      (live : Live) (q : Progress) (d : Decision)
      → q.potentially_running ≡ (initial env auto_recreate now state live).potentially_running
      → q.chosen ≡ allowed env auto_recreate now state (initial env auto_recreate now state live)
      → (d.jobs_to_unsuspend ≡ [])
        ⊎ ((c : Handle) × (q.chosen ≡ some c)
            × (may q.potentially_running c ≡ true)
            × (d.jobs_to_unsuspend ≡ c ∷ []))
      → (h : Handle) → Memᴰ h d.jobs_to_unsuspend
      → MayStart h
  as_found_start live q d r ch (inl e) h m = absurd (not-mem_of_nil e m)
  as_found_start live q d r ch (inr (c, e, t, l)) h m =
      subst MayStart (sym (eq_of_mem-singleton (subst (Memᴰ h) l m))) (
        MayStart-of_may c
          (subst (λ (n : ℕ). may n c ≡ true)
            (r ∙ (initial_running env auto_recreate now state live).0) t)
          (sym (initial_running env auto_recreate now state live).1
            ∙ allowed_found env auto_recreate now state (initial env auto_recreate now state live) c
                (sym ch ∙ e)))

  module _ (keeps : OwnerKeepsSpec env) (mutators : KeepSuspension env.registered_mutators) where
    adopted_alone :
        (d : Decision) (running : ℕ) (job : Job)
        → running ≡ suc (count (runs env state) state.all_jobs)
        → is_job_suspended job ≡ true
        → (d.jobs_to_create ≡ new job ∷ [])
          ⊎ (may running (new job) ≡ true) × (d.jobs_to_create ≡ unsuspended (new job) ∷ [])
        → (h : Handle) → Memᴰ h d.jobs_to_create
        → StartsAlone h
    adopted_alone d running job n s (inl e) h m u k mk = absurd (
        false≢true (
          sym u
          ∙ ap (λ (x : Handle). is_job_suspended x.job) (eq_of_mem-singleton (subst (Memᴰ h) e m))
          ∙ s))
    adopted_alone d running job n s (inr (t, e)) h m u k mk =
        count-zero (runs env state) k state.all_jobs
          (omega (arith, n, (may_facts env auto_recreate now state running (new job) t).0)) mk

    Adopted-after :
        (live : Live) (q : Progress) (job : Job)
        → Adopted env auto_recreate now state (initial env auto_recreate now state live) q job
        → is_job_suspended job ≡ true
        → Starts (finish env auto_recreate now state q).decision
    Adopted-after live q job a s =
        let (expired₀, rest₀, deletes₀, creates₀, unsuspends₀) =
          initial_lists env auto_recreate now state live in
        let (none_started, created) =
          finish_adopted env auto_recreate now state q job
            (a.created ∙ ap (λ (l : List Handle). l ++ new job ∷ []) creates₀)
            (a.same_unsuspends ∙ unsuspends₀) a.chosen_new in
        (
          λ h m. absurd (not-mem_of_nil none_started m),
          λ h m.
              adopted_alone (finish env auto_recreate now state q).decision q.potentially_running
                job (a.one_more ∙ ap suc (initial_running env auto_recreate now state live).0) s
                created h m,
        )

    -- What the selected local variables lead to.
    Starts-after :
        (live : Live) (q : Progress)
        → Selected env auto_recreate now state (initial env auto_recreate now state live) q
        → Starts (finish env auto_recreate now state q).decision
    Starts-after live q (as_found u c w) =
        let (expired₀, rest₀, deletes₀, creates₀, unsuspends₀) =
          initial_lists env auto_recreate now state live in
        let (none_created, started₀) =
          finish_as_found env auto_recreate now state q
            (ap (λ (d : Decision). d.jobs_to_create) u.same_decision ∙ creates₀)
            (ap (λ (d : Decision). d.jobs_to_unsuspend) u.same_decision ∙ unsuspends₀) in
        (
          as_found_start live q (finish env auto_recreate now state q).decision u.same_running c
              started₀,
          λ h m. absurd (not-mem_of_nil none_created m),
        )
    Starts-after live q (replaced c job e w (cj, b) a) = Adopted-after live q job a (
        recreate-suspended env keeps mutators cj c.job (incr_i64 (survey state).max_job_run_id) job
          b)
    Starts-after live q (started job w (cj, t, e, b, spec, annotations) a) =
        Adopted-after live q job a (
          build_job-suspended env keeps mutators cj t (pos 0) false job
            (unfold build_for_controlled_job in b))

    starts :
        (live : Live)
        → state.is_suspended ≡ false
        → (decide env auto_recreate now state live).error ≡ none
        → Starts (decide env auto_recreate now state live).decision
    starts live s e =
        let (q, sel, dec, running, at_end) = decide_ok env auto_recreate now state live s e in
        subst Starts (sym dec) (Starts-after live q sel)

    -- A job that a decision without suspension and error unsuspends exists, is not expired, is
    -- suspended, and is neither being deleted nor stopped by the user, if setting an owner keeps a
    -- job's specification and no mutator unsuspends a job.
    pub unsuspends_waiting :
        (live : Live) (h : Handle)
        → state.is_suspended ≡ false
        → (decide env auto_recreate now state live).error ≡ none
        → Memᴰ h (decide env auto_recreate now state live).decision.jobs_to_unsuspend
        → Memᴰ h state.all_jobs
          × (is_expired env state h.job ≡ false)
          × (is_job_suspended h.job ≡ true)
          × (is_job_being_deleted h.job ≡ false)
          × (was_job_stopped_by_the_user h.job ≡ false)
    unsuspends_waiting live h s e m =
        let f = (starts live s e).0 h m in
        (f.existing, ground (arith, f.current), f.suspended, f.not_deleted, f.not_stopped)

    -- If a job that a decision without suspension and error unsuspends may be running, no other
    -- existing job may be running, if setting an owner keeps a job's specification and no mutator
    -- unsuspends a job.
    pub unsuspends_alone :
        (live : Live) (h k : Handle)
        → state.is_suspended ≡ false
        → (decide env auto_recreate now state live).error ≡ none
        → Memᴰ h (decide env auto_recreate now state live).decision.jobs_to_unsuspend
        → Memᴰ k state.all_jobs
        → is_job_potentially_running h.job ≡ true
        → is_job_potentially_running k.job ≡ true
        → k ≡ h
    unsuspends_alone live h k s e m there rh rk = ((starts live s e).0 h m).only rh k there rk

    -- A decision without suspension and error creates an unsuspended job only where no existing job
    -- may be running, if setting an owner keeps a job's specification and no mutator unsuspends a
    -- job.
    pub creates_alone :
        (live : Live) (h k : Handle)
        → state.is_suspended ≡ false
        → (decide env auto_recreate now state live).error ≡ none
        → Memᴰ h (decide env auto_recreate now state live).decision.jobs_to_create
        → is_job_suspended h.job ≡ false
        → Memᴰ k state.all_jobs
        → is_job_potentially_running k.job ≡ false
    creates_alone live h k s e m u there = (starts live s e).1 h m u k there
