-- ===== src/Decision/OneActive.antt =====
-- Which jobs may have pods, before and after a decision of makeDecision of
-- pkg/reconciliation/decision.go is carried out.
use controlled_job.Base.{
  ◌≡◌, ◌⊎◌, inl, inr, Bool, true, false, none, List, [], ◌∷◌, ◌++◌, ◌∙◌, sym, ap, subst, arith,
  Memᴰ,
}
use controlled_job.Base.Lists.Membership.{eq_of_mem-singleton, not-mem_of_nil}
use controlled_job.Kube.{Time, Job}
use controlled_job.Api.Conditions.{Live}
use controlled_job.Env.{Env}
use controlled_job.Builder.Suspension.{OwnerKeepsSpec, KeepSuspension}
use controlled_job.Metadata.{is_job_suspended, is_job_potentially_running}
use controlled_job.State.{State, Handle}
use controlled_job.Decision.Selection.{Selected, as_found, replaced, started, Adopted}
use controlled_job.Decision.Results.{initial, decide_ok}
use controlled_job.Decision.Deletion.{initial_lists}
use controlled_job.Decision.Finishing.{finish_as_found, finish_adopted}
use controlled_job.Decision.Unsuspension.{unsuspends_waiting, unsuspends_alone, creates_alone}
use controlled_job.Decision.{Decision, Progress, finish, decide, new_handle}

-- The job may have pods: it is neither completed nor suspended.
abbrev pub IsActive : Handle → Type 0
IsActive h = (is_job_potentially_running h.job ≡ true) × (is_job_suspended h.job ≡ false)

-- The job may have pods once the decision is carried out, whether or not deletions have finished.
pub data IsActiveAfter (jobs : List Handle) (d : Decision) (h : Handle) : Type 0 where
  was_active : Memᴰ h jobs → IsActive h → IsActiveAfter jobs d h
  is_unsuspended :
      Memᴰ h d.jobs_to_unsuspend → is_job_potentially_running h.job ≡ true → IsActiveAfter jobs d h
  is_created : Memᴰ h d.jobs_to_create → IsActive h → IsActiveAfter jobs d h

-- At most one job of the list may have pods.
abbrev pub HasOneActive : List Handle → Type 0
HasOneActive jobs = (h k : Handle) → Memᴰ h jobs → Memᴰ k jobs → IsActive h → IsActive k → h ≡ k

-- A list of at most one job.
abbrev pub AtMostSingle : List Handle → Type 0
AtMostSingle hs = (hs ≡ []) ⊎ ((h : Handle) × (hs ≡ h ∷ []))

module _ (env : Env) (auto_recreate : Bool) (now : Time) (state : State) where
  Adopted-single :
      (live : Live) (q : Progress) (job : Job)
      → Adopted env auto_recreate now state (initial env auto_recreate now state live) q job
      → AtMostSingle (finish env auto_recreate now state q).decision.jobs_to_create
  Adopted-single live q job a =
      let (expired₀, rest₀, deletes₀, creates₀, unsuspends₀) =
        initial_lists env auto_recreate now state live in
      elim (finish_adopted env auto_recreate now state q job
        (a.created
          ∙ ap (λ (l : List Handle). l ++ new_handle env auto_recreate now state job ∷ []) creates₀)
        (a.same_unsuspends ∙ unsuspends₀) a.chosen_new).1 [
          | inl e ↦ inr (_, e)
          | inr (t, e) ↦ inr (_, e)
        ]

  created_single :
      (live : Live) (q : Progress)
      → Selected env auto_recreate now state (initial env auto_recreate now state live) q
      → AtMostSingle (finish env auto_recreate now state q).decision.jobs_to_create
  created_single live q (as_found u c w) =
      let (expired₀, rest₀, deletes₀, creates₀, unsuspends₀) =
        initial_lists env auto_recreate now state live in
      inl
        (finish_as_found env auto_recreate now state q
          (ap (λ (d : Decision). d.jobs_to_create) u.same_decision ∙ creates₀)
          (ap (λ (d : Decision). d.jobs_to_unsuspend) u.same_decision ∙ unsuspends₀)).0
  created_single live q (replaced c job e w b a) = Adopted-single live q job a
  created_single live q (started job w b a) = Adopted-single live q job a

  same_of_single :
      (hs : List Handle) (h k : Handle) → AtMostSingle hs → Memᴰ h hs → Memᴰ k hs → h ≡ k
  same_of_single hs h k (inl e) m l = absurd (not-mem_of_nil e m)
  same_of_single hs h k (inr (x, e)) m l =
      eq_of_mem-singleton (subst (Memᴰ h) e m) ∙ sym (eq_of_mem-singleton (subst (Memᴰ k) e l))

  -- A decision without suspension and error creates at most one job.
  pub decided_single :
      (live : Live)
      → state.is_suspended ≡ false
      → (decide env auto_recreate now state live).error ≡ none
      → AtMostSingle (decide env auto_recreate now state live).decision.jobs_to_create
  decided_single live s e =
      let (q, sel, dec, running, at_end) = decide_ok env auto_recreate now state live s e in
      subst (λ (d : Decision). AtMostSingle d.jobs_to_create) (sym dec) (created_single live q sel)

  created_same :
      (live : Live) (h k : Handle)
      → state.is_suspended ≡ false
      → (decide env auto_recreate now state live).error ≡ none
      → Memᴰ h (decide env auto_recreate now state live).decision.jobs_to_create
      → Memᴰ k (decide env auto_recreate now state live).decision.jobs_to_create
      → h ≡ k
  created_same live h k s e m l =
      same_of_single (decide env auto_recreate now state live).decision.jobs_to_create h k
        (decided_single live s e) m l

  module _ (keeps : OwnerKeepsSpec env) (mutators : KeepSuspension env.registered_mutators)
      (live : Live) (s : state.is_suspended ≡ false)
      (e : (decide env auto_recreate now state live).error ≡ none)
      (one : HasOneActive state.all_jobs) where
    abbrev d : Decision
    d = (decide env auto_recreate now state live).decision

    -- A job that may have pods afterwards, if it is not new, is an existing one that may be running.
    Existing : Handle → Type 0
    Existing h = Memᴰ h state.all_jobs × (is_job_potentially_running h.job ≡ true)

    Existing-of_unsuspended :
        (h : Handle)
        → Memᴰ h d.jobs_to_unsuspend
        → is_job_potentially_running h.job ≡ true
        → Existing h
    unfolding Existing
    Existing-of_unsuspended h m r =
        ((unsuspends_waiting env auto_recreate now state keeps mutators live h s e m).0, r)

    no_created_next :
        {A : Type 0} (h k : Handle) → Existing h → Memᴰ k d.jobs_to_create → IsActive k → A
    unfolding Existing
    no_created_next h k (m, r) l (rk, uk) = absurd (
        ground
          (arith, r, creates_alone env auto_recreate now state keeps mutators live k h s e l uk m))

    next_unsuspended :
        (h k : Handle)
        → Existing h
        → Memᴰ k d.jobs_to_unsuspend
        → is_job_potentially_running k.job ≡ true
        → h ≡ k
    unfolding Existing
    next_unsuspended h k (m, r) l rk =
        unsuspends_alone env auto_recreate now state keeps mutators live k h s e l m rk r

    -- If at most one existing job may have pods, then at most one job may once a decision without
    -- suspension and error is carried out, even before its deletions have finished, if setting an
    -- owner keeps a job's specification and no mutator unsuspends a job.
    pub decide-IsActiveAfter :
        (h k : Handle)
        → IsActiveAfter state.all_jobs (decide env auto_recreate now state live).decision h
        → IsActiveAfter state.all_jobs (decide env auto_recreate now state live).decision k
        → h ≡ k
    unfolding Existing
    decide-IsActiveAfter h k (was_active m a) (was_active l b) = one h k m l a b
    decide-IsActiveAfter h k (was_active m (r, u)) (is_unsuspended l rk) =
        next_unsuspended h k (m, r) l rk
    decide-IsActiveAfter h k (is_unsuspended m r) (was_active l (rk, uk)) =
        sym (next_unsuspended k h (l, rk) m r)
    decide-IsActiveAfter h k (is_unsuspended m r) (is_unsuspended l rk) =
        next_unsuspended h k (Existing-of_unsuspended h m r) l rk
    decide-IsActiveAfter h k (was_active m (r, u)) (is_created l b) = no_created_next h k (m, r) l b
    decide-IsActiveAfter h k (is_created m a) (was_active l (rk, uk)) =
        no_created_next k h (l, rk) m a
    decide-IsActiveAfter h k (is_unsuspended m r) (is_created l b) =
        no_created_next h k (Existing-of_unsuspended h m r) l b
    decide-IsActiveAfter h k (is_created m a) (is_unsuspended l rk) =
        no_created_next k h (Existing-of_unsuspended k l rk) m a
    decide-IsActiveAfter h k (is_created m a) (is_created l b) = created_same live h k s e m l
