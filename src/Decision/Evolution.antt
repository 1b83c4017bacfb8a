-- ===== src/Decision/Evolution.antt =====
-- The jobs of a ControlledJob once a decision of makeDecision of
-- pkg/reconciliation/decision.go is carried out.
pub mod Pointers
pub mod Reachable
use controlled_job.Base.{
  ℕ, zero, suc, ◌+◌, ◌≤◌, ◌≡◌, ◌≢◌, refl, ◌⊎◌, inl, inr, Bool, true, false, not, Option, none, some,
  List, [], ◌∷◌, ◌++◌, ◌∙◌, ◌&&◌, sym, ap, subst, arith, Memᴰ, any, count, map, Bool-cases,
  if◌then◌else◌, ◌==◌,
}
use controlled_job.Base.Lists.Counting.{count_yes, count_no, count-append, count_none, count-map}
use controlled_job.Base.Lists.Membership.{count-zero, count-one}
use controlled_job.Kube.{Time, Job}
use controlled_job.Api.Conditions.{Live}
use controlled_job.Env.{Env}
use controlled_job.Client.{with_suspend}
use controlled_job.Builder.Suspension.{OwnerKeepsSpec, KeepSuspension}
use controlled_job.Metadata.{
  is_job_suspended, is_job_potentially_running, is_job_completed, job_has_condition,
  get_job_condition,
}
use controlled_job.State.{
  State, Handle, IsNumbered, same_handle, pointers_from, pointers_above, pointers-IsNumbered,
}
use controlled_job.Decision.OneActive.{
  IsActive, IsActiveAfter, was_active, is_unsuspended, is_created, HasOneActive, AtMostSingle,
  decided_single, decide-IsActiveAfter,
}
use controlled_job.Decision.Unsuspension.{unsuspends_waiting, creates_alone}
use controlled_job.Decision.{Decision, decide}
use Pointers.{count-pointers, count_at_most_one, listed_mem}

-- A job that may have pods.
abbrev pub is_active : Job → Bool
is_active job = is_job_potentially_running job && not (is_job_suspended job)

-- The jobs of the list that may have pods.
abbrev pub active_count : List Job → ℕ
active_count = count is_active

-- A job that is unsuspended has the flag false.
abbrev pub carried_job : Decision → Handle → Job
carried_job d h =
    if any (same_handle h) d.jobs_to_unsuspend then with_suspend false h.job else h.job

-- The jobs once a decision is carried out, before any of its deletions has finished.
abbrev pub carried : Decision → List Handle → List Job
carried d hs = map (carried_job d) hs ++ map (λ (h : Handle). h.job) d.jobs_to_create

one_active_of_count :
    (jobs : List Job) → active_count jobs ≤ 1 → HasOneActive (pointers_from 0 jobs)
one_active_of_count jobs bound h k m l a b =
    elim (zero_or_one (count (λ (x : Handle). is_active x.job) (pointers_from 0 jobs)) few) [
      | inl z ↦ absurd (
          ground
            (arith, a, count-zero (λ (x : Handle). is_active x.job) h (pointers_from 0 jobs) z m))
      | inr o ↦
          count-one (λ (x : Handle). is_active x.job) h k (pointers_from 0 jobs) o m l
            (ground (arith, a)) (ground (arith, b))
    ]
  where
    few : count (λ (x : Handle). is_active x.job) (pointers_from 0 jobs) ≤ 1
    few = omega (arith, count-pointers is_active 0 jobs, bound)

    zero_or_one : (n : ℕ) → n ≤ 1 → (n ≡ 0) ⊎ (n ≡ 1)
    zero_or_one zero h = inl refl
    zero_or_one (suc zero) h = inr refl
    zero_or_one (suc (suc n)) h = absurd (omega (arith, h))

-- Completion does not depend on suspension.
pub running_with_suspend :
    (b : Bool) (job : Job)
    → is_job_potentially_running (with_suspend b job) ≡ is_job_potentially_running job
unfolding is_job_potentially_running is_job_completed job_has_condition get_job_condition
running_with_suspend b job = refl

-- A job that is active once the decision is carried out was not completed before, and is unsuspended
-- by the decision or was not suspended.
pub carried_facts :
    (d : Decision) (h : Handle)
    → is_active (carried_job d h) ≡ true
    → (is_job_potentially_running h.job ≡ true)
      × ((any (same_handle h) d.jobs_to_unsuspend ≡ true) ⊎ (is_job_suspended h.job ≡ false))
carried_facts d h t = elim (Bool-cases (any (same_handle h) d.jobs_to_unsuspend)) [
  | inl e ↦ (ground (arith, e, t, running_with_suspend false h.job), inl e)
  | inr e ↦ (ground (arith, e, t), inr (ground (arith, e, t)))
]

module _ (env : Env) (auto_recreate : Bool) (now : Time) (state : State)
    (keeps : OwnerKeepsSpec env) (mutators : KeepSuspension env.registered_mutators) (live : Live)
    (jobs : List Job) (all : state.all_jobs ≡ pointers_from 0 jobs) (s : state.is_suspended ≡ false)
    (e : (decide env auto_recreate now state live).error ≡ none)
    (bound : active_count jobs ≤ 1) where
  abbrev d : Decision
  d = (decide env auto_recreate now state live).decision

  numbered : IsNumbered state.all_jobs
  numbered = subst IsNumbered (sym all) (pointers-IsNumbered jobs)

  one_active : HasOneActive state.all_jobs
  one_active = subst HasOneActive (sym all) (one_active_of_count jobs bound)

  after_existing :
      (h : Handle)
      → Memᴰ h state.all_jobs
      → is_active (carried_job d h) ≡ true
      → IsActiveAfter state.all_jobs d h
  after_existing h m t =
      let (r, why) = carried_facts d h t in
      elim why [
        | inl l ↦
            let (k, mk, q) = listed_mem h d.jobs_to_unsuspend l in
            let there =
              (unsuspends_waiting env auto_recreate now state keeps mutators live k s e mk).0 in
            is_unsuspended
              (subst (λ (x : Handle). Memᴰ x d.jobs_to_unsuspend)
                (sym (numbered.distinct h k m there q)) mk)
              r
        | inr u ↦ was_active m (r, u)
      ]

  few_existing : count (λ (h : Handle). is_active (carried_job d h)) state.all_jobs ≤ 1
  few_existing =
      subst (λ (hs : List Handle). count (λ (h : Handle). is_active (carried_job d h)) hs ≤ 1)
        (sym all)
        (count_at_most_one (λ (h : Handle). is_active (carried_job d h)) 0 jobs
          (λ h k m l t u.
            decide-IsActiveAfter env auto_recreate now state keeps mutators live s e one_active h k
              (after_existing h (subst (Memᴰ h) (sym all) m) t)
              (after_existing k (subst (Memᴰ k) (sym all) l) u)))

  none_next_to :
      (c : Handle)
      → Memᴰ c d.jobs_to_create
      → is_active c.job ≡ true
      → count (λ (h : Handle). is_active (carried_job d h)) state.all_jobs ≡ 0
  none_next_to c m t =
      count_none (λ (h : Handle). is_active (carried_job d h)) state.all_jobs
        (λ h l. elim (Bool-cases (is_active (carried_job d h))) [
          | inl a ↦ absurd (
              ground (
                arith,
                (carried_facts d h a).0,
                creates_alone env auto_recreate now state keeps mutators live c h s e m
                    (ground (arith, t)) l,
              ))
          | inr a ↦ a
        ])

  together :
      (hs : List Handle)
      → AtMostSingle hs
      → ((c : Handle) → Memᴰ c hs → Memᴰ c d.jobs_to_create)
      → count (λ (h : Handle). is_active (carried_job d h)) state.all_jobs
          + count (λ (h : Handle). is_active h.job) hs
        ≤ 1
  together [] single into = omega (arith, few_existing)
  together (c ∷ hs) (inl q) into = absurd (ground (arith, q))
  together (c ∷ hs) (inr (x, q)) into = elim (Bool-cases (is_active c.job)) [
    | inl t ↦ omega (arith, none_next_to c (into c (Memᴰ.head refl)) t, only_one)
    | inr t ↦
        omega (arith, few_existing, count_no (λ (h : Handle). is_active h.job) c hs t, nothing_more)
  ]
    where
      nothing_more : count (λ (h : Handle). is_active h.job) hs ≡ 0
      nothing_more = ap (count (λ (h : Handle). is_active h.job)) (tail_nil q)
        where
          tail_nil : c ∷ hs ≡ x ∷ [] → hs ≡ []
          tail_nil p = cc

      only_one : count (λ (h : Handle). is_active h.job) (c ∷ hs) ≤ 1
      only_one = elim (Bool-cases (is_active c.job)) [
        | inl t ↦ omega (arith, count_yes (λ (h : Handle). is_active h.job) c hs t, nothing_more)
        | inr t ↦ omega (arith, count_no (λ (h : Handle). is_active h.job) c hs t, nothing_more)
      ]

  -- If at most one job may have pods, at most one may once the decision is carried out.
  pub decided_count : active_count (carried d state.all_jobs) ≤ 1
  decided_count = omega (
    arith,
    count-append is_active (map (carried_job d) state.all_jobs)
        (map (λ (h : Handle). h.job) d.jobs_to_create),
    count-map is_active (carried_job d) state.all_jobs,
    count-map is_active (λ (h : Handle). h.job) d.jobs_to_create,
    together d.jobs_to_create (decided_single env auto_recreate now state live s e) (λ c m. m),
  )
