-- ===== src/Decision/Evolution/Reachable.antt =====
-- How many jobs may have pods once a decision of makeDecision of
-- pkg/reconciliation/decision.go is carried out, be the ControlledJob suspended or not.
use controlled_job.Base.{
  ℕ, suc, refl, ap, ◌≤◌, ◌≡◌, sym, subst, Bool, true, none, List, [], ◌∷◌, arith, inl, inr,
  Bool-cases,
}
use controlled_job.Kube.{Time, Job}
use controlled_job.Api.Conditions.{Live}
use controlled_job.Env.{Env}
use controlled_job.Builder.Suspension.{OwnerKeepsSpec, KeepSuspension}
use controlled_job.State.{State, Handle, pointers_from}
use controlled_job.Decision.{Decision, decide}
use controlled_job.Decision.Evolution.{active_count, carried, decided_count}

-- Deletions alone leave the jobs as they are while they have not finished.
pub nothing_carried :
    (jobs : List Job) (n : ℕ) (d : Decision) (hs : List Handle)
    → hs ≡ pointers_from n jobs
    → d.jobs_to_create ≡ []
    → d.jobs_to_unsuspend ≡ []
    → carried d hs ≡ jobs
unfolding pointers_from
nothing_carried [] n d hs all e f = rw (all, e) refl
nothing_carried (j ∷ jobs) n d hs all e f =
    rw (all, f)
      (ap (λ (l : List Job). j ∷ l)
        (nothing_carried jobs (suc n) d (pointers_from (suc n) jobs) refl e f))

pub suspended_lists :
    (env : Env) (auto_recreate : Bool) (now : Time) (state : State) (live : Live)
    → state.is_suspended ≡ true
    → ((decide env auto_recreate now state live).decision.jobs_to_create ≡ [])
      × ((decide env auto_recreate now state live).decision.jobs_to_unsuspend ≡ [])
unfolding decide
suspended_lists env auto_recreate now state live s = ground (arith, s)

-- A suspended ControlledJob has its jobs deleted and nothing else.
pub decided_or_suspended :
    (env : Env) (auto_recreate : Bool) (now : Time) (state : State)
    → OwnerKeepsSpec env
    → KeepSuspension env.registered_mutators
    → (live : Live) (jobs : List Job) → state.all_jobs ≡ pointers_from 0 jobs
    → (decide env auto_recreate now state live).error ≡ none
    → active_count jobs ≤ 1
    → active_count (carried (decide env auto_recreate now state live).decision state.all_jobs) ≤ 1
decided_or_suspended env auto_recreate now state keeps mutators live jobs all e bound =
    elim (Bool-cases state.is_suspended) [
      | inr s ↦ decided_count env auto_recreate now state keeps mutators live jobs all s e bound
      | inl s ↦
          let (creates, unsuspends) = suspended_lists env auto_recreate now state live s in
          subst (λ (l : List Job). active_count l ≤ 1)
            (sym (
              nothing_carried jobs 0 (decide env auto_recreate now state live).decision
                state.all_jobs all creates unsuspends))
            bound
    ]
