-- ===== src/Decision/Results.antt =====
-- What a makeDecision that returns no error has gone through: pkg/reconciliation/decision.go.
use controlled_job.Base.{
  ◌≡◌, inl, inr, Bool, false, not, Option, none, some, List, [], ◌++◌, arith, keep, is_some,
}
use controlled_job.Kube.{Time}
use controlled_job.Api.Conditions.{Live}
use controlled_job.Env.{Env}
use controlled_job.Metadata.{is_job_being_deleted}
use controlled_job.State.{State, Handle}
use controlled_job.Decision.Conditions.{set_should_be_running_status}
use controlled_job.Decision.Selection.{Step-cases, Selected, select-Selected}
use controlled_job.Decision.{
  Progress, go, fail, is_kept, delete_others, unsuspend_chosen, set_requeue, finish,
  initial_progress, put_header, select, conclude, decide,
}

module _ (env : Env) (auto_recreate : Bool) (now : Time) (state : State) where
  abbrev pub is_alive : Handle → Bool
  is_alive h = not (is_job_being_deleted h.job)

  abbrev pub is_dropped : Option Handle → Handle → Bool
  is_dropped c h = not (is_kept env auto_recreate now state c h)

  -- The jobs that the last loops mark for deletion.
  abbrev pub doomed : Progress → List Handle
  doomed q = keep is_alive q.expired ++ keep (is_dropped q.chosen) q.non_expired

  pub deletes-finish :
      (q : Progress)
      → q.decision.jobs_to_delete ≡ []
      → (finish env auto_recreate now state q).decision.jobs_to_delete ≡ doomed q
  unfolding finish set_requeue unsuspend_chosen delete_others
  deletes-finish q e = ground arith

  pub chosen-finish :
      (q : Progress) → is_some (finish env auto_recreate now state q).chosen ≡ is_some q.chosen
  unfolding finish set_requeue unsuspend_chosen delete_others
  chosen-finish q = ground arith

  -- The local variables where the loops over all jobs are done.
  abbrev pub initial : Live → Progress
  initial live =
      initial_progress env auto_recreate now state
        (set_should_be_running_status env.clock state (put_header env auto_recreate now state live))

  -- chosenJob where the function returns.
  unfoldable pub chosen_at_end : Live → Option Handle
  chosen_at_end live = elim (select env auto_recreate now state (initial live)) [
    | go q ↦ q.chosen
    | fail e q ↦ q.chosen
  ]

  -- An unsuspended ControlledJob that is decided without an error went through the selection.
  pub decide_ok :
      (live : Live)
      → state.is_suspended ≡ false
      → (decide env auto_recreate now state live).error ≡ none
      → (q : Progress) × Selected env auto_recreate now state (initial live) q
        × ((decide env auto_recreate now state live).decision
            ≡ (finish env auto_recreate now state q).decision)
        × ((decide env auto_recreate now state live).live.object.status.is_running
            ≡ some (is_some q.chosen))
        × (chosen_at_end live ≡ q.chosen)
  unfolding decide conclude chosen_at_end
  decide_ok live s e = elim (Step-cases (select env auto_recreate now state (initial live))) [
    | inl (q, r) ↦ (
      q,
      select-Selected env auto_recreate now state (initial live) q r,
      ground (arith, r),
      ground (arith, r, chosen-finish q),
      ground (arith, r),
    )
    | inr (x, q, r) ↦ absurd (ground (arith, r))
  ]
