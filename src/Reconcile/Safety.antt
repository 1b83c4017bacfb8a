-- ===== src/Reconcile/Safety.antt =====
-- The whole of makeDecision of pkg/reconciliation/decision.go, the building of the state included.
use controlled_job.Base.{
  or_false, ◌≡◌, ◌≢◌, ◌∙◌, sym, ap, refl, subst, Bool, true, false, Option, none, some, List, arith,
  Memᴰ, inl, inr,
}
use controlled_job.Errors.{ok, Run-cases}
use controlled_job.Kube.{Time, Job}
use controlled_job.Api.Conditions.{Live}
use controlled_job.Env.{Env}
use controlled_job.Schedule.{Calendar}
use controlled_job.State.{Handle, pointers_from, pointers-IsNumbered}
use controlled_job.State.Build.{build_state, state_of}
use controlled_job.Schedule.Period.{state_for, ScheduleState}
use controlled_job.Decision.{Outcome, decide}
use controlled_job.Decision.AtMostOne.{Survives, at_most_one-Survives}
use controlled_job.Reconcile.{make_decision}

pub not_suspended : (b : Option Bool) → b ≢ some true → or_false b ≡ false
not_suspended none n = refl
not_suspended (some true) n = absurd (n refl)
not_suspended (some false) n = refl

module _ (env : Env) (cal : Calendar) (auto_recreate : Bool) (now : Time) (jobs : List Job)
    (live : Live) where
  -- A decision without an error was made from a built state.
  pub built :
      (o : Outcome)
      → make_decision env cal auto_recreate now jobs live ≡ some o
      → o.error ≡ none
      → (s : ScheduleState) × (state_for cal live.object now ≡ some (ok s))
        × (o ≡ decide env auto_recreate now (state_of env live.object jobs s) live)
  unfolding make_decision build_state
  built o made e = elim (Run-cases (state_for cal live.object now)) [
    | inl p ↦ absurd (ground (arith, p))
    | inr (inl (x, p)) ↦ absurd (ground (arith, p))
    | inr (inr (s, p)) ↦ (s, p, ground (arith, p))
  ]

  pub scheduled_decision :
      (s : ScheduleState)
      → state_for cal live.object now ≡ some (ok s)
      → make_decision env cal auto_recreate now jobs live
        ≡ some (decide env auto_recreate now (state_of env live.object jobs s) live)
  unfolding make_decision build_state
  scheduled_decision s p = ground (arith, p)

  -- A decision for a ControlledJob that is not suspended leaves, if it ends without an error, at
  -- most one of the listed jobs that may be running and are not being deleted.
  pub make_decision-Survives :
      (o : Outcome) (h k : Handle)
      → make_decision env cal auto_recreate now jobs live ≡ some o
      → o.error ≡ none
      → live.object.spec.suspend ≢ some true
      → Memᴰ h (pointers_from 0 jobs)
      → Memᴰ k (pointers_from 0 jobs)
      → Survives o.decision h
      → Survives o.decision k
      → h ≡ k
  unfolding state_of
  make_decision-Survives o h k made e alive here there x y =
      let (s, p, q) = built o made e in
      at_most_one-Survives env auto_recreate now (state_of env live.object jobs s) live h k
        (pointers-IsNumbered jobs) (not_suspended live.object.spec.suspend alive)
        (ap (λ (r : Outcome). r.error) (sym q) ∙ e) here there
        (subst (λ (r : Outcome). Survives r.decision h) q x)
        (subst (λ (r : Outcome). Survives r.decision k) q y)
