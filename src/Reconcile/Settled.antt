-- ===== src/Reconcile/Settled.antt =====
-- What Reconcile of pkg/reconciliation/reconcile.go does where there is nothing to do.
use controlled_job.Base.{
  ◌≡◌, ◌≢◌, ◌∙◌, refl, String, Bool, true, false, none, some, List, [], ◌∷◌, ◌++◌,
}
use controlled_job.Errors.{ok}
use controlled_job.Kube.{Time, Job}
use controlled_job.Api.{ControlledJob}
use controlled_job.Api.Conditions.{Live, set_condition}
use controlled_job.Env.{Env}
use controlled_job.Schedule.{Calendar}
use controlled_job.Schedule.Period.{state_for, ScheduleState}
use controlled_job.State.{Handle}
use controlled_job.State.Build.{state_of}
use controlled_job.Client.{
  Cluster, World, Call, get_call, list_call, update_status_call, update_status,
}
use controlled_job.Decision.{Decision, Outcome, decide}
use controlled_job.Decision.Settled.{IsSettled, decide_settled, decide_settled_rest, requeue_time}
use controlled_job.Reconcile.Overall.{calculate_overall_conditions, set_overall, set_error}
use controlled_job.Reconcile.Overall.Exclusive.{holds-error}
use controlled_job.Reconcile.Status.{says_error, load-found}
use controlled_job.Reconcile.Safety.{not_suspended, scheduled_decision}
use controlled_job.Reconcile.{
  deferred, record_failed_reconcile, return_ended, act_on, reconcile_decided, reconcile_loaded,
  reconcile_found, reconcile,
}
use controlled_job.Reconcile.Operations.{completed, each, carry_out}
use controlled_job.Reconcile.Results.{ReconcileResult, sub_time}

module _ (env : Env) (cluster : Cluster) where
  -- A decision without jobs makes no call.
  carry_out_nothing :
      (d : Decision) (w : World)
      → d.jobs_to_delete ≡ []
      → d.jobs_to_create ≡ []
      → d.jobs_to_suspend ≡ []
      → d.jobs_to_unsuspend ≡ []
      → carry_out env cluster d w ≡ completed w
  unfolding carry_out each
  carry_out_nothing d w a b c e = rw (a, b, c, e) refl

  abbrev judged : Live → ControlledJob
  judged live = (calculate_overall_conditions env.clock none live).object

  deferred_plain :
      (live : Live) (calls : List Call)
      → (deferred env cluster none (record { live = live; calls = calls })).calls
        ≡ calls ++ update_status_call (judged live) ∷ []
  unfolding deferred update_status record_failed_reconcile
  deferred_plain live calls = refl

  -- Conditions are all that the overall judgement changes.
  overall_running :
      (exists failed wanted manual : Bool) (live : Live)
      → (set_overall env.clock exists failed wanted manual live).object.status.is_running
        ≡ live.object.status.is_running
  unfolding set_overall set_condition
  overall_running true failed true manual live = refl
  overall_running true failed false true live = refl
  overall_running true failed false false live = refl
  overall_running false true true manual live = refl
  overall_running false false true manual live = refl
  overall_running false true false true live = refl
  overall_running false false false true live = refl
  overall_running false failed false false live = refl

  error_running :
      (live : Live)
      → (set_error env.clock none live).object.status.is_running ≡ live.object.status.is_running
  unfolding set_error set_condition
  error_running live = refl

  judged_running : (live : Live) → (judged live).status.is_running ≡ live.object.status.is_running
  unfolding calculate_overall_conditions
  judged_running live = overall_running _ _ _ _ _ ∙ error_running live

  module _ (cal : Calendar) (auto_recreate : Bool) (now : Time) (cj : ControlledJob)
      (jobs : List Job) (s : ScheduleState) (c : Handle)
      (scheduled : state_for cal cj now ≡ some (ok s)) (awake : cj.spec.suspend ≢ some true)
      (settled : IsSettled env auto_recreate now (state_of env cj jobs s) c) where
    abbrev loaded : Live
    loaded = record { object = cj; readings = 0 }

    abbrev outcome : Outcome
    outcome = decide env auto_recreate now (state_of env cj jobs s) loaded

    unsuspended : (state_of env cj jobs s).is_suspended ≡ false
    unfolding state_of
    unsuspended = not_suspended cj.spec.suspend awake

    abbrev answer : ReconcileResult
    answer = record {
      requeue_after = sub_time (requeue_time (state_of env cj jobs s).next_event_time) now;
      error = none;
    }

    quiet :
        (calls : List Call)
        → reconcile_loaded env cluster cal auto_recreate now jobs
            (record { live = loaded; calls = calls })
          ≡ (some answer, deferred env cluster none (record { live = outcome.live; calls = calls }))
    unfolding reconcile_loaded reconcile_decided act_on return_ended
    quiet calls =
        let (e, creates, deletes, unsuspends, running) =
          decide_settled env auto_recreate now (state_of env cj jobs s) loaded c settled
            unsuspended in
        let (suspends, requeue) =
          decide_settled_rest env auto_recreate now (state_of env cj jobs s) loaded c settled
            unsuspended in
        rw
          (
            scheduled_decision env cal auto_recreate now jobs loaded s scheduled,
            e,
            carry_out_nothing outcome.decision (record { live = outcome.live; calls = calls })
                deletes creates suspends unsuspends,
            requeue,
          )
          refl

    -- Where a ControlledJob that is not suspended, its jobs and its schedule are found, the schedule
    -- wants a job, the best job that is not expired need not be replaced and may not be unsuspended,
    -- and every other job is being deleted or is completed and not expired, Reconcile makes three
    -- calls: it reads the ControlledJob, lists its jobs, and writes a status that says that a job
    -- runs, and whose condition Error is not True. It returns no error, and asks to be called again
    -- at the next event.
    pub reconcile_settled :
        (name namespace : String)
        → cluster.get name namespace ≡ (none, cj)
        → cluster.list name namespace ≡ (none, jobs)
        → (written : ControlledJob) × (reconcile env cluster cal auto_recreate name namespace now
            ≡ (
              some answer,
              get_call name namespace ∷ list_call name namespace ∷ update_status_call written ∷ [],
            ))
          × (written.status.is_running ≡ some true)
          × (says_error written ≡ false)
    unfolding reconcile reconcile_found
    reconcile_settled name namespace got listed =
        let (e, creates, deletes, unsuspends, running) =
          decide_settled env auto_recreate now (state_of env cj jobs s) loaded c settled
            unsuspended in
        let read = get_call name namespace ∷ list_call name namespace ∷ [] in
        (
          judged outcome.live,
          rw
              (
                load-found env cluster name namespace cj jobs got listed,
                quiet read,
                deferred_plain outcome.live read,
              )
              refl,
          judged_running outcome.live ∙ running,
          holds-error env.clock none outcome.live,
        )
