-- ===== src/Lifetime/Safety.antt =====
-- At most one job of a ControlledJob has pods in the cluster, however Reconcile of
-- pkg/reconciliation/reconcile.go runs.
use controlled_job.Base.{
  ◌≤◌, ◌≡◌, refl, sym, subst, Bool, none, List, [], ◌∷◌, ◌++◌, Memᴰ, any, false, arith,
}
use controlled_job.Base.Lists.Counting.{count-append, count_no}
use controlled_job.Base.Lists.Membership.{mem-append_left, mem-keep, not-mem_of_nil}
use controlled_job.Kube.{Time, Job}
use controlled_job.Api.Conditions.{Live}
use controlled_job.Env.{Env}
use controlled_job.Builder.Suspension.{OwnerKeepsSpec, KeepSuspension}
use controlled_job.Client.{Cluster, Call}
use controlled_job.State.{State, Handle, pointers_from}
use controlled_job.Decision.{decide, no_decision}
use controlled_job.Decision.Evolution.{active_count, carried, is_active}
use controlled_job.Decision.Evolution.Reachable.{decided_or_suspended, nothing_carried}
use controlled_job.Reconcile.Order.{plan}
use controlled_job.Reconcile.{reconcile}
use controlled_job.Lifetime.{
  IsJobStore, Runs, ended, meanwhile, Lives, begins, fades, joins, reconciles, is_named,
}
use controlled_job.Lifetime.Names.{HasDistinctNames, created-HasDistinctNames}
use controlled_job.Lifetime.Writes.{Wrote, nothing_written, decision_written, reconcile-Wrote}
use controlled_job.Lifetime.JobWrites.{is_job_write, job_writes}
use controlled_job.Lifetime.Invariant.{Runs-IsWithin, found-IsWithin, within_bound}
use controlled_job.Lifetime.Decided.{exclusive, waits, plan-Allowed}

-- Names are distinct, and at most one job may have pods.
pub record IsSafe (jobs : List Job) : Type 0 where
  pub distinct : HasDistinctNames jobs
  pub one_active : active_count jobs ≤ 1

-- A job that cannot have pods is added.
joined-IsSafe :
    (job : Job) (jobs : List Job)
    → any (is_named job.name) jobs ≡ false
    → is_active job ≡ false
    → IsSafe jobs
    → IsSafe (jobs ++ job ∷ [])
joined-IsSafe job jobs free quiet safe = record {
  distinct = created-HasDistinctNames job jobs free safe.distinct;
  one_active = omega (
    arith,
    count-append is_active jobs (job ∷ []),
    count_no is_active job [] quiet,
    safe.one_active,
  );
}

module _ (env : Env) (effect : Call → List Job → List Job) (law : IsJobStore effect)
    (keeps : OwnerKeepsSpec env) (mutators : KeepSuspension env.registered_mutators) where
  -- Where nothing is written, nothing is decided either.
  idle-IsSafe :
      (calls : List Call) (before after : List Job)
      → job_writes calls ≡ []
      → Runs effect calls before after
      → IsSafe before
      → IsSafe after
  idle-IsSafe calls before after none_written r safe =
      let w =
        Runs-IsWithin before no_decision effect law (λ c h m l. elim m [ ]) (λ h m. elim m [ ])
          calls before after r
          (λ c m e. absurd (not-mem_of_nil none_written (mem-keep is_job_write c calls m e)))
          (found-IsWithin before no_decision safe.distinct (λ h m. elim m [ ])) in
      record {
        distinct = w.distinct;
        one_active = within_bound before no_decision after w (
            subst (λ (l : List Job). active_count l ≤ 1)
              (sym (nothing_carried before 0 no_decision (pointers_from 0 before) refl refl refl))
              safe.one_active);
      }

  decided-IsSafe :
      (auto_recreate : Bool) (now : Time) (state : State) (live : Live) (calls rest : List Call)
      (cluster : Cluster) (before after : List Job)
      → state.all_jobs ≡ pointers_from 0 before
      → (decide env auto_recreate now state live).error ≡ none
      → job_writes calls ++ rest
        ≡ plan env cluster (decide env auto_recreate now state live).decision
      → Runs effect calls before after
      → IsSafe before
      → IsSafe after
  decided-IsSafe auto_recreate now state live calls rest cluster before after all e prefix r safe =
      let d = (decide env auto_recreate now state live).decision in
      let found : (h : Handle) → Memᴰ h d.jobs_to_unsuspend → Memᴰ h (pointers_from 0 before) =
        λ h m. subst (Memᴰ h) all (waits env auto_recreate now state live e keeps mutators h m) in
      let w =
        Runs-IsWithin before d effect law (exclusive env auto_recreate now state live e) found calls
          before after r
          (λ c m t. plan-Allowed env auto_recreate now state live e cluster c (
            subst (Memᴰ c) prefix
              (mem-append_left (job_writes calls) rest (mem-keep is_job_write c calls m t))))
          (found-IsWithin before d safe.distinct found) in
      record {
        distinct = w.distinct;
        one_active = within_bound before d after w (
            subst (λ (l : List Handle). active_count (carried d l) ≤ 1) all
              (decided_or_suspended env auto_recreate now state keeps mutators live before all e
                safe.one_active));
      }

  reconciled-IsSafe :
      (cluster : Cluster) (calls : List Call) (before after : List Job)
      → Wrote env cluster before calls
      → Runs effect calls before after
      → IsSafe before
      → IsSafe after
  reconciled-IsSafe cluster calls before after (nothing_written e) r safe =
      idle-IsSafe calls before after e r safe
  reconciled-IsSafe cluster calls before after
        (decision_written auto_recreate now state live rest all e prefix) r safe =
      decided-IsSafe auto_recreate now state live calls rest cluster before after all e prefix r
        safe

  -- If at first names were distinct and at most one job could have pods, so it stays, however
  -- Reconcile runs and whichever of its calls take effect, in turn with this: at any time jobs go, or
  -- change without becoming able to have pods and without ceasing to be completed; and between the
  -- runs a job that cannot have pods, such as a suspended one, is created under a free name. So it is
  -- left out that somebody else unsuspends a job or creates one that is not suspended. The API server
  -- is as it documents, Reconcile lists the jobs that there are, setting an owner keeps a job's
  -- specification, and no mutator unsuspends a job.
  pub Lives-IsSafe :
      (start jobs : List Job) → IsSafe start → Lives env effect start jobs → IsSafe jobs
  Lives-IsSafe start jobs safe begins = safe
  Lives-IsSafe start jobs safe (fades js ks past f) =
      idle-IsSafe [] js ks refl (meanwhile [] js ks ks f (ended ks))
        (Lives-IsSafe start js safe past)
  Lives-IsSafe start jobs safe (joins job js past free quiet) =
      joined-IsSafe job js free quiet (Lives-IsSafe start js safe past)
  Lives-IsSafe start jobs safe
        (reconciles js ks cluster cal auto_recreate name namespace now past listed r) =
      reconciled-IsSafe cluster (reconcile env cluster cal auto_recreate name namespace now).1 js ks
        (subst
          (λ (l : List Job).
            Wrote env cluster l (reconcile env cluster cal auto_recreate name namespace now).1)
          listed (reconcile-Wrote cluster name namespace env cal auto_recreate now))
        r (Lives-IsSafe start js safe past)
