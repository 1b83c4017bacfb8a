-- ===== src/Lifetime/Writes.antt =====
-- Which jobs Reconcile of pkg/reconciliation/reconcile.go writes: a first part of what its decision
-- asks for.
use controlled_job.Base.{
  ◌≡◌, refl, sym, ap, ◌∙◌, subst, String, Bool, Option, none, some, List, [], ◌++◌, arith, inl, inr,
  Option-cases, ◌⊎◌,
}
use controlled_job.Errors.{Error}
use controlled_job.Kube.{Time, Job}
use controlled_job.Api.{ControlledJob}
use controlled_job.Api.Conditions.{Live}
use controlled_job.Env.{Env}
use controlled_job.Schedule.{Calendar}
use controlled_job.State.{State, pointers_from}
use controlled_job.State.Build.{state_of}
use controlled_job.Client.{Cluster, World, Call, get_controlled_job}
use controlled_job.Decision.{Outcome, decide}
use controlled_job.Reconcile.Order.{plan, carry_out-Performed}
use controlled_job.Reconcile.Safety.{built}
use controlled_job.Reconcile.{
  return_ended, act_on, make_decision, reconcile_decided, reconcile_loaded, reconcile_found,
  reconcile, load_from_cluster,
}
use controlled_job.Reconcile.Operations.{carry_out}
use controlled_job.Lifetime.JobWrites.{
  job_writes, plan_only_writes, part_of_plan, after_deferred, after_return,
}

-- What a run of Reconcile on the jobs wrote: nothing, or a first part of what a decision on the jobs
-- asks for.
pub data Wrote (env : Env) (cluster : Cluster) (jobs : List Job) (calls : List Call) : Type 0 where
  nothing_written : job_writes calls ≡ [] → Wrote env cluster jobs calls
  decision_written :
      (auto_recreate : Bool) (now : Time) (state : State) (live : Live) (rest : List Call)
      → state.all_jobs ≡ pointers_from 0 jobs
      → (decide env auto_recreate now state live).error ≡ none
      → job_writes calls ++ rest
        ≡ plan env cluster (decide env auto_recreate now state live).decision
      → Wrote env cluster jobs calls

module _ (env : Env) (cluster : Cluster) (cal : Calendar) (auto_recreate : Bool) (now : Time)
    (jobs : List Job) where
  decided-Wrote :
      (state : State) (live : Live) (w : World)
      → state.all_jobs ≡ pointers_from 0 jobs
      → (decide env auto_recreate now state live).error ≡ none
      → job_writes w.calls ≡ []
      → Wrote env cluster jobs
          (return_ended env cluster now
            (decide env auto_recreate now state live).decision
            (carry_out env cluster (decide env auto_recreate now state live).decision w)).1.calls
  decided-Wrote state live w all e idle =
      let d = (decide env auto_recreate now state live).decision in
      let (rest, prefix) =
        part_of_plan env cluster (plan env cluster d) w (carry_out env cluster d w) idle
          (carry_out-Performed env cluster d w) in
      decision_written auto_recreate now state live rest all e (
        ap (λ (l : List Call). l ++ rest)
          (after_return env cluster now d (carry_out env cluster d w))
        ∙ prefix
        ∙ plan_only_writes env cluster d)

  acted-Wrote :
      (live : Live) (o : Outcome) (w : World)
      → make_decision env cal auto_recreate now jobs live ≡ some o
      → job_writes w.calls ≡ []
      → Wrote env cluster jobs (act_on env cluster now o.decision o.error w).1.calls
  unfolding act_on state_of
  acted-Wrote live o w made idle = elim (Option-cases o.error) [
    | inr (x, e) ↦ rw e (nothing_written (after_deferred env cluster (some x) w ∙ idle))
    | inl e ↦
        let (s, p, q) = built env cal auto_recreate now jobs live o made e in
        rw (e, q)
          (decided-Wrote (state_of env live.object jobs s) live w refl
            (ap (λ (r : Outcome). r.error) (sym q) ∙ e) idle)
  ]

  loaded-Wrote :
      (w : World)
      → job_writes w.calls ≡ []
      → Wrote env cluster jobs (reconcile_loaded env cluster cal auto_recreate now jobs w).1.calls
  unfolding reconcile_loaded reconcile_decided
  loaded-Wrote w idle = elim (Option-cases (make_decision env cal auto_recreate now jobs w.live)) [
    | inl e ↦ rw e (nothing_written (after_deferred env cluster none w ∙ idle))
    | inr (o, e) ↦ rw e (acted-Wrote w.live o _ e idle)
  ]

  found-Wrote :
      (loaded : Option (ControlledJob × List Job)) (e : Option Error) (calls : List Call)
      → (loaded ≡ none) ⊎ ((cj : ControlledJob) × (loaded ≡ some (cj, jobs)))
      → job_writes calls ≡ []
      → Wrote env cluster jobs
          (reconcile_found env cluster cal auto_recreate now (loaded, e, calls)).1
  unfolding reconcile_found
  found-Wrote loaded (some e) calls which idle = nothing_written idle
  found-Wrote none none calls which idle = nothing_written idle
  found-Wrote (some l) none calls (inl e) idle = absurd (ground (arith, e))
  found-Wrote (some l) none calls (inr (cj, e)) idle =
      subst
        (λ (x : Option (ControlledJob × List Job)).
          Wrote env cluster jobs
            (reconcile_found env cluster cal auto_recreate now (x, none, calls)).1)
        (sym e)
        (loaded-Wrote (record { live = record { object = cj; readings = 0 }; calls = calls }) idle)

module _ (cluster : Cluster) (name namespace : String) where
  abbrev load : (Option (ControlledJob × List Job)) × (Option Error) × List Call
  load = load_from_cluster cluster name namespace

  loaded_jobs :
      (load.0 ≡ none)
      ⊎ ((cj : ControlledJob) × (load.0 ≡ some (cj, (cluster.list name namespace).1)))
  unfolding load_from_cluster get_controlled_job
  loaded_jobs = elim (Option-cases (cluster.get name namespace).0) [
    | inr (x, e) ↦ inl (ground (arith, e))
    | inl e ↦ elim (Option-cases (cluster.list name namespace).0) [
      | inr (y, f) ↦ inl (ground (arith, e, f))
      | inl f ↦ inr ((cluster.get name namespace).1, ground (arith, e, f))
    ]
  ]

  loading_idle : job_writes load.2 ≡ []
  unfolding load_from_cluster get_controlled_job
  loading_idle = ground arith

  -- Whatever is loaded, Reconcile writes on jobs only what its decision on the listed jobs asks for.
  pub reconcile-Wrote :
      (env : Env) (cal : Calendar) (auto_recreate : Bool) (now : Time)
      → Wrote env cluster
          (cluster.list name namespace).1
          (reconcile env cluster cal auto_recreate name namespace now).1
  unfolding reconcile
  reconcile-Wrote env cal auto_recreate now =
      found-Wrote env cluster cal auto_recreate now (cluster.list name namespace).1 load.0 load.1
        load.2 loaded_jobs loading_idle
