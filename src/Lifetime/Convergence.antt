-- ===== src/Lifetime/Convergence.antt =====
-- A second run of Reconcile of pkg/reconciliation/reconcile.go, after the one that starts the first
-- job of a run period.
mod Tests
use controlled_job.Base.{
  or_false, ◌≡◌, ◌≢◌, refl, sym, ap, ◌∙◌, subst, String, Bool, true, false, Option, none, some,
  List, [], ◌∷◌, ◌++◌, arith, Memᴰ, inl, inr, Option-cases, str_eq,
}
use controlled_job.Base.Lists.Membership.{mem-append_left, mem-keep, not-mem_of_nil}
use controlled_job.Errors.{Error, ok}
use controlled_job.Kube.{Time, Job}
use controlled_job.Api.{ControlledJob, ControlledJobSpec}
use controlled_job.Api.Conditions.{Live}
use controlled_job.Env.{Env}
use controlled_job.Metadata.{calculate_hash_for, lookup, apply_mutations_annotation}
use controlled_job.Builder.Annotations.{OwnerKeepsAnnotations}
use controlled_job.Schedule.{Calendar}
use controlled_job.Schedule.Period.{state_for, ScheduleState, should_be_running, next_event_time}
use controlled_job.State.{State, Handle, pointers_from}
use controlled_job.State.Build.{state_of}
use controlled_job.Client.{
  Cluster, World, Call, get_call, list_call, create_call, update_status_call,
}
use controlled_job.Decision.{Decision, Outcome, decide}
use controlled_job.Decision.Settled.{IsSettled, requeue_time}
use controlled_job.Decision.Convergence.Later.{GoesOn, is_before_stop, later-IsSettled}
use controlled_job.Reconcile.Order.{plan}
use controlled_job.Reconcile.Status.{says_error, load-found}
use controlled_job.Reconcile.Safety.{not_suspended, scheduled_decision}
use controlled_job.Reconcile.Settled.{reconcile_settled}
use controlled_job.Reconcile.{
  act_on, return_ended, reconcile_decided, reconcile_loaded, reconcile_found, reconcile,
}
use controlled_job.Reconcile.Operations.{carry_out}
use controlled_job.Reconcile.Results.{sub_time}
use controlled_job.Reconcile.Order.{carry_out-Performed}
use controlled_job.Lifetime.Bounded.{Allowed, deleting, creating, unsuspending}
use controlled_job.Lifetime.Decided.{creates_one, plan-Allowed}
use controlled_job.Lifetime.JobWrites.{
  is_job_write, job_writes, plan_only_writes, part_of_plan, after_deferred, after_return,
}

created_handle :
    (d : Decision) (c : Call) (j : Job)
    → Allowed d c
    → c ≡ create_call j
    → (h : Handle) × Memᴰ h d.jobs_to_create × (h.job ≡ j)
created_handle d c j (deleting job propagation) e = absurd (cc e)
created_handle d c j (creating h m) e = (h, m, cc e)
created_handle d c j (unsuspending h m) e = absurd (cc e)

-- Inside a run period the state wants what the schedule wants.
state_wants :
    (env : Env) (cj : ControlledJob) (jobs : List Job) (s : ScheduleState) (t : Time)
    → s.start_of_current_run_period ≡ some t
    → should_be_running s ≡ true
    → (state_of env cj jobs s).should_be_running ≡ some true
unfolding state_of
state_wants env cj jobs s t starts wanted = rw (starts, wanted) refl

-- The same run period, with the job that was created.
goes_on :
    (env : Env) (cj later_cj : ControlledJob) (s : ScheduleState) (t : Time) (c : Handle)
    (j job : Job)
    → s.start_of_current_run_period ≡ some t
    → should_be_running s ≡ true
    → cj.spec.suspend ≢ some true
    → later_cj.spec ≡ cj.spec
    → c.job ≡ j
    → job.annotations ≡ j.annotations
    → job.spec ≡ j.spec
    → job.deletion_timestamp ≡ j.deletion_timestamp
    → GoesOn (state_of env cj [] s) c (state_of env later_cj (job ∷ []) s) job
unfolding state_of
goes_on env cj later_cj s t c j job starts wanted awake same_spec same a b d = record {
  not_suspended =
      ap (λ (x : ControlledJobSpec). or_false x.suspend) same_spec
      ∙ not_suspended cj.spec.suspend awake;
  wanted = state_wants env later_cj (job ∷ []) s t starts wanted;
  same_hash =
      ap (λ (x : ControlledJobSpec). calculate_hash_for env.digest x.job_template) same_spec;
  only = refl;
  same_annotations = a ∙ ap (λ (x : Job). x.annotations) (sym same);
  same_spec = b ∙ ap (λ (x : Job). x.spec) (sym same);
  same_deletion = d ∙ ap (λ (x : Job). x.deletion_timestamp) (sym same);
}

module _ (env : Env) (cal : Calendar) (auto_recreate : Bool) (now : Time) (cj : ControlledJob)
    (s : ScheduleState) (scheduled : state_for cal cj now ≡ some (ok s)) where
  abbrev at_first : State
  at_first = state_of env cj [] s

  abbrev loaded : Live
  loaded = record { object = cj; readings = 0 }

  abbrev outcome : Outcome
  outcome = decide env auto_recreate now at_first loaded

  module _ (cluster : Cluster) (name namespace : String)
      (got : cluster.get name namespace ≡ (none, cj))
      (listed : cluster.list name namespace ≡ (none, [])) where
    abbrev begun : World
    begun = record {
      live = outcome.live;
      calls = get_call name namespace ∷ list_call name namespace ∷ [];
    }

    loaded_calls :
        (calls : List Call)
        → (reconcile_loaded env cluster cal auto_recreate now []
            (record { live = loaded; calls = calls })).1
          ≡ (act_on env cluster now outcome.decision outcome.error
              (record { live = outcome.live; calls = calls })).1
    unfolding reconcile_loaded reconcile_decided
    loaded_calls calls =
        rw (scheduled_decision env cal auto_recreate now [] loaded s scheduled) refl

    first_calls :
        (reconcile env cluster cal auto_recreate name namespace now).1
        ≡ (act_on env cluster now outcome.decision outcome.error begun).1.calls
    unfolding reconcile reconcile_found
    first_calls =
        rw (load-found env cluster name namespace cj [] got listed)
          (ap (λ (w : World). w.calls) (loaded_calls begun.calls))

    -- The job that is created is the one that the decision asks for.
    created_lem :
        (j : Job)
        → Memᴰ (create_call j) (reconcile env cluster cal auto_recreate name namespace now).1
        → (outcome.error ≡ none)
          × (c : Handle) × (outcome.decision.jobs_to_create ≡ c ∷ [])
          × (c.job ≡ j)
    unfolding act_on
    created_lem j m =
        let d = outcome.decision in
        let made = subst (Memᴰ (create_call j)) first_calls m in
        elim (Option-cases outcome.error) [
          | inr (x, e) ↦ absurd (
              not-mem_of_nil (after_deferred env cluster (some x) begun) (
                mem-keep is_job_write (create_call j) _
                  (subst
                    (λ (y : Option Error).
                      Memᴰ (create_call j) (act_on env cluster now d y begun).1.calls)
                    e made)
                  refl))
          | inl e ↦
              let (rest, prefix) =
                part_of_plan env cluster (plan env cluster d) begun (carry_out env cluster d begun)
                  refl (carry_out-Performed env cluster d begun) in
              let written =
                mem-keep is_job_write (create_call j) _
                  (subst
                    (λ (y : Option Error).
                      Memᴰ (create_call j) (act_on env cluster now d y begun).1.calls)
                    e made)
                  refl in
              let asked =
                subst (Memᴰ (create_call j))
                  (ap (λ (l : List Call). l ++ rest)
                      (after_return env cluster now d (carry_out env cluster d begun))
                    ∙ prefix
                    ∙ plan_only_writes env cluster d)
                  (mem-append_left _ rest written) in
              let (h, there, same) =
                created_handle d (create_call j) j
                  (plan-Allowed env auto_recreate now at_first loaded e cluster (create_call j)
                    asked)
                  refl in
              (e, h, creates_one env auto_recreate now at_first loaded e h there, same)
        ]

    -- In the run period of a ControlledJob that is not suspended, whose schedule wants a job while it
    -- has none, Reconcile makes the call that creates the job `j`. Then, in the same run period, that
    -- job alone is listed, under any name and with any status, but with its annotations,
    -- specification and deletion timestamp, and the specification of the ControlledJob is the same;
    -- the last stop is not after the start as it reads back. Then Reconcile makes three calls: it
    -- reads the ControlledJob, lists its jobs, and writes a status that says that a job runs, and
    -- whose condition Error is not True. It returns no error, and asks to be called again at the
    -- next event. Setting an owner keeps a job's annotations, and the ControlledJob asks for no
    -- mutators.
    pub second_run_settles :
        (j job : Job) (t r : Time) (later_cluster : Cluster) (later_cj : ControlledJob)
        (restart : Bool) (later_now : Time)
        → OwnerKeepsAnnotations env
        → lookup apply_mutations_annotation cj.annotations ≡ none
        → cj.spec.suspend ≢ some true
        → should_be_running s ≡ true
        → s.start_of_current_run_period ≡ some t
        → str_eq (env.format_time t) "" ≡ false
        → env.parse_time (env.format_time t) ≡ ok r
        → is_before_stop r s.last_stop_time ≡ false
        → Memᴰ (create_call j) (reconcile env cluster cal auto_recreate name namespace now).1
        → later_cluster.get name namespace ≡ (none, later_cj)
        → later_cluster.list name namespace ≡ (none, job ∷ [])
        → later_cj.spec ≡ cj.spec
        → job.annotations ≡ j.annotations
        → job.spec ≡ j.spec
        → job.deletion_timestamp ≡ j.deletion_timestamp
        → state_for cal later_cj later_now ≡ some (ok s)
        → (written : ControlledJob) × (reconcile env later_cluster cal restart name namespace
              later_now
            ≡ (
              some (record {
                requeue_after = sub_time (requeue_time (next_event_time s)) later_now;
                error = none;
              }),
              get_call name namespace ∷ list_call name namespace ∷ update_status_call written ∷ [],
            ))
          × (written.status.is_running ≡ some true)
          × (says_error written ≡ false)
    unfolding state_of pointers_from
    second_run_settles j job t r later_cluster later_cj restart later_now keeps plain awake wanted
          starts shown parsed past created found alone same_spec a b k later_scheduled =
        let (e, c, one, same) = created_lem j created in
        reconcile_settled env later_cluster cal restart later_now later_cj (job ∷ []) s
          (record { addr = 0; job = job }) later_scheduled
          (subst (λ (x : ControlledJobSpec). x.suspend ≢ some true) (sym same_spec) awake)
          (later-IsSettled env auto_recreate now at_first loaded keeps plain refl c t r
            (state_of env later_cj (job ∷ []) s) job restart later_now
            (not_suspended cj.spec.suspend awake) refl (state_wants env cj [] s t starts wanted) e
            one starts shown parsed
            (goes_on env cj later_cj s t c j job starts wanted awake same_spec same a b k) past)
          name namespace found alone
