-- ===== src/Reconcile/Status.antt =====
-- What Reconcile of pkg/reconciliation/reconcile.go writes to the status.
use mathlib.Core.List.{append_assoc, append-nil}
use controlled_job.Base.{
  ℕ, ◌≡◌, ◌∙◌, sym, ap, refl, String, Bool, true, false, Option, none, some, List, [], ◌∷◌, ◌++◌,
  map, is_some, arith,
}
use controlled_job.Errors.{Error}
use controlled_job.Kube.{Time, Job}
use controlled_job.Api.{ControlledJob, ActionHistoryEntry}
use controlled_job.Api.Conditions.{Live}
use controlled_job.Api.ConditionTypes.{condition_type_error}
use controlled_job.Env.{Env}
use controlled_job.Schedule.{Calendar}
use controlled_job.State.{Handle}
use controlled_job.Decision.{Decision, Outcome}
use controlled_job.Client.{
  Cluster, World, Call, get_call, list_call, create_call, update_call, delete_call,
  update_status_call, update_object_call, event_call, record_action, record_event, update_status,
  get_controlled_job, with_suspend,
}
use controlled_job.Reconcile.Overall.{holds, calculate_overall_conditions}
use controlled_job.Reconcile.Overall.Exclusive.{holds-error}
use controlled_job.Reconcile.Order.{writes, writes-append, Performed, plan, carry_out-Performed}
use controlled_job.Reconcile.{
  deferred, record_failed_reconcile, return_ended, act_on, reconcile_decided, reconcile_loaded,
  reconcile_found, reconcile, load_from_cluster,
}
use controlled_job.Reconcile.Operations.{Ended, completed, stopped, carry_out}
use controlled_job.Reconcile.Results.{
  ReconcileResult, transient_error_result, non_retryable_error_result,
}

abbrev updated : Call → List ControlledJob
updated (update_status_call cj) = cj ∷ []
updated _ = []

-- The statuses written by a sequence of calls.
abbrev pub status_updates : List Call → List ControlledJob
status_updates [] = []
status_updates (c ∷ cs) = updated c ++ status_updates cs

status_updates-append :
    (xs ys : List Call) → status_updates (xs ++ ys) ≡ status_updates xs ++ status_updates ys
status_updates-append [] ys = refl
status_updates-append (c ∷ xs) ys =
    ap (λ (l : List ControlledJob). updated c ++ l) (status_updates-append xs ys)
    ∙ sym (append_assoc (updated c) (status_updates xs) (status_updates ys))

updated-event : (c : Call) → status_updates (writes (c ∷ [])) ≡ updated c
updated-event (get_call a b) = refl
updated-event (list_call a b) = refl
updated-event (create_call a) = refl
updated-event (update_call a) = refl
updated-event (delete_call a b) = refl
updated-event (update_status_call a) = refl
updated-event (update_object_call a) = refl
updated-event (event_call a b c) = refl

status_updates-writes : (cs : List Call) → status_updates (writes cs) ≡ status_updates cs
status_updates-writes [] = refl
status_updates-writes (c ∷ cs) =
    ap status_updates (writes-append (c ∷ []) cs)
    ∙ status_updates-append (writes (c ∷ [])) (writes cs)
    ∙ cc (updated-event c, status_updates-writes cs)

no_updates :
    (f : Job → Call) (hs : List Handle) (cs : List Call)
    → ((job : Job) → updated (f job) ≡ [])
    → status_updates cs ≡ []
    → status_updates (map (λ (h : Handle). f h.job) hs ++ cs) ≡ []
no_updates f [] cs none_of e = e
no_updates f (h ∷ hs) cs none_of e = rw (none_of h.job, no_updates f hs cs none_of e)

updates_of_event :
    (clock : ℕ → Time) (action : Time → ActionHistoryEntry) (w : World)
    → status_updates (record_action clock action w).calls ≡ status_updates w.calls
unfolding record_action record_event
updates_of_event clock action w =
    status_updates-append w.calls _ ∙ append-nil (status_updates w.calls)

updates-record_failed :
    (clock : ℕ → Time) (e : Option Error) (w : World)
    → status_updates (record_failed_reconcile clock e w).calls ≡ status_updates w.calls
unfolding record_failed_reconcile
updates-record_failed clock none w = refl
updates-record_failed clock (some e) w = updates_of_event clock _ w

-- What the status says of an error.
abbrev pub says_error : ControlledJob → Bool
says_error cj = holds condition_type_error (record { object = cj; readings = 0 })

module _ (env : Env) (cluster : Cluster) where
  -- One status was written, and it says whether there was an error.
  abbrev Reported : List Call → Bool → List Call → Type 0
  Reported before failed after =
      (cj : ControlledJob) × (status_updates after ≡ status_updates before ++ cj ∷ [])
      × (says_error cj ≡ failed)

  Reported-deferred :
      (e : Option Error) (w : World) → Reported w.calls (is_some e) (deferred env cluster e w).calls
  unfolding deferred update_status
  Reported-deferred e w = (
    judged.object,
    updates-record_failed env.clock e _
        ∙ status_updates-append w.calls (update_status_call judged.object ∷ []),
    holds-error env.clock e w.live,
  )
    where
      judged : Live
      judged = calculate_overall_conditions env.clock e w.live

  updates-plan : (d : Decision) → status_updates (plan env cluster d) ≡ []
  updates-plan d =
      no_updates (λ job. delete_call job "Foreground") d.jobs_to_delete _ (λ job. refl)
        (no_updates create_call d.jobs_to_create _ (λ job. refl)
          (no_updates (λ job. update_call (with_suspend true job)) d.jobs_to_suspend _ (λ job. refl)
            (rw
              (← append-nil
                (map (λ (h : Handle). update_call (with_suspend false h.job)) d.jobs_to_unsuspend))
              (no_updates (λ job. update_call (with_suspend false job)) d.jobs_to_unsuspend []
                (λ job. refl) refl))))

  abbrev world_of : Ended → World
  world_of (completed w) = w
  world_of (stopped e w) = w

  both_empty : (xs ys : List ControlledJob) → xs ++ ys ≡ [] → (xs ≡ []) × (ys ≡ [])
  both_empty [] ys e = (refl, e)
  both_empty (x ∷ xs) ys e = absurd (ground (arith, e))

  -- Carrying out writes no status.
  updates-Performed :
      (p : List Call) (w : World) (r : Ended)
      → status_updates p ≡ []
      → Performed env cluster p w r
      → status_updates (world_of r).calls ≡ status_updates w.calls
  updates-Performed p w (completed v) e h =
      sym (status_updates-writes v.calls)
      ∙ ap status_updates h
      ∙ status_updates-append (writes w.calls) p
      ∙ cc (status_updates-writes w.calls, e, append-nil (status_updates w.calls))
  updates-Performed p w (stopped x v) e (done, c, rest, before, split, made, last, refused) =
      let (e₁, e₂) =
        both_empty (status_updates done) (status_updates (c ∷ rest))
          (sym (status_updates-append done (c ∷ rest)) ∙ ap status_updates (sym split) ∙ e) in
      let (e₃, e₄) = both_empty (updated c) (status_updates rest) e₂ in
      ap status_updates last
      ∙ status_updates-append before (c ∷ [])
      ∙ cc (
        sym (status_updates-writes before),
        ap status_updates made,
        status_updates-append (writes w.calls) done,
        status_updates-writes w.calls,
        e₁,
        e₃,
        append-nil (status_updates w.calls),
      )

  abbrev pub reports_error : Option ReconcileResult → Bool
  reports_error none = false
  reports_error (some r) = is_some r.error

  Reported-from :
      (before between after : List Call) (b : Bool)
      → status_updates between ≡ status_updates before
      → Reported between b after
      → Reported before b after
  Reported-from before between after b e (cj, writes_it, says) = (cj, rw (sym e) writes_it, says)

  returned-Reported :
      (now : Time) (d : Decision) (before : List Call) (r : Ended)
      → status_updates (world_of r).calls ≡ status_updates before
      → let (res, done) = return_ended env cluster now d r in
        Reported before (is_some res.error) done.calls
  unfolding return_ended transient_error_result
  returned-Reported now d before (completed w) e =
      Reported-from before w.calls (deferred env cluster none w).calls false e
        (Reported-deferred none w)
  returned-Reported now d before (stopped x w) e =
      Reported-from before w.calls (deferred env cluster (some x) w).calls true e
        (Reported-deferred (some x) w)

  acted-Reported :
      (now : Time) (d : Decision) (e : Option Error) (w : World)
      → let (res, done) = act_on env cluster now d e w in
        Reported w.calls (is_some res.error) done.calls
  unfolding act_on non_retryable_error_result
  acted-Reported now d none w = returned-Reported now d w.calls (carry_out env cluster d w) (
      updates-Performed (plan env cluster d) w (carry_out env cluster d w) (updates-plan d)
        (carry_out-Performed env cluster d w))
  acted-Reported now d (some e) w = Reported-deferred (some e) w

  decided-Reported :
      (now : Time) (o : Option Outcome) (w : World)
      → let (r, done) = reconcile_decided env cluster now o w in
        Reported w.calls (reports_error r) done.calls
  unfolding reconcile_decided
  decided-Reported now none w = Reported-deferred none w
  decided-Reported now (some o) w = acted-Reported now o.decision o.error _

  pub load-found :
      (name namespace : String) (cj : ControlledJob) (jobs : List Job)
      → cluster.get name namespace ≡ (none, cj)
      → cluster.list name namespace ≡ (none, jobs)
      → load_from_cluster cluster name namespace
        ≡ (some (cj, jobs), none, get_call name namespace ∷ list_call name namespace ∷ [])
  unfolding load_from_cluster get_controlled_job
  load-found name namespace cj jobs got listed = ground (arith, got, listed)

  -- Once a ControlledJob and its jobs are loaded, Reconcile writes its status exactly once, and the
  -- condition Error of that status is True exactly if Reconcile returns an error.
  pub reconcile-Reported :
      (cal : Calendar) (auto_recreate : Bool) (name namespace : String) (now : Time)
      (cj : ControlledJob) (jobs : List Job)
      → cluster.get name namespace ≡ (none, cj)
      → cluster.list name namespace ≡ (none, jobs)
      → let (r, calls) = reconcile env cluster cal auto_recreate name namespace now in
        (written : ControlledJob) × (status_updates calls ≡ written ∷ [])
        × (says_error written ≡ reports_error r)
  unfolding reconcile reconcile_found reconcile_loaded
  reconcile-Reported cal auto_recreate name namespace now cj jobs got listed =
      rw (load-found name namespace cj jobs got listed) (decided-Reported now _ _)
