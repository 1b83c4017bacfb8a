-- ===== src/Lifetime/JobWrites.antt =====
-- The calls of Reconcile of pkg/reconciliation/reconcile.go that write jobs, against those that its
-- decision asks for.
use mathlib.Core.List.{append_assoc, append-nil}
use controlled_job.Base.{
  ◌≡◌, refl, sym, ap, ◌∙◌, Bool, true, false, Option, none, some, List, [], ◌∷◌, ◌++◌, map, keep,
  inl, inr, Bool-cases,
}
use controlled_job.Errors.{Error}
use controlled_job.Kube.{Time, Job}
use controlled_job.Env.{Env}
use controlled_job.State.{Handle}
use controlled_job.Client.{
  Cluster, World, Call, get_call, list_call, create_call, update_call, delete_call,
  update_status_call, update_object_call, event_call, with_suspend, record_action, record_event,
  update_status,
}
use controlled_job.Decision.{Decision}
use controlled_job.Reconcile.Order.{writes, writes-append, Performed, plan}
use controlled_job.Reconcile.{deferred, record_failed_reconcile, return_ended}
use controlled_job.Reconcile.Operations.{Ended, completed, stopped}

-- The calls that write a job.
abbrev pub is_job_write : Call → Bool
is_job_write (create_call job) = true
is_job_write (update_call job) = true
is_job_write (delete_call job propagation) = true
is_job_write _ = false

abbrev pub job_writes : List Call → List Call
job_writes = keep is_job_write

job_writes-append : (xs ys : List Call) → job_writes (xs ++ ys) ≡ job_writes xs ++ job_writes ys
job_writes-append [] ys = refl
job_writes-append (c ∷ xs) ys = elim (Bool-cases (is_job_write c)) [
  | inl e ↦ rw (e, job_writes-append xs ys)
  | inr e ↦ rw (e, job_writes-append xs ys)
]

of_write : (c : Call) → job_writes (writes (c ∷ [])) ≡ job_writes (c ∷ [])
of_write (get_call a b) = refl
of_write (list_call a b) = refl
of_write (create_call a) = refl
of_write (update_call a) = refl
of_write (delete_call a b) = refl
of_write (update_status_call a) = refl
of_write (update_object_call a) = refl
of_write (event_call a b c) = refl

job_writes-writes : (cs : List Call) → job_writes (writes cs) ≡ job_writes cs
job_writes-writes [] = refl
job_writes-writes (c ∷ cs) =
    ap job_writes (writes-append (c ∷ []) cs)
    ∙ job_writes-append (writes (c ∷ [])) (writes cs)
    ∙ cc (of_write c, job_writes-writes cs, job_writes-append (c ∷ []) cs)

only_writes :
    (f : Job → Call)
    → ((job : Job) → is_job_write (f job) ≡ true)
    → (hs : List Handle)
    → job_writes (map (λ (h : Handle). f h.job) hs) ≡ map (λ (h : Handle). f h.job) hs
only_writes f all [] = refl
only_writes f all (h ∷ hs) = rw (all h.job, only_writes f all hs)

module _ (env : Env) (cluster : Cluster) where
  pub plan_only_writes : (d : Decision) → job_writes (plan env cluster d) ≡ plan env cluster d
  plan_only_writes d =
      let deletes =
        only_writes (λ job. delete_call job "Foreground") (λ job. refl) d.jobs_to_delete in
      let creates = only_writes create_call (λ job. refl) d.jobs_to_create in
      let suspends =
        only_writes (λ job. update_call (with_suspend true job)) (λ job. refl) d.jobs_to_suspend in
      let unsuspends =
        only_writes (λ job. update_call (with_suspend false job)) (λ job. refl)
          d.jobs_to_unsuspend in
      job_writes-append (map (λ (h : Handle). delete_call h.job "Foreground") d.jobs_to_delete) _
      ∙ rw
          (
            deletes,
            job_writes-append (map (λ (h : Handle). create_call h.job) d.jobs_to_create) (
                map (λ (h : Handle). update_call (with_suspend true h.job)) d.jobs_to_suspend
                ++ map (λ (h : Handle). update_call (with_suspend false h.job))
                    d.jobs_to_unsuspend),
            creates,
            job_writes-append
                (map (λ (h : Handle). update_call (with_suspend true h.job)) d.jobs_to_suspend)
                (map (λ (h : Handle). update_call (with_suspend false h.job)) d.jobs_to_unsuspend),
            suspends,
            unsuspends,
          )
          refl

  abbrev pub calls_of : Ended → List Call
  calls_of (completed w) = w.calls
  calls_of (stopped e w) = w.calls

  -- The writes are the first ones of the plan.
  pub part_of_plan :
      (p : List Call) (w : World) (r : Ended)
      → job_writes w.calls ≡ []
      → Performed env cluster p w r
      → (rest : List Call) × (job_writes (calls_of r) ++ rest ≡ job_writes p)
  part_of_plan p w (completed v) e h = (
    [],
    append-nil (job_writes v.calls)
        ∙ sym (job_writes-writes v.calls)
        ∙ ap job_writes h
        ∙ job_writes-append (writes w.calls) p
        ∙ rw (job_writes-writes w.calls, e) refl,
  )
  part_of_plan p w (stopped x v) e (done, c, rest, before, split, made, last, refused) =
      let before_lem : job_writes before ≡ job_writes done =
        sym (job_writes-writes before)
        ∙ ap job_writes made
        ∙ job_writes-append (writes w.calls) done
        ∙ rw (job_writes-writes w.calls, e) refl in
      (
        job_writes rest,
        rw
            (
              last,
              job_writes-append before (c ∷ []),
              before_lem,
              split,
              job_writes-append done (c ∷ rest),
              job_writes-append (c ∷ []) rest,
            )
            (append_assoc (job_writes done) (job_writes (c ∷ [])) (job_writes rest)),
      )

  after_event :
      (e : Option Error) (w : World)
      → job_writes (record_failed_reconcile env.clock e w).calls ≡ job_writes w.calls
  unfolding record_failed_reconcile record_action record_event
  after_event none w = refl
  after_event (some e) w = job_writes-append w.calls _ ∙ append-nil (job_writes w.calls)

  pub after_deferred :
      (e : Option Error) (w : World)
      → job_writes (deferred env cluster e w).calls ≡ job_writes w.calls
  unfolding deferred update_status
  after_deferred e w =
      after_event e _ ∙ job_writes-append w.calls _ ∙ append-nil (job_writes w.calls)

  pub after_return :
      (now : Time) (d : Decision) (r : Ended)
      → job_writes (return_ended env cluster now d r).1.calls ≡ job_writes (calls_of r)
  unfolding return_ended
  after_return now d (completed w) = after_deferred none w
  after_return now d (stopped e w) = after_deferred (some e) w
