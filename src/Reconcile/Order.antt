-- ===== src/Reconcile/Order.antt =====
-- In which order Reconcile of pkg/reconciliation/reconcile.go writes to the cluster.
use mathlib.Core.List.{append_assoc, append-nil}
use controlled_job.Base.{
  ℕ, ◌≡◌, ◌∙◌, sym, ap, refl, Bool, true, false, Option, none, some, List, [], ◌∷◌, ◌++◌, map, keep,
  is_some, arith, Option-cases, inl, inr, Bool-cases,
}
use controlled_job.Errors.{Error}
use controlled_job.Kube.{Time, Job}
use controlled_job.Api.{ActionHistoryEntry}
use controlled_job.Env.{Env}
use controlled_job.State.{Handle}
use controlled_job.Decision.{Decision}
use controlled_job.Client.{
  Cluster, World, Call, create_call, update_call, delete_call, event_call, calling, with_suspend,
  record_action, record_event, delete_job, create_job, suspend_job, unsuspend_job, Failure,
  ignore_not_found, error_of,
}
use controlled_job.Reconcile.Operations.{
  Ended, completed, stopped, and_then, each, Operation, perform_step, deletion, creation,
  suspension, unsuspension, carry_out,
}

-- Events are no writes.
abbrev pub is_write : Call → Bool
is_write (event_call kind reason text) = false
is_write _ = true

abbrev pub writes : List Call → List Call
writes = keep is_write

pub writes-append : (xs ys : List Call) → writes (xs ++ ys) ≡ writes xs ++ writes ys
writes-append [] ys = refl
writes-append (c ∷ xs) ys = elim (Bool-cases (is_write c)) [
  | inl e ↦ rw (e, writes-append xs ys)
  | inr e ↦ rw (e, writes-append xs ys)
]

calls-record_action :
    (clock : ℕ → Time) (action : Time → ActionHistoryEntry) (w : World)
    → writes (record_action clock action w).calls ≡ writes w.calls
unfolding record_action record_event
calls-record_action clock action w = writes-append w.calls _ ∙ append-nil (writes w.calls)

module _ (env : Env) (cluster : Cluster) where
  -- A loop either made all writes of its plan after those made before, or stopped at one of them,
  -- with those before it made, because the cluster refused it.
  abbrev pub Performed : List Call → World → Ended → Type 0
  Performed plan w (completed v) = writes v.calls ≡ writes w.calls ++ plan
  Performed plan w (stopped e v) =
      (done : List Call) × (c : Call) × (rest : List Call) × (before : List Call) × (plan
        ≡ done ++ c ∷ rest)
      × (writes before ≡ writes w.calls ++ done)
      × (v.calls ≡ before ++ c ∷ [])
      × (is_some (cluster.answer before c) ≡ true)

  shifted :
      (p q : List Call) (w v : World) (r : Ended)
      → writes v.calls ≡ writes w.calls ++ p
      → Performed q v r
      → Performed (p ++ q) w r
  shifted p q w v (completed u) e h =
      h ∙ ap (λ (l : List Call). l ++ q) e ∙ append_assoc (writes w.calls) p q
  shifted p q w v (stopped x u) e (done, c, rest, before, split, made, last, refused) = (
    p ++ done,
    c,
    rest,
    before,
    ap (λ (l : List Call). p ++ l) split ∙ sym (append_assoc p done (c ∷ rest)),
    made ∙ ap (λ (l : List Call). l ++ done) e ∙ append_assoc (writes w.calls) p done,
    last,
    refused,
  )

  pub Performed-and_then :
      (p q : List Call) (w : World) (r : Ended) (f : World → Ended)
      → Performed p w r
      → ((v : World) → Performed q v (f v))
      → Performed (p ++ q) w (and_then r f)
  Performed-and_then p q w (completed v) f h k = shifted p q w v (f v) h (k v)
  Performed-and_then p q w (stopped e v) f (done, c, rest, before, split, made, last, refused) k = (
    done,
    c,
    rest ++ q,
    before,
    ap (λ (l : List Call). l ++ q) split ∙ append_assoc done (c ∷ rest) q,
    made,
    last,
    refused,
  )

  -- An operation makes one call, and fails only if the cluster refuses it.
  abbrev Makes : Operation → (Job → Call) → Type 0
  Makes op f =
      (job : Job) (w : World)
      → ((op.perform cluster job w).1 ≡ calling (f job) w)
        × ((e : Error)
            → (op.perform cluster job w).0 ≡ some e
            → is_some (cluster.answer w.calls (f job)) ≡ true)
        × (is_write (f job) ≡ true)

  module _ (op : Operation) (f : Job → Call) (makes : Makes op f) where
    Performed-step :
        (job : Job) (w : World) → Performed (f job ∷ []) w (perform_step env cluster op job w)
    unfolding perform_step
    Performed-step job w = elim (Option-cases (op.perform cluster job w).0) [
      | inl none_failed ↦
          rw (Performed, perform_step, none_failed)
            (calls-record_action env.clock _ _
              ∙ ap (λ (v : World). writes v.calls) (makes job w).0
              ∙ writes-append w.calls (f job ∷ [])
              ∙ ap (λ (l : List Call). writes w.calls ++ l) only)
      | inr (e, refused) ↦
          rw (Performed, perform_step, refused)
            (
              [],
              f job,
              [],
              w.calls,
              refl,
              sym (append-nil (writes w.calls)),
              ap (λ (v : World). v.calls) (makes job w).0,
              (makes job w).1 e refused,
            )
    ]
      where
        only : writes (f job ∷ []) ≡ f job ∷ []
        only = rw (makes job w).2

    Performed-each :
        (hs : List Handle) (w : World)
        → Performed (map (λ (h : Handle). f h.job) hs) w (each (perform_step env cluster op) hs w)
    unfolding each
    Performed-each [] w = sym (append-nil (writes w.calls))
    Performed-each (h ∷ hs) w =
        Performed-and_then (f h.job ∷ []) (map (λ (h : Handle). f h.job) hs) w
          (perform_step env cluster op h.job w) (each (perform_step env cluster op) hs)
          (Performed-step h.job w) (Performed-each hs)

  -- What the decision asks for, in the order of the four loops.
  abbrev pub plan : Decision → List Call
  plan d =
      map (λ (h : Handle). delete_call h.job "Foreground") d.jobs_to_delete
      ++ (map (λ (h : Handle). create_call h.job) d.jobs_to_create
          ++ (map (λ (h : Handle). update_call (with_suspend true h.job)) d.jobs_to_suspend
              ++ map (λ (h : Handle). update_call (with_suspend false h.job)) d.jobs_to_unsuspend))

  refused_by : (o : Option Failure) (e : Error) → error_of o ≡ some e → is_some o ≡ true
  refused_by none e h = ground (arith, h)
  refused_by (some x) e h = refl

  refused_by_found :
      (o : Option Failure) (e : Error) → ignore_not_found o ≡ some e → is_some o ≡ true
  refused_by_found none e h = ground (arith, h)
  refused_by_found (some x) e h = refl

  -- The writes of a decision are all deletions, then the creations, then the suspensions, then the
  -- unsuspensions; where it stops early, it stopped at a write that the cluster answered with a
  -- failure, and made exactly those before it.
  pub carry_out-Performed :
      (d : Decision) (w : World) → Performed (plan d) w (carry_out env cluster d w)
  unfolding carry_out
  carry_out-Performed d w =
      Performed-and_then _ _ w _ _
        (Performed-each (deletion env cluster) (λ job. delete_call job "Foreground") deletes
          d.jobs_to_delete w)
        (λ w₁.
          Performed-and_then _ _ w₁ _ _
            (Performed-each (creation env cluster) create_call creates d.jobs_to_create w₁)
            (λ w₂.
              Performed-and_then _ _ w₂ _ _
                (Performed-each (suspension env cluster)
                  (λ job. update_call (with_suspend true job)) suspends d.jobs_to_suspend w₂)
                (Performed-each (unsuspension env cluster)
                  (λ job. update_call (with_suspend false job)) unsuspends d.jobs_to_unsuspend)))
    where
      deletes : Makes (deletion env cluster) (λ job. delete_call job "Foreground")
      deletes job w = unfold deletion delete_job in (refl, refused_by_found _, refl)

      creates : Makes (creation env cluster) create_call
      creates job w = unfold creation create_job in (refl, refused_by _, refl)

      suspends : Makes (suspension env cluster) (λ job. update_call (with_suspend true job))
      suspends job w = unfold suspension suspend_job in (refl, refused_by _, refl)

      unsuspends : Makes (unsuspension env cluster) (λ job. update_call (with_suspend false job))
      unsuspends job w = unfold unsuspension unsuspend_job in (refl, refused_by _, refl)
