-- ===== src/Reconcile/Refusals.antt =====
-- Where Reconcile of pkg/reconciliation/reconcile.go stops as it carries out a decision, against the
-- answers of the cluster.
use mathlib.Core.List.{append_assoc}
use controlled_job.Base.{
  true, false, ◌≡◌, ◌∙◌, sym, ap, subst, refl, String, Option, none, some, List, [], ◌∷◌, ◌++◌, map,
  Option-cases, inl, inr,
}
use controlled_job.Errors.{Error, wrap_error}
use controlled_job.Kube.{Job}
use controlled_job.Env.{Env}
use controlled_job.State.{Handle}
use controlled_job.Decision.{Decision}
use controlled_job.Client.{
  Cluster, World, Call, create_call, update_call, delete_call, event_call, calling, with_suspend,
  record_action, record_event, delete_job, create_job, suspend_job, unsuspend_job, Failure,
  ignore_not_found, error_of,
}
use controlled_job.Reconcile.Order.{plan}
use controlled_job.Reconcile.Operations.{
  Ended, completed, stopped, and_then, each, Operation, perform_step, deletion, creation,
  suspension, unsuspension, carry_out, failure_text,
}

-- An answer that is an error to the operator: a job to delete that is gone already is none.
abbrev pub refusal : Option Failure → Call → Option Error
refusal answer (delete_call job propagation) = ignore_not_found answer
refusal answer _ = error_of answer

-- From the calls before, the writes of the plan are made one after the other, each followed by its
-- event once it is accepted, up to the first that is refused.
pub data Carries (cluster : Cluster)
    : List Call → List Call → Option Error → List Call → Type 0 where
  all_made : (calls : List Call) → Carries cluster [] calls none calls
  accepted :
      (c : Call) (plan before after : List Call) (end : Option Error) (kind reason text : String)
      → refusal (cluster.answer before c) c ≡ none
      → Carries cluster plan (before ++ c ∷ event_call kind reason text ∷ []) end after
      → Carries cluster (c ∷ plan) before end after
  stops_at :
      (c : Call) (plan before : List Call) (x : Error)
      → refusal (cluster.answer before c) c ≡ some x
      → Carries cluster (c ∷ plan) before (some x) (before ++ c ∷ [])

module _ (env : Env) (cluster : Cluster) where
  -- The loops end as the plan does, and the error of a loop wraps that of the refused write.
  abbrev pub CarriesOut : List Call → World → Ended → Type 0
  CarriesOut plan w (completed v) = Carries cluster plan w.calls none v.calls
  CarriesOut plan w (stopped e v) =
      (x : Error) × (event : String) × (text : String) × (e ≡ wrap_error x event text)
      × Carries cluster plan w.calls (some x) v.calls

  joined :
      (p q before between after : List Call) (end first : Option Error)
      → Carries cluster p before first between
      → first ≡ none
      → Carries cluster q between end after
      → Carries cluster (p ++ q) before end after
  joined p q before between after end first (all_made calls) n k = k
  joined p q before between after end first (accepted c r b a f kind reason text granted h) n k =
      accepted c (r ++ q) b after end kind reason text granted (joined r q _ a after end f h n k)
  joined p q before between after end first (stops_at c r b x denied) n k = absurd (cc n)

  ended_early :
      (p q before after : List Call) (end : Option Error) (x : Error)
      → Carries cluster p before end after
      → end ≡ some x
      → Carries cluster (p ++ q) before end after
  ended_early p q before after end x (all_made calls) e = absurd (cc e)
  ended_early p q before after end x (accepted c r b a f kind reason text granted h) e =
      accepted c (r ++ q) b a f kind reason text granted (ended_early r q _ a f x h e)
  ended_early p q before after end x (stops_at c r b y denied) e = stops_at c (r ++ q) b y denied

  CarriesOut-and_then :
      (p q : List Call) (w : World) (r : Ended) (f : World → Ended)
      → CarriesOut p w r
      → ((v : World) → CarriesOut q v (f v))
      → CarriesOut (p ++ q) w (and_then r f)
  CarriesOut-and_then p q w (completed v) f h k = after_first (f v) (k v)
    where
      after_first : (r : Ended) → CarriesOut q v r → CarriesOut (p ++ q) w r
      after_first (completed u) g = joined p q w.calls v.calls u.calls none none h refl g
      after_first (stopped e u) (x, event, text, same, g) =
          (x, event, text, same, joined p q w.calls v.calls u.calls (some x) none h refl g)
  CarriesOut-and_then p q w (stopped e v) f (x, event, text, same, h) k =
      (x, event, text, same, ended_early p q w.calls v.calls (some x) x h refl)

  -- An operation makes one call, and fails exactly with the cluster's refusal of it.
  abbrev Makes : Operation → (Job → Call) → Type 0
  Makes op f =
      (job : Job) (w : World)
      → ((op.perform cluster job w).1 ≡ calling (f job) w)
        × ((op.perform cluster job w).0 ≡ refusal (cluster.answer w.calls (f job)) (f job))

  one_made :
      (c : Call) (w v : World) (kind reason text : String)
      → v ≡ calling c w
      → refusal (cluster.answer w.calls c) c ≡ none
      → Carries cluster (c ∷ []) w.calls none (v.calls ++ event_call kind reason text ∷ [])
  one_made c w v kind reason text e granted =
      subst (Carries cluster (c ∷ []) w.calls none)
        (sym (append_assoc w.calls (c ∷ []) (event_call kind reason text ∷ []))
          ∙ ap (λ (u : World). u.calls ++ event_call kind reason text ∷ []) (sym e))
        (accepted c [] w.calls _ none kind reason text granted (all_made _))

  module _ (op : Operation) (f : Job → Call) (makes : Makes op f) where
    CarriesOut-step :
        (job : Job) (w : World) → CarriesOut (f job ∷ []) w (perform_step env cluster op job w)
    unfolding perform_step record_action record_event
    CarriesOut-step job w = elim (Option-cases (op.perform cluster job w).0) [
      | inl e ↦
          rw (CarriesOut, perform_step, e)
            (one_made (f job) w _ _ _ _ (makes job w).0 (sym (makes job w).1 ∙ e))
      | inr (x, e) ↦
          rw (CarriesOut, perform_step, e)
            (
              x,
              op.event,
              failure_text op.verb job,
              refl,
              subst (Carries cluster (f job ∷ []) w.calls (some x))
                  (ap (λ (u : World). u.calls) (sym (makes job w).0))
                  (stops_at (f job) [] w.calls x (sym (makes job w).1 ∙ e)),
            )
    ]

    CarriesOut-each :
        (hs : List Handle) (w : World)
        → CarriesOut (map (λ (h : Handle). f h.job) hs) w (each (perform_step env cluster op) hs w)
    unfolding each
    CarriesOut-each [] w = all_made w.calls
    CarriesOut-each (h ∷ hs) w =
        CarriesOut-and_then (f h.job ∷ []) (map (λ (h : Handle). f h.job) hs) w
          (perform_step env cluster op h.job w) (each (perform_step env cluster op) hs)
          (CarriesOut-step h.job w) (CarriesOut-each hs)

  -- The writes of a decision are all deletions, then the creations, then the suspensions, then the
  -- unsuspensions. Each is made once the cluster has accepted those before it. They are all made if
  -- none is refused; at the first that is refused no further one is made, and the loops end with
  -- an error that wraps the refusal. That a job to delete is not found is no refusal.
  pub carry_out-CarriesOut :
      (d : Decision) (w : World) → CarriesOut (plan env cluster d) w (carry_out env cluster d w)
  unfolding carry_out
  carry_out-CarriesOut d w =
      CarriesOut-and_then _ _ w _ _
        (CarriesOut-each (deletion env cluster) (λ job. delete_call job "Foreground") deletes
          d.jobs_to_delete w)
        (λ w₁.
          CarriesOut-and_then _ _ w₁ _ _
            (CarriesOut-each (creation env cluster) create_call creates d.jobs_to_create w₁)
            (λ w₂.
              CarriesOut-and_then _ _ w₂ _ _
                (CarriesOut-each (suspension env cluster)
                  (λ job. update_call (with_suspend true job)) suspends d.jobs_to_suspend w₂)
                (CarriesOut-each (unsuspension env cluster)
                  (λ job. update_call (with_suspend false job)) unsuspends d.jobs_to_unsuspend)))
    where
      deletes : Makes (deletion env cluster) (λ job. delete_call job "Foreground")
      deletes job w = unfold deletion delete_job in (refl, refl)

      creates : Makes (creation env cluster) create_call
      creates job w = unfold creation create_job in (refl, refl)

      suspends : Makes (suspension env cluster) (λ job. update_call (with_suspend true job))
      suspends job w = unfold suspension suspend_job in (refl, refl)

      unsuspends : Makes (unsuspension env cluster) (λ job. update_call (with_suspend false job))
      unsuspends job w = unfold unsuspension unsuspend_job in (refl, refl)
