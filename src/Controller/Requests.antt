-- ===== src/Controller/Requests.antt =====
-- What Reconcile of controllers/controlledjob_controller.go hands to the controller runtime.
use controlled_job.Base.{
  ◌≡◌, ◌∙◌, ap, refl, String, Bool, Option, none, some, List, [], ◌∷◌, ◌⊎◌, inl, inr, Option-cases,
}
use controlled_job.Base.Int.{ℤ, pos}
use controlled_job.Errors.{Error, wrap_error}
use controlled_job.Kube.{Time, Job}
use controlled_job.Api.{ControlledJob}
use controlled_job.Api.Conditions.{Live}
use controlled_job.Env.{Env}
use controlled_job.Schedule.{Calendar}
use controlled_job.Client.{Cluster, Call, World, get_call, list_call, on_live}
use controlled_job.Decision.{Outcome}
use controlled_job.Reconcile.{
  make_decision, reconcile, reconcile_found, reconcile_loaded, reconcile_decided, act_on,
  return_ended,
}
use controlled_job.Reconcile.Operations.{Ended, completed, stopped, carry_out}
use controlled_job.Reconcile.Results.{
  as_controller_result_and_error, transient_error_result, non_retryable_error_result, sub_time,
}
use controlled_job.Reconcile.Order.{plan}
use controlled_job.Reconcile.Refusals.{Carries, CarriesOut, carry_out-CarriesOut}
use controlled_job.Reconcile.Status.{load-found}
use controlled_job.Controller.{returned, reconcile_request}

-- The world when the ControlledJob and its jobs have been loaded.
abbrev pub loaded_world : String → String → Live → World
loaded_world name namespace live = record {
  live = live;
  calls = get_call name namespace ∷ list_call name namespace ∷ [];
}

module _ (env : Env) (cluster : Cluster) (now : Time) where
  decided_failed :
      (o : Outcome) (w : World) (e : Error)
      → o.error ≡ some e
      → returned (some (act_on env cluster now o.decision o.error w).0) ≡ some (pos 0, none)
  unfolding act_on as_controller_result_and_error non_retryable_error_result
  decided_failed o w e failed = rw failed refl

  decided_fine :
      (o : Outcome) (w : World)
      → o.error ≡ none
      → returned (some (act_on env cluster now o.decision o.error w).0)
        ≡ returned
            (some (return_ended env cluster now o.decision (carry_out env cluster o.decision w)).0)
  unfolding act_on
  decided_fine o w fine = rw fine refl

  module _ (cal : Calendar) (auto_recreate : Bool) (name namespace : String) (cj : ControlledJob)
      (jobs : List Job) where
    abbrev live : Live
    live = record { object = cj; readings = 0 }

    abbrev pub result : Option (ℤ × Option Error)
    result = (reconcile_request env cluster cal auto_recreate name namespace now).0

    abbrev pub outcome : Option Outcome
    outcome = make_decision env cal auto_recreate now jobs live

    result_of :
        cluster.get name namespace ≡ (none, cj)
        → cluster.list name namespace ≡ (none, jobs)
        → result
          ≡ returned
              (reconcile_decided env cluster now outcome (loaded_world name namespace live)).0
    unfolding reconcile_request reconcile reconcile_found reconcile_loaded
    result_of got list = rw (load-found env cluster name namespace cj jobs got list) refl

    abbrev pub read : List Call
    read = get_call name namespace ∷ list_call name namespace ∷ []

    -- What the runtime gets for a decision: nothing to retry where the decision has failed, else an
    -- error that wraps the refusal of a write, or the time until the requeue where none is refused.
    abbrev pub IsHandedOver : Outcome → Option (ℤ × Option Error) → Type 0
    IsHandedOver o r =
        ((e : Error) × (o.error ≡ some e) × (r ≡ some (pos 0, none)))
        ⊎ ((x : Error) × (event : String) × (text : String) × (after : List Call) × (o.error ≡ none)
            × Carries cluster (plan env cluster o.decision) read (some x) after
            × (r ≡ some (pos 0, some (wrap_error x event text))))
        ⊎ ((after : List Call) × (o.error ≡ none)
            × Carries cluster (plan env cluster o.decision) read none after
            × (r ≡ some (sub_time o.decision.requeue_at now, none)))

    abbrev begun : Outcome → World
    begun o = on_live (λ _. o.live) (loaded_world name namespace live)

    after_loops :
        (o : Outcome) (ended : Ended)
        → o.error ≡ none
        → CarriesOut env cluster (plan env cluster o.decision) (begun o) ended
        → IsHandedOver o (returned (some (return_ended env cluster now o.decision ended).0))
    unfolding return_ended as_controller_result_and_error transient_error_result
    after_loops o (completed w) fine carried = inr (inr (w.calls, fine, carried, refl))
    after_loops o (stopped e w) fine (x, event, text, same, carried) =
        inr (inl (x, event, text, w.calls, fine, carried, ap (λ y. some (pos 0, some y)) same))

    handed_over :
        (o : Outcome)
        → IsHandedOver o (returned (some (act_on env cluster now o.decision o.error (begun o)).0))
    handed_over o = elim (Option-cases o.error) [
      | inr (e, failed) ↦ inl (e, failed, decided_failed o _ e failed)
      | inl fine ↦ rw (decided_fine o (begun o) fine) (
          after_loops o (carry_out env cluster o.decision (begun o)) fine
            (carry_out-CarriesOut env cluster o.decision (begun o)))
    ]

    -- A ControlledJob that was loaded, with its jobs, and judged without a panic: where the
    -- decision has failed, no error is returned and no requeue asked for. Otherwise the writes of the
    -- decision are made in turn on what the cluster answers: if one is refused, the controller
    -- runtime gets an error that wraps that refusal, and if none is, the time until the decision
    -- wants to be made again. That a job to delete is not found is no refusal.
    pub request_returned :
        (o : Outcome)
        → cluster.get name namespace ≡ (none, cj)
        → cluster.list name namespace ≡ (none, jobs)
        → outcome ≡ some o
        → IsHandedOver o result
    unfolding reconcile_decided
    request_returned o got list judged =
        rw
          (result_of got list
            ∙ ap
                (λ (x : Option Outcome).
                  returned
                    (reconcile_decided env cluster now x (loaded_world name namespace live)).0)
                judged)
          (handed_over o)
