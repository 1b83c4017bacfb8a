-- ===== src/Operator/Startup.antt =====
-- How far main of main.go gets: the start as one loop over the steps.
use controlled_job.Base.{
  ℕ, ◌≡◌, String, Option, none, some, List, [], ◌∷◌, ◌++◌, str_eq, arith, if◌then◌else◌,
}
use mathlib.Core.Option
use controlled_job.Errors.{Result, ok, err}
use controlled_job.Metadata.{job_owner_key}
use controlled_job.Mutators.{Registry}
use controlled_job.Mutators.Remote.{Web, enable_remote_mutator}
use controlled_job.Operator.{
  OperatorFlags, StartupStep, get_config, new_manager, index_field, complete_controller,
  add_healthz_check, add_readyz_check, start_manager, Runtime, Ending, leader_election_id,
  setup_with_manager, run_manager, set_up_controller, start_operator, main,
}

-- The steps of a start that nothing stops.
abbrev pub startup : OperatorFlags → List StartupStep
startup flags =
    get_config
    ∷ new_manager flags.metrics_bind_address flags.health_probe_bind_address flags.leader_elect
        leader_election_id
    ∷ index_field job_owner_key
    ∷ complete_controller flags.concurrency
    ∷ add_healthz_check "healthz"
    ∷ add_readyz_check "readyz"
    ∷ start_manager
    ∷ []

-- The step that fails first, if any, and the steps taken up to it.
abbrev pub first_refused :
    Runtime → List StartupStep → List StartupStep → (Option StartupStep) × List StartupStep
first_refused runtime before [] = (none, before)
first_refused runtime before (s ∷ steps) = elim (runtime before s) [
  | some e ↦ (some s, before ++ s ∷ [])
  | none ↦ first_refused runtime (before ++ s ∷ []) steps
]

abbrev pub text_of : StartupStep → String
text_of get_config = "unable to get kubeconfig"
text_of (new_manager metrics probe leader id) = "unable to start manager"
text_of (index_field key) = "unable to create controller"
text_of (complete_controller concurrency) = "unable to create controller"
text_of (add_healthz_check name) = "unable to set up health check"
text_of (add_readyz_check name) = "unable to set up ready check"
text_of start_manager = "problem running manager"

-- Without a registry no step is taken.
abbrev pub started_with : Runtime → OperatorFlags → Registry → Result Registry → Ending
started_with runtime flags mutators (err e) = record {
  exits_with = some "unable to enable remote mutator";
  steps = [];
  auto_recreate = flags.enable_auto_recreate_jobs_on_spec_change;
  mutators = mutators;
}
started_with runtime flags mutators (ok enabled) =
    let (refused, steps) = first_refused runtime [] (startup flags) in
    record {
      exits_with = Option.map text_of refused;
      steps = steps;
      auto_recreate = flags.enable_auto_recreate_jobs_on_spec_change;
      mutators = enabled;
    }

module _ (runtime : Runtime) (flags : OperatorFlags) where
  start_operator_lem :
      (mutators enabled : Registry)
      → start_operator runtime flags enabled ≡ started_with runtime flags mutators (ok enabled)
  unfolding start_operator set_up_controller setup_with_manager run_manager
  start_operator_lem mutators enabled = ground arith

  -- Whatever the controller runtime answers: where a webhook is asked for and cannot be registered,
  -- main takes no step and exits. Otherwise it takes the steps of its start in their order, up to the
  -- first that is refused, and exits with the text of that one, or returns if none is; and what
  -- Reconcile reads are the flag for recreation and the mutators with the webhook's, if there is one.
  pub main_startup :
      (web : Web) (identity : ℕ) (mutators : Registry) (enabled : Result Registry)
      → (if str_eq flags.job_admission_webhook_url ""
          then ok mutators
          else enable_remote_mutator web identity flags.job_admission_webhook_url mutators)
        ≡ enabled
      → main runtime web identity mutators flags ≡ started_with runtime flags mutators enabled
  unfolding main
  main_startup web identity mutators (ok r) e = ground (arith, e, start_operator_lem mutators r)
  main_startup web identity mutators (err x) e = ground (arith, e)
