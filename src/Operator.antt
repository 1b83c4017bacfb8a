-- ===== src/Operator.antt =====
-- The program: main.go, with SetupWithManager of controllers/controlledjob_controller.go.
pub mod Startup
mod Tests
use controlled_job.Base.{
  ℕ, String, Bool, true, false, not, Option, none, some, List, [], ◌∷◌, ◌++◌, str_eq, if◌then◌else◌,
}
use controlled_job.Base.Int.{ℤ, pos}
use controlled_job.Errors.{Error, Result, ok, err}
use controlled_job.Metadata.{job_owner_key}
use controlled_job.Mutators.{Registry}
use controlled_job.Mutators.Remote.{Web, enable_remote_mutator}

-- The flags of the command line.
pub record OperatorFlags : Type 0 where
  pub metrics_bind_address : String
  pub health_probe_bind_address : String
  pub leader_elect : Bool
  pub enable_auto_recreate_jobs_on_spec_change : Bool
  pub concurrency : ℤ
  pub job_admission_webhook_url : String

abbrev pub default_flags : OperatorFlags
default_flags = record {
  metrics_bind_address = ":8080";
  health_probe_bind_address = ":8081";
  leader_elect = false;
  enable_auto_recreate_jobs_on_spec_change = false;
  concurrency = pos 1;
  job_admission_webhook_url = "";
}

abbrev pub leader_election_id : String
leader_election_id = "4a7b6ad8.gresearch.co.uk"

-- What is asked of the controller runtime, one after the other.
pub data StartupStep : Type 0 where
  get_config : StartupStep
  new_manager : String → String → Bool → String → StartupStep
  index_field : String → StartupStep
  complete_controller : ℤ → StartupStep
  add_healthz_check : String → StartupStep
  add_readyz_check : String → StartupStep
  start_manager : StartupStep

-- The controller runtime answers a step by those before it. `start_manager` is answered when the
-- manager has stopped.
abbrev pub Runtime : Type 0
Runtime = List StartupStep → StartupStep → Option Error

-- How main ends: the text that is logged before os.Exit(1), if any, the steps taken, the option that
-- Reconcile reads, and the registered mutators.
pub record Ending : Type 0 where
  pub exits_with : Option String
  pub steps : List StartupStep
  pub auto_recreate : Bool
  pub mutators : Registry

-- A step, and what goes on if it succeeds.
abbrev pub asking {ℓ} :
    {A : Type ℓ}
    → Runtime
    → StartupStep
    → List StartupStep
    → (Error → List StartupStep → A)
    → (List StartupStep → A)
    → A
asking runtime step before failed goes_on = elim (runtime before step) [
  | some e ↦ failed e (before ++ step ∷ [])
  | none ↦ goes_on (before ++ step ∷ [])
]

-- SetupWithManager: the index of jobs by their owner, and the controller.
unfoldable pub setup_with_manager :
    Runtime → ℤ → List StartupStep → (Option Error) × List StartupStep
setup_with_manager runtime max_concurrent_reconciles before =
    asking runtime (index_field job_owner_key) before (λ e steps. (some e, steps))
      (λ indexed.
        asking runtime (complete_controller max_concurrent_reconciles) indexed
          (λ e steps. (some e, steps)) (λ steps. (none, steps)))

module _ (runtime : Runtime) (flags : OperatorFlags) (mutators : Registry) where
  abbrev ending : Option String → List StartupStep → Ending
  ending text steps = record {
    exits_with = text;
    steps = steps;
    auto_recreate = flags.enable_auto_recreate_jobs_on_spec_change;
    mutators = mutators;
  }

  -- From the controller on: the two checks, and the manager runs.
  unfoldable pub run_manager : List StartupStep → Ending
  run_manager controlled =
      asking runtime (add_healthz_check "healthz") controlled
        (λ e. ending (some "unable to set up health check"))
        (λ healthy.
          asking runtime (add_readyz_check "readyz") healthy
            (λ e. ending (some "unable to set up ready check"))
            (λ ready.
              asking runtime start_manager ready (λ e. ending (some "problem running manager"))
                (ending none)))

  unfoldable pub set_up_controller : List StartupStep → Ending
  set_up_controller managed =
      let (failure, steps) = setup_with_manager runtime flags.concurrency managed in
      elim failure [
        | some e ↦ ending (some "unable to create controller") steps
        | none ↦ run_manager steps
      ]

  -- GetConfigOrDie exits by itself.
  unfoldable pub start_operator : Ending
  start_operator =
      asking runtime get_config [] (λ e. ending (some "unable to get kubeconfig"))
        (λ configured.
          asking runtime
            (new_manager flags.metrics_bind_address flags.health_probe_bind_address
              flags.leader_elect leader_election_id)
            configured (λ e. ending (some "unable to start manager")) set_up_controller)

unfoldable pub main : Runtime → Web → ℕ → Registry → OperatorFlags → Ending
main runtime web identity mutators flags =
    if not (str_eq flags.job_admission_webhook_url "")
    then elim (enable_remote_mutator web identity flags.job_admission_webhook_url mutators) [
      | err e ↦ ending runtime flags mutators (some "unable to enable remote mutator") []
      | ok enabled ↦ start_operator runtime flags enabled
    ]
    else start_operator runtime flags mutators
