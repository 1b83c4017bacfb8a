-- ===== src/Cli.antt =====
-- The command generate-job: cli/util/generate_job.go.
mod Tests
use controlled_job.Base.{ℕ, String, Bool, not, Option, none, some, str_eq, if◌then◌else◌}
use controlled_job.Base.Int.{ℤ}
use controlled_job.Errors.{Result, ok, err}
use controlled_job.Kube.{Time, Job}
use controlled_job.Api.{ControlledJob}
use controlled_job.Env.{Env}
use controlled_job.Builder.{build_for_controlled_job}
use controlled_job.Mutators.{Registry}
use controlled_job.Mutators.Remote.{Web, enable_remote_mutator}

-- The flags of the command.
pub record Flags : Type 0 where
  pub scheduled_at : Time
  pub job_run_id : ℤ
  pub manually_scheduled : Bool
  pub start_suspended : Bool
  pub job_admission_webhook_url : String

-- Standard input, and the JSON of a ControlledJob and of a job.
pub record Console : Type 0 where
  pub stdin : Result String
  pub unmarshal : String → Result ControlledJob
  pub marshal_indent : Job → Result String

-- A panic at an error.
abbrev pub or_panic {ℓ κ} : {A : Type ℓ} {B : Type κ} → Result A → (A → Option B) → Option B
or_panic (ok a) f = f a
or_panic (err e) f = none

module _ (env : Env) (web : Web) (identity : ℕ) (console : Console) where
  unfoldable pub enabled_mutators : String → Result Registry
  enabled_mutators url =
      if not (str_eq url "")
      then enable_remote_mutator web identity url env.registered_mutators
      else ok env.registered_mutators

  -- DoGenerateJob: the text printed, or a panic.
  unfoldable pub do_generate_job : Flags → Option String
  do_generate_job flags = or_panic (enabled_mutators flags.job_admission_webhook_url) (λ mutators.
      or_panic console.stdin (λ text. or_panic (console.unmarshal text) (λ cj.
        or_panic
          (build_for_controlled_job (record env { registered_mutators = mutators }) cj
            flags.scheduled_at flags.job_run_id flags.manually_scheduled flags.start_suspended)
          (λ job. or_panic (console.marshal_indent job) (λ printed. some printed)))))
