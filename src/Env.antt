-- ===== src/Env.antt =====
-- What the operator calls and does not implement.
use controlled_job.Base.{ℕ, String, Option}
use controlled_job.Errors.{Result}
use controlled_job.Kube.{Time, Job, JobTemplate, ObjectReference}
use controlled_job.Api.{ControlledJob}
use controlled_job.Mutators.{Registry}

pub record Env : Type 0 where
  -- time.Now, by the number of readings before
  pub clock : ℕ → Time
  -- the hexadecimal SHA-256 of a job template's JSON
  pub digest : JobTemplate → String
  -- time.Parse and Time.Format with the layout RFC 3339
  pub parse_time : String → Result Time
  pub format_time : Time → String
  -- ctrl.SetControllerReference with the operator's scheme: it makes the ControlledJob the job's
  -- controller, or fails
  pub set_controller_reference : ControlledJob → Job → Result Job
  -- reference.GetReference with a scheme that knows jobs
  pub get_reference : Job → Option ObjectReference
  -- registeredMutators, the one global of pkg/mutators
  pub registered_mutators : Registry
