-- ===== src/Samples.antt =====
-- Small inputs for the tests: jobs, a ControlledJob, and an environment in which times are written
-- in decimal.
pub mod Run
mod Surprises
use controlled_job.Base.{
  ◌/◌, ◌-◌, ◌*◌, ltb, leb, Bool, Option, if◌then◌else◌, ◌+◌, String, true, false, none, some, List,
  [], ◌∷◌,
}
use controlled_job.Base.Int.{ℤ, pos, negsuc}
use controlled_job.Base.Decimal.{atoi, print_ℕ}
use controlled_job.Errors.{message, Result, ok, err}
use controlled_job.Kube.{Time, Job, condition_true}
use controlled_job.Api.{ControlledJob, ControlledJobStatus, EventSpec}
use controlled_job.Schedule.{CronSpec, Parsed, spec_schedule, Calendar}
use controlled_job.Client.{Call, Failure, Cluster}
use controlled_job.Api.Conditions.{Live}
use controlled_job.Env.{Env}
use controlled_job.State.{State, pointers_from}

unfoldable pub read_time : String → Result Time
read_time s = elim (atoi s) [
  | none ↦ err (message "not a time")
  | some (pos n) ↦ ok n
  | some (negsuc n) ↦ err (message "not a time")
]

abbrev pub sample_env : Env
sample_env = record {
  clock = λ n. 1000 + n;
  digest = λ t. t.spec.body;
  parse_time = read_time;
  format_time = print_ℕ;
  set_controller_reference = λ cj job. ok (record job {
    controller = some (record {
      api_version = "batch.gresearch.co.uk/v1";
      kind = "ControlledJob";
      owner_name = cj.name;
    });
  });
  get_reference =
      λ job. some (record { ref_kind = "Job"; ref_namespace = job.namespace; ref_name = job.name });
  registered_mutators = [];
}

-- A running job, started at the given time, whose specification is the sample's template.
abbrev pub running_job : String → String → Job
running_job name scheduled = record {
  name = name;
  namespace = "ns";
  labels = [];
  annotations =
      ("batch.gresearch.co.uk/scheduled-at", scheduled)
      ∷ ("batch.gresearch.co.uk/job-run-id", "0")
      ∷ ("batch.gresearch.co.uk/job-template-hash", "spec")
      ∷ [];
  deletion_timestamp = none;
  controller = none;
  spec = record { suspend = none; body = "spec" };
  status = record { active = 1; ready = some 1; conditions = [] };
}

abbrev pub suspended_job : String → String → Job
suspended_job name scheduled = record (running_job name scheduled) {
  spec = record { suspend = some true; body = "spec" };
}

abbrev pub completed_job : String → String → Job
completed_job name scheduled = record (running_job name scheduled) {
  status = record {
    active = 0;
    ready = none;
    conditions = record { type_name = "Complete"; status = condition_true } ∷ [];
  };
}

abbrev pub empty_status : ControlledJobStatus
empty_status = record {
  active = [];
  last_scheduled_start_time = none;
  should_be_running = none;
  is_running = none;
  is_suspended = none;
  most_recent_action = none;
  action_history = [];
  conditions = [];
}

abbrev pub sample_controlled_job : ControlledJob
sample_controlled_job = record {
  name = "cj";
  namespace = "ns";
  annotations = [];
  generation = 1;
  spec = record {
    timezone = record { zone = "GMT"; offset_seconds = pos 0 };
    events = [];
    job_template = record {
      labels = [];
      annotations = [];
      spec = record { suspend = none; body = "spec" };
    };
    starting_deadline_seconds = none;
    spec_change_policy = "Recreate";
    suspend = none;
  };
  status = empty_status;
}

abbrev pub sample_live : Live
sample_live = record { object = sample_controlled_job; readings = 0 }

-- Inside a run period that began at 100, after a stop at 50, with the jobs given.
abbrev pub running_state : List Job → State
running_state jobs = record {
  is_suspended = false;
  should_be_running = some true;
  start_of_current_run_period = some 100;
  last_stop_time = some 50;
  next_event_time = some 200;
  all_jobs = pointers_from 0 jobs;
  desired_hash = "spec";
  auto_restart_is_enabled = true;
}

-- Outside: the period that began at 100 stopped at 150.
abbrev pub stopped_state : List Job → State
stopped_state jobs = record (running_state jobs) {
  should_be_running = some false;
  last_stop_time = some 150;
}

-- Schedules that recur every 100: an event at `minute` of each span.
abbrev pub sample_next : CronSpec → Time → Time
sample_next s t = let at = t / 100 * 100 + s.minute in if ltb t at then at else at + 100

abbrev pub sample_prev : CronSpec → Time → Time
sample_prev s t = let at = t / 100 * 100 + s.minute in if leb at t then at else at - 100

abbrev spec_at : Option ℤ → Result Parsed
spec_at none = err (message "not a number")
spec_at (some (negsuc n)) = err (message "negative")
spec_at (some (pos n)) = ok (
    spec_schedule
      (record { second = 0; minute = n; hour = 0; dom = 0; month = 0; dow = 0; location = "" }))

unfoldable pub read_schedule : String → Result Parsed
read_schedule text = spec_at (atoi text)

abbrev pub sample_calendar : Calendar
sample_calendar = record {
  load_location = λ name. ok name;
  parse_standard = read_schedule;
  next = sample_next;
  cron_prev = sample_prev;
}

abbrev pub event_at : String → String → EventSpec
event_at action text = record { action = action; cron_schedule = text; schedule = none }

-- Starts at 10 and stops at 60 of every span.
abbrev pub daily_events : List EventSpec
daily_events = event_at "start" "10" ∷ event_at "stop" "60" ∷ []

abbrev pub scheduled_live : Option Bool → Live
scheduled_live suspend = record {
  object = record sample_controlled_job {
    spec = record sample_controlled_job.spec { events = daily_events; suspend = suspend };
  };
  readings = 0;
}

-- An API server that has the jobs given and takes every write but the refused ones.
abbrev pub sample_cluster : List Job → (List Call → Call → Option Failure) → Cluster
sample_cluster jobs answer = record {
  get = λ name namespace. (none, (scheduled_live none).object);
  list = λ name namespace. (none, jobs);
  answer = answer;
}
