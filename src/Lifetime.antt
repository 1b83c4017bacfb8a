-- ===== src/Lifetime.antt =====
-- The jobs of a ControlledJob in the cluster over time: what the calls of Reconcile of
-- pkg/reconciliation/reconcile.go do to them, in turn with what happens in the cluster.
pub mod Names
pub mod JobWrites
pub mod Writes
pub mod Bounded
pub mod Invariant
pub mod Decided
pub mod Safety
pub mod Convergence
mod Tests
use controlled_job.Base.{
  ℕ, String, ◌≡◌, Bool, true, false, List, [], ◌∷◌, ◌++◌, map, any, str_eq, if◌then◌else◌,
}
use controlled_job.Kube.{Time, Job}
use controlled_job.Api.{ControlledJob}
use controlled_job.Env.{Env}
use controlled_job.Schedule.{Calendar}
use controlled_job.Metadata.{is_job_potentially_running}
use controlled_job.Client.{
  Cluster, Call, get_call, list_call, create_call, update_call, delete_call, update_status_call,
  update_object_call, event_call,
}
use controlled_job.Decision.Evolution.{is_active}
use controlled_job.Reconcile.{reconcile}

-- The job has the name.
abbrev pub is_named : String → Job → Bool
is_named name job = str_eq job.name name

-- The status and the deletion timestamp are not the client's to write.
abbrev pub updated_by : Job → Job → Job
updated_by sent stored = record sent {
  deletion_timestamp = stored.deletion_timestamp;
  status = stored.status;
}

-- A job that goes on under its name neither becomes incomplete nor may have pods where it could not.
pub record Weakens (old new : Job) : Type 0 where
  pub same_name : new.name ≡ old.name
  pub was_running : is_job_potentially_running new ≡ true → is_job_potentially_running old ≡ true
  pub was_active : is_active new ≡ true → is_active old ≡ true

-- Jobs go on, and some are gone.
pub data Fades : List Job → List Job → Type 0 where
  nothing : Fades [] []
  stays :
      (old new : Job) (olds news : List Job)
      → Weakens old new
      → Fades olds news
      → Fades (old ∷ olds) (new ∷ news)
  goes : (old : Job) (olds news : List Job) → Fades olds news → Fades (old ∷ olds) news

-- What the API server documents of a call that takes effect on the jobs of a namespace: a job is
-- created under a name that is free, an update replaces the job of the name but for its status and
-- its deletion timestamp, a job that is deleted goes on until it is gone, and no other call changes
-- a job.
pub record IsJobStore (effect : Call → List Job → List Job) : Type 0 where
  pub creates :
      (job : Job) (jobs : List Job)
      → effect (create_call job) jobs
        ≡ (if any (is_named job.name) jobs then jobs else jobs ++ job ∷ [])
  pub updates :
      (job : Job) (jobs : List Job)
      → effect (update_call job) jobs
        ≡ map (λ (old : Job). if is_named job.name old then updated_by job old else old) jobs
  pub deletes :
      (job : Job) (propagation : String) (jobs : List Job)
      → Fades jobs (effect (delete_call job propagation) jobs)
  pub gets :
      (name namespace : String) (jobs : List Job) → effect (get_call name namespace) jobs ≡ jobs
  pub lists :
      (name namespace : String) (jobs : List Job) → effect (list_call name namespace) jobs ≡ jobs
  pub writes_status :
      (cj : ControlledJob) (jobs : List Job) → effect (update_status_call cj) jobs ≡ jobs
  pub writes_object :
      (cj : ControlledJob) (jobs : List Job) → effect (update_object_call cj) jobs ≡ jobs
  pub records :
      (kind reason text : String) (jobs : List Job)
      → effect (event_call kind reason text) jobs ≡ jobs

-- The calls take effect in their order or are lost, whatever the operator is told, and meanwhile jobs
-- change and go.
pub data Runs (effect : Call → List Job → List Job) : List Call → List Job → List Job → Type 0 where
  ended : (jobs : List Job) → Runs effect [] jobs jobs
  meanwhile :
      (calls : List Call) (before between after : List Job)
      → Fades before between
      → Runs effect calls between after
      → Runs effect calls before after
  lost :
      (c : Call) (calls : List Call) (before after : List Job)
      → Runs effect calls before after
      → Runs effect (c ∷ calls) before after
  took :
      (c : Call) (calls : List Call) (before after : List Job)
      → Runs effect calls (effect c before) after
      → Runs effect (c ∷ calls) before after

-- The jobs that can come to be from a first list: in turn jobs change and go, a job that cannot have
-- pods is created by somebody else, and Reconcile runs, on the jobs as it finds them and the
-- ControlledJob as it then is.
pub data Lives (env : Env) (effect : Call → List Job → List Job) (start : List Job)
    : List Job → Type 0 where
  begins : Lives env effect start start
  fades :
      (jobs after : List Job)
      → Lives env effect start jobs
      → Fades jobs after
      → Lives env effect start after
  joins :
      (job : Job) (jobs : List Job)
      → Lives env effect start jobs
      → any (is_named job.name) jobs ≡ false
      → is_active job ≡ false
      → Lives env effect start (jobs ++ job ∷ [])
  reconciles :
      (jobs after : List Job) (cluster : Cluster) (cal : Calendar) (auto_recreate : Bool)
      (name namespace : String) (now : Time)
      → Lives env effect start jobs
      → (cluster.list name namespace).1 ≡ jobs
      → Runs effect (reconcile env cluster cal auto_recreate name namespace now).1 jobs after
      → Lives env effect start after
