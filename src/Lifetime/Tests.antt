-- ===== src/Lifetime/Tests.antt =====
-- Reconcile of pkg/reconciliation/reconcile.go on jobs that a store keeps.
use controlled_job.Base.{
  ◌≡◌, refl, ap, Bool, true, not, Option, none, List, [], ◌∷◌, ◌++◌, map, any, keep, arith, inl,
  inr, Bool-cases, if◌then◌else◌, Memᴰ,
}
use controlled_job.Kube.{Job}
use controlled_job.Builder.Suspension.{OwnerKeepsSpec}
use controlled_job.Client.{Call, Failure, create_call, update_call, delete_call}
use controlled_job.Decision.Evolution.{active_count}
use controlled_job.Samples.{
  sample_env, sample_calendar, sample_cluster, suspended_job, completed_job,
}
use controlled_job.Samples.Run.{reconciled}
use controlled_job.Lifetime.{
  Fades, nothing, stays, goes, IsJobStore, Runs, ended, took, Lives, begins, reconciles, is_named,
  updated_by,
}
use controlled_job.Lifetime.Names.{none_there, next}
use controlled_job.Lifetime.Safety.{IsSafe, Lives-IsSafe}

-- Jobs that are deleted are gone at once.
abbrev sample_store : Call → List Job → List Job
sample_store (create_call job) jobs =
    if any (is_named job.name) jobs then jobs else jobs ++ job ∷ []
sample_store (update_call job) jobs =
    map (λ (old : Job). if is_named job.name old then updated_by job old else old) jobs
sample_store (delete_call job propagation) jobs =
    keep (λ (old : Job). not (is_named job.name old)) jobs
sample_store _ jobs = jobs

Fades-keep : (p : Job → Bool) (jobs : List Job) → Fades jobs (keep p jobs)
Fades-keep p [] = nothing
Fades-keep p (j ∷ jobs) = elim (Bool-cases (p j)) [
  | inl e ↦ rw e (
      stays j j jobs (keep p jobs)
        (record { same_name = refl; was_running = λ r. r; was_active = λ a. a })
        (Fades-keep p jobs))
  | inr e ↦ rw e (goes j jobs (keep p jobs) (Fades-keep p jobs))
]

sample_store-IsJobStore : IsJobStore sample_store
sample_store-IsJobStore = record {
  creates = λ job jobs. refl;
  updates = λ job jobs. refl;
  deletes = λ job propagation jobs. Fades-keep (λ (old : Job). not (is_named job.name old)) jobs;
  gets = λ name namespace jobs. refl;
  lists = λ name namespace jobs. refl;
  writes_status = λ cj jobs. refl;
  writes_object = λ cj jobs. refl;
  records = λ kind reason text jobs. refl;
}

-- Every call takes effect.
abbrev replay : List Call → List Job → List Job
replay [] jobs = jobs
replay (c ∷ calls) jobs = replay calls (sample_store c jobs)

all_taken : (calls : List Call) (jobs : List Job) → Runs sample_store calls jobs (replay calls jobs)
all_taken [] jobs = ended jobs
all_taken (c ∷ calls) jobs =
    took c calls jobs (replay calls (sample_store c jobs)) (all_taken calls (sample_store c jobs))

abbrev accept_all : List Call → Call → Option Failure
accept_all calls call = none

abbrev waiting_jobs : List Job
waiting_jobs = suspended_job "cj-110-0" "110" ∷ completed_job "cj-40-0" "40" ∷ []

abbrev first_calls : List Call
first_calls = (reconciled 120 (sample_cluster waiting_jobs accept_all)).1

abbrev after_first : List Job
after_first = replay first_calls waiting_jobs

one_runs : active_count after_first ≡ 1
unfolding reconciled
one_runs = refl

first_run : Lives sample_env sample_store waiting_jobs after_first
unfolding reconciled
first_run =
    reconciles waiting_jobs after_first (sample_cluster waiting_jobs accept_all) sample_calendar
      true "cj" "ns" 120 begins refl (all_taken first_calls waiting_jobs)

waiting_jobs-IsSafe : IsSafe waiting_jobs
unfolding reconciled
waiting_jobs-IsSafe = record {
  distinct =
      next (suspended_job "cj-110-0" "110") (completed_job "cj-40-0" "40" ∷ [])
        (λ k m e. other k m e)
        (next (completed_job "cj-40-0" "40") [] (λ k m. elim m [ ]) none_there);
  one_active = omega arith;
}
  where
    other : (k : Job) → Memᴰ k (completed_job "cj-40-0" "40" ∷ []) → ¬ (k.name ≡ "cj-110-0")
    other k (Memᴰ.head q) e = cc (ap (λ (j : Job). j.name) q)
    other k (Memᴰ.tail m) e = elim m [ ]

sample_env-OwnerKeepsSpec : OwnerKeepsSpec sample_env
sample_env-OwnerKeepsSpec cj job owned e = cc

Lives-IsSafe_example : IsSafe after_first
Lives-IsSafe_example =
    Lives-IsSafe sample_env sample_store sample_store-IsJobStore sample_env-OwnerKeepsSpec tt
      waiting_jobs after_first waiting_jobs-IsSafe first_run
