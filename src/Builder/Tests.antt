-- ===== src/Builder/Tests.antt =====
-- A build of pkg/job/builder.go, and the theorems on its annotations at it.
use controlled_job.Base.{◌≡◌, refl, true, false, some, [], arith}
use controlled_job.Base.Int.{pos}
use controlled_job.Base.Decimal.{print_ℕ}
use controlled_job.Errors.{Result, ok, err}
use controlled_job.Kube.{Job}
use controlled_job.Metadata.{get_job_run_id, get_scheduled_time}
use controlled_job.Decision.Candidate.{is_out_of_date}
use controlled_job.Builder.{build_job}
use controlled_job.Builder.Annotations.{OwnerKeepsAnnotations, build_job_reads_back}
use controlled_job.Samples.{
  sample_env, sample_controlled_job, running_job, running_state, read_time,
}
use controlled_job.Samples.Run.{evaluate}

sample_env-OwnerKeepsAnnotations : OwnerKeepsAnnotations sample_env
sample_env-OwnerKeepsAnnotations cj job owned e = cc

abbrev job_of : Result Job → Job
job_of (ok job) = job
job_of (err e) = running_job "" ""

abbrev built : Job
built = job_of (build_job sample_env sample_controlled_job 100 (pos 7) false true)

build_job_reads_back_example :
    (is_out_of_date built (running_state []) ≡ false)
    × (get_job_run_id built ≡ some (pos 7))
    × (get_scheduled_time read_time built ≡ read_time (print_ℕ 100))
unfolding evaluate
build_job_reads_back_example =
    build_job_reads_back sample_env sample_env-OwnerKeepsAnnotations sample_controlled_job refl 100
      (pos 7) false true built (running_state []) refl (omega arith) refl refl
