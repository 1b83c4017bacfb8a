-- ===== src/Lifetime/Convergence/Tests.antt =====
-- Reconcile of pkg/reconciliation/reconcile.go starts a job at 120 and finds it at 130.
use controlled_job.Base.{◌≡◌, refl, true, false, Option, none, some, List, [], ◌∷◌, Memᴰ}
use controlled_job.Base.Int.{pos}
use controlled_job.Errors.{ok}
use controlled_job.Kube.{Job}
use controlled_job.Api.{ControlledJob}
use controlled_job.Builder.Annotations.{OwnerKeepsAnnotations}
use controlled_job.Schedule.Period.{ScheduleState, state_for}
use controlled_job.Client.{Call, Failure, create_call, get_call, list_call, update_status_call}
use controlled_job.Samples.{
  sample_env, sample_calendar, sample_cluster, scheduled_live, running_job,
}
use controlled_job.Samples.Run.{made, reconciled}
use controlled_job.Reconcile.{reconcile}
use controlled_job.Reconcile.Status.{says_error}
use controlled_job.Lifetime.Convergence.{second_run_settles}

abbrev accept_all : List Call → Call → Option Failure
accept_all calls call = none

abbrev period : ScheduleState
period = record {
  last_stop_time = some 60;
  start_of_current_run_period = some 110;
  previous_event = some (record { event_type = "start"; scheduled_time_utc = 110 });
  next_event = some (record { event_type = "stop"; scheduled_time_utc = 160 });
}

abbrev created_in : List Call → Job
created_in [] = running_job "" ""
created_in (create_call job ∷ calls) = job
created_in (_ ∷ calls) = created_in calls

abbrev created : Job
created = created_in (reconciled 120 (sample_cluster [] accept_all)).1

-- Its pods are there.
abbrev started_job : Job
started_job = record created { status = record { active = 1; ready = some 1; conditions = [] } }

keeps_annotations : OwnerKeepsAnnotations sample_env
keeps_annotations cj job owned e = cc

is_created :
    Memᴰ
      (create_call created)
      (reconcile sample_env (sample_cluster [] accept_all) sample_calendar true "cj" "ns" 120).1
unfolding reconciled
is_created = Memᴰ.tail (Memᴰ.tail (Memᴰ.head refl))

period_at_120 : state_for sample_calendar (scheduled_live none).object 120 ≡ some (ok period)
unfolding made
period_at_120 = refl

period_at_130 : state_for sample_calendar (scheduled_live none).object 130 ≡ some (ok period)
unfolding made
period_at_130 = refl

second_run_settles_example :
    (written : ControlledJob) × (reconcile sample_env
        (sample_cluster (started_job ∷ []) accept_all)
        sample_calendar
        true
        "cj"
        "ns"
        130
      ≡ (
        some (record { requeue_after = pos 30; error = none }),
        get_call "cj" "ns" ∷ list_call "cj" "ns" ∷ update_status_call written ∷ [],
      ))
    × (written.status.is_running ≡ some true)
    × (says_error written ≡ false)
unfolding reconciled
second_run_settles_example =
    second_run_settles sample_env sample_calendar true 120 (scheduled_live none).object period
      period_at_120 (sample_cluster [] accept_all) "cj" "ns" refl refl created started_job 110 110
      (sample_cluster (started_job ∷ []) accept_all) (scheduled_live none).object true 130
      keeps_annotations refl (λ e. cc) refl refl refl refl refl is_created refl refl refl refl refl
      refl period_at_130
