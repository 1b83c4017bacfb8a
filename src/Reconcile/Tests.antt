-- ===== src/Reconcile/Tests.antt =====
-- Runs of Reconcile of pkg/reconciliation/reconcile.go, and its theorems at them.
use controlled_job.Base.{◌≡◌, refl, Bool, true, false, Option, none, some, List, [], ◌∷◌, Memᴰ}
use controlled_job.Errors.{Error, message, ok}
use mathlib.Core.Option
use controlled_job.Kube.{Job}
use controlled_job.Api.{ControlledJob}
use controlled_job.Api.Conditions.{coerce_condition_to_boolean, find_condition}
use controlled_job.Schedule.Period.{ScheduleState, state_for}
use controlled_job.State.{Handle, State}
use controlled_job.Decision.{Decision, Outcome, no_decision}
use controlled_job.Decision.AtMostOne.{Survives}
use controlled_job.Client.{
  Call, Failure, failed, delete_call, get_call, list_call, update_status_call,
}
use controlled_job.Reconcile.{reconcile, make_decision}
use controlled_job.Reconcile.Operations.{carry_out}
use controlled_job.Reconcile.Results.{ReconcileResult}
use controlled_job.Reconcile.Overall.{calculate_overall_conditions}
use controlled_job.Reconcile.Overall.Exclusive.{overall_conditions_exclusive, Verdict}
use controlled_job.Reconcile.Order.{plan}
use controlled_job.Reconcile.Refusals.{CarriesOut, carry_out-CarriesOut}
use controlled_job.Reconcile.Status.{status_updates, says_error, reports_error, reconcile-Reported}
use controlled_job.Reconcile.Safety.{make_decision-Survives}
use controlled_job.Reconcile.Settled.{reconcile_settled}
use controlled_job.Decision.Settled.{IsSettled}
use controlled_job.Decision.Candidate.Best.{best_from}
use controlled_job.Decision.Deletion.{is_removed}
use controlled_job.State.Build.{state_of}
use controlled_job.Base.Int.{pos}
use controlled_job.Samples.{
  sample_env, sample_calendar, sample_cluster, scheduled_live, sample_live, running_job,
}
use controlled_job.Samples.Run.{made, reconciled}

abbrev first_job : Job
first_job = running_job "cj-110-1" "110"

abbrev second_job : Job
second_job = running_job "cj-110-0" "110"

abbrev both_jobs : List Job
both_jobs = first_job ∷ second_job ∷ []

abbrev winner : Handle
winner = record { addr = 0; job = first_job }

abbrev loser : Handle
loser = record { addr = 1; job = second_job }

abbrev or_nothing : Option Outcome → Outcome
or_nothing none = record { live = sample_live; decision = no_decision; error = none }
or_nothing (some o) = o

abbrev outcome_of : List Job → Outcome
outcome_of jobs =
    or_nothing (make_decision sample_env sample_calendar true 120 jobs (scheduled_live none))

second_goes : (outcome_of both_jobs).decision.jobs_to_delete ≡ loser ∷ []
unfolding made
second_goes = refl

not_loser : ¬ Memᴰ winner (loser ∷ [])
not_loser (Memᴰ.head e) = cc
not_loser (Memᴰ.tail m) = elim m [ ]

winner_left : Survives (outcome_of both_jobs).decision winner
unfolding made
winner_left = (refl, refl, not_loser)

make_decision-Survives_example : winner ≡ winner
unfolding made
make_decision-Survives_example =
    make_decision-Survives sample_env sample_calendar true 120 both_jobs (scheduled_live none)
      (outcome_of both_jobs) winner winner refl refl (λ e. cc) (Memᴰ.head refl) (Memᴰ.head refl)
      winner_left winner_left

abbrev period_at_120 : ScheduleState
period_at_120 = record {
  last_stop_time = some 60;
  start_of_current_run_period = some 110;
  previous_event = some (record { event_type = "start"; scheduled_time_utc = 110 });
  next_event = some (record { event_type = "stop"; scheduled_time_utc = 160 });
}

-- Deletions are refused.
abbrev refuse_deletions : List Call → Call → Option Failure
refuse_deletions calls (delete_call job propagation) = some (failed "no")
refuse_deletions calls _ = none

refused_deletion :
    Option.map
      (λ (r : ReconcileResult). Option.map (λ (e : Error × Bool). e.1) r.error)
      (reconciled 120 (sample_cluster both_jobs refuse_deletions)).0
    ≡ some (some true)
unfolding reconciled
refused_deletion = refl

abbrev one_each : Decision
one_each = record no_decision { jobs_to_create = winner ∷ []; jobs_to_delete = loser ∷ [] }

carry_out-CarriesOut_example :
    CarriesOut sample_env
      (sample_cluster [] refuse_deletions)
      (plan sample_env (sample_cluster [] refuse_deletions) one_each)
      (record { live = sample_live; calls = [] })
      (carry_out sample_env
        (sample_cluster [] refuse_deletions)
        one_each
        (record { live = sample_live; calls = [] }))
carry_out-CarriesOut_example =
    carry_out-CarriesOut sample_env (sample_cluster [] refuse_deletions) one_each
      (record { live = sample_live; calls = [] })

reconcile-Reported_example :
    (written : ControlledJob) × (status_updates
        (reconcile sample_env
          (sample_cluster both_jobs refuse_deletions)
          sample_calendar
          true
          "cj"
          "ns"
          120).1
      ≡ written ∷ [])
    × (says_error written
        ≡ reports_error sample_env
            (sample_cluster both_jobs refuse_deletions)
            (reconcile sample_env
              (sample_cluster both_jobs refuse_deletions)
              sample_calendar
              true
              "cj"
              "ns"
              120).0)
reconcile-Reported_example =
    reconcile-Reported sample_env (sample_cluster both_jobs refuse_deletions) sample_calendar true
      "cj" "ns" 120 (scheduled_live none).object both_jobs refl refl

overall_conditions_exclusive_example :
    Verdict
      (λ n. n)
      false
      false
      (calculate_overall_conditions (λ n. n) (some (message "no")) sample_live)
unfolding coerce_condition_to_boolean find_condition
overall_conditions_exclusive_example =
    overall_conditions_exclusive (λ n. n) (some (message "no")) sample_live

-- Only the first of the two jobs is there, and the cluster refuses nothing.
abbrev one_job : List Job
one_job = first_job ∷ []

abbrev accept_all : List Call → Call → Option Failure
accept_all calls call = none

abbrev state_of_one : State
state_of_one = state_of sample_env (scheduled_live none).object one_job period_at_120

nobody_goes :
    (h : Handle)
    → Memᴰ h state_of_one.all_jobs
    → is_removed sample_env true 120 state_of_one (some winner) h ≡ false
unfolding made
nobody_goes h (Memᴰ.head e) = rw e refl
nobody_goes h (Memᴰ.tail m) = elim m [ ]

winner-IsSettled : IsSettled sample_env true 120 state_of_one winner
unfolding made best_from
winner-IsSettled = record {
  wanted = refl;
  best = refl;
  current = refl;
  stays_suspended = refl;
  others_done = nobody_goes;
}

scheduled_at_120 :
    state_for sample_calendar (scheduled_live none).object 120 ≡ some (ok period_at_120)
unfolding made
scheduled_at_120 = refl

reconcile_settled_example :
    (written : ControlledJob) × (reconcile sample_env
        (sample_cluster one_job accept_all)
        sample_calendar
        true
        "cj"
        "ns"
        120
      ≡ (
        some (record { requeue_after = pos 40; error = none }),
        get_call "cj" "ns" ∷ list_call "cj" "ns" ∷ update_status_call written ∷ [],
      ))
    × (written.status.is_running ≡ some true)
    × (says_error written ≡ false)
unfolding reconciled
reconcile_settled_example =
    reconcile_settled sample_env (sample_cluster one_job accept_all) sample_calendar true 120
      (scheduled_live none).object one_job period_at_120 winner scheduled_at_120 (λ e. cc)
      winner-IsSettled "cj" "ns" refl refl
