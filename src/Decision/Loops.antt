-- ===== src/Decision/Loops.antt =====
-- The two loops over all jobs in makeDecision of pkg/reconciliation/decision.go.
use controlled_job.Base.{
  ℕ, ◌+◌, Bool, true, false, Option, none, some, List, [], ◌∷◌, ◌++◌, ltb, if◌then◌else◌,
}
use controlled_job.Base.Int.{ℤ, negsuc, ltb_ℤ}
use controlled_job.Errors.{ok, err}
use controlled_job.Kube.{Job, ObjectReference}
use controlled_job.Env.{Env}
use controlled_job.Metadata.{get_job_run_id, get_scheduled_time, is_job_potentially_running}
use controlled_job.State.{State, Handle}
use controlled_job.Decision.Candidate.{better_of}

-- maxJobRunId and jobToRecordMetricsAgainst
pub record Survey : Type 0 where
  pub max_job_run_id : ℤ
  pub best : Option Handle

-- A job with no readable run id is passed over.
unfoldable pub survey_step : State → Survey → Handle → Survey
survey_step state s h = elim (get_job_run_id h.job) [
  | none ↦ s
  | some run_id ↦ record {
    max_job_run_id = if ltb_ℤ s.max_job_run_id run_id then run_id else s.max_job_run_id;
    best = better_of state s.best h;
  }
]

unfoldable pub survey_from : State → Survey → List Handle → Survey
survey_from state s [] = s
survey_from state s (h ∷ hs) = survey_from state (survey_step state s h) hs

unfoldable pub survey : State → Survey
unfolding survey_from
survey state = survey_from state (record { max_job_run_id = negsuc 0; best = none }) state.all_jobs

-- The variables of the second loop.
pub record Sorted : Type 0 where
  pub potentially_running : ℕ
  pub active : List ObjectReference
  pub expired : List Handle
  pub non_expired : List Handle
  pub chosen : Option Handle

-- A job that started before the last stop, or whose start cannot be read, is expired. With no last
-- stop no job is.
unfoldable pub is_expired : Env → State → Job → Bool
is_expired env state job = elim state.last_stop_time [
  | none ↦ false
  | some stop ↦ elim (get_scheduled_time env.parse_time job) [
    | err _ ↦ true
    | ok start ↦ ltb start stop
  ]
]

append_reference : Option ObjectReference → List ObjectReference → List ObjectReference
append_reference none refs = refs
append_reference (some r) refs = refs ++ r ∷ []

count_running : Env → Sorted → Handle → Sorted
unfolding append_reference
count_running env s h =
    if is_job_potentially_running h.job
    then record s {
      potentially_running = s.potentially_running + 1;
      active = append_reference (env.get_reference h.job) s.active;
    }
    else s

unfoldable pub sort_step : Env → State → Sorted → Handle → Sorted
unfolding count_running
sort_step env state s h =
    let counted = count_running env s h in
    if is_expired env state h.job
    then record counted { expired = counted.expired ++ h ∷ [] }
    else record counted {
      non_expired = counted.non_expired ++ h ∷ [];
      chosen = better_of state counted.chosen h;
    }

unfoldable pub sort_from : Env → State → Sorted → List Handle → Sorted
sort_from env state s [] = s
sort_from env state s (h ∷ hs) = sort_from env state (sort_step env state s h) hs

abbrev pub unsorted : Sorted
unsorted = record {
  potentially_running = 0;
  active = [];
  expired = [];
  non_expired = [];
  chosen = none;
}

unfoldable pub sort_jobs : Env → State → Sorted
unfolding sort_from
sort_jobs env state = sort_from env state unsorted state.all_jobs
