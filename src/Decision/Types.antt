-- ===== src/Decision/Types.antt =====
-- The results and the local variables of makeDecision of pkg/reconciliation/decision.go.
use controlled_job.Base.{ℕ, ◌^◌, Bool, false, Option, none, some, List, [], ◌∷◌, ltb, if◌then◌else◌}
use controlled_job.Base.Int.{pos, negsuc, mul_i64}
use controlled_job.Errors.{Error}
use controlled_job.Kube.{Time, add_duration}
use controlled_job.Api.{ControlledJob}
use controlled_job.Api.Conditions.{Live}
use controlled_job.State.{Handle, same_handle}

pub record Decision : Type 0 where
  pub jobs_to_create : List Handle
  pub jobs_to_delete : List Handle
  pub jobs_to_suspend : List Handle
  pub jobs_to_unsuspend : List Handle
  -- 0 is the zero time
  pub requeue_at : Time

abbrev pub no_decision : Decision
no_decision = record {
  jobs_to_create = [];
  jobs_to_delete = [];
  jobs_to_suspend = [];
  jobs_to_unsuspend = [];
  requeue_at = 0;
}

-- The ControlledJob with its new status, and the two results.
pub record Outcome : Type 0 where
  pub live : Live
  pub decision : Decision
  pub error : Option Error

-- The local variables from the second loop on.
pub record Progress : Type 0 where
  pub live : Live
  pub decision : Decision
  pub potentially_running : ℕ
  pub expired : List Handle
  pub non_expired : List Handle
  pub chosen : Option Handle

-- A part of the function either goes on or returns with an error.
pub data Step : Type 0 where
  go : Progress → Step
  fail : Error → Progress → Step

abbrev pub and_then : Step → (Progress → Step) → Step
and_then (go p) f = f p
and_then (fail e p) f = fail e p

abbrev pub map_live : (Live → Live) → Progress → Progress
map_live f p = record p { live = f p.live }

unfoldable pub starting_deadline_seconds_exceeded : ControlledJob → Option Time → Time → Bool
starting_deadline_seconds_exceeded cj scheduled now = elim cj.spec.starting_deadline_seconds [
  | none ↦ false
  | some (negsuc _) ↦ false
  | some (pos seconds) ↦ if ltb seconds 1 then false else elim scheduled [
    | none ↦ false
    | some start ↦ ltb (add_duration start (mul_i64 (10 ^ 9) seconds)) now
  ]
]

abbrev pub is_chosen : Option Handle → Handle → Bool
is_chosen none h = false
is_chosen (some c) h = same_handle h c

-- `len(JobsToCreate) == 1 && JobsToCreate[0] == chosenJob`
abbrev pub is_only : Handle → List Handle → Bool
is_only c [] = false
is_only c (h ∷ []) = same_handle h c
is_only c (h ∷ k ∷ hs) = false

abbrev pub unsuspended : Handle → Handle
unsuspended h = record h { job = record h.job { spec = record h.job.spec { suspend = none } } }
