-- ===== src/Decision/Candidate.antt =====
-- Which job to keep: isOutOfDate, isBetterCandidateJob and the loops' comparison with the best job
-- so far, in pkg/reconciliation/decision.go.
pub mod Order
pub mod Best
mod Tests
use controlled_job.Base.{
  String, Bool, true, false, not, Option, none, some, List, [], ◌∷◌, ◌&&◌, str_eq, same,
  if◌then◌else◌,
}
use controlled_job.Base.Text.{gt_text}
use controlled_job.Kube.{Job}
use controlled_job.Metadata.{value_of, template_hash_annotation, is_job_being_deleted}
use controlled_job.State.{State, Handle}

abbrev pub template_hash_of : Job → String
template_hash_of job = value_of template_hash_annotation job.annotations

unfoldable pub is_out_of_date : Job → State → Bool
is_out_of_date job state =
    let actual = template_hash_of job in
    not (str_eq actual "") && not (str_eq actual state.desired_hash)

-- `hash == desiredHash`
unfoldable pub has_desired_spec : State → Job → Bool
has_desired_spec state job = str_eq (template_hash_of job) state.desired_hash

unfoldable pub is_better_candidate_job : Job → Job → State → Bool
unfolding has_desired_spec
is_better_candidate_job job current state =
    if not (same (is_job_being_deleted job) (is_job_being_deleted current))
    then not (is_job_being_deleted job)
    else if not (same (has_desired_spec state job) (has_desired_spec state current))
    then has_desired_spec state job
    else gt_text job.name current.name

-- `best == nil || isBetterCandidateJob(job, best, state)`, and the assignment under it.
unfoldable pub better_of : State → Option Handle → Handle → Option Handle
better_of state none h = some h
better_of state (some best) h =
    if is_better_candidate_job h.job best.job state then some h else some best
