-- ===== src/Decision/Convergence/Tests.antt =====
-- The first job of a run period is created at 110, and all is settled at 130.
use controlled_job.Base.{◌≡◌, refl, true, none, some, List, [], ◌∷◌}
use controlled_job.Kube.{Job}
use controlled_job.Builder.Annotations.{OwnerKeepsAnnotations}
use controlled_job.State.{Handle}
use controlled_job.Samples.{sample_env, sample_live, running_job, running_state}
use controlled_job.Samples.Run.{evaluate}
use controlled_job.Decision.{decide}
use controlled_job.Decision.Convergence.Later.{GoesOn, first_run_settles}

keeps_annotations : OwnerKeepsAnnotations sample_env
keeps_annotations cj job owned e = cc

abbrev first_of : List Handle → Handle
first_of [] = record { addr = 0; job = running_job "" "" }
first_of (h ∷ hs) = h

abbrev created : Handle
created =
    first_of (decide sample_env true 110 (running_state []) sample_live).decision.jobs_to_create

-- Its pods are there.
abbrev started_job : Job
started_job = record created.job { status = record { active = 1; ready = some 1; conditions = [] } }

created-GoesOn : GoesOn (running_state []) created (running_state (started_job ∷ [])) started_job
created-GoesOn = record {
  not_suspended = refl;
  wanted = refl;
  same_hash = refl;
  only = refl;
  same_annotations = refl;
  same_spec = refl;
  same_deletion = refl;
}

first_run_settles_example :
    let out = decide sample_env true 130 (running_state (started_job ∷ [])) sample_live in
    (out.error ≡ none)
    × (out.decision.jobs_to_create ≡ [])
    × (out.decision.jobs_to_delete ≡ [])
    × (out.decision.jobs_to_unsuspend ≡ [])
    × (out.live.object.status.is_running ≡ some true)
unfolding evaluate
first_run_settles_example =
    first_run_settles sample_env true 110 (running_state []) sample_live keeps_annotations refl refl
      created 100 100 (running_state (started_job ∷ [])) started_job true 130 sample_live refl refl
      refl refl refl refl refl refl created-GoesOn refl
