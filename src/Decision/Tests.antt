-- ===== src/Decision/Tests.antt =====
-- Runs of makeDecision of pkg/reconciliation/decision.go, and its theorems at them.
use controlled_job.Base.{
  ◌≡◌, refl, true, false, none, some, List, [], ◌∷◌, Memᴰ, map, String, ◌↔◌, ◌∙◌, sym, ◌≤◌, ◌<◌,
  ◌+◌, ◌*◌, ◌^◌, arith,
}
use controlled_job.Base.Int.{pos}
use controlled_job.Decision.Candidate.Best.{best_from}
use controlled_job.Builder.Suspension.{OwnerKeepsSpec}
use controlled_job.Decision.Deletion.{decide_deletes, is_removed}
use controlled_job.Decision.Results.{chosen_at_end}
use controlled_job.Decision.OneActive.{HasOneActive, is_unsuspended, decide-IsActiveAfter}
use controlled_job.Decision.AtMostOne.{Survives, none-Survives_creation}
use controlled_job.Decision.Unsuspension.{unsuspends_waiting, unsuspends_alone, creates_alone}
use controlled_job.Decision.Schedule.{
  IsRunBy, decide_runs, outside_survivor_manual, outside_creation_manual,
}
use controlled_job.Kube.{Job}
use controlled_job.Metadata.{
  is_manually_scheduled_job, is_job_potentially_running, is_job_being_deleted, is_job_suspended,
  was_job_stopped_by_the_user,
}
use controlled_job.State.{Handle, pointers-IsNumbered}
use controlled_job.Samples.Run.{evaluate}
use controlled_job.Samples.{
  sample_env, sample_live, running_job, suspended_job, completed_job, running_state, stopped_state,
}
use controlled_job.Decision.Settled.{decide_settled, IsSettled}
use controlled_job.Decision.Loops.{is_expired}
use controlled_job.Decision.{decide, starting_deadline_seconds_exceeded}
use controlled_job.Decision.Deadline.{starting_deadline_range}
use controlled_job.Api.{ControlledJob}

abbrev names : List Handle → List String
names = map (λ h. h.job.name)

abbrev rivals : List Job
rivals = running_job "cj-100-1" "100" ∷ running_job "cj-100-0" "100" ∷ []

rivals_ok : (evaluate (running_state rivals)).error ≡ none
unfolding evaluate
rivals_ok = refl

rivals_deleted : names (evaluate (running_state rivals)).decision.jobs_to_delete ≡ "cj-100-0" ∷ []
unfolding evaluate
rivals_deleted = refl

-- With no job at all one is created, and since it is alone it is not suspended.
created_alone :
    (names (evaluate (running_state [])).decision.jobs_to_create ≡ "cj--62135596800-0" ∷ [])
    × (map
          (λ (h : Handle). h.job.spec.suspend)
          (evaluate (running_state [])).decision.jobs_to_create
        ≡ none ∷ [])
unfolding evaluate
created_alone = (refl, refl)

-- The first of the two rivals stays, and it is the only one.
abbrev winner : Handle
winner = record { addr = 0; job = running_job "cj-100-1" "100" }

abbrev loser : Handle
loser = record { addr = 1; job = running_job "cj-100-0" "100" }

not_loser : ¬ Memᴰ winner (loser ∷ [])
not_loser (Memᴰ.head e) = cc
not_loser (Memᴰ.tail m) = elim m [ ]

winner-Survives :
    Survives (decide sample_env true 110 (running_state rivals) sample_live).decision winner
unfolding evaluate
winner-Survives = (refl, refl, not_loser)

decide_deletes_example :
    Memᴰ loser
      (decide sample_env true 110 (running_state rivals) sample_live).decision.jobs_to_delete
    ↔ (is_removed sample_env true 110
          (running_state rivals)
          (chosen_at_end sample_env true 110 (running_state rivals) sample_live)
          loser
        ≡ true)
unfolding evaluate
decide_deletes_example =
    decide_deletes sample_env true 110 (running_state rivals) sample_live loser refl refl
      (Memᴰ.tail (Memᴰ.head refl))

decide_runs_example :
    ((decide sample_env true 110 (running_state rivals) sample_live).live.object.status.is_running
      ≡ some true)
    × IsRunBy sample_env true 110
        (running_state rivals)
        (decide sample_env true 110 (running_state rivals) sample_live).decision
unfolding evaluate
decide_runs_example =
    decide_runs sample_env true 110 (running_state rivals) sample_live refl refl refl

-- A job whose specification is not the current one any more.
abbrev outdated : Job
outdated = record (running_job "cj-100-0" "100") {
  annotations =
      ("batch.gresearch.co.uk/scheduled-at", "100")
      ∷ ("batch.gresearch.co.uk/template", "")
      ∷ ("batch.gresearch.co.uk/is-manually-scheduled", "true")
      ∷ ("batch.gresearch.co.uk/job-template-hash", "old")
      ∷ [];
}

none-Survives_creation_example :
    ¬ Survives
      (decide sample_env true 110 (running_state (outdated ∷ [])) sample_live).decision
      (record { addr = 0; job = outdated })
unfolding evaluate
none-Survives_creation_example =
    none-Survives_creation sample_env true 110 (running_state (outdated ∷ [])) sample_live
      (record { addr = 0; job = outdated }) (pointers-IsNumbered (outdated ∷ [])) refl refl
      (Memᴰ.head refl) (λ e. cc)

sample_env-OwnerKeepsSpec : OwnerKeepsSpec sample_env
sample_env-OwnerKeepsSpec cj job owned e = cc

abbrev waiting : Handle
waiting = record { addr = 0; job = suspended_job "cj-100-0" "100" }

unsuspends_waiting_example :
    Memᴰ waiting (running_state (suspended_job "cj-100-0" "100" ∷ [])).all_jobs
    × (is_expired sample_env (running_state (suspended_job "cj-100-0" "100" ∷ [])) waiting.job
        ≡ false)
    × (is_job_suspended waiting.job ≡ true)
    × (is_job_being_deleted waiting.job ≡ false)
    × (was_job_stopped_by_the_user waiting.job ≡ false)
unfolding evaluate
unsuspends_waiting_example =
    unsuspends_waiting sample_env true 110 (running_state (suspended_job "cj-100-0" "100" ∷ []))
      sample_env-OwnerKeepsSpec tt sample_live waiting refl refl (Memᴰ.head refl)

unsuspends_alone_example : waiting ≡ waiting
unfolding evaluate
unsuspends_alone_example =
    unsuspends_alone sample_env true 110 (running_state (suspended_job "cj-100-0" "100" ∷ []))
      sample_env-OwnerKeepsSpec tt sample_live waiting waiting refl refl (Memᴰ.head refl)
      (Memᴰ.head refl) refl refl

-- A job of an earlier period, which is completed.
abbrev finished : Handle
finished = record { addr = 0; job = completed_job "cj-40-0" "40" }

-- The job that is created next to it.
abbrev created_next : List Job → List Handle
created_next jobs =
    (decide sample_env true 110 (running_state jobs) sample_live).decision.jobs_to_create

abbrev first_created : List Handle → Handle
first_created [] = waiting
first_created (h ∷ hs) = h

creates_alone_example : is_job_potentially_running finished.job ≡ false
unfolding evaluate
creates_alone_example =
    creates_alone sample_env true 110 (running_state (completed_job "cj-40-0" "40" ∷ []))
      sample_env-OwnerKeepsSpec tt sample_live
      (first_created (created_next (completed_job "cj-40-0" "40" ∷ []))) finished refl refl
      (Memᴰ.head refl) refl (Memᴰ.head refl)

-- A job that the user started after the stop.
abbrev by_hand : String → Job
by_hand hash = record (running_job "cj-160-0" "160") {
  annotations =
      ("batch.gresearch.co.uk/scheduled-at", "160")
      ∷ ("batch.gresearch.co.uk/is-manually-scheduled", "true")
      ∷ ("batch.gresearch.co.uk/job-template-hash", hash)
      ∷ [];
}

outside_survivor_manual_example : is_manually_scheduled_job (by_hand "spec") ≡ true
unfolding evaluate
outside_survivor_manual_example =
    outside_survivor_manual sample_env true 170 (stopped_state (by_hand "spec" ∷ [])) sample_live
      (record { addr = 0; job = by_hand "spec" }) (pointers-IsNumbered (by_hand "spec" ∷ [])) refl
      (λ e. cc) refl (Memᴰ.head refl) (refl, refl, λ m. elim m [ ])

outside_creation_manual_example :
    (c : Handle) × Memᴰ c (stopped_state (by_hand "old" ∷ [])).all_jobs
    × (is_expired sample_env (stopped_state (by_hand "old" ∷ [])) c.job ≡ false)
    × (is_manually_scheduled_job c.job ≡ true)
unfolding evaluate
outside_creation_manual_example =
    outside_creation_manual sample_env true 170 (stopped_state (by_hand "old" ∷ [])) sample_live
      refl (λ e. cc) refl (λ e. cc)

one_waiting : HasOneActive (waiting ∷ [])
one_waiting h k (Memᴰ.head p) (Memᴰ.head q) a b = p ∙ sym q
one_waiting h k (Memᴰ.head p) (Memᴰ.tail l) a b = elim l [ ]
one_waiting h k (Memᴰ.tail m) l a b = elim m [ ]

decide-IsActiveAfter_example : waiting ≡ waiting
unfolding evaluate
decide-IsActiveAfter_example =
    decide-IsActiveAfter sample_env true 110 (running_state (suspended_job "cj-100-0" "100" ∷ []))
      sample_env-OwnerKeepsSpec tt sample_live refl refl one_waiting waiting waiting
      (is_unsuspended (Memᴰ.head refl) refl) (is_unsuspended (Memᴰ.head refl) refl)

abbrev with_deadline : ControlledJob
with_deadline = record sample_live.object {
  spec = record sample_live.object.spec { starting_deadline_seconds = some (pos 30) };
}

starting_deadline_range_example :
    (30 ≤ 9223372036
      → (starting_deadline_seconds_exceeded with_deadline (some 100) 200 ≡ true)
        ↔ (100 + 30 * 10 ^ 9 < 200))
    × (9223372036 < 30
        → 30 ≤ 18446744073
        → 100 ≤ 200
        → starting_deadline_seconds_exceeded with_deadline (some 100) 200 ≡ true)
starting_deadline_range_example =
    starting_deadline_range with_deadline 30 100 200 refl (omega arith) (omega arith)

-- One job that runs, and one that is completed.
abbrev settled_jobs : List Job
settled_jobs = running_job "cj-100-1" "100" ∷ completed_job "cj-100-0" "100" ∷ []

nobody_goes :
    (h : Handle)
    → Memᴰ h (running_state settled_jobs).all_jobs
    → is_removed sample_env true 110 (running_state settled_jobs) (some winner) h ≡ false
unfolding evaluate
nobody_goes h (Memᴰ.head e) = rw e refl
nobody_goes h (Memᴰ.tail (Memᴰ.head e)) = rw e refl
nobody_goes h (Memᴰ.tail (Memᴰ.tail m)) = elim m [ ]

winner-IsSettled : IsSettled sample_env true 110 (running_state settled_jobs) winner
unfolding evaluate best_from
winner-IsSettled = record {
  wanted = refl;
  best = refl;
  current = refl;
  stays_suspended = refl;
  others_done = nobody_goes;
}

decide_settled_example :
    let out = decide sample_env true 110 (running_state settled_jobs) sample_live in
    (out.error ≡ none)
    × (out.decision.jobs_to_create ≡ [])
    × (out.decision.jobs_to_delete ≡ [])
    × (out.decision.jobs_to_unsuspend ≡ [])
    × (out.live.object.status.is_running ≡ some true)
decide_settled_example =
    decide_settled sample_env true 110 (running_state settled_jobs) sample_live winner
      winner-IsSettled refl
