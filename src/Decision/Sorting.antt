-- ===== src/Decision/Sorting.antt =====
-- What the second loop of makeDecision computes, in closed form.
use mathlib.Core.List.{append_assoc, append-nil}
use controlled_job.Base.{
  suc, ◌+◌, ◌≡◌, refl, sym, ◌∙◌, Bool, not, none, List, [], ◌∷◌, ◌++◌, inl, inr, arith, keep, count,
  Bool-cases, if◌then◌else◌,
}
use controlled_job.Env.{Env}
use controlled_job.Metadata.{is_job_potentially_running}
use controlled_job.State.{State, Handle}
use controlled_job.Decision.Candidate.{better_of}
use controlled_job.Decision.Candidate.Best.{best_from}
use controlled_job.Decision.Loops.{Sorted, is_expired, sort_step, sort_from, unsorted, sort_jobs}

module _ (env : Env) (state : State) where
  abbrev pub expires : Handle → Bool
  expires h = is_expired env state h.job

  abbrev pub remains : Handle → Bool
  remains h = not (expires h)

  abbrev pub runs : Handle → Bool
  runs h = is_job_potentially_running h.job

  step_fields :
      (s : Sorted) (h : Handle)
      → ((sort_step env state s h).expired ≡ (if expires h then s.expired ++ h ∷ [] else s.expired))
        × ((sort_step env state s h).non_expired
            ≡ (if expires h then s.non_expired else s.non_expired ++ h ∷ []))
        × ((sort_step env state s h).chosen
            ≡ (if expires h then s.chosen else better_of state s.chosen h))
        × ((sort_step env state s h).potentially_running
            ≡ (if runs h then suc s.potentially_running else s.potentially_running))
  unfolding sort_step
  step_fields s h = ground arith

  expired-sort_from :
      (hs : List Handle) (s : Sorted)
      → (sort_from env state s hs).expired ≡ s.expired ++ keep expires hs
  unfolding sort_from
  expired-sort_from [] s = sym (append-nil s.expired)
  expired-sort_from (h ∷ hs) s = elim (Bool-cases (expires h)) [
    | inl e ↦
        expired-sort_from hs (sort_step env state s h)
        ∙ rw ((step_fields s h).0, e) (append_assoc s.expired (h ∷ []) (keep expires hs))
    | inr e ↦ expired-sort_from hs (sort_step env state s h) ∙ rw ((step_fields s h).0, e)
  ]

  non_expired-sort_from :
      (hs : List Handle) (s : Sorted)
      → (sort_from env state s hs).non_expired ≡ s.non_expired ++ keep remains hs
  unfolding sort_from
  non_expired-sort_from [] s = sym (append-nil s.non_expired)
  non_expired-sort_from (h ∷ hs) s = elim (Bool-cases (expires h)) [
    | inl e ↦ non_expired-sort_from hs (sort_step env state s h) ∙ rw ((step_fields s h).1, e)
    | inr e ↦
        non_expired-sort_from hs (sort_step env state s h)
        ∙ rw ((step_fields s h).1, e) (append_assoc s.non_expired (h ∷ []) (keep remains hs))
  ]

  chosen-sort_from :
      (hs : List Handle) (s : Sorted)
      → (sort_from env state s hs).chosen ≡ best_from state s.chosen (keep remains hs)
  unfolding sort_from best_from
  chosen-sort_from [] s = refl
  chosen-sort_from (h ∷ hs) s = elim (Bool-cases (expires h)) [
    | inl e ↦ chosen-sort_from hs (sort_step env state s h) ∙ rw ((step_fields s h).2, e)
    | inr e ↦ chosen-sort_from hs (sort_step env state s h) ∙ rw ((step_fields s h).2, e)
  ]

  running-sort_from :
      (hs : List Handle) (s : Sorted)
      → (sort_from env state s hs).potentially_running ≡ s.potentially_running + count runs hs
  unfolding sort_from
  running-sort_from [] s = omega arith
  running-sort_from (h ∷ hs) s = elim (Bool-cases (runs h)) [
    | inl e ↦
        running-sort_from hs (sort_step env state s h) ∙ rw ((step_fields s h).3, e) (omega arith)
    | inr e ↦ running-sort_from hs (sort_step env state s h) ∙ rw ((step_fields s h).3, e)
  ]

  -- The loop splits the jobs, in their order, into the expired ones and the others, counts the
  -- potentially running ones among all, and chooses the best of those that are not expired.
  pub sort_jobs_lem :
      ((sort_jobs env state).expired ≡ keep expires state.all_jobs)
      × ((sort_jobs env state).non_expired ≡ keep remains state.all_jobs)
      × ((sort_jobs env state).chosen ≡ best_from state none (keep remains state.all_jobs))
      × ((sort_jobs env state).potentially_running ≡ count runs state.all_jobs)
  unfolding sort_jobs
  sort_jobs_lem = (
    expired-sort_from state.all_jobs unsorted,
    non_expired-sort_from state.all_jobs unsorted,
    chosen-sort_from state.all_jobs unsorted,
    omega (arith, running-sort_from state.all_jobs unsorted),
  )
