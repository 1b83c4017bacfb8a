-- ===== src/Decision/Candidate/Tests.antt =====
-- The candidates of pkg/reconciliation/decision.go at three small jobs, and their theorems there.
use mathlib.Core.Bool.{false≢true}
use controlled_job.Base.{eq_iff, sym, ap, ◌∙◌, ◌≡◌, ◌≢◌, refl, none, some, List, [], ◌∷◌, Memᴰ}
use mathlib.Core.Option
use controlled_job.Base.Text.{gt_text}
use controlled_job.Kube.{Job}
use controlled_job.Metadata.{is_job_being_deleted, value_of, lookup}
use controlled_job.State.{State, Handle, IsNumbered, pointers_from, pointers-IsNumbered}
use controlled_job.Samples.{running_job, running_state}
use controlled_job.Decision.Candidate.{is_better_candidate_job, has_desired_spec}
use controlled_job.Decision.Candidate.Order.{Beats}
use controlled_job.Decision.Candidate.Best.{best_from, best_from_stable}

abbrev job_a : Job
job_a = running_job "cj-100-0" "100"

abbrev job_b : Job
job_b = running_job "cj-100-1" "100"

abbrev job_c : Job
job_c = record (running_job "cj-100-2" "100") { deletion_timestamp = some 105 }

names_differ : job_a.name ≢ job_b.name
names_differ e = false≢true ((eq_iff job_a.name job_b.name).1 e)

abbrev at : State
at = running_state []

b-Beats_a : Beats at job_b job_a
unfolding is_better_candidate_job has_desired_spec is_job_being_deleted value_of lookup gt_text
b-Beats_a = refl

a-Beats_c : Beats at job_a job_c
unfolding is_better_candidate_job has_desired_spec is_job_being_deleted value_of lookup gt_text
a-Beats_c = refl

a_not_b : ¬ Beats at job_a job_b
unfolding is_better_candidate_job has_desired_spec is_job_being_deleted value_of lookup gt_text
a_not_b e = cc

abbrev forward : List Handle
forward = record { addr = 0; job = job_a } ∷ record { addr = 1; job = job_b } ∷ []

abbrev backward : List Handle
backward = record { addr = 7; job = job_b } ∷ record { addr = 8; job = job_a } ∷ []

absurd_names :
    (h k : Handle)
    → h ≡ record { addr = 0; job = job_a }
    → k ≡ record { addr = 7; job = job_b }
    → h.job.name ≢ k.job.name
absurd_names h k p q e =
    names_differ (sym (ap (λ (x : Handle). x.job.name) p) ∙ e ∙ ap (λ (x : Handle). x.job.name) q)

same_jobs : (h k x y : Handle) → h ≡ x → k ≡ y → x.job ≡ y.job → h.job ≡ k.job
same_jobs h k x y p q e = cc

same_names :
    (h k : Handle) → Memᴰ h forward → Memᴰ k backward → h.job.name ≡ k.job.name → h.job ≡ k.job
same_names h k (Memᴰ.head p) (Memᴰ.head q) e = absurd (absurd_names h k p q e)
same_names h k (Memᴰ.head p) (Memᴰ.tail (Memᴰ.head q)) e = same_jobs h k _ _ p q refl
same_names h k (Memᴰ.head p) (Memᴰ.tail (Memᴰ.tail m)) e = elim m [ ]
same_names h k (Memᴰ.tail (Memᴰ.head p)) (Memᴰ.head q) e = same_jobs h k _ _ p q refl
same_names h k (Memᴰ.tail (Memᴰ.head p)) (Memᴰ.tail (Memᴰ.head q)) e = absurd (
    names_differ
      (sym (ap (λ (x : Handle). x.job.name) q) ∙ sym e ∙ ap (λ (x : Handle). x.job.name) p))
same_names h k (Memᴰ.tail (Memᴰ.head p)) (Memᴰ.tail (Memᴰ.tail m)) e = elim m [ ]
same_names h k (Memᴰ.tail (Memᴰ.tail m)) l e = elim m [ ]

to_backward : (h : Handle) → Memᴰ h forward → (k : Handle) × Memᴰ k backward × (k.job ≡ h.job)
to_backward h (Memᴰ.head p) = (record { addr = 8; job = job_a }, Memᴰ.tail (Memᴰ.head refl), cc)
to_backward h (Memᴰ.tail (Memᴰ.head p)) = (record { addr = 7; job = job_b }, Memᴰ.head refl, cc)
to_backward h (Memᴰ.tail (Memᴰ.tail m)) = elim m [ ]

to_forward : (k : Handle) → Memᴰ k backward → (h : Handle) × Memᴰ h forward × (h.job ≡ k.job)
to_forward k (Memᴰ.head p) = (record { addr = 1; job = job_b }, Memᴰ.tail (Memᴰ.head refl), cc)
to_forward k (Memᴰ.tail (Memᴰ.head p)) = (record { addr = 0; job = job_a }, Memᴰ.head refl, cc)
to_forward k (Memᴰ.tail (Memᴰ.tail m)) = elim m [ ]

best_from_stable_example :
    Option.map (λ (h : Handle). h.job) (best_from at none forward)
    ≡ Option.map (λ (h : Handle). h.job) (best_from at none backward)
best_from_stable_example = best_from_stable at forward backward same_names to_backward to_forward

pointers-IsNumbered_example : IsNumbered (pointers_from 0 (job_a ∷ job_b ∷ []))
pointers-IsNumbered_example = pointers-IsNumbered (job_a ∷ job_b ∷ [])
