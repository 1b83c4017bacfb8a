-- ===== src/Decision/Candidate/Order.antt =====
-- isBetterCandidateJob of pkg/reconciliation/decision.go as an order on jobs.
use controlled_job.Base.{◌≡◌, ◌≢◌, inl, inr, true, false, arith, Bool-cases}
use controlled_job.Base.Text.{gt_text_irrefl, gt_text_trans, gt_text_total}
use controlled_job.Kube.{Job}
use controlled_job.State.{State}
use controlled_job.Decision.Candidate.{is_better_candidate_job}

abbrev pub Beats : State → Job → Job → Type 0
Beats state a b = is_better_candidate_job a b state ≡ true

module _ (state : State) where
  pub Beats-irrefl : (a : Job) → ¬ Beats state a a
  unfolding is_better_candidate_job
  Beats-irrefl a h = ground (arith, gt_text_irrefl a.name)

  -- A job that is better than a second one, which is better than a third, is better than the third.
  pub Beats-trans : (a b c : Job) → Beats state a b → Beats state b c → Beats state a c
  unfolding is_better_candidate_job
  Beats-trans a b c h k = ground (arith, gt_text_trans a.name b.name c.name)

  pub Beats-asymm : (a b : Job) → Beats state a b → ¬ Beats state b a
  Beats-asymm a b h k = Beats-irrefl a (Beats-trans a b a h k)

  -- Of two jobs with different names one is better.
  pub Beats-total : (a b : Job) → a.name ≢ b.name → ¬ Beats state a b → Beats state b a
  Beats-total a b ne h = elim (Bool-cases (is_better_candidate_job a b state)) [
    | inl e ↦ absurd (h e)
    | inr e ↦ by_name e
  ]
    where
      by_name : is_better_candidate_job a b state ≡ false → Beats state b a
      by_name e = unfold is_better_candidate_job in ground (arith, gt_text_total a.name b.name ne)
