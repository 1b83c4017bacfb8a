-- ===== src/Decision/Candidate/Best.antt =====
-- The best candidate of a list: what the loops of makeDecision in
-- pkg/reconciliation/decision.go keep in jobToRecordMetricsAgainst and chosenJob.
use controlled_job.Base.{
  ◌≡◌, refl, sym, ap, subst, ◌∙◌, ◌⊎◌, inl, inr, Option, none, some, List, [], ◌∷◌, Memᴰ,
  Bool-cases, str_eq, eq_iff,
}
use mathlib.Core.Bool.{false≢true}
use mathlib.Core.Option
use controlled_job.Kube.{Job}
use controlled_job.State.{State, Handle}
use controlled_job.Decision.Candidate.{is_better_candidate_job, better_of}
use controlled_job.Decision.Candidate.Order.{
  Beats, Beats-irrefl, Beats-trans, Beats-asymm, Beats-total,
}

-- The best of a list, compared from left to right.
unfoldable pub best_from : State → Option Handle → List Handle → Option Handle
best_from state best [] = best
best_from state best (h ∷ hs) = best_from state (better_of state best h) hs

module _ (state : State) where
  -- Of a first candidate `b` and a list the outcome `c` is one, and no other is better.
  abbrev IsBestFrom : Handle → List Handle → Handle → Type 0
  IsBestFrom b hs c =
      ((b ≡ c) ⊎ Memᴰ c hs × Beats state c.job b.job)
      × ((h : Handle) → Memᴰ h hs → ¬ Beats state h.job c.job)

  first_not-Beats :
      (b c : Handle) (hs : List Handle) → IsBestFrom b hs c → ¬ Beats state b.job c.job
  first_not-Beats b c hs (inl e, _) k =
      Beats-irrefl state c.job (subst (λ (h : Handle). Beats state h.job c.job) e k)
  first_not-Beats b c hs (inr (_, better), _) k = Beats-asymm state c.job b.job better k

  IsBestFrom-replaced :
      (b x c : Handle) (hs : List Handle)
      → Beats state x.job b.job
      → IsBestFrom x hs c
      → IsBestFrom b (x ∷ hs) c
  IsBestFrom-replaced b x c hs e best = (inr (place best.0), none_better)
    where
      place :
          (x ≡ c) ⊎ Memᴰ c hs × Beats state c.job x.job → Memᴰ c (x ∷ hs) × Beats state c.job b.job
      place (inl p) = (Memᴰ.head (sym p), subst (λ (h : Handle). Beats state h.job b.job) p e)
      place (inr (m, better)) = (Memᴰ.tail m, Beats-trans state c.job x.job b.job better e)

      none_better : (h : Handle) → Memᴰ h (x ∷ hs) → ¬ Beats state h.job c.job
      none_better h (Memᴰ.head p) k =
          first_not-Beats x c hs best (subst (λ (g : Handle). Beats state g.job c.job) p k)
      none_better h (Memᴰ.tail m) k = best.1 h m k

  IsBestFrom-kept :
      (b x c : Handle) (hs : List Handle)
      → ¬ Beats state x.job b.job
      → IsBestFrom b hs c
      → IsBestFrom b (x ∷ hs) c
  IsBestFrom-kept b x c hs e best = (place best.0, none_better)
    where
      place :
          (b ≡ c) ⊎ Memᴰ c hs × Beats state c.job b.job
          → (b ≡ c) ⊎ Memᴰ c (x ∷ hs) × Beats state c.job b.job
      place (inl p) = inl p
      place (inr (m, better)) = inr (Memᴰ.tail m, better)

      x_not : (b ≡ c) ⊎ Memᴰ c hs × Beats state c.job b.job → ¬ Beats state x.job c.job
      x_not (inl p) k = e (subst (λ (h : Handle). Beats state x.job h.job) (sym p) k)
      x_not (inr (m, better)) k = e (Beats-trans state x.job c.job b.job k better)

      none_better : (h : Handle) → Memᴰ h (x ∷ hs) → ¬ Beats state h.job c.job
      none_better h (Memᴰ.head p) k =
          x_not best.0 (subst (λ (g : Handle). Beats state g.job c.job) p k)
      none_better h (Memᴰ.tail m) k = best.1 h m k

  best_from-some :
      (b : Handle) (hs : List Handle)
      → (c : Handle) × (best_from state (some b) hs ≡ some c) × IsBestFrom b hs c
  unfolding best_from better_of
  best_from-some b [] = (b, refl, (inl refl, λ h m. elim m [ ]))
  best_from-some b (x ∷ hs) = elim (Bool-cases (is_better_candidate_job x.job b.job state)) [
    | inl e ↦
        let (c, eq, best) = best_from-some x hs in (c, rw e eq, IsBestFrom-replaced b x c hs e best)
    | inr e ↦
        let (c, eq, best) = best_from-some b hs in
        (c, rw e eq, IsBestFrom-kept b x c hs (λ k. cc) best)
  ]

  abbrev pub IsBestOf : List Handle → Option Handle → Type 0
  IsBestOf hs none = hs ≡ []
  IsBestOf hs (some c) = Memᴰ c hs × ((h : Handle) → Memᴰ h hs → ¬ Beats state h.job c.job)

  -- What the loop chooses is in the list, and no job of the list is better; it chooses none only
  -- from the empty list.
  pub best_from-IsBestOf : (hs : List Handle) → IsBestOf hs (best_from state none hs)
  unfolding best_from better_of
  best_from-IsBestOf [] = refl
  best_from-IsBestOf (b ∷ hs) =
      let (c, eq, best) = best_from-some b hs in rw eq (chosen c best, all_hs c best)
    where
      chosen : (c : Handle) → IsBestFrom b hs c → Memᴰ c (b ∷ hs)
      chosen c (inl p, _) = Memᴰ.head (sym p)
      chosen c (inr (m, _), _) = Memᴰ.tail m

      all_hs :
          (c : Handle)
          → IsBestFrom b hs c
          → (h : Handle) → Memᴰ h (b ∷ hs)
          → ¬ Beats state h.job c.job
      all_hs c best h (Memᴰ.head p) k =
          first_not-Beats b c hs best (subst (λ (g : Handle). Beats state g.job c.job) p k)
      all_hs c best h (Memᴰ.tail m) k = best.1 h m k

  module _ (hs ks : List Handle)
      (names : (h k : Handle) → Memᴰ h hs → Memᴰ k ks → h.job.name ≡ k.job.name → h.job ≡ k.job)
      (there : (h : Handle) → Memᴰ h hs → (k : Handle) × Memᴰ k ks × (k.job ≡ h.job))
      (back : (k : Handle) → Memᴰ k ks → (h : Handle) × Memᴰ h hs × (h.job ≡ k.job)) where
    same_best : (c d : Handle) → IsBestOf hs (some c) → IsBestOf ks (some d) → c.job ≡ d.job
    same_best c d e f = elim (Bool-cases (str_eq c.job.name d.job.name)) [
      | inl same ↦ names c d e.0 f.0 ((eq_iff c.job.name d.job.name).0 same)
      | inr other ↦ absurd (
          d_not (
            Beats-total state c.job d.job
              (λ p. false≢true (sym other ∙ (eq_iff c.job.name d.job.name).1 p)) c_not))
    ]
      where
        c_not : ¬ Beats state c.job d.job
        c_not =
            let (k, m, p) = there c e.0 in subst (λ (j : Job). ¬ Beats state j d.job) p (f.1 k m)

        d_not : ¬ Beats state d.job c.job
        d_not = let (h, m, p) = back d f.0 in subst (λ (j : Job). ¬ Beats state j c.job) p (e.1 h m)

    unique :
        (o q : Option Handle)
        → IsBestOf hs o
        → IsBestOf ks q
        → Option.map (λ (h : Handle). h.job) o ≡ Option.map (λ (h : Handle). h.job) q
    unique none none e f = refl
    unique none (some d) e f = absurd (elim (subst (Memᴰ (back d f.0).0) e (back d f.0).1) [ ])
    unique (some c) none e f = absurd (elim (subst (Memᴰ (there c e.0).0) f (there c e.0).1) [ ])
    unique (some c) (some d) e f = ap some (same_best c d e f)

    -- From two lists with the same jobs, whose names tell them apart, the loop chooses the same job:
    -- neither their order nor the addresses matter.
    pub best_from_stable :
        Option.map (λ (h : Handle). h.job) (best_from state none hs)
        ≡ Option.map (λ (h : Handle). h.job) (best_from state none ks)
    best_from_stable = unique _ _ (best_from-IsBestOf hs) (best_from-IsBestOf ks)
