-- ===== src/Lifetime/Decided.antt =====
-- What a decision of pkg/reconciliation/decision.go on the listed jobs lets Reconcile write.
use controlled_job.Base.{
  ◌≡◌, refl, sym, ap, ◌∙◌, subst, Bool, true, false, none, List, [], ◌∷◌, ◌++◌, map, arith, Memᴰ,
  inl, inr, Bool-cases,
}
use controlled_job.Base.Lists.Membership.{mem_of_mem-append, not-mem_of_nil, eq_of_mem-singleton}
use controlled_job.Kube.{Time, Job}
use controlled_job.Api.Conditions.{Live}
use controlled_job.Env.{Env}
use controlled_job.Builder.Suspension.{OwnerKeepsSpec, KeepSuspension}
use controlled_job.Client.{Cluster, Call, create_call, update_call, delete_call, with_suspend}
use controlled_job.State.{State, Handle}
use controlled_job.Decision.{Decision, Progress, decide, finish, initial_progress, new_handle}
use controlled_job.Decision.Evolution.Reachable.{suspended_lists}
use controlled_job.Decision.Results.{initial, decide_ok}
use controlled_job.Decision.Deletion.{initial_lists}
use controlled_job.Decision.Finishing.{finish_as_found, finish_adopted, suspends-finish}
use controlled_job.Decision.Selection.{Selected, as_found, replaced, started, Adopted, Untouched}
use controlled_job.Decision.Unsuspension.{unsuspends_waiting}
use controlled_job.Reconcile.Order.{plan}
use controlled_job.Lifetime.Bounded.{Allowed, deleting, creating, unsuspending}
use controlled_job.Lifetime.Names.{mem_of_mem-map}

only_one {ℓ} : {A : Type ℓ} → {a c : A} → {xs : List A} → xs ≡ a ∷ [] → Memᴰ c xs → xs ≡ c ∷ []
only_one {c = c} e m = e ∙ ap (λ x. x ∷ []) (sym (eq_of_mem-singleton (subst (Memᴰ c) e m)))

module _ (env : Env) (auto_recreate : Bool) (now : Time) (state : State) (live : Live)
    (e : (decide env auto_recreate now state live).error ≡ none) where
  abbrev d : Decision
  d = (decide env auto_recreate now state live).decision

  abbrev p : Progress
  p = initial env auto_recreate now state live

  initial_suspends : p.decision.jobs_to_suspend ≡ []
  unfolding initial_progress
  initial_suspends = refl

  Selected-suspends :
      (q : Progress) → Selected env auto_recreate now state p q → q.decision.jobs_to_suspend ≡ []
  Selected-suspends q (as_found u c w) =
      ap (λ (x : Decision). x.jobs_to_suspend) u.same_decision ∙ initial_suspends
  Selected-suspends q (replaced c job f w b a) = a.same_suspends ∙ initial_suspends
  Selected-suspends q (started job w b a) = a.same_suspends ∙ initial_suspends

  suspended_suspends : state.is_suspended ≡ true → d.jobs_to_suspend ≡ []
  unfolding decide
  suspended_suspends s = ground (arith, s)

  no_suspensions : d.jobs_to_suspend ≡ []
  no_suspensions = elim (Bool-cases state.is_suspended) [
    | inl s ↦ suspended_suspends s
    | inr s ↦
        let (q, sel, dec, running, chosen) = decide_ok env auto_recreate now state live s e in
        ap (λ (x : Decision). x.jobs_to_suspend) dec
        ∙ suspends-finish env auto_recreate now state q
        ∙ Selected-suspends q sel
  ]

  lists_with_new :
      (q : Progress) (job : Job)
      → Adopted env auto_recreate now state p q job
      → let out = finish env auto_recreate now state q in
        (out.decision.jobs_to_unsuspend ≡ [])
        × (c : Handle) × (out.decision.jobs_to_create ≡ c ∷ [])
  lists_with_new q job a =
      let (expired₀, rest₀, deletes₀, creates₀, unsuspends₀) =
        initial_lists env auto_recreate now state live in
      let (none_waits, creates) =
        finish_adopted env auto_recreate now state q job
          (a.created
            ∙ ap (λ (l : List Handle). l ++ new_handle env auto_recreate now state job ∷ [])
                creates₀)
          (a.same_unsuspends ∙ unsuspends₀) a.chosen_new in
      elim creates [ inl f ↦ (none_waits, _, f) | inr (m, f) ↦ (none_waits, _, f) ]

  as_found_creates :
      (q : Progress)
      → Untouched env auto_recreate now state p q
      → (finish env auto_recreate now state q).decision.jobs_to_create ≡ []
  as_found_creates q u =
      let (expired₀, rest₀, deletes₀, creates₀, unsuspends₀) =
        initial_lists env auto_recreate now state live in
      (finish_as_found env auto_recreate now state q
        (ap (λ (x : Decision). x.jobs_to_create) u.same_decision ∙ creates₀)
        (ap (λ (x : Decision). x.jobs_to_unsuspend) u.same_decision ∙ unsuspends₀)).0

  finished_one :
      (q : Progress) (c : Handle)
      → Selected env auto_recreate now state p q
      → Memᴰ c (finish env auto_recreate now state q).decision.jobs_to_create
      → (finish env auto_recreate now state q).decision.jobs_to_create ≡ c ∷ []
  finished_one q c (as_found u f w) m = absurd (not-mem_of_nil (as_found_creates q u) m)
  finished_one q c (replaced k job f w b a) m = only_one (lists_with_new q job a).2 m
  finished_one q c (started job w b a) m = only_one (lists_with_new q job a).2 m

  -- A decision creates one job at most.
  pub creates_one : (c : Handle) → Memᴰ c d.jobs_to_create → d.jobs_to_create ≡ c ∷ []
  creates_one c m = elim (Bool-cases state.is_suspended) [
    | inl s ↦ absurd (not-mem_of_nil (suspended_lists env auto_recreate now state live s).0 m)
    | inr s ↦
        let (q, sel, dec, running, chosen) = decide_ok env auto_recreate now state live s e in
        let creates = ap (λ (x : Decision). x.jobs_to_create) dec in
        creates ∙ finished_one q c sel (subst (Memᴰ c) creates m)
  ]

  -- A decision does not both create and unsuspend.
  create_or_unsuspend :
      (q : Progress) (c h : Handle)
      → Selected env auto_recreate now state p q
      → Memᴰ c (finish env auto_recreate now state q).decision.jobs_to_create
      → ¬ Memᴰ h (finish env auto_recreate now state q).decision.jobs_to_unsuspend
  create_or_unsuspend q c h (as_found u f w) m l = not-mem_of_nil (as_found_creates q u) m
  create_or_unsuspend q c h (replaced k job f w b a) m l =
      not-mem_of_nil (lists_with_new q job a).0 l
  create_or_unsuspend q c h (started job w b a) m l = not-mem_of_nil (lists_with_new q job a).0 l

  pub exclusive : (c h : Handle) → Memᴰ c d.jobs_to_create → ¬ Memᴰ h d.jobs_to_unsuspend
  exclusive c h m l = elim (Bool-cases state.is_suspended) [
    | inl s ↦ not-mem_of_nil (suspended_lists env auto_recreate now state live s).1 l
    | inr s ↦
        let (q, sel, dec, running, chosen) = decide_ok env auto_recreate now state live s e in
        create_or_unsuspend q c h sel (subst (λ (x : Decision). Memᴰ c x.jobs_to_create) dec m)
          (subst (λ (x : Decision). Memᴰ h x.jobs_to_unsuspend) dec l)
  ]

  -- A job that is unsuspended is one of those found.
  pub waits :
      OwnerKeepsSpec env
      → KeepSuspension env.registered_mutators
      → (h : Handle) → Memᴰ h d.jobs_to_unsuspend
      → Memᴰ h state.all_jobs
  waits keeps mutators h l = elim (Bool-cases state.is_suspended) [
    | inl s ↦ absurd (not-mem_of_nil (suspended_lists env auto_recreate now state live s).1 l)
    | inr s ↦ (unsuspends_waiting env auto_recreate now state keeps mutators live h s e l).0
  ]

  pub plan-Allowed : (cluster : Cluster) (c : Call) → Memᴰ c (plan env cluster d) → Allowed d c
  plan-Allowed cluster c m =
      elim (mem_of_mem-append
        (map (λ (h : Handle). delete_call h.job "Foreground") d.jobs_to_delete) _ m) [
          | inl l ↦
              let (h, k, q) =
                mem_of_mem-map (λ (h : Handle). delete_call h.job "Foreground") d.jobs_to_delete c
                  l in
              subst (Allowed d) (sym q) (deleting h.job "Foreground")
          | inr l ↦
              elim (mem_of_mem-append (map (λ (h : Handle). create_call h.job) d.jobs_to_create) _
                l) [
                  | inl r ↦
                      let (h, k, q) =
                        mem_of_mem-map (λ (h : Handle). create_call h.job) d.jobs_to_create c r in
                      subst (Allowed d) (sym q) (creating h k)
                  | inr r ↦
                      elim (mem_of_mem-append
                        (map (λ (h : Handle). update_call (with_suspend true h.job))
                          d.jobs_to_suspend)
                        _ r) [
                          | inl t ↦
                              let (h, k, q) =
                                mem_of_mem-map
                                  (λ (h : Handle). update_call (with_suspend true h.job))
                                  d.jobs_to_suspend c t in
                              absurd (not-mem_of_nil no_suspensions k)
                          | inr t ↦
                              let (h, k, q) =
                                mem_of_mem-map
                                  (λ (h : Handle). update_call (with_suspend false h.job))
                                  d.jobs_to_unsuspend c t in
                              subst (Allowed d) (sym q) (unsuspending h k)
                        ]
                ]
        ]
