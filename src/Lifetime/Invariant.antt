-- ===== src/Lifetime/Invariant.antt =====
-- What holds of the jobs while the calls of one run of Reconcile of
-- pkg/reconciliation/reconcile.go take effect.
use controlled_job.Base.{
  ◌≤◌, ◌≡◌, refl, sym, ap, ◌∙◌, subst, String, true, false, List, [], ◌∷◌, ◌++◌, map, any, arith,
  Memᴰ, inl, inr, Bool-cases, eq_iff,
}
use controlled_job.Base.Lists.Membership.{
  mem-append_left, mem-append_right, mem_of_mem-append, eq_of_mem-singleton,
}
use controlled_job.Kube.{Job}
use controlled_job.Metadata.{is_job_potentially_running, is_job_suspended}
use controlled_job.Client.{
  Call, get_call, list_call, create_call, update_call, delete_call, update_status_call,
  update_object_call, event_call, with_suspend,
}
use controlled_job.Lifetime.JobWrites.{is_job_write}
use controlled_job.State.{Handle, pointers_from, same_handle}
use controlled_job.Decision.{Decision}
use controlled_job.Decision.Evolution.{
  is_active, active_count, carried, carried_job, running_with_suspend,
}
use controlled_job.Lifetime.{Fades, IsJobStore, Runs, ended, meanwhile, lost, took, is_named}
use controlled_job.Lifetime.Names.{
  HasDistinctNames, mem_of_mem-Fades, Fades-HasDistinctNames, map-HasDistinctNames, replace_named,
  name-replace_named, created-HasDistinctNames, same_of_name, mem_of_mem-map,
}
use controlled_job.Lifetime.Bounded.{
  Allowed, deleting, creating, unsuspending, running-updated, mem-pointers, mem_of_mem-pointers,
  mem-map, any-mem, same_of_count, count_of_same,
}

module _ (jobs : List Job) (d : Decision) where
  -- A job of this name may have pods once the decision is carried out.
  abbrev MayStand : String → Type 0
  MayStand name =
      (k : Job) × Memᴰ k (carried d (pointers_from 0 jobs)) × (is_active k ≡ true) × (name ≡ k.name)

  -- A job that may have pods has such a name, and one that has the name of a job to unsuspend is
  -- completed if that one was.
  pub record IsWithin (now : List Job) : Type 0 where
    pub distinct : HasDistinctNames now
    pub active : (j : Job) → Memᴰ j now → is_active j ≡ true → MayStand j.name
    pub running :
        (j : Job) (h : Handle)
        → Memᴰ j now
        → Memᴰ h d.jobs_to_unsuspend
        → j.name ≡ h.job.name
        → is_job_potentially_running j ≡ true
        → is_job_potentially_running h.job ≡ true

  Fades-IsWithin : (before after : List Job) → Fades before after → IsWithin before → IsWithin after
  Fades-IsWithin before after f w = record {
    distinct = Fades-HasDistinctNames before after f w.distinct;
    active = λ k m a.
        let (j, l, v) = mem_of_mem-Fades before after k f m in
        subst MayStand (sym v.same_name) (w.active j l (v.was_active a));
    running = λ k h m u e r.
        let (j, l, v) = mem_of_mem-Fades before after k f m in
        w.running j h l u (sym v.same_name ∙ e) (v.was_running r);
  }

  name-carried_job : (h : Handle) → (carried_job d h).name ≡ h.job.name
  name-carried_job h = ground arith

  -- A job that is unsuspended may have pods if it was not completed.
  unsuspended_active :
      (h : Handle)
      → Memᴰ h d.jobs_to_unsuspend
      → is_job_potentially_running h.job ≡ true
      → is_active (carried_job d h) ≡ true
  unfolding is_job_suspended
  unsuspended_active h u r =
      rw (any-mem h d.jobs_to_unsuspend u) (rw (running_with_suspend false h.job, r) refl)

  found_active : (h : Handle) → is_active h.job ≡ true → is_active (carried_job d h) ≡ true
  unfolding is_job_suspended
  found_active h a = elim (Bool-cases (any (same_handle h) d.jobs_to_unsuspend)) [
    | inl e ↦ rw e (rw (running_with_suspend false h.job) (ground (arith, a)))
    | inr e ↦ rw e a
  ]

  module _ (effect : Call → List Job → List Job) (law : IsJobStore effect)
      (exclusive : (c h : Handle) → Memᴰ c d.jobs_to_create → ¬ Memᴰ h d.jobs_to_unsuspend)
      (waits : (h : Handle) → Memᴰ h d.jobs_to_unsuspend → Memᴰ h (pointers_from 0 jobs)) where
    created-IsWithin :
        (c : Handle) (now : List Job)
        → Memᴰ c d.jobs_to_create
        → any (is_named c.job.name) now ≡ false
        → IsWithin now
        → IsWithin (now ++ c.job ∷ [])
    created-IsWithin c now m free w = record {
      distinct = created-HasDistinctNames c.job now free w.distinct;
      active = λ j l a. elim (mem_of_mem-append now (c.job ∷ []) l) [
        | inl old ↦ w.active j old a
        | inr new ↦
            let same = eq_of_mem-singleton new in
            (
              c.job,
              mem-append_right (map (carried_job d) (pointers_from 0 jobs)) _
                  (mem-map (λ (h : Handle). h.job) d.jobs_to_create c m),
              subst (λ (x : Job). is_active x ≡ true) same a,
              ap (λ (x : Job). x.name) same,
            )
      ];
      running = λ j h l u e r. absurd (exclusive c h m u);
    }

    -- The job that is unsuspended, as it is stored.
    unsuspended-IsWithin :
        (h : Handle) (now : List Job)
        → Memᴰ h d.jobs_to_unsuspend
        → IsWithin now
        → IsWithin (map (replace_named (with_suspend false h.job)) now)
    unsuspended-IsWithin h now u w = record {
      distinct = map-HasDistinctNames (replace_named sent) (name-replace_named sent) now w.distinct;
      active = λ j l a.
          let (old, m, e) = mem_of_mem-map (replace_named sent) now j l in
          subst MayStand (sym (ap (λ (x : Job). x.name) e ∙ name-replace_named sent old))
            (stands old m (subst (λ (x : Job). is_active x ≡ true) e a));
      running = λ j k l v q r.
          let (old, m, e) = mem_of_mem-map (replace_named sent) now j l in
          w.running old k m v (sym (ap (λ (x : Job). x.name) e ∙ name-replace_named sent old) ∙ q)
            (ran old (subst (λ (x : Job). is_job_potentially_running x ≡ true) e r));
    }
      where
        sent : Job
        sent = with_suspend false h.job

        ran :
            (old : Job)
            → is_job_potentially_running (replace_named sent old) ≡ true
            → is_job_potentially_running old ≡ true
        ran old r = elim (Bool-cases (is_named sent.name old)) [
          | inl e ↦ sym (running-updated sent old) ∙ (rw e at r)
          | inr e ↦ rw e at r
        ]

        stands :
            (old : Job)
            → Memᴰ old now
            → is_active (replace_named sent old) ≡ true
            → MayStand old.name
        stands old m a = elim (Bool-cases (is_named sent.name old)) [
          | inl e ↦
              let same : old.name ≡ h.job.name = (eq_iff old.name h.job.name).0 e in
              let r = w.running old h m u same (ran old (ground (arith, a))) in
              (
                carried_job d h,
                mem-append_left (map (carried_job d) (pointers_from 0 jobs)) _
                    (mem-map (carried_job d) (pointers_from 0 jobs) h (waits h u)),
                unsuspended_active h u r,
                same ∙ sym (name-carried_job h),
              )
          | inr e ↦ w.active old m (rw e at a)
        ]

    Allowed-IsWithin :
        (c : Call) (now : List Job) → Allowed d c → IsWithin now → IsWithin (effect c now)
    Allowed-IsWithin c now (deleting job propagation) w =
        Fades-IsWithin now (effect (delete_call job propagation) now)
          (law.deletes job propagation now) w
    Allowed-IsWithin c now (creating h m) w = elim (Bool-cases (any (is_named h.job.name) now)) [
      | inl taken ↦ rw (law.creates h.job now, taken) w
      | inr free ↦ rw (law.creates h.job now, free) (created-IsWithin h now m free w)
    ]
    Allowed-IsWithin c now (unsuspending h u) w =
        rw (law.updates (with_suspend false h.job) now) (unsuspended-IsWithin h now u w)

    idle : (c : Call) (now : List Job) → is_job_write c ≡ false → effect c now ≡ now
    idle (get_call a b) now e = law.gets a b now
    idle (list_call a b) now e = law.lists a b now
    idle (update_status_call cj) now e = law.writes_status cj now
    idle (update_object_call cj) now e = law.writes_object cj now
    idle (event_call a b c) now e = law.records a b c now
    idle (create_call job) now e = cc
    idle (update_call job) now e = cc
    idle (delete_call job propagation) now e = cc

    took-IsWithin :
        (c : Call) (now : List Job)
        → (is_job_write c ≡ true → Allowed d c)
        → IsWithin now
        → IsWithin (effect c now)
    took-IsWithin c now allowed w = elim (Bool-cases (is_job_write c)) [
      | inl e ↦ Allowed-IsWithin c now (allowed e) w
      | inr e ↦ subst IsWithin (sym (idle c now e)) w
    ]

    -- It goes on holding whichever calls take effect, and whatever happens in between.
    pub Runs-IsWithin :
        (calls : List Call) (before after : List Job)
        → Runs effect calls before after
        → ((c : Call) → Memᴰ c calls → is_job_write c ≡ true → Allowed d c)
        → IsWithin before
        → IsWithin after
    Runs-IsWithin calls before after (ended jobs) allowed w = w
    Runs-IsWithin calls before after (meanwhile cs b between a f r) allowed w =
        Runs-IsWithin cs between a r allowed (Fades-IsWithin b between f w)
    Runs-IsWithin calls before after (lost c cs b a r) allowed w =
        Runs-IsWithin cs b a r (λ x m. allowed x (Memᴰ.tail m)) w
    Runs-IsWithin calls before after (took c cs b a r) allowed w =
        Runs-IsWithin cs (effect c b) a r (λ x m. allowed x (Memᴰ.tail m))
          (took-IsWithin c b (allowed c (Memᴰ.head refl)) w)

  pub found-IsWithin :
      HasDistinctNames jobs
      → ((h : Handle) → Memᴰ h d.jobs_to_unsuspend → Memᴰ h (pointers_from 0 jobs))
      → IsWithin jobs
  found-IsWithin distinct waits = record {
    distinct = distinct;
    active = λ j m a.
        let (h, l, e) = mem-pointers 0 jobs j m in
        (
          carried_job d h,
          mem-append_left (map (carried_job d) (pointers_from 0 jobs)) _
              (mem-map (carried_job d) (pointers_from 0 jobs) h l),
          found_active h (subst (λ (x : Job). is_active x ≡ true) (sym e) a),
          ap (λ (x : Job). x.name) (sym e) ∙ sym (name-carried_job h),
        );
    running = λ j h m u e r.
        subst (λ (x : Job). is_job_potentially_running x ≡ true)
          (same_of_name jobs j h.job distinct m (mem_of_mem-pointers 0 jobs h (waits h u)) e) r;
  }

  -- Within what the decision allows, at most one job may have pods if at most one may once it is
  -- carried out.
  pub within_bound :
      (now : List Job)
      → IsWithin now
      → active_count (carried d (pointers_from 0 jobs)) ≤ 1
      → active_count now ≤ 1
  within_bound now w few = count_of_same is_active now w.distinct (λ j k m l a b.
      let (x, mx, ax, ex) = w.active j m a in
      let (y, my, ay, ey) = w.active k l b in
      same_of_name now j k w.distinct m l (
        ex
        ∙ ap (λ (z : Job). z.name)
            (same_of_count is_active x y (carried d (pointers_from 0 jobs)) few mx my ax ay)
        ∙ sym ey))
