-- ===== src/Schedule/Cron.antt =====
-- What pkg/schedule relies on of cron schedules, and what the search of nearest_event.go in one of
-- them gives then.
use controlled_job.Base.{
  ℕ, ◌+◌, ◌*◌, ◌-◌, ◌^◌, ◌≤◌, ◌<◌, ◌≡◌, ◌≢◌, ◌∙◌, sym, subst, refl, Bool, true, none, some, ◌==◌,
  arith, if◌then◌else◌,
}
use controlled_job.Base.Int.{pos}
use controlled_job.Kube.{Time}
use controlled_job.Schedule.{
  Calendar, CronSpec, direction_next, direction_previous, seconds, negated_i32, adjacent_time,
}

-- What the run period needs of a schedule and its activations: Next gives the first one after an
-- instant, as cron documents; at `now` the search backwards gives the last one up to it, as
-- Schedule.CronPrev.RunPeriod.searching_back-IsCron derives for cronPrev. The zero time is none.
pub record IsCron (cal : Calendar) (activates : CronSpec → Time → Bool) (now : Time) (s : CronSpec)
    : Type 0 where
  pub next_activates : (t : Time) → cal.next s t ≢ 0 → activates s (cal.next s t) ≡ true
  pub next_after : (t : Time) → cal.next s t ≢ 0 → t < cal.next s t
  pub next_first :
      (t u : Time) → activates s u ≡ true → t < u → (cal.next s t ≢ 0) × (cal.next s t ≤ u)
  pub prev_activates : cal.cron_prev s now ≢ 0 → activates s (cal.cron_prev s now) ≡ true
  pub prev_before : cal.cron_prev s now ≤ now
  pub prev_last :
      (u : Time)
      → activates s u ≡ true
      → u ≢ 0
      → u ≤ now
      → (cal.cron_prev s now ≢ 0) × (u ≤ cal.cron_prev s now)

module _ (cal : Calendar) (activates : CronSpec → Time → Bool) where
  next_without_offset :
      (t : Time) (s : CronSpec)
      → adjacent_time cal t direction_next (pos 0) s
        ≡ (if cal.next s t == 0 then none else some (cal.next s t))
  unfolding adjacent_time seconds negated_i32
  next_without_offset t s =
      let shifted : t + 0 * 10 ^ 9 - 0 ≡ t = omega arith in
      let back : cal.next s t + 0 * 10 ^ 9 - 0 ≡ cal.next s t = omega arith in
      rw shifted (rw back refl)

  previous_without_offset :
      (t : Time) (s : CronSpec)
      → adjacent_time cal t direction_previous (pos 0) s
        ≡ (if cal.cron_prev s t == 0 then none else some (cal.cron_prev s t))
  unfolding adjacent_time seconds negated_i32
  previous_without_offset t s =
      let shifted : t + 0 * 10 ^ 9 - 0 ≡ t = omega arith in
      let back : cal.cron_prev s t + 0 * 10 ^ 9 - 0 ≡ cal.cron_prev s t = omega arith in
      rw shifted (rw back refl)

  -- `some` of a time that is not zero.
  nonzero_some : (n t : ℕ) → (if n == 0 then none else some n) ≡ some t → (n ≡ t) × (t ≢ 0)
  nonzero_some n t h = ground (arith, h)

  some_nonzero : (n : ℕ) → n ≢ 0 → (if n == 0 then none else some n) ≡ some n
  some_nonzero n h = ground (arith, h)

  module _ (now : Time) where
    pub next_facts :
        (t u : Time) (s : CronSpec)
        → IsCron cal activates now s
        → adjacent_time cal t direction_next (pos 0) s ≡ some u
        → (t < u) × (u ≢ 0) × (activates s u ≡ true)
    next_facts t u s cron h =
        let (e, nz) = nonzero_some (cal.next s t) u (sym (next_without_offset t s) ∙ h) in
        let there : cal.next s t ≢ 0 = λ z. nz (sym e ∙ z) in
        (
          omega (arith, e, cron.next_after t there),
          nz,
          subst (λ (v : Time). activates s v ≡ true) e (cron.next_activates t there),
        )

    pub next_exists :
        (t u : Time) (s : CronSpec)
        → IsCron cal activates now s
        → activates s u ≡ true
        → t < u
        → (v : Time) × (adjacent_time cal t direction_next (pos 0) s ≡ some v) × (v ≤ u)
    next_exists t u s cron a h =
        let (nz, le) = cron.next_first t u a h in
        (cal.next s t, next_without_offset t s ∙ some_nonzero (cal.next s t) nz, le)

    pub previous_facts :
        (u : Time) (s : CronSpec)
        → IsCron cal activates now s
        → adjacent_time cal now direction_previous (pos 0) s ≡ some u
        → (u ≤ now) × (u ≢ 0) × (activates s u ≡ true)
    previous_facts u s cron h =
        let (e, nz) =
          nonzero_some (cal.cron_prev s now) u (sym (previous_without_offset now s) ∙ h) in
        let there : cal.cron_prev s now ≢ 0 = λ z. nz (sym e ∙ z) in
        (
          omega (arith, e, cron.prev_before),
          nz,
          subst (λ (v : Time). activates s v ≡ true) e (cron.prev_activates there),
        )

    pub previous_exists :
        (u : Time) (s : CronSpec)
        → IsCron cal activates now s
        → activates s u ≡ true
        → u ≢ 0
        → u ≤ now
        → (v : Time) × (adjacent_time cal now direction_previous (pos 0) s ≡ some v) × (u ≤ v)
    previous_exists u s cron a z h =
        let (nz, le) = cron.prev_last u a z h in
        (
          cal.cron_prev s now,
          previous_without_offset now s ∙ some_nonzero (cal.cron_prev s now) nz,
          le,
        )
