-- ===== src/Schedule/RunPeriod.antt =====
-- The current run period of pkg/schedule/state.go: from its start to the last event.
use controlled_job.Base.{
  ◌≤◌, ◌<◌, ◌≡◌, ◌≢◌, ◌∙◌, sym, subst, refl, ◌⊎◌, inl, inr, String, Bool, true, false, Option, none,
  some, List, [], ◌∷◌, Memᴰ, map, keep, ltb, eq_iff, arith, Bool-cases,
}
use controlled_job.Base.Lists.Membership.{mem_of_mem-keep}
use controlled_job.Base.Int.{pos}
use controlled_job.Errors.{ok, Run}
use controlled_job.Kube.{Time}
use controlled_job.Api.{EventSpec, event_type_start, event_type_stop}
use controlled_job.Schedule.{
  Calendar, CronSpec, direction_next, direction_previous, ScheduledEvent, adjacent_time,
  find_nearest_event,
}
use controlled_job.Schedule.Search.{AreNonZero, times}
use controlled_job.Schedule.Collected.{HaveSchedules, IsFirst, found-IsFirst}
use controlled_job.Schedule.Period.{
  time_of, is_start, is_stop, find_most_recent_stop_time, find_start_of_current_run_period,
}
use controlled_job.Schedule.Cron.{IsCron, next_facts, next_exists, previous_facts, previous_exists}

module _ (cal : Calendar) (activates : CronSpec → Time → Bool) (now : Time) (location : String)
    (spec_of : EventSpec → CronSpec) (events : List EventSpec)
    (have : HaveSchedules cal location spec_of events)
    (are_cron : (e : EventSpec) → Memᴰ e events → IsCron cal activates now (spec_of e)) where
  abbrev every_event : EventSpec → Bool
  every_event e = true

  -- The last event up to now.
  abbrev pub IsLastEvent : ScheduledEvent → Type 0
  IsLastEvent p =
      find_nearest_event cal events now location (pos 0) direction_previous every_event
      ≡ some (ok (some p))

  of_times :
      (g : CronSpec → Option Time) (l : List EventSpec) (o : Option Time)
      → Memᴰ o (map g (map spec_of l))
      → (e : EventSpec) × Memᴰ e l × (g (spec_of e) ≡ o)
  of_times g [] o m = elim m [ ]
  of_times g (e ∷ l) o (Memᴰ.head q) = (e, Memᴰ.head refl, sym q)
  of_times g (e ∷ l) o (Memᴰ.tail m) = let (x, n, q) = of_times g l o m in (x, Memᴰ.tail n, q)

  nonzero_previous :
      (filter : EventSpec → Bool)
      → AreNonZero direction_previous
          (times cal now direction_previous (pos 0) (map spec_of (keep filter events)))
  nonzero_previous filter t m =
      let (e, n, q) =
        of_times (adjacent_time cal now direction_previous (pos 0)) (keep filter events) (some t)
          m in
      let (_, nz, _) =
        previous_facts cal activates now t (spec_of e)
          (are_cron e (mem_of_mem-keep filter e events n).0) q in
      nz

  nonzero_next :
      (t : Time) (filter : EventSpec → Bool)
      → AreNonZero direction_next
          (times cal t direction_next (pos 0) (map spec_of (keep filter events)))
  nonzero_next t filter u m =
      let (e, n, q) =
        of_times (adjacent_time cal t direction_next (pos 0)) (keep filter events) (some u) m in
      let (_, nz, _) =
        next_facts cal activates now t u (spec_of e)
          (are_cron e (mem_of_mem-keep filter e events n).0) q in
      nz

  same_found :
      (r o : Option ScheduledEvent)
      → ◌≡◌ {A = Run (Option ScheduledEvent)} (some (ok r)) (some (ok o))
      → r ≡ o
  same_found r o h = cc

  -- What is found is the first event in its direction.
  previous-IsFirst :
      (filter : EventSpec → Bool) (o : Option ScheduledEvent)
      → find_nearest_event cal events now location (pos 0) direction_previous filter ≡ some (ok o)
      → IsFirst cal location spec_of now direction_previous (pos 0) filter events o
  previous-IsFirst filter o found =
      let (r, e, first) =
        found-IsFirst cal location spec_of now direction_previous (pos 0) filter events have
          (nonzero_previous filter) in
      subst (IsFirst cal location spec_of now direction_previous (pos 0) filter events)
        (same_found r o (sym e ∙ found)) first

  -- The first start after an instant, where there is an activation of a start event.
  next_start :
      (s u : Time) (e : EventSpec)
      → Memᴰ e events
      → is_start e ≡ true
      → activates (spec_of e) u ≡ true
      → s < u
      → (b : ScheduledEvent) × (find_nearest_event cal events s location
            (pos 0)
            direction_next
            is_start
          ≡ some (ok (some b)))
        × (s < b.scheduled_time_utc)
        × (b.scheduled_time_utc ≤ u)
  next_start s u e m f a h =
      let (o, q, first) =
        found-IsFirst cal location spec_of s direction_next (pos 0) is_start events have
          (nonzero_next s is_start) in
      let (v, there, le) = next_exists cal activates now s u (spec_of e) (are_cron e m) a h in
      by_event o q first v there le
    where
      by_event :
          (o : Option ScheduledEvent)
          → find_nearest_event cal events s location (pos 0) direction_next is_start ≡ some (ok o)
          → IsFirst cal location spec_of s direction_next (pos 0) is_start events o
          → (v : Time) → adjacent_time cal s direction_next (pos 0) (spec_of e) ≡ some v
          → v ≤ u
          → (b : ScheduledEvent) × (find_nearest_event cal events s location
                (pos 0)
                direction_next
                is_start
              ≡ some (ok (some b)))
            × (s < b.scheduled_time_utc)
            × (b.scheduled_time_utc ≤ u)
      by_event none q first v there le = absurd (first e v m f there)
      by_event (some b) q ((x, n, g, _, at), first) v there le = (
        b,
        q,
        (next_facts cal activates now s b.scheduled_time_utc (spec_of x) (are_cron x n) at).0,
        omega (arith, first e v m f there, le),
      )

  stop_event :
      (s : Time)
      → find_most_recent_stop_time cal events location (pos 0) now ≡ some (ok (some s))
      → (r : ScheduledEvent) × (r.scheduled_time_utc ≡ s)
        × IsFirst cal location spec_of now direction_previous (pos 0) is_stop events (some r)
  unfolding find_most_recent_stop_time
  stop_event s h =
      let (o, e, first) =
        found-IsFirst cal location spec_of now direction_previous (pos 0) is_stop events have
          (nonzero_previous is_stop) in
      by_event o e first
    where
      by_event :
          (o : Option ScheduledEvent)
          → find_nearest_event cal events now location (pos 0) direction_previous is_stop
            ≡ some (ok o)
          → IsFirst cal location spec_of now direction_previous (pos 0) is_stop events o
          → (r : ScheduledEvent) × (r.scheduled_time_utc ≡ s)
            × IsFirst cal location spec_of now direction_previous (pos 0) is_stop events (some r)
      by_event none e first = absurd (ground (arith, e, h))
      by_event (some r) e first = (r, ground (arith, e, h), first)

  -- With a last stop, the current run period starts at the first start after it.
  start_found :
      (s : Time) (o : Option ScheduledEvent)
      → find_most_recent_stop_time cal events location (pos 0) now ≡ some (ok (some s))
      → find_nearest_event cal events s location (pos 0) direction_next is_start ≡ some (ok o)
      → find_start_of_current_run_period cal events location (pos 0) now ≡ some (ok (time_of o))
  unfolding find_start_of_current_run_period
  start_found s o stop found = rw (stop, found) refl

  -- A start after the last event lies in the future.
  in_future :
      (p : ScheduledEvent) (s b : Time)
      → ((e : EventSpec) (t : Time)
          → Memᴰ e events
          → every_event e ≡ true
          → adjacent_time cal now direction_previous (pos 0) (spec_of e) ≡ some t
          → t ≤ p.scheduled_time_utc)
      → s ≡ p.scheduled_time_utc
      → find_most_recent_stop_time cal events location (pos 0) now ≡ some (ok (some s))
      → find_start_of_current_run_period cal events location (pos 0) now ≡ some (ok (some b))
      → now < b
  in_future p s b last same stop starts_at =
      let (o, q, first) =
        found-IsFirst cal location spec_of s direction_next (pos 0) is_start events have
          (nonzero_next s is_start) in
      by_event o first (same_time (time_of o) (sym (start_found s o stop q) ∙ starts_at))
    where
      same_time :
          (u : Option Time)
          → ◌≡◌ {A = Run (Option Time)} (some (ok u)) (some (ok (some b)))
          → u ≡ some b
      same_time u h = cc

      after_now :
          (x : EventSpec)
          → Memᴰ x events
          → adjacent_time cal s direction_next (pos 0) (spec_of x) ≡ some b
          → ltb now b ≡ false
          → now < b
      after_now x n at late =
          let (after, nz, active) =
            next_facts cal activates now s b (spec_of x) (are_cron x n) at in
          let (v, there, le) =
            previous_exists cal activates now b (spec_of x) (are_cron x n) active nz
              (ground (arith, late)) in
          absurd (omega (arith, after, le, same, last x v n refl there))

      by_event :
          (o : Option ScheduledEvent)
          → IsFirst cal location spec_of s direction_next (pos 0) is_start events o
          → time_of o ≡ some b
          → now < b
      by_event none first h = absurd (cc)
      by_event (some found) ((x, n, _, _, at), _) h = elim (Bool-cases (ltb now b)) [
        | inl e ↦ ground (arith, e)
        | inr e ↦ after_now x n (at ∙ h) e
      ]

  -- Where some stop came before now, the last event is not earlier than the last stop. If it is a
  -- later start, the current run period has a start, which lies after the stop and not after that
  -- event. If it is a stop, or falls on the instant of the last stop, a start that the current run
  -- period has lies in the future.
  pub run_period_start :
      (p : ScheduledEvent) (s : Time)
      → IsLastEvent p
      → find_most_recent_stop_time cal events location (pos 0) now ≡ some (ok (some s))
      → (s ≤ p.scheduled_time_utc)
        × (p.scheduled_time_utc ≤ now)
        × (s ≢ p.scheduled_time_utc
            → p.event_type ≡ event_type_start
            → (b : Time) × (find_start_of_current_run_period cal events location (pos 0) now
                ≡ some (ok (some b)))
              × (s < b)
              × (b ≤ p.scheduled_time_utc))
        × ((p.event_type ≡ event_type_stop) ⊎ (s ≡ p.scheduled_time_utc)
            → (b : Time)
            → find_start_of_current_run_period cal events location (pos 0) now ≡ some (ok (some b))
            → now < b)
  run_period_start p s found stop =
      let ((e, m, _, acts, at), last) = previous-IsFirst every_event (some p) found in
      let (r, at_s, ((x, n, _, _, there), last_stop)) = stop_event s stop in
      let (early, nz, active) =
        previous_facts cal activates now p.scheduled_time_utc (spec_of e) (are_cron e m) at in
      let before : s ≤ p.scheduled_time_utc =
        omega (arith, at_s, last x r.scheduled_time_utc n refl there) in
      (
        before,
        early,
        λ apart starts.
            let (b, next, after, le) =
              next_start s p.scheduled_time_utc e m
                ((eq_iff e.action event_type_start).1 (acts ∙ starts)) active (omega arith) in
            (b.scheduled_time_utc, start_found s (some b) stop next, after, le),
        λ why b starts_at. elim why [
          | inr same ↦ in_future p s b last same stop starts_at
          | inl stops ↦
              let later : p.scheduled_time_utc ≤ r.scheduled_time_utc =
                last_stop e p.scheduled_time_utc m
                  ((eq_iff e.action event_type_stop).1 (acts ∙ stops)) at in
              in_future p s b last (omega (arith, later, at_s, before)) stop starts_at
        ],
      )
