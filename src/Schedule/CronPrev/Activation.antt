-- ===== src/Schedule/CronPrev/Activation.antt =====
-- The search of pkg/schedule/nearest_event.go for the last activation of several schedules, with
-- cronPrev of pkg/schedule/cron_prev.go as the search in one of them.
use controlled_job.Base.{
  ℕ, zero, suc, ◌+◌, ◌*◌, ◌-◌, ◌%◌, ◌^◌, ◌≤◌, ◌<◌, ◌≡◌, ◌≢◌, ◌∙◌, sym, ap, refl, ◌⊎◌, inl, inr,
  true, false, Option, none, some, List, [], ◌∷◌, Memᴰ, map, ◌==◌, String, str_eq, arith,
  if◌then◌else◌,
}
use controlled_job.Base.Int.{pos}
use controlled_job.Errors.{Result}
use controlled_job.Kube.{Time}
use controlled_job.Schedule.{
  Calendar, CronSpec, Parsed, Nearest, direction_previous, nth, seconds, negated_i32, adjacent_time,
  find_nearest_schedule_time,
}
use controlled_job.Schedule.Search.{
  IsNearestOf, AreNonZero, times, find_nearest_schedule_time-IsNearestOf,
}
use controlled_job.Schedule.CronPrev.{Zone, one_second, cron_prev}
use controlled_job.Schedule.CronPrev.Regular.{IsRegular, IsLatest, IsSameOrWhole, matches}
use controlled_job.Schedule.CronPrev.Latest.{cron_prev-IsLatest}

-- The time of a search that ended.
abbrev pub time_found : Option Time → Time
time_found none = 0
time_found (some t) = t

-- The calendar whose search backwards is the code's.
abbrev pub searching_back :
    (String → Result String)
    → (String → Result Parsed)
    → (CronSpec → Time → Time)
    → (String → Zone)
    → Zone
    → Calendar
searching_back load parse next zones own = record {
  load_location = load;
  parse_standard = parse;
  next = next;
  cron_prev = λ s t. time_found (cron_prev zones own s t);
}

module _ (zones : String → Zone) (now : Time) where
  -- No whole second after `u` and up to now, in the years that are searched, is an activation.
  abbrev pub NoneSince : Time → CronSpec → Type 0
  NoneSince u s =
      (v : Time)
      → v % one_second ≡ 0
      → u < v
      → v ≤ now
      → (zones s.location).year now - 5 ≤ (zones s.location).year v
      → matches (zones s.location) s v ≡ false

  -- A schedule with a location of its own, whose clock is never set, from the year 7 on.
  abbrev pub IsOrdinary : CronSpec → Type 0
  IsOrdinary s =
      (str_eq s.location "Local" ≡ false)
      × IsRegular (zones s.location)
      × (7 ≤ (zones s.location).year now)

  -- Every schedule of the list is ordinary.
  abbrev pub AreOrdinary : List CronSpec → Type 0
  AreOrdinary specs = (s : CronSpec) → Memᴰ s specs → IsOrdinary s

  abbrev IsLast : CronSpec → Time → Type 0
  IsLast s t =
      (matches (zones s.location) s t ≡ true)
      × (t ≤ now)
      × NoneSince t s
      × IsSameOrWhole (zones s.location) s now t

  weaker : (u t : Time) (s : CronSpec) → u ≤ t → NoneSince u s → NoneSince t s
  weaker u t s h none_since v w a = none_since v w (omega arith)

  late_second :
      (s : CronSpec) (v : Time)
      → IsRegular (zones s.location)
      → 2 ≤ (zones s.location).year v
      → 0 < v
  late_second s zero regular h = absurd (omega (arith, regular.first_year))
  late_second s (suc v) regular h = omega arith

  module _ (load : String → Result String) (parse : String → Result Parsed)
      (next : CronSpec → Time → Time) (own : Zone) where
    abbrev cal : Calendar
    cal = searching_back load parse next zones own

    adjacent_without_offset :
        (s : CronSpec) (r : Time)
        → cron_prev zones own s now ≡ some r
        → adjacent_time cal now direction_previous (pos 0) s ≡ (if r == 0 then none else some r)
    unfolding adjacent_time seconds negated_i32
    adjacent_without_offset s r e =
        let shifted : now + 0 * 10 ^ 9 - 0 ≡ now = omega arith in
        let back : r + 0 * 10 ^ 9 - 0 ≡ r = omega arith in rw shifted (rw e (rw back refl))

    adjacent_cases :
        (s : CronSpec)
        → IsOrdinary s
        → ((adjacent_time cal now direction_previous (pos 0) s ≡ none) × NoneSince 0 s)
          ⊎ ((t : Time) × (adjacent_time cal now direction_previous (pos 0) s ≡ some t)
              × (t ≢ 0)
              × IsLast s t)
    adjacent_cases s (elsewhere, regular, late) =
        let (r, e, latest) = cron_prev-IsLatest zones own s now elsewhere regular late in
        rw (adjacent_without_offset s r e) (by_result r latest)
      where
        by_result :
            (r : Time)
            → IsLatest (zones s.location) s ((zones s.location).year now - 5) now r
            → (((if r == 0 then none else some r) ≡ none) × NoneSince 0 s)
              ⊎ ((t : Time) × ((if r == 0 then none else some r) ≡ some t) × (t ≢ 0) × IsLast s t)
        by_result zero (inl (m, le, none_since, _)) = inl (refl, λ v w a b y. none_since v w a b)
        by_result zero (inr (e, none_at_all)) = inl (refl, λ v w a b y. none_at_all v w b y)
        by_result (suc r) (inl (m, le, none_since, exact)) =
            inr (suc r, ground arith, omega arith, (m, le, λ v w a b y. none_since v w a b, exact))
        by_result (suc r) (inr (e, none_at_all)) = absurd (omega (arith, e))

    times_at :
        (i : ℕ) (specs : List CronSpec) (o : Option Time)
        → nth i (times cal now direction_previous (pos 0) specs) ≡ some o
        → (s : CronSpec) × (nth i specs ≡ some s)
          × Memᴰ s specs
          × (adjacent_time cal now direction_previous (pos 0) s ≡ o)
    unfolding nth
    times_at i [] o h = absurd (ground (arith, h))
    times_at zero (s ∷ specs) o h = (s, refl, Memᴰ.head refl, some_injective h)
      where
        some_injective :
            some (adjacent_time cal now direction_previous (pos 0) s) ≡ some o
            → adjacent_time cal now direction_previous (pos 0) s ≡ o
        some_injective e = cc
    times_at (suc i) (s ∷ specs) o h =
        let (t, at, m, e) = times_at i specs o h in (t, at, Memᴰ.tail m, e)

    mem_times :
        (o : Option Time) (s : CronSpec) (specs : List CronSpec)
        → Memᴰ s specs
        → adjacent_time cal now direction_previous (pos 0) s ≡ o
        → Memᴰ o (times cal now direction_previous (pos 0) specs)
    mem_times o s [] m h = elim m [ ]
    mem_times o s (x ∷ specs) (Memᴰ.head e) h =
        Memᴰ.head (sym h ∙ ap (adjacent_time cal now direction_previous (pos 0)) e)
    mem_times o s (x ∷ specs) (Memᴰ.tail m) h = Memᴰ.tail (mem_times o s specs m h)

    of_mem_times :
        (o : Option Time) (specs : List CronSpec)
        → Memᴰ o (times cal now direction_previous (pos 0) specs)
        → (s : CronSpec) × Memᴰ s specs × (adjacent_time cal now direction_previous (pos 0) s ≡ o)
    of_mem_times o [] m = elim m [ ]
    of_mem_times o (s ∷ specs) (Memᴰ.head e) = (s, Memᴰ.head refl, sym e)
    of_mem_times o (s ∷ specs) (Memᴰ.tail m) =
        let (t, n, e) = of_mem_times o specs m in (t, Memᴰ.tail n, e)

    nonzero :
        (specs : List CronSpec)
        → AreOrdinary specs
        → AreNonZero direction_previous (times cal now direction_previous (pos 0) specs)
    nonzero specs ordinary t m z =
        let (s, n, e) = of_mem_times (some t) specs m in
        elim (adjacent_cases s (ordinary s n)) [
          | inl (no_time, _) ↦ absurd (cc)
          | inr (u, a_time, not_zero, _) ↦ not_zero (cc)
        ]

    -- Nothing was activated after `u`, where no schedule's time in the list lies after it.
    since_latest :
        (u : Time) (s : CronSpec)
        → IsOrdinary s
        → ((t : Time) → adjacent_time cal now direction_previous (pos 0) s ≡ some t → t ≤ u)
        → NoneSince u s
    since_latest u s ordinary bound = elim (adjacent_cases s ordinary) [
      | inl (no_time, none_since) ↦ weaker 0 u s (omega arith) none_since
      | inr (t, a_time, _, (_, _, none_since, _)) ↦ weaker t u s (bound t a_time) none_since
    ]

    -- The search backwards over several schedules, with cronPrev and no offset: where every schedule
    -- has a location of its own whose clock is never set, and now is in the year 7 or later there,
    -- it ends. It finds neither a time nor an index, or a time and the index of a schedule: now as it
    -- is, its nanoseconds included, where its second is an activation of that schedule, or else an
    -- activation of that schedule before now, a whole second. No schedule of the list has an
    -- activation after what it finds and up to now, in the current year and the five before it.
    pub find_nearest_schedule_time_last_activation :
        (specs : List CronSpec)
        → AreOrdinary specs
        → (r : Nearest) × (find_nearest_schedule_time cal
              (map some specs)
              now
              direction_previous
              (pos 0)
            ≡ some r)
          × ((s : CronSpec) → Memᴰ s specs → NoneSince r.time s)
          × (((r.index ≡ none) × (r.time ≡ 0))
              ⊎ ((i : ℕ) × (s : CronSpec) × (r.index ≡ some i)
                  × (nth i specs ≡ some s)
                  × (matches (zones s.location) s r.time ≡ true)
                  × (r.time ≤ now)
                  × IsSameOrWhole (zones s.location) s now r.time))
    find_nearest_schedule_time_last_activation specs ordinary =
        let (r, e, nearest) =
          find_nearest_schedule_time-IsNearestOf cal now direction_previous (pos 0) specs
            (nonzero specs ordinary) in
        (r, e, none_later r nearest, found_one r nearest)
      where
        none_later :
            (r : Nearest)
            → IsNearestOf direction_previous (times cal now direction_previous (pos 0) specs) r
            → (s : CronSpec) → Memᴰ s specs
            → NoneSince r.time s
        none_later r (inl (_, _, nothing)) s m =
            since_latest r.time s (ordinary s m)
              (λ t e. absurd (nothing t (mem_times (some t) s specs m e)))
        none_later r (inr (_, _, _, first)) s m =
            since_latest r.time s (ordinary s m) (λ t e. first t (mem_times (some t) s specs m e))

        found_one :
            (r : Nearest)
            → IsNearestOf direction_previous (times cal now direction_previous (pos 0) specs) r
            → ((r.index ≡ none) × (r.time ≡ 0))
              ⊎ ((i : ℕ) × (s : CronSpec) × (r.index ≡ some i)
                  × (nth i specs ≡ some s)
                  × (matches (zones s.location) s r.time ≡ true)
                  × (r.time ≤ now)
                  × IsSameOrWhole (zones s.location) s now r.time)
        found_one r (inl (no_index, zero_time, _)) = inl (no_index, zero_time)
        found_one r (inr (i, at, here, _)) =
            let (s, which, m, e) = times_at i specs (some r.time) here in
            elim (adjacent_cases s (ordinary s m)) [
              | inl (no_time, _) ↦ absurd (cc)
              | inr (t, a_time, _, (matched, before, _, exact)) ↦
                  let same : t ≡ r.time = cc in
                  inr (
                    i,
                    s,
                    at,
                    which,
                    rw (← same) matched,
                    omega (arith, same, before),
                    rw (← same) exact,
                  )
            ]
