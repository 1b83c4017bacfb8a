-- ===== src/Schedule/CronPrev/Steps.antt =====
-- What each test of cronPrev of pkg/schedule/cron_prev.go does.
use controlled_job.Base.{
  ℕ, zero, suc, ◌+◌, ◌*◌, ◌-◌, ◌%◌, ◌≤◌, ◌<◌, ◌≡◌, ◌∙◌, refl, ◌⊎◌, inl, inr, Bool, true, false,
  ◌==◌, ltb, if◌then◌else◌, arith, Bool-cases,
}
use controlled_job.Kube.{Time}
use controlled_job.Schedule.{CronSpec}
use controlled_job.Schedule.CronPrev.{
  Zone, has_bit, day_matches, truncate, one_second, one_minute, Phase, at_wrap, in_month, in_day,
  in_hour, in_minute, in_second, Move, go, found, month_start, day_start, hour_start, step,
}
use controlled_job.Schedule.CronPrev.Regular.{
  IsRegular, InOneMonth, InOneDay, NoneBetween, IsSameOrWhole, matches,
}

unfoldable pub rank : Phase → ℕ
rank at_wrap = 5
rank in_month = 4
rank in_day = 3
rank in_hour = 2
rank in_minute = 1
rank in_second = 0

module _ (z : Zone) (s : CronSpec) (limit : ℕ) where
  abbrev pub AfterMonth : Time → Type 0
  AfterMonth t = (limit ≤ z.year t) × (has_bit (z.month t) s.month ≡ true)

  abbrev pub AfterDay : Time → Type 0
  AfterDay t = AfterMonth t × (day_matches z s t ≡ true)

  abbrev pub AfterHour : Time → Type 0
  AfterHour t = AfterDay t × (has_bit (z.hour t) s.hour ≡ true)

  -- What is known of the time when a test is reached.
  abbrev pub Reached : Phase → Time → Type 0
  Reached at_wrap t = 0 ≤ t
  Reached in_month t = limit ≤ z.year t
  Reached in_day t = AfterMonth t
  Reached in_hour t = AfterDay t
  Reached in_minute t = AfterHour t
  Reached in_second t = AfterHour t × (has_bit (z.minute t) s.minute ≡ true)

  -- A test goes on in a later phase or at an earlier time and skips no activation, or it ends with
  -- the result.
  abbrev pub IsGood : Phase → Time → Move → Type 0
  IsGood p t (go q u) =
      Reached q u
      × (6 * u + rank q < 6 * t + rank p)
      × (u ≤ t)
      × NoneBetween z s u t
      × IsSameOrWhole z s t u
  IsGood p t (found r) = ((matches z s r ≡ true) × (r ≡ t)) ⊎ ((r ≡ 0) × (z.year t < limit))

  pass_on : (p q : Phase) (t : Time) → rank q < rank p → Reached q t → IsGood p t (go q t)
  pass_on p q t h r = (r, omega arith, omega arith, λ v w a b. absurd (omega arith), inl refl)

  -- Going back to one second before a start.
  go_back :
      (p q : Phase) (t start : Time)
      → start ≤ t
      → 0 < t
      → start % one_second ≡ 0
      → ((v : Time) → start ≤ v → v ≤ t → matches z s v ≡ false)
      → Reached q (start - one_second)
      → IsGood p t (go q (start - one_second))
  unfolding rank
  go_back p q t start a b w none_here r = (
    r,
    earlier p q,
    omega arith,
    λ v e h k. none_here v (omega arith) k,
    inr (omega arith, none_here t a (omega arith)),
  )
    where
      earlier : (p q : Phase) → 6 * (start - one_second) + rank q < 6 * t + rank p
      earlier p at_wrap = omega arith
      earlier p in_month = omega arith
      earlier p in_day = omega arith
      earlier p in_hour = omega arith
      earlier p in_minute = omega arith
      earlier p in_second = omega arith

  no_month :
      (t v : Time)
      → has_bit (z.month t) s.month ≡ false
      → z.month v ≡ z.month t
      → matches z s v ≡ false
  unfolding matches
  no_month t v e h = rw (h, e) refl

  same_day :
      (t v : Time)
      → (z.day v ≡ z.day t) × (z.weekday v ≡ z.weekday t)
      → day_matches z s v ≡ day_matches z s t
  unfolding day_matches
  same_day t v (d, w) = rw (d, w) refl

  no_day :
      (t v : Time)
      → day_matches z s t ≡ false
      → day_matches z s v ≡ day_matches z s t
      → matches z s v ≡ false
  unfolding matches
  no_day t v e h = ground (arith, e, h)

  no_hour :
      (t v : Time) → has_bit (z.hour t) s.hour ≡ false → z.hour v ≡ z.hour t → matches z s v ≡ false
  unfolding matches
  no_hour t v e h = rw (h, e) (ground arith)

  no_minute :
      (t v : Time)
      → has_bit (z.minute t) s.minute ≡ false
      → z.minute v ≡ z.minute t
      → matches z s v ≡ false
  unfolding matches
  no_minute t v e h = rw (h, e) (ground arith)

  no_second :
      (t v : Time)
      → has_bit (z.second t) s.second ≡ false
      → z.second v ≡ z.second t
      → matches z s v ≡ false
  unfolding matches
  no_second t v e h = rw (h, e) (ground arith)

  month_kept : (t u : Time) → AfterMonth t → InOneMonth z u t → AfterMonth u
  month_kept t u (y, m) (same_year, same_month) = (rw same_year y, rw same_month m)

  day_kept : (t u : Time) → AfterDay t → InOneDay z u t → AfterDay u
  day_kept t u (m, d) (same_month, same_days) =
      (month_kept t u m same_month, same_day t u same_days ∙ d)

  hour_kept : (t u : Time) → AfterHour t → InOneDay z u t → z.hour u ≡ z.hour t → AfterHour u
  hour_kept t u (d, h) same same_hour = (day_kept t u d same, rw same_hour h)

  module _ (regular : IsRegular z) (late : 2 ≤ limit) where
    not_zero : (t : Time) → limit ≤ z.year t → 0 < t
    not_zero zero h = absurd (omega (arith, regular.first_year))
    not_zero (suc t) h = omega arith

    at_wrap-IsGood : (t : Time) → IsGood at_wrap t (step z s limit at_wrap t)
    unfolding step
    at_wrap-IsGood t = elim (Bool-cases (ltb (z.year t) limit)) [
      | inl e ↦ rw e (inr (refl, ground (arith, e)))
      | inr e ↦ rw e (pass_on at_wrap in_month t (unfold rank in omega arith) (ground (arith, e)))
    ]

    -- The test that the time has wrapped around decides where the code goes on.
    retreat :
        (wrapped : Bool) (p stay : Phase) (t start : Time)
        → limit ≤ z.year t
        → start ≤ t
        → start % one_second ≡ 0
        → ((v : Time) → start ≤ v → v ≤ t → matches z s v ≡ false)
        → (wrapped ≡ false → Reached stay (start - one_second))
        → IsGood p t (go (if wrapped then at_wrap else stay) (start - one_second))
    retreat true p stay t start y a w none_here r =
        go_back p at_wrap t start a (not_zero t y) w none_here (omega arith)
    retreat false p stay t start y a w none_here r =
        go_back p stay t start a (not_zero t y) w none_here (r refl)

    in_month-IsGood :
        (t : Time) → Reached in_month t → IsGood in_month t (step z s limit in_month t)
    unfolding step
    in_month-IsGood t y = elim (Bool-cases (has_bit (z.month t) s.month)) [
      | inl e ↦ rw e (pass_on in_month in_day t (unfold rank in omega arith) (y, e))
      | inr e ↦ rw e (
          retreat (z.month (month_start z t - one_second) == 12) in_month in_month t
            (month_start z t) y (regular.month_start_le t)
            (regular.whole_dates (z.year t) (z.month t) 1 0)
            (λ v a b. no_month t v e (regular.one_month t v a b))
            (λ d. rw (regular.before_month t (ground (arith, d))) y))
    ]

    in_day-IsGood : (t : Time) → Reached in_day t → IsGood in_day t (step z s limit in_day t)
    unfolding step
    in_day-IsGood t (y, m) = elim (Bool-cases (day_matches z s t)) [
      | inl e ↦ rw e (pass_on in_day in_hour t (unfold rank in omega arith) ((y, m), e))
      | inr e ↦ rw e (
          retreat (z.day (day_start z t) == 1) in_day in_day t (day_start z t) y
            (regular.day_start_le t) (regular.whole_dates (z.year t) (z.month t) (z.day t) 0)
            (λ v a b. no_day t v e (same_day t v (regular.one_day t v a b)))
            (λ d.
              month_kept t (day_start z t - one_second) (y, m)
                (regular.before_day t (ground (arith, d)))))
    ]

    in_hour-IsGood : (t : Time) → Reached in_hour t → IsGood in_hour t (step z s limit in_hour t)
    unfolding step
    in_hour-IsGood t ((y, m), d) = elim (Bool-cases (has_bit (z.hour t) s.hour)) [
      | inl e ↦ rw e (pass_on in_hour in_minute t (unfold rank in omega arith) (((y, m), d), e))
      | inr e ↦ rw e (
          retreat (z.hour (hour_start z t - one_second) == 23) in_hour in_hour t (hour_start z t) y
            (regular.hour_start_le t)
            (regular.whole_dates (z.year t) (z.month t) (z.day t) (z.hour t))
            (λ v a b. no_hour t v e (regular.one_hour t v a b))
            (λ w.
              day_kept t (hour_start z t - one_second) ((y, m), d)
                (regular.before_hour t (ground (arith, w)))))
    ]

    in_minute-IsGood :
        (t : Time) → Reached in_minute t → IsGood in_minute t (step z s limit in_minute t)
    unfolding step
    in_minute-IsGood t (((y, m), d), h) = elim (Bool-cases (has_bit (z.minute t) s.minute)) [
      | inl e ↦
          rw e (pass_on in_minute in_second t (unfold rank in omega arith) ((((y, m), d), h), e))
      | inr e ↦ rw e (
          retreat (z.minute (truncate one_minute t - one_second) == 59) in_minute in_minute t
            (truncate one_minute t) y (omega arith) (omega arith)
            (λ v a b. no_minute t v e (regular.minute_constant t v a b))
            (λ w. kept (regular.before_minute t (ground (arith, w)))))
    ]
      where
        kept :
            InOneDay z (truncate one_minute t - one_second) t
              × (z.hour (truncate one_minute t - one_second) ≡ z.hour t)
            → AfterHour (truncate one_minute t - one_second)
        kept (same, same_hour) =
            hour_kept t (truncate one_minute t - one_second) (((y, m), d), h) same same_hour

    in_second-IsGood :
        (t : Time) → Reached in_second t → IsGood in_second t (step z s limit in_second t)
    unfolding step matches
    in_second-IsGood t ((((y, m), d), h), i) = elim (Bool-cases (has_bit (z.second t) s.second)) [
      | inl e ↦ rw e (inl (rw (m, d, h, i) e, refl))
      | inr e ↦ rw e (
          retreat (z.second (truncate one_second t - one_second) == 59) in_second in_second t
            (truncate one_second t) y (omega arith) (omega arith)
            (λ v a b. no_second t v e (regular.second_constant t v a b))
            (λ w. kept (regular.before_second t (ground (arith, w)))))
    ]
      where
        kept :
            InOneDay z (truncate one_second t - one_second) t
              × (z.hour (truncate one_second t - one_second) ≡ z.hour t)
              × (z.minute (truncate one_second t - one_second) ≡ z.minute t)
            → Reached in_second (truncate one_second t - one_second)
        kept (same, same_hour, same_minute) = (
          hour_kept t (truncate one_second t - one_second) (((y, m), d), h) same same_hour,
          rw same_minute i,
        )

    pub step-IsGood : (p : Phase) (t : Time) → Reached p t → IsGood p t (step z s limit p t)
    step-IsGood at_wrap t h = at_wrap-IsGood t
    step-IsGood in_month t h = in_month-IsGood t h
    step-IsGood in_day t h = in_day-IsGood t h
    step-IsGood in_hour t h = in_hour-IsGood t h
    step-IsGood in_minute t h = in_minute-IsGood t h
    step-IsGood in_second t h = in_second-IsGood t h
