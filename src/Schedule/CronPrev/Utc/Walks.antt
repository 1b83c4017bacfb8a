-- ===== src/Schedule/CronPrev/Utc/Walks.antt =====
-- The walks over the years and months of the calendar that stands behind Go's time package in UTC.
use controlled_job.Base.{
  ℕ, zero, suc, ◌+◌, ◌-◌, ◌≤◌, ◌<◌, ◌≡◌, refl, Bool, true, false, inl, inr, ltb, if◌then◌else◌,
  arith, Bool-cases,
}
use controlled_job.Schedule.CronPrev.Utc.{
  walk, total, is_leap, year_length, month_length, year_place, month_place,
}

-- The place reached stands the days of whole periods behind the first of the walk.
walk-total :
    (len : ℕ → ℕ) (fuel n d : ℕ)
    → (k : ℕ) × ((walk len fuel n d).at ≡ n + k) × (total len n k + (walk len fuel n d).rest ≡ d)
unfolding walk total
walk-total len zero n d = (0, omega arith, omega arith)
walk-total len (suc fuel) n d = elim (Bool-cases (ltb d (len n))) [
  | inl e ↦ rw e (0, omega arith, omega arith)
  | inr e ↦
      let (k, a, b) = walk-total len fuel (n + 1) (d - len n) in
      rw e (suc k, omega (arith, a), ground (arith, e, b))
]

-- An earlier day of the same period has the same number.
pub walk_within :
    (len : ℕ → ℕ) (fuel n d e : ℕ)
    → e ≤ d
    → d ≤ e + (walk len fuel n d).rest
    → ((walk len fuel n e).at ≡ (walk len fuel n d).at)
      × ((walk len fuel n e).rest + d ≡ (walk len fuel n d).rest + e)
unfolding walk
walk_within len zero n d e a b = (refl, omega arith)
walk_within len (suc fuel) n d e a b =
    let (k, _, in_all) = walk-total len fuel (n + 1) (d - len n) in
    ground (arith, walk_within len fuel (n + 1) (d - len n) (e - len n), in_all)

-- The day before the first of a period is the last of its own.
walk_before :
    (len : ℕ → ℕ)
    → ((n : ℕ) → 0 < len n)
    → (fuel n d r : ℕ) → (walk len fuel n d).rest ≡ r
    → r < d
    → (walk len fuel n (d - r - 1)).rest + 1 ≡ len (walk len fuel n (d - r - 1)).at
unfolding walk
walk_before len positive zero n d r e h = absurd (omega (arith, e))
walk_before len positive (suc fuel) n d r e h =
    let (k, _, in_all) = walk-total len fuel (n + 1) (d - len n) in
    let same : d - r - 1 - len n ≡ d - len n - r - 1 = omega arith in
    rw same
      (ground (arith, e, in_all, positive n, walk_before len positive fuel (n + 1) (d - len n) r))

pub walk_in_order :
    (len : ℕ → ℕ) (fuel n d e : ℕ) → e ≤ d → (walk len fuel n e).at ≤ (walk len fuel n d).at
unfolding walk
walk_in_order len zero n d e h = omega arith
walk_in_order len (suc fuel) n d e h =
    let (k, a, _) = walk-total len fuel (n + 1) (d - len n) in
    ground (arith, walk_in_order len fuel (n + 1) (d - len n) (e - len n), a)

-- time.Date undoes the fields of a day.
pub days_of_fields :
    (d : ℕ)
    → total year_length 1 ((year_place d).at - 1)
        + total (month_length (is_leap (year_place d).at)) 1 ((month_place d).at - 1)
        + (month_place d).rest
      ≡ d
unfolding year_place month_place
days_of_fields d =
    let (k, a, b) = walk-total year_length 9999 1 d in
    let (l, m, n) =
      walk-total (month_length (is_leap (year_place d).at)) 11 1 (year_place d).rest in
    let years : (year_place d).at - 1 ≡ k = omega (arith, a) in
    let months : (month_place d).at - 1 ≡ l = omega (arith, m) in
    rw years (rw months (omega (arith, b, n)))

pub month_in_year : (d : ℕ) → (month_place d).rest ≤ (year_place d).rest
unfolding month_place
month_in_year d =
    let (l, m, n) =
      walk-total (month_length (is_leap (year_place d).at)) 11 1 (year_place d).rest in
    omega (arith, n)

-- An earlier day of the same month.
pub month_within :
    (d e : ℕ)
    → e ≤ d
    → d ≤ e + (month_place d).rest
    → ((year_place e).at ≡ (year_place d).at) × ((month_place e).at ≡ (month_place d).at)
unfolding year_place month_place
month_within d e a b =
    let small = month_in_year d in
    let (same, rests) = walk_within year_length 9999 1 d e a (omega arith) in
    (
      same,
      rw same
          (walk_within (month_length (is_leap (year_place d).at)) 11 1 (year_place d).rest
            (year_place e).rest (omega arith) (omega arith)).0,
    )

year_length_positive : (y : ℕ) → 0 < year_length y
unfolding year_length
year_length_positive y = ground arith

last_month :
    (leap : Bool) → (walk (month_length leap) 11 1 ((if leap then 366 else 365) - 1)).at ≡ 12
unfolding walk month_length
last_month true = refl
last_month false = refl

-- The day before 1 January is in December.
pub december :
    (d : ℕ) → (year_place d).rest < d → (month_place (d - (year_place d).rest - 1)).at ≡ 12
unfolding year_place month_place
december d h =
    let last = walk_before year_length year_length_positive 9999 1 d (year_place d).rest refl h in
    let is_last : (year_place (d - (year_place d).rest - 1)).rest
        ≡ year_length (year_place (d - (year_place d).rest - 1)).at - 1 =
      omega (arith, last) in
    rw is_last
      (unfold year_length in last_month (is_leap (year_place (d - (year_place d).rest - 1)).at))
