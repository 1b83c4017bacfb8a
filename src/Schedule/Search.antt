-- ===== src/Schedule/Search.antt =====
-- What findNearestScheduleTime of pkg/schedule/nearest_event.go finds.
use mathlib.Core.List.{append_assoc, append-nil}
use controlled_job.Base.{
  ℕ, zero, suc, ◌≤◌, ◌≡◌, ◌≢◌, ◌∙◌, sym, ap, refl, subst, true, false, Option, none, some, List, [],
  ◌∷◌, ◌++◌, arith, Memᴰ, ◌⊎◌, inl, inr, length, length-append, map, Bool-cases,
}
use controlled_job.Base.Lists.Membership.{mem_of_mem-append, mem-append_left}
use controlled_job.Base.Int.{ℤ}
use controlled_job.Kube.{Time}
use controlled_job.Schedule.{
  Calendar, CronSpec, Direction, direction_next, direction_previous, Nearest, nth, event_is_nearer,
  adjacent_time, nearest_step, nearest_from, find_nearest_schedule_time,
}

-- `t` does not lie beyond `u` in the direction.
abbrev pub NotBeyond : Direction → Time → Time → Type 0
NotBeyond direction_next u t = u ≤ t
NotBeyond direction_previous u t = t ≤ u

nth-append {ℓ} :
    {A : Type ℓ} (i : ℕ) (xs ys : List A) (x : A) → nth i xs ≡ some x → nth i (xs ++ ys) ≡ some x
unfolding nth
nth-append i [] ys x h = absurd (ground (arith, h))
nth-append zero (y ∷ xs) ys x h = h
nth-append (suc i) (y ∷ xs) ys x h = nth-append i xs ys x h

nth-length {ℓ} : {A : Type ℓ} (xs : List A) (x : A) → nth (length xs) (xs ++ x ∷ []) ≡ some x
unfolding nth
nth-length [] x = refl
nth-length (y ∷ xs) x = nth-length xs x

module _ (direction : Direction) where
  -- No time of the list lies before the one found, and that one stands at the index found; where
  -- the list has no time, none is found.
  abbrev pub IsNearestOf : List (Option Time) → Nearest → Type 0
  IsNearestOf ts r =
      ((r.index ≡ none) × (r.time ≡ 0) × ((t : Time) → ¬ Memᴰ (some t) ts))
      ⊎ ((i : ℕ) × (r.index ≡ some i)
          × (nth i ts ≡ some (some r.time))
          × ((t : Time) → Memᴰ (some t) ts → NotBeyond direction r.time t))

  abbrev pub AreNonZero : List (Option Time) → Type 0
  AreNonZero ts = (t : Time) → Memᴰ (some t) ts → t ≢ 0

  no_more :
      (ts : List (Option Time)) (t : Time) → Memᴰ (some t) (ts ++ none ∷ []) → Memᴰ (some t) ts
  no_more ts t m = elim (mem_of_mem-append ts (none ∷ []) m) [
    | inl l ↦ l
    | inr r ↦ absurd (none_only r)
  ]
    where
      none_only : ¬ Memᴰ (some t) (none ∷ [])
      none_only (Memᴰ.head e) = cc
      none_only (Memᴰ.tail l) = elim l [ ]

  with_none :
      (ts : List (Option Time)) (r : Nearest) → IsNearestOf ts r → IsNearestOf (ts ++ none ∷ []) r
  with_none ts r (inl (a, b, none_there)) = inl (a, b, λ t m. none_there t (no_more ts t m))
  with_none ts r (inr (i, a, b, nearest)) =
      inr (i, a, nth-append i ts (none ∷ []) (some r.time) b, λ t m. nearest t (no_more ts t m))

  pub mem_of_nth :
      (i : ℕ) (ts : List (Option Time)) (x : Option Time) → nth i ts ≡ some x → Memᴰ x ts
  unfolding nth
  mem_of_nth i [] x h = absurd (ground (arith, h))
  mem_of_nth zero (y ∷ ts) x h = Memᴰ.head (sym (some_injective h))
    where
      some_injective : some y ≡ some x → y ≡ x
      some_injective e = cc
  mem_of_nth (suc i) (y ∷ ts) x h = Memᴰ.tail (mem_of_nth i ts x h)

  -- A time that comes last is in the list, or is the new one.
  split_last :
      (ts : List (Option Time)) (t u : Time)
      → Memᴰ (some u) (ts ++ some t ∷ [])
      → Memᴰ (some u) ts ⊎ (u ≡ t)
  split_last ts t u m = elim (mem_of_mem-append ts (some t ∷ []) m) [
    | inl l ↦ inl l
    | inr r ↦ inr (the_one r)
  ]
    where
      the_one : Memᴰ (some u) (some t ∷ []) → u ≡ t
      the_one (Memᴰ.head e) = cc
      the_one (Memᴰ.tail l) = elim l [ ]

  nearer_than :
      (d : Direction) (t b u : Time)
      → event_is_nearer t b d ≡ true
      → b ≢ 0
      → NotBeyond d b u
      → NotBeyond d t u
  unfolding event_is_nearer
  nearer_than direction_next t b u e nz h = ground (arith, e, nz, h)
  nearer_than direction_previous t b u e nz h = ground (arith, e, nz, h)

  not_nearer_than :
      (d : Direction) (t b : Time) → event_is_nearer t b d ≡ false → (b ≢ 0) × NotBeyond d b t
  unfolding event_is_nearer
  not_nearer_than direction_next t b e = ground (arith, e)
  not_nearer_than direction_previous t b e = ground (arith, e)

  NotBeyond-self : (d : Direction) (t u : Time) → u ≡ t → NotBeyond d t u
  NotBeyond-self direction_next t u e = ground (arith, e)
  NotBeyond-self direction_previous t u e = ground (arith, e)

  with_time :
      (ts : List (Option Time)) (b : Nearest) (t : Time)
      → AreNonZero ts
      → IsNearestOf ts b
      → IsNearestOf (ts ++ some t ∷ []) (nearest_step direction (length ts) b (some t))
  unfolding nearest_step
  with_time ts b t nz best = elim (Bool-cases (event_is_nearer t b.time direction)) [
    | inl e ↦ rw e (
        inr (
          length ts,
          refl,
          nth-length ts (some t),
          λ u m. elim (split_last ts t u m) [
            | inl l ↦ nearer_than direction t b.time u e (found_nonzero u l) (before_all u l)
            | inr same ↦ NotBeyond-self direction t u same
          ],
        ))
    | inr e ↦ rw e (elim best [
      | inl (a, z, none_there) ↦ absurd ((not_nearer_than direction t b.time e).0 z)
      | inr (i, a, at, nearest) ↦ inr (
        i,
        a,
        nth-append i ts (some t ∷ []) (some b.time) at,
        λ u m. elim (split_last ts t u m) [
          | inl l ↦ nearest u l
          | inr same ↦
              subst (NotBeyond direction b.time) (sym same) (not_nearer_than direction t b.time e).1
        ],
      )
    ])
  ]
    where
      before_all : (u : Time) → Memᴰ (some u) ts → NotBeyond direction b.time u
      before_all u l = elim best [
        | inl (a, z, none_there) ↦ absurd (none_there u l)
        | inr (i, a, at, nearest) ↦ nearest u l
      ]

      found_nonzero : (u : Time) → Memᴰ (some u) ts → b.time ≢ 0
      found_nonzero u l = elim best [
        | inl (a, z, none_there) ↦ absurd (none_there u l)
        | inr (i, a, at, nearest) ↦ nz b.time (mem_of_nth i ts (some b.time) at)
      ]

  stepped :
      (ts : List (Option Time)) (b : Nearest) (o : Option Time)
      → AreNonZero ts
      → IsNearestOf ts b
      → IsNearestOf (ts ++ o ∷ []) (nearest_step direction (length ts) b o)
  unfolding nearest_step
  stepped ts b none nz best = with_none ts b best
  stepped ts b (some t) nz best = with_time ts b t nz best

module _ (cal : Calendar) (now : Time) (direction : Direction) (offset : ℤ) where
  -- The times of the schedules in the direction, offset taken into account.
  abbrev pub times : List CronSpec → List (Option Time)
  times = map (adjacent_time cal now direction offset)

  found_from :
      (ts : List (Option Time)) (specs : List CronSpec) (b : Nearest)
      → AreNonZero direction (ts ++ times specs)
      → IsNearestOf direction ts b
      → (r : Nearest) × (nearest_from cal now direction offset (length ts) b (map some specs)
          ≡ some r)
        × IsNearestOf direction (ts ++ times specs) r
  unfolding nearest_from
  found_from ts [] b nz best = (
    b,
    refl,
    subst (λ (l : List (Option Time)). IsNearestOf direction l b) (sym (append-nil ts)) best,
  )
  found_from ts (s ∷ specs) b nz best =
      let o = adjacent_time cal now direction offset s in
      let (r, eq, nearest) =
        found_from (ts ++ o ∷ []) specs (nearest_step direction (length ts) b o)
          (subst (AreNonZero direction) (sym (append_assoc ts (o ∷ []) (times specs))) nz)
          (stepped direction ts b o (λ t m. nz t (mem-append_left ts _ m)) best) in
      (
        r,
        ap
              (λ (n : ℕ).
                nearest_from cal now direction offset n (nearest_step direction (length ts) b o)
                  (map some specs))
              (longer o)
            ∙ eq,
        subst (λ (l : List (Option Time)). IsNearestOf direction l r)
            (append_assoc ts (o ∷ []) (times specs)) nearest,
      )
    where
      longer : (o : Option Time) → suc (length ts) ≡ length (ts ++ o ∷ [])
      longer o = omega (arith, length-append ts (o ∷ []))

  -- Where every event has a schedule, and no schedule's time falls, offset taken into account, on
  -- the zero time, the search returns the nearest time in the direction with its schedule's index,
  -- and none only where no schedule has a time in the direction.
  pub find_nearest_schedule_time-IsNearestOf :
      (specs : List CronSpec)
      → AreNonZero direction (times specs)
      → (r : Nearest) × (find_nearest_schedule_time cal (map some specs) now direction offset
          ≡ some r)
        × IsNearestOf direction (times specs) r
  unfolding find_nearest_schedule_time
  find_nearest_schedule_time-IsNearestOf specs nz =
      found_from [] specs (record { time = 0; index = none }) nz
        (inl (refl, refl, λ t m. elim m [ ]))
