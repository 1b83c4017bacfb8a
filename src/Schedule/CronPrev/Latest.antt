-- ===== src/Schedule/CronPrev/Latest.antt =====
-- What cronPrev of pkg/schedule/cron_prev.go finds.
use controlled_job.Base.{
  ℕ, zero, suc, ◌+◌, ◌*◌, ◌-◌, ◌%◌, ◌≤◌, ◌<◌, ◌≡◌, ◌∙◌, ap, subst, refl, inl, inr, false, some,
  String, str_eq, ltb, arith, Bool-cases,
}
use controlled_job.Kube.{Time}
use controlled_job.Schedule.{CronSpec}
use controlled_job.Schedule.CronPrev.{
  one_second, Zone, Phase, at_wrap, Move, go, found, step, follow, search_back, enough, cron_prev,
}
use controlled_job.Schedule.CronPrev.Regular.{IsRegular, IsLatest, IsSameOrWhole, NoneBetween}
use controlled_job.Schedule.CronPrev.Steps.{rank, Reached, IsGood, step-IsGood}

module _ (z : Zone) (s : CronSpec) (limit : ℕ) where
  module _ (regular : IsRegular z) (late : 2 ≤ limit) where
    extend :
        (u t r : Time)
        → u ≤ t
        → NoneBetween z s u t
        → IsSameOrWhole z s t u
        → IsLatest z s limit u r
        → IsLatest z s limit t r
    extend u t r h skipped whole (inl (m, le, none_later, exact)) = inl (
      m,
      omega arith,
      λ v w a b. elim (Bool-cases (ltb u v)) [
        | inl after ↦ skipped v w (ground (arith, after)) b
        | inr before ↦ none_later v w a (ground (arith, before))
      ],
      carried whole exact,
    )
      where
        carried : IsSameOrWhole z s t u → IsSameOrWhole z s u r → IsSameOrWhole z s t r
        carried (inl same) exact = subst (λ x. IsSameOrWhole z s x r) same exact
        carried (inr (w, n)) (inl same) = inr (ap (λ x. x % one_second) same ∙ w, n)
        carried (inr (w, n)) (inr (whole_r, _)) = inr (whole_r, n)
    extend u t r h skipped whole (inr (e, none_at_all)) = inr (
      e,
      λ v w b y. elim (Bool-cases (ltb u v)) [
        | inl after ↦ skipped v w (ground (arith, after)) b
        | inr before ↦ none_at_all v w (ground (arith, before)) y
      ],
    )

    -- With this fuel every search ends at the last activation.
    abbrev Finds : ℕ → Type 0
    Finds fuel =
        (p : Phase) (t : Time)
        → 6 * t + rank p < fuel
        → Reached z s limit p t
        → (r : Time) × (search_back z s limit fuel p t ≡ some r) × IsLatest z s limit t r

    follow-IsLatest :
        (fuel : ℕ)
        → Finds fuel
        → (p : Phase) (t : Time) (move : Move) → 6 * t + rank p < suc fuel
        → IsGood z s limit p t move
        → (r : Time) × (follow (search_back z s limit fuel) move ≡ some r) × IsLatest z s limit t r
    follow-IsLatest fuel finds p t (go q u) h (there, earlier, le, skipped, whole) =
        let (r, e, latest) = finds q u (omega arith) there in
        (r, e, extend u t r le skipped whole latest)
    follow-IsLatest fuel finds p t (found r) h (inl (m, e)) =
        (r, refl, inl (m, omega (arith, e), λ v w a b. absurd (omega (arith, e)), inl e))
    follow-IsLatest fuel finds p t (found r) h (inr (e, early)) =
        (r, refl, inr (e, λ v w b y. absurd (omega (arith, regular.years_in_order v t b))))

    search_back-IsLatest : (fuel : ℕ) → Finds fuel
    unfolding search_back
    search_back-IsLatest zero p t h known = absurd (omega arith)
    search_back-IsLatest (suc fuel) p t h known =
        follow-IsLatest fuel (search_back-IsLatest fuel) p t (step z s limit p t) h
          (step-IsGood z s limit regular late p t known)

-- In a zone whose clock is never set, from the year 7 on: the search of cronPrev ends. Where the
-- second in which the time given lies is an activation, it returns that time as it is, its
-- nanoseconds included. Else it returns the last activation before it, a whole second, or the zero
-- time where no second of that time's year and the five years before it, up to that time, is one.
pub cron_prev-IsLatest :
    (zones : String → Zone) (own : Zone) (s : CronSpec) (t : Time)
    → str_eq s.location "Local" ≡ false
    → IsRegular (zones s.location)
    → 7 ≤ (zones s.location).year t
    → (r : Time) × (cron_prev zones own s t ≡ some r)
      × IsLatest (zones s.location) s ((zones s.location).year t - 5) t r
unfolding cron_prev rank
cron_prev-IsLatest zones own s t elsewhere regular late = rw elsewhere (
    search_back-IsLatest (zones s.location) s ((zones s.location).year t - 5) regular (omega arith)
      (enough t) at_wrap t (omega arith) (omega arith))
