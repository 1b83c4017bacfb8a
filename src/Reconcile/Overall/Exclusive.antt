-- ===== src/Reconcile/Overall/Exclusive.antt =====
-- What calculateOverallConditions of pkg/reconciliation/reconcile.go comes to.
use mathlib.Core.Bool.{false≢true}
use controlled_job.Base.{
  ℕ, ◌≡◌, ◌≢◌, ◌∙◌, sym, refl, String, Bool, true, false, not, Option, none, some, ◌&&◌, ◌||◌,
  is_some, str_eq, eq_iff,
}
use controlled_job.Errors.{Error}
use controlled_job.Kube.{Time, ConditionStatus, condition_true, condition_false}
use controlled_job.Api.Conditions.{Live, set_condition, coerce_condition_to_boolean, same_status}
use controlled_job.Api.Conditions.Stability.{find-set_condition, find-set_condition_other}
use controlled_job.Api.ConditionTypes.{
  condition_type_error, condition_type_job_exists, condition_type_job_failed,
  condition_type_should_be_running, condition_type_job_manually_scheduled,
  condition_type_running_expectedly, condition_type_running_unexpectedly,
  condition_type_not_running_expectedly, condition_type_not_running_unexpectedly,
}
use controlled_job.Reconcile.Overall.{holds, set_error, set_overall, calculate_overall_conditions}

ne_of_test : (s t : String) → str_eq s t ≡ false → s ≢ t
ne_of_test s t e p = false≢true (sym e ∙ (eq_iff s t).1 p)

abbrev is_true : ConditionStatus → Bool
is_true s = same_status s condition_true

-- The type is none of the four.
abbrev Other : String → Type 0
Other t =
    (str_eq condition_type_running_expectedly t ≡ false)
    × (str_eq condition_type_running_unexpectedly t ≡ false)
    × (str_eq condition_type_not_running_expectedly t ≡ false)
    × (str_eq condition_type_not_running_unexpectedly t ≡ false)

module _ (clock : ℕ → Time) where
  abbrev set : String → ConditionStatus → String → String → Live → Live
  set = set_condition clock

  pub holds-set :
      (t : String) (s : ConditionStatus) (r m : String) (live : Live)
      → holds t (set t s r m live) ≡ is_true s
  unfolding coerce_condition_to_boolean
  holds-set t s r m live =
      let (c, e, same, r₁, m₁) = find-set_condition clock t s r m live in rw (e, same)

  pub holds-set_other :
      (t u : String) (s : ConditionStatus) (r m : String) (live : Live)
      → str_eq t u ≡ false
      → holds u (set t s r m live) ≡ holds u live
  unfolding coerce_condition_to_boolean
  holds-set_other t u s r m live e =
      rw (find-set_condition_other clock t s r m live u (ne_of_test t u e))

  -- What is true after the four conditions have been set in order.
  four_set :
      (a b c d : ConditionStatus) (ra ma rb mb rc mc rd md : String) (live : Live)
      → let done = set condition_type_not_running_unexpectedly d rd md (
          set condition_type_not_running_expectedly c rc mc (
            set condition_type_running_unexpectedly b rb mb
              (set condition_type_running_expectedly a ra ma live))) in
        (holds condition_type_running_expectedly done ≡ is_true a)
        × (holds condition_type_running_unexpectedly done ≡ is_true b)
        × (holds condition_type_not_running_expectedly done ≡ is_true c)
        × (holds condition_type_not_running_unexpectedly done ≡ is_true d)
  four_set a b c d ra ma rb mb rc mc rd md live =
      let la = set condition_type_running_expectedly a ra ma live in
      let lb = set condition_type_running_unexpectedly b rb mb la in
      let lc = set condition_type_not_running_expectedly c rc mc lb in
      (
        holds-set_other condition_type_not_running_unexpectedly condition_type_running_expectedly d
              rd md lc refl
            ∙ holds-set_other condition_type_not_running_expectedly
                condition_type_running_expectedly c rc mc lb refl
            ∙ holds-set_other condition_type_running_unexpectedly condition_type_running_expectedly
                b rb mb la refl
            ∙ holds-set condition_type_running_expectedly a ra ma live,
        holds-set_other condition_type_not_running_unexpectedly condition_type_running_unexpectedly
              d rd md lc refl
            ∙ holds-set_other condition_type_not_running_expectedly
                condition_type_running_unexpectedly c rc mc lb refl
            ∙ holds-set condition_type_running_unexpectedly b rb mb la,
        holds-set_other condition_type_not_running_unexpectedly
              condition_type_not_running_expectedly d rd md lc refl
            ∙ holds-set condition_type_not_running_expectedly c rc mc lb,
        holds-set condition_type_not_running_unexpectedly d rd md lc,
      )

  abbrev pub Verdict : Bool → Bool → Live → Type 0
  Verdict running wanted done =
      (holds condition_type_running_expectedly done ≡ (running && wanted))
      × (holds condition_type_running_unexpectedly done ≡ (running && not wanted))
      × (holds condition_type_not_running_expectedly done ≡ (not running && not wanted))
      × (holds condition_type_not_running_unexpectedly done ≡ (not running && wanted))

  overall_branches :
      (running job_failed should manual : Bool) (live : Live)
      → Verdict running (should || manual) (set_overall clock running job_failed should manual live)
  unfolding set_overall
  overall_branches true f true m live = four_set _ _ _ _ _ _ _ _ _ _ _ _ live
  overall_branches true f false true live = four_set _ _ _ _ _ _ _ _ _ _ _ _ live
  overall_branches true f false false live = four_set _ _ _ _ _ _ _ _ _ _ _ _ live
  overall_branches false true true m live = four_set _ _ _ _ _ _ _ _ _ _ _ _ live
  overall_branches false false true m live = four_set _ _ _ _ _ _ _ _ _ _ _ _ live
  overall_branches false true false true live = four_set _ _ _ _ _ _ _ _ _ _ _ _ live
  overall_branches false false false true live = four_set _ _ _ _ _ _ _ _ _ _ _ _ live
  overall_branches false true false false live = four_set _ _ _ _ _ _ _ _ _ _ _ _ live
  overall_branches false false false false live = four_set _ _ _ _ _ _ _ _ _ _ _ _ live

  -- The conditions of other types are left alone.
  four_others :
      (t : String) (a b c d : ConditionStatus) (ra ma rb mb rc mc rd md : String) (live : Live)
      → Other t
      → holds t (
          set condition_type_not_running_unexpectedly d rd md (
            set condition_type_not_running_expectedly c rc mc (
              set condition_type_running_unexpectedly b rb mb
                (set condition_type_running_expectedly a ra ma live))))
        ≡ holds t live
  four_others t a b c d ra ma rb mb rc mc rd md live o =
      let la = set condition_type_running_expectedly a ra ma live in
      let lb = set condition_type_running_unexpectedly b rb mb la in
      let lc = set condition_type_not_running_expectedly c rc mc lb in
      holds-set_other condition_type_not_running_unexpectedly t d rd md lc o.3
      ∙ holds-set_other condition_type_not_running_expectedly t c rc mc lb o.2
      ∙ holds-set_other condition_type_running_unexpectedly t b rb mb la o.1
      ∙ holds-set_other condition_type_running_expectedly t a ra ma live o.0

  overall_others :
      (t : String) (running job_failed should manual : Bool) (live : Live)
      → Other t
      → holds t (set_overall clock running job_failed should manual live) ≡ holds t live
  unfolding set_overall
  overall_others t true f true m live = four_others t _ _ _ _ _ _ _ _ _ _ _ _ live
  overall_others t true f false true live = four_others t _ _ _ _ _ _ _ _ _ _ _ _ live
  overall_others t true f false false live = four_others t _ _ _ _ _ _ _ _ _ _ _ _ live
  overall_others t false true true m live = four_others t _ _ _ _ _ _ _ _ _ _ _ _ live
  overall_others t false false true m live = four_others t _ _ _ _ _ _ _ _ _ _ _ _ live
  overall_others t false true false true live = four_others t _ _ _ _ _ _ _ _ _ _ _ _ live
  overall_others t false false false true live = four_others t _ _ _ _ _ _ _ _ _ _ _ _ live
  overall_others t false true false false live = four_others t _ _ _ _ _ _ _ _ _ _ _ _ live
  overall_others t false false false false live = four_others t _ _ _ _ _ _ _ _ _ _ _ _ live

  -- The condition Error tells whether there was an error.
  pub holds-error :
      (e : Option Error) (live : Live)
      → holds condition_type_error (calculate_overall_conditions clock e live) ≡ is_some e
  unfolding calculate_overall_conditions set_error
  holds-error none live =
      overall_others condition_type_error _ _ _ _ _ (refl, refl, refl, refl)
      ∙ holds-set condition_type_error condition_false _ _ live
  holds-error (some e) live =
      overall_others condition_type_error _ _ _ _ _ (refl, refl, refl, refl)
      ∙ holds-set condition_type_error condition_true _ _ live

  holds-set_error :
      (e : Option Error) (t : String) (live : Live)
      → str_eq condition_type_error t ≡ false
      → holds t (set_error clock e live) ≡ holds t live
  unfolding set_error
  holds-set_error none t live d = holds-set_other condition_type_error t condition_false _ _ live d
  holds-set_error (some e) t live d =
      holds-set_other condition_type_error t condition_true _ _ live d

  -- Of the four overall conditions that one is True which says whether a job exists and has not
  -- failed, and whether it should be running or was scheduled by hand; the three others are not.
  pub overall_conditions_exclusive :
      (e : Option Error) (live : Live)
      → Verdict
          (holds condition_type_job_exists live && not (holds condition_type_job_failed live))
          (holds condition_type_should_be_running live
            || holds condition_type_job_manually_scheduled live)
          (calculate_overall_conditions clock e live)
  unfolding calculate_overall_conditions
  overall_conditions_exclusive e live =
      rw
        (
          sym (holds-set_error e condition_type_job_exists live refl),
          sym (holds-set_error e condition_type_job_failed live refl),
          sym (holds-set_error e condition_type_should_be_running live refl),
          sym (holds-set_error e condition_type_job_manually_scheduled live refl),
        )
        (overall_branches
          (holds condition_type_job_exists (set_error clock e live)
            && not (holds condition_type_job_failed (set_error clock e live)))
          (holds condition_type_job_failed (set_error clock e live))
          (holds condition_type_should_be_running (set_error clock e live))
          (holds condition_type_job_manually_scheduled (set_error clock e live))
          (set_error clock e live))
