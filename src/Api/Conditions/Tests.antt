-- ===== src/Api/Conditions/Tests.antt =====
-- SetCondition and RemoveCondition of api/v1/helpers.go at small lists, and their theorems there.
use controlled_job.Base.{ℕ, ◌+◌, ◌≡◌, ◌≢◌, ◌⊎◌, refl, some, List, [], ◌∷◌}
use controlled_job.Kube.{Time, condition_true, condition_false, condition_unknown}
use controlled_job.Api.{Condition}
use controlled_job.Api.Conditions.{
  Live, find_condition, refresh, update_found, upsert, set_condition,
}
use controlled_job.Api.Conditions.Upsert.{HasDistinctTypes}
use controlled_job.Api.Conditions.Stability.{
  conditions_of, transition-set_condition, set_condition-HasDistinctTypes,
}
use controlled_job.Samples.{sample_live}

abbrev running_at : Time → Condition
running_at t = record {
  type_name = "JobRunning";
  status = condition_true;
  last_transition_time = t;
  observed_generation = 7;
  reason = "Ready";
  message = "";
}

abbrev exists_at : Time → Condition
exists_at t = record (running_at t) { type_name = "JobExists"; status = condition_unknown }

abbrev with_conditions : List Condition → Live
with_conditions cs = record sample_live {
  object = record sample_live.object {
    status = record sample_live.object.status { conditions = cs };
  };
}

abbrev clock_from_1000 : ℕ → Time
clock_from_1000 n = 1000 + n

abbrev stopped_now : List Condition → Live
stopped_now cs =
    set_condition clock_from_1000 "JobRunning" condition_false "Stopped" "by hand"
      (with_conditions cs)

abbrev both : List Condition
both = running_at 5 ∷ exists_at 6 ∷ []

stopped_both :
    conditions_of (stopped_now both)
    ≡ record (running_at 1000) {
      status = condition_false;
      observed_generation = 1;
      reason = "Stopped";
      message = "by hand";
    }
      ∷ exists_at 6
      ∷ []
unfolding set_condition upsert find_condition update_found refresh
stopped_both = refl

transition-set_condition_example :
    (c : Condition) × (find_condition "JobRunning" (conditions_of (stopped_now both)) ≡ some c)
    × ((condition_true ≡ condition_false)
          × ((running_at 5).last_transition_time ≢ 0)
          × (c.last_transition_time ≡ 5)
          × (c.observed_generation ≡ 7)
        ⊎ ((condition_true ≢ condition_false) ⊎ ((running_at 5).last_transition_time ≡ 0))
          × (c.last_transition_time ≡ 1000)
          × (c.observed_generation ≡ 1))
unfolding find_condition
transition-set_condition_example =
    transition-set_condition clock_from_1000 "JobRunning" condition_false "Stopped" "by hand"
      (with_conditions both) (running_at 5) refl

both-HasDistinctTypes : HasDistinctTypes both
both-HasDistinctTypes = ((λ e. cc, tt), (tt, tt))

set_condition-HasDistinctTypes_example : HasDistinctTypes (conditions_of (stopped_now both))
set_condition-HasDistinctTypes_example =
    set_condition-HasDistinctTypes clock_from_1000 "JobRunning" condition_false "Stopped" "by hand"
      (with_conditions both) both-HasDistinctTypes
