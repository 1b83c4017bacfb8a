-- ===== src/Api/Conditions/Stability.antt =====
-- What SetCondition and RemoveCondition of api/v1/helpers.go promise of the whole list.
use controlled_job.Base.{
  ℕ, suc, ◌≡◌, ◌∙◌, ◌≢◌, refl, String, Option, none, some, List, [], ◌∷◌, arith, ◌⊎◌, eq_iff,
}
use controlled_job.Kube.{Time, ConditionStatus}
use controlled_job.Api.{Condition}
use controlled_job.Api.Conditions.{
  Live, find_condition, refresh, upsert, remove_condition, set_condition,
}
use controlled_job.Api.Conditions.Upsert.{
  HasDistinctTypes, upserted, upsert_fixed, HasDistinctTypes-upsert, find_of_Absent, find-upsert,
  find-upsert_other,
}

abbrev pub conditions_of : Live → List Condition
conditions_of live = live.object.status.conditions

module _ (clock : ℕ → Time) (t : String) (s : ConditionStatus) (r m : String) (live : Live) where
  -- The condition that a call would write where there is none of the type.
  fresh : Condition
  fresh = record {
    type_name = t;
    status = s;
    last_transition_time = clock live.readings;
    observed_generation = live.object.generation;
    reason = r;
    message = m;
  }

  conditions-set_condition :
      conditions_of (set_condition clock t s r m live) ≡ upsert fresh (conditions_of live)
  unfolding set_condition fresh
  conditions-set_condition = refl

  -- After a call of SetCondition the type has a condition with the status, reason and message given.
  pub find-set_condition :
      (c : Condition) × (find_condition t (conditions_of (set_condition clock t s r m live))
        ≡ some c)
      × (c.status ≡ s)
      × (c.reason ≡ r)
      × (c.message ≡ m)
  unfolding fresh refresh
  find-set_condition = (
    upserted fresh (find_condition t (conditions_of live)),
    rw conditions-set_condition (find-upsert fresh (conditions_of live)),
    ground arith,
    ground arith,
    ground arith,
  )

  -- A condition of any other type is found as before a call of SetCondition.
  pub find-set_condition_other :
      (u : String)
      → t ≢ u
      → find_condition u (conditions_of (set_condition clock t s r m live))
        ≡ find_condition u (conditions_of live)
  unfolding fresh
  find-set_condition_other u ne =
      rw conditions-set_condition (find-upsert_other u fresh (conditions_of live) ne)

  -- In a call of SetCondition the transition time and generation of an existing condition move exactly when its status
  -- changes, or when it never had a transition time: then they are the clock's and the object's,
  -- and else they stay.
  pub transition-set_condition :
      (old : Condition)
      → find_condition t (conditions_of live) ≡ some old
      → (c : Condition) × (find_condition t (conditions_of (set_condition clock t s r m live))
          ≡ some c)
        × ((old.status ≡ s)
              × (old.last_transition_time ≢ 0)
              × (c.last_transition_time ≡ old.last_transition_time)
              × (c.observed_generation ≡ old.observed_generation)
            ⊎ ((old.status ≢ s) ⊎ (old.last_transition_time ≡ 0))
              × (c.last_transition_time ≡ clock live.readings)
              × (c.observed_generation ≡ live.object.generation))
  unfolding fresh refresh
  transition-set_condition old e = (
    refresh fresh old,
    rw conditions-set_condition (cc (find-upsert fresh (conditions_of live), e)),
    ground arith,
  )

  -- The condition that the next call with the same arguments would write.
  again : Condition
  again = record fresh {
    last_transition_time = clock (suc live.readings);
    observed_generation = live.object.generation;
  }

  conditions-set_condition-again :
      conditions_of (set_condition clock t s r m (set_condition clock t s r m live))
      ≡ upsert again (conditions_of (set_condition clock t s r m live))
  unfolding set_condition fresh again
  conditions-set_condition-again = refl

  refresh-again :
      clock live.readings ≢ 0
      → (o : Option Condition) → refresh again (upserted fresh o) ≡ upserted fresh o
  unfolding fresh again refresh
  refresh-again nz none = ground arith
  refresh-again nz (some old) = ground arith

  -- A second call of SetCondition with the same arguments changes nothing in the list, when the
  -- first call did not read the zero time from the clock.
  pub set_condition_idem :
      clock live.readings ≢ 0
      → conditions_of (set_condition clock t s r m (set_condition clock t s r m live))
        ≡ conditions_of (set_condition clock t s r m live)
  unfolding fresh again
  set_condition_idem nz =
      conditions-set_condition-again
      ∙ upsert_fixed again (upserted fresh (find_condition t (conditions_of live)))
          (conditions_of (set_condition clock t s r m live)) found
          (refresh-again nz (find_condition t (conditions_of live)))
    where
      found :
          find_condition t (conditions_of (set_condition clock t s r m live))
          ≡ some (upserted fresh (find_condition t (conditions_of live)))
      found = rw conditions-set_condition (find-upsert fresh (conditions_of live))

  -- Where the types of the conditions are distinct, they are distinct after the call.
  pub set_condition-HasDistinctTypes :
      HasDistinctTypes (conditions_of live)
      → HasDistinctTypes (conditions_of (set_condition clock t s r m live))
  set_condition-HasDistinctTypes h =
      rw conditions-set_condition (HasDistinctTypes-upsert fresh (conditions_of live) h)

-- Where types are distinct, RemoveCondition leaves no condition of the type.
pub find-remove_condition :
    (t : String) (cs : List Condition)
    → HasDistinctTypes cs
    → find_condition t (remove_condition t cs) ≡ none
unfolding find_condition remove_condition
find-remove_condition t [] h = refl
find-remove_condition t (c ∷ cs) h =
    ground (
      arith,
      eq_iff c.type_name t,
      find_of_Absent c.type_name cs h.0,
      find-remove_condition t cs h.1,
    )

-- RemoveCondition leaves the conditions of every other type as they were found.
pub find-remove_condition_other :
    (t u : String) (cs : List Condition)
    → t ≢ u
    → find_condition u (remove_condition t cs) ≡ find_condition u cs
unfolding find_condition remove_condition
find-remove_condition_other t u [] ne = refl
find-remove_condition_other t u (c ∷ cs) ne =
    ground
      (arith, eq_iff c.type_name t, eq_iff c.type_name u, find-remove_condition_other t u cs ne)
