-- ===== src/Api/Conditions/Upsert.antt =====
-- How the list of conditions changes: api/v1/helpers.go, SetCondition, FindCondition and
-- RemoveCondition.
use controlled_job.Base.{
  ◌≡◌, ◌≢◌, refl, ap, String, true, false, Option, none, some, List, [], ◌∷◌, ◌++◌, arith, inl, inr,
  str_eq, eq_iff, Bool-cases, Option-cases,
}
use controlled_job.Api.{Condition}
use controlled_job.Api.Conditions.{find_condition, refresh, update_found, upsert}

-- No condition of the list has the type.
abbrev pub Absent : String → List Condition → Type 0
Absent t [] = Unit {0}
Absent t (c ∷ cs) = (c.type_name ≢ t) × Absent t cs

-- Every type stands at most once, as the API's list map demands.
abbrev pub HasDistinctTypes : List Condition → Type 0
HasDistinctTypes [] = Unit {0}
HasDistinctTypes (c ∷ cs) = Absent c.type_name cs × HasDistinctTypes cs

pub type_name-refresh : (new old : Condition) → (refresh new old).type_name ≡ old.type_name
unfolding refresh
type_name-refresh new old = ground arith

module _ (t : String) (c : Condition) (cs : List Condition) where
  find_hit : str_eq c.type_name t ≡ true → find_condition t (c ∷ cs) ≡ some c
  unfolding find_condition
  find_hit e = rw e

  find_miss : str_eq c.type_name t ≡ false → find_condition t (c ∷ cs) ≡ find_condition t cs
  unfolding find_condition
  find_miss e = rw e

  update_hit :
      (new : Condition)
      → str_eq c.type_name t ≡ true
      → update_found t new (c ∷ cs) ≡ refresh new c ∷ cs
  unfolding update_found
  update_hit new e = rw e

  update_miss :
      (new : Condition)
      → str_eq c.type_name t ≡ false
      → update_found t new (c ∷ cs) ≡ c ∷ update_found t new cs
  unfolding update_found
  update_miss new e = rw e

find-update_found :
    (t : String) (new old : Condition) (cs : List Condition)
    → find_condition t cs ≡ some old
    → find_condition t (update_found t new cs) ≡ some (refresh new old)
find-update_found t new old [] h = absurd (unfold find_condition in cc)
find-update_found t new old (c ∷ cs) h = elim (Bool-cases (str_eq c.type_name t)) [
  | inl e ↦
      rw (update_hit t c cs new e, find_hit t (refresh new c) cs (rw (type_name-refresh new c) e))
        (cc (find_hit t c cs e))
  | inr e ↦
      rw (update_miss t c cs new e, find_miss t c (update_found t new cs) e)
        (find-update_found t new old cs (cc (find_miss t c cs e)))
]

find-append_absent :
    (new : Condition) (cs : List Condition)
    → find_condition new.type_name cs ≡ none
    → find_condition new.type_name (cs ++ new ∷ []) ≡ some new
unfolding find_condition
find-append_absent new [] h = ground (arith, eq_iff new.type_name new.type_name)
find-append_absent new (c ∷ cs) h =
    ground (arith, eq_iff c.type_name new.type_name, find-append_absent new cs)

find-append_other :
    (u : String) (new : Condition) (cs : List Condition)
    → new.type_name ≢ u
    → find_condition u (cs ++ new ∷ []) ≡ find_condition u cs
unfolding find_condition
find-append_other u new [] h = ground (arith, eq_iff new.type_name u)
find-append_other u new (c ∷ cs) h =
    ground (arith, eq_iff c.type_name u, find-append_other u new cs)

find-update_found_other :
    (t u : String) (new : Condition) (cs : List Condition)
    → t ≢ u
    → find_condition u (update_found t new cs) ≡ find_condition u cs
unfolding find_condition update_found refresh
find-update_found_other t u new [] h = refl
find-update_found_other t u new (c ∷ cs) h =
    ground (arith, eq_iff c.type_name t, eq_iff c.type_name u, find-update_found_other t u new cs)

-- What the list holds of the type afterwards, of any list.
abbrev pub upserted : Condition → Option Condition → Condition
upserted new none = new
upserted new (some old) = refresh new old

pub find-upsert :
    (new : Condition) (cs : List Condition)
    → find_condition new.type_name (upsert new cs)
      ≡ some (upserted new (find_condition new.type_name cs))
unfolding upsert
find-upsert new cs = elim (Option-cases (find_condition new.type_name cs)) [
  | inl e ↦ rw e (find-append_absent new cs e)
  | inr (old, e) ↦ rw e (find-update_found new.type_name new old cs e)
]

pub find-upsert_other :
    (u : String) (new : Condition) (cs : List Condition)
    → new.type_name ≢ u
    → find_condition u (upsert new cs) ≡ find_condition u cs
unfolding upsert
find-upsert_other u new cs h = elim (Option-cases (find_condition new.type_name cs)) [
  | inl e ↦ rw e (find-append_other u new cs h)
  | inr (old, e) ↦ rw e (find-update_found_other new.type_name u new cs h)
]

-- A write that would leave the condition it finds as it is leaves the list as it is.
update_found_fixed :
    (t : String) (new old : Condition) (cs : List Condition)
    → find_condition t cs ≡ some old
    → refresh new old ≡ old
    → update_found t new cs ≡ cs
update_found_fixed t new old [] h k = unfold update_found in refl
update_found_fixed t new old (c ∷ cs) h k = elim (Bool-cases (str_eq c.type_name t)) [
  | inl e ↦ rw (update_hit t c cs new e) (cc (find_hit t c cs e))
  | inr e ↦
      rw (update_miss t c cs new e)
        (ap (◌∷◌ c) (update_found_fixed t new old cs (cc (find_miss t c cs e)) k))
]

pub upsert_fixed :
    (new old : Condition) (cs : List Condition)
    → find_condition new.type_name cs ≡ some old
    → refresh new old ≡ old
    → upsert new cs ≡ cs
unfolding upsert
upsert_fixed new old cs h k = rw h (update_found_fixed new.type_name new old cs h k)

Absent-update_found :
    (u t : String) (new : Condition) (cs : List Condition)
    → Absent u cs
    → Absent u (update_found t new cs)
Absent-update_found u t new [] h = unfold update_found in tt
Absent-update_found u t new (c ∷ cs) h = elim (Bool-cases (str_eq c.type_name t)) [
  | inl e ↦ rw (update_hit t c cs new e, type_name-refresh new c) h
  | inr e ↦ rw (update_miss t c cs new e) (h.0, Absent-update_found u t new cs h.1)
]

HasDistinctTypes-update_found :
    (t : String) (new : Condition) (cs : List Condition)
    → HasDistinctTypes cs
    → HasDistinctTypes (update_found t new cs)
HasDistinctTypes-update_found t new [] h = unfold update_found in tt
HasDistinctTypes-update_found t new (c ∷ cs) h = elim (Bool-cases (str_eq c.type_name t)) [
  | inl e ↦ rw (update_hit t c cs new e, type_name-refresh new c) h
  | inr e ↦
      rw (update_miss t c cs new e)
        (Absent-update_found c.type_name t new cs h.0, HasDistinctTypes-update_found t new cs h.1)
]

Absent-append :
    (u : String) (new : Condition) (cs : List Condition)
    → new.type_name ≢ u
    → Absent u cs
    → Absent u (cs ++ new ∷ [])
Absent-append u new [] ne h = (ne, tt)
Absent-append u new (c ∷ cs) ne h = (h.0, Absent-append u new cs ne h.1)

HasDistinctTypes-append :
    (new : Condition) (cs : List Condition)
    → find_condition new.type_name cs ≡ none
    → HasDistinctTypes cs
    → HasDistinctTypes (cs ++ new ∷ [])
unfolding find_condition
HasDistinctTypes-append new [] e h = (tt, tt)
HasDistinctTypes-append new (c ∷ cs) e h = (
  Absent-append c.type_name new cs (ground (arith, eq_iff c.type_name new.type_name)) h.0,
  HasDistinctTypes-append new cs (ground (arith, eq_iff c.type_name new.type_name)) h.1,
)

pub HasDistinctTypes-upsert :
    (new : Condition) (cs : List Condition) → HasDistinctTypes cs → HasDistinctTypes (upsert new cs)
unfolding upsert
HasDistinctTypes-upsert new cs h = elim (Option-cases (find_condition new.type_name cs)) [
  | inl e ↦ rw e (HasDistinctTypes-append new cs e h)
  | inr (old, e) ↦ rw e (HasDistinctTypes-update_found new.type_name new cs h)
]

pub find_of_Absent : (t : String) (cs : List Condition) → Absent t cs → find_condition t cs ≡ none
unfolding find_condition
find_of_Absent t [] h = refl
find_of_Absent t (c ∷ cs) h = ground (arith, eq_iff c.type_name t, find_of_Absent t cs h.1)
