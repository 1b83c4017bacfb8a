-- ===== src/Mutators.antt =====
-- The registry of mutators: pkg/mutators/registry.go.
pub mod Registration
pub mod Remote
mod Tests
use controlled_job.Base.{
  ℕ, String, Option, none, some, List, [], ◌∷◌, ◌++◌, str_eq, ◌==◌, if◌then◌else◌,
}
use controlled_job.Base.Text.{concat}
use controlled_job.Errors.{message, wrap, Result, ok, err}
use controlled_job.Kube.{Job}

-- A value of the interface Mutator. `identity` is what Go compares two interface values by; Apply
-- changes the job in place or fails.
pub record Mutator : Type 0 where
  pub name : String
  pub identity : ℕ
  pub apply : Job → Result Job

-- The map from names to mutators. The order of the list is one order in which Go may range over
-- the map.
abbrev pub Registry : Type 0
Registry = List (String × Mutator)

unfoldable pub registered : String → Registry → Option Mutator
registered k [] = none
registered k ((j, m) ∷ r) = if str_eq j k then some m else registered k r

unfoldable pub register : Mutator → Registry → Result Registry
register m r = elim (registered m.name r) [
  | some _ ↦ err (message "mutator with that name already exists")
  | none ↦ ok (r ++ (m.name, m) ∷ [])
]

delete : String → Registry → Registry
delete k [] = []
delete k ((j, m) ∷ r) = if str_eq j k then r else (j, m) ∷ delete k r

unfoldable pub unregister : Mutator → Registry → Result Registry
unfolding delete
unregister m r = elim (registered m.name r) [
  | none ↦ err (message "mutator with that name could not be found")
  | some existing ↦
      if existing.identity == m.identity
      then ok (delete m.name r)
      else err (message "mutator does not match")
]

-- The loop of Apply over a copy of the job: the first mutator that fails ends it.
unfoldable pub apply_all : Registry → Job → Result Job
apply_all [] job = ok job
apply_all ((name, m) ∷ r) job = elim (m.apply job) [
  | err e ↦ err (wrap e (concat ("mutator " ∷ name ∷ " failed" ∷ [])))
  | ok changed ↦ apply_all r changed
]
