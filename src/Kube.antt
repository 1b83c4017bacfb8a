-- ===== src/Kube.antt =====
-- The Kubernetes objects that the operator reads and writes, with the fields that its code names.
-- The types are declared by k8s.io/api. What the operator only copies of a pod specification is
-- one opaque text, `body`.
use controlled_job.Base.{ℕ, ◌+◌, ◌-◌, String, Bool, Option, List}
use controlled_job.Base.Int.{ℤ, pos_part, neg_part}

-- Time is counted in nanoseconds from Go's zero time, midnight of 1 January of year 1, UTC.
abbrev pub Time : Type 0
Time = ℕ

-- Time.Add; every instant that occurs lies centuries after the zero time.
abbrev pub add_duration : Time → ℤ → Time
add_duration t d = t + pos_part d - neg_part d

pub data ConditionStatus : Type 0 where
  condition_true condition_false condition_unknown : ConditionStatus

pub record JobCondition : Type 0 where
  pub type_name : String
  pub status : ConditionStatus

pub record JobSpec : Type 0 where
  pub suspend : Option Bool
  pub body : String

pub record JobStatus : Type 0 where
  pub active : ℕ
  pub ready : Option ℕ
  pub conditions : List JobCondition

pub record OwnerReference : Type 0 where
  pub api_version : String
  pub kind : String
  pub owner_name : String

pub record Job : Type 0 where
  pub name : String
  pub namespace : String
  pub labels : List (String × String)
  pub annotations : List (String × String)
  pub deletion_timestamp : Option Time
  pub controller : Option OwnerReference
  pub spec : JobSpec
  pub status : JobStatus

-- A template's labels and annotations stand beside the specification that new jobs get.
pub record JobTemplate : Type 0 where
  pub labels : List (String × String)
  pub annotations : List (String × String)
  pub spec : JobSpec

pub record ObjectReference : Type 0 where
  pub ref_kind : String
  pub ref_namespace : String
  pub ref_name : String
