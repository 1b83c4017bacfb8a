-- ===== src/Controller/Listing.antt =====
-- Which jobs the index of controllers/controlledjob_controller.go lists for a ControlledJob, and the
-- owner that pkg/job/builder.go sets.
use controlled_job.Base.{
  ◌≡◌, ◌∙◌, sym, ap, refl, String, Bool, true, false, some, List, [], ◌∷◌, inl, inr, ◌↔◌, ◌&&◌,
  ◌||◌, Memᴰ, any, str_eq, eq_iff, arith, Bool-cases,
}
use controlled_job.Base.Int.{ℤ}
use controlled_job.Base.Lists.Membership.{mem-keep, mem_of_mem-keep}
use controlled_job.Errors.{ok, Result-cases}
use controlled_job.Kube.{Time, Job, OwnerReference}
use controlled_job.Api.{ControlledJob}
use controlled_job.Env.{Env}
use controlled_job.Metadata.{api_gv_str}
use controlled_job.Mutators.{Registry, apply_all}
use controlled_job.Builder.{templated_job, wants_mutations, build_job}
use controlled_job.Controller.{owner_index, listed}

abbrev pub owner_of : ControlledJob → OwnerReference
owner_of cj = record { api_version = api_gv_str; kind = "ControlledJob"; owner_name = cj.name }

-- ctrl.SetControllerReference makes the ControlledJob the controller of a job in its namespace.
abbrev pub SetsOwner : Env → Type 0
SetsOwner env =
    (cj : ControlledJob) (job owned : Job)
    → env.set_controller_reference cj job ≡ ok owned
    → (owned.controller ≡ some (owner_of cj)) × (owned.namespace ≡ job.namespace)

-- No mutator of the list changes the owner or the namespace of a job.
abbrev pub KeepOwner : Registry → Type 0
KeepOwner [] = Unit {0}
KeepOwner ((name, m) ∷ r) =
    ((job changed : Job)
      → m.apply job ≡ ok changed
      → (changed.controller ≡ job.controller) × (changed.namespace ≡ job.namespace))
    × KeepOwner r

same_owner : (a b : Job) → a ≡ b → (b.controller ≡ a.controller) × (b.namespace ≡ a.namespace)
same_owner a b e = (ap (λ (j : Job). j.controller) (sym e), ap (λ (j : Job). j.namespace) (sym e))

apply_all-owner :
    (r : Registry) (job changed : Job)
    → KeepOwner r
    → apply_all r job ≡ ok changed
    → (changed.controller ≡ job.controller) × (changed.namespace ≡ job.namespace)
unfolding apply_all
apply_all-owner [] job changed k h = same_owner job changed (ground (arith, h))
apply_all-owner ((name, m) ∷ r) job changed k h = elim (Result-cases (m.apply job)) [
  | inl (next, e) ↦
      let (c, n) = k.0 job next e in
      let (d, o) = apply_all-owner r next changed k.1 (ground (arith, e, h)) in (d ∙ c, o ∙ n)
  | inr (x, e) ↦ absurd (ground (arith, e, h))
]

both_equal :
    (a b c d : String) → ((str_eq a b && (str_eq c d || false)) ≡ true) ↔ ((d ≡ c) × (b ≡ a))
both_equal a b c d = (there, back)
  where
    there : (str_eq a b && (str_eq c d || false)) ≡ true → (d ≡ c) × (b ≡ a)
    there h = (sym ((eq_iff c d).0 (ground (arith, h))), sym ((eq_iff a b).0 (ground (arith, h))))

    back : (d ≡ c) × (b ≡ a) → (str_eq a b && (str_eq c d || false)) ≡ true
    back (e, f) = rw ((eq_iff a b).1 (sym f), (eq_iff c d).1 (sym e)) refl

abbrev is_listed_for : String → String → Job → Bool
is_listed_for name namespace job =
    str_eq job.namespace namespace && any (λ n. str_eq n name) (owner_index job)

owned_is_listed :
    (cj : ControlledJob) (job : Job) (name namespace : String)
    → job.controller ≡ some (owner_of cj)
    → job.namespace ≡ cj.namespace
    → (is_listed_for name namespace job ≡ true) ↔ ((name ≡ cj.name) × (namespace ≡ cj.namespace))
unfolding owner_index
owned_is_listed cj job name namespace c n =
    rw (c, n) (both_equal cj.namespace namespace cj.name name)

module _ (env : Env) (sets : SetsOwner env) (keeps : KeepOwner env.registered_mutators)
    (cj : ControlledJob) where
  built_is_owned :
      (t : Time) (id : ℤ) (manual suspended : Bool) (job : Job)
      → build_job env cj t id manual suspended ≡ ok job
      → (job.controller ≡ some (owner_of cj)) × (job.namespace ≡ cj.namespace)
  unfolding build_job templated_job
  built_is_owned t id manual suspended job h =
      elim (Result-cases
        (env.set_controller_reference cj (templated_job env cj t id manual suspended))) [
          | inr (x, e) ↦ absurd (ground (arith, e, h))
          | inl (owned, e) ↦
              let (c, n) = sets cj (templated_job env cj t id manual suspended) owned e in
              elim (Bool-cases (wants_mutations env cj)) [
                | inl w ↦
                    let (d, o) =
                      apply_all-owner env.registered_mutators owned job keeps
                        (ground (arith, e, w, h)) in
                    (d ∙ c, o ∙ n)
                | inr w ↦
                    let (d, o) = same_owner owned job (ground (arith, e, w, h)) in (d ∙ c, o ∙ n)
              ]
        ]

  -- A job that was built for a ControlledJob and created is listed for that ControlledJob, and for
  -- no other name or namespace, if setting the owner makes the ControlledJob the controller and no
  -- mutator changes the owner or the namespace.
  pub build_job-listed :
      (t : Time) (id : ℤ) (manual suspended : Bool) (job : Job) (jobs : List Job)
      (name namespace : String)
      → build_job env cj t id manual suspended ≡ ok job
      → Memᴰ job jobs
      → Memᴰ job (listed name namespace jobs) ↔ ((name ≡ cj.name) × (namespace ≡ cj.namespace))
  unfolding listed
  build_job-listed t id manual suspended job jobs name namespace h m =
      let (c, n) = built_is_owned t id manual suspended job h in
      let (there, back) = owned_is_listed cj job name namespace c n in
      (
        λ l. there (mem_of_mem-keep (is_listed_for name namespace) job jobs l).1,
        λ same. mem-keep (is_listed_for name namespace) job jobs m (back same),
      )
