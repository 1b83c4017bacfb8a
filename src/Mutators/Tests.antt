-- ===== src/Mutators/Tests.antt =====
-- A registration of pkg/mutators/registry.go.
use controlled_job.Base.{◌≡◌, refl, none, some, [], ◌∷◌}
use controlled_job.Errors.{ok}
use controlled_job.Mutators.{Mutator, Registry, registered, register, unregister}
use controlled_job.Mutators.Registration.{unregister-register}

abbrev local_mutator : Mutator
local_mutator = record { name = "local"; identity = 1; apply = λ job. ok job }

abbrev remote_mutator : Mutator
remote_mutator = record { name = "remote"; identity = 2; apply = λ job. ok job }

abbrev one_registered : Registry
one_registered = ("local", local_mutator) ∷ []

unregister-register_example :
    (registered "remote" one_registered ≡ none)
    × (registered "remote" (("local", local_mutator) ∷ ("remote", remote_mutator) ∷ [])
        ≡ some remote_mutator)
    × (unregister remote_mutator (("local", local_mutator) ∷ ("remote", remote_mutator) ∷ [])
        ≡ ok one_registered)
unfolding register registered
unregister-register_example =
    unregister-register remote_mutator one_registered
      (("local", local_mutator) ∷ ("remote", remote_mutator) ∷ []) refl
