-- ===== src/Mutators/Registration.antt =====
-- Register and Unregister of pkg/mutators/registry.go, one after the other.
use controlled_job.Base.{
  ◌≡◌, sym, ap, ◌∙◌, none, some, [], ◌∷◌, ◌++◌, arith, inl, inr, Option-cases, eq_iff, ==_refl,
}
use controlled_job.Errors.{ok}
use controlled_job.Mutators.{Mutator, Registry, registered, register, delete, unregister}

registered-append :
    (m : Mutator) (r : Registry)
    → registered m.name r ≡ none
    → registered m.name (r ++ (m.name, m) ∷ []) ≡ some m
unfolding registered
registered-append m [] e = ground (arith, eq_iff m.name m.name)
registered-append m ((j, k) ∷ r) e = ground (arith, e, registered-append m r)

delete-append :
    (m : Mutator) (r : Registry)
    → registered m.name r ≡ none
    → delete m.name (r ++ (m.name, m) ∷ []) ≡ r
unfolding registered delete
delete-append m [] e = ground (arith, eq_iff m.name m.name)
delete-append m ((j, k) ∷ r) e = ground (arith, e, delete-append m r)

-- Where Register succeeds, the mutator's name was free, the mutator is found under it afterwards, and
-- Unregister gives the registry back as it was.
pub unregister-register :
    (m : Mutator) (r changed : Registry)
    → register m r ≡ ok changed
    → (registered m.name r ≡ none)
      × (registered m.name changed ≡ some m)
      × (unregister m changed ≡ ok r)
unfolding register unregister
unregister-register m r changed done = elim (Option-cases (registered m.name r)) [
  | inl e ↦
      let same : r ++ (m.name, m) ∷ [] ≡ changed = ground (arith, e) in
      (
        e,
        ap (registered m.name) (sym same) ∙ registered-append m r e,
        ap (λ (x : Registry). unregister m x) (sym same) ∙ taken e,
      )
  | inr (k, e) ↦ absurd (ground (arith, e))
]
  where
    taken : registered m.name r ≡ none → unregister m (r ++ (m.name, m) ∷ []) ≡ ok r
    taken e =
        unfold unregister in
        ground (arith, registered-append m r e, delete-append m r e, ==_refl m.identity)
