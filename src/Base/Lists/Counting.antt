-- ===== src/Base/Lists/Counting.antt =====
-- Counts of what passes a Boolean test.
use Prim.Native.Nat.{suc, ◌+◌}
use mathlib.Core.Path.{◌≡◌, refl, ap, ◌∙◌}
use mathlib.Core.Bool.{Bool, true, false}
use mathlib.Core.Logic.{inl, inr}
use mathlib.Core.List.{List, [], ◌∷◌, ◌++◌, map, Memᴰ}
use native.Mathlib.Omega.{arith}
use controlled_job.Base.Tests.{Bool-cases}
use controlled_job.Base.Lists.{count}

module _ {ℓ} {A : Type ℓ} (p : A → Bool) where
  pub count_yes : (x : A) (xs : List A) → p x ≡ true → count p (x ∷ xs) ≡ suc (count p xs)
  count_yes x xs e = rw e

  pub count_no : (x : A) (xs : List A) → p x ≡ false → count p (x ∷ xs) ≡ count p xs
  count_no x xs e = rw e

  pub count-append : (xs ys : List A) → count p (xs ++ ys) ≡ count p xs + count p ys
  count-append [] ys = omega arith
  count-append (x ∷ xs) ys = elim (Bool-cases (p x)) [
    | inl e ↦ rw e (omega (arith, count-append xs ys))
    | inr e ↦ rw e (count-append xs ys)
  ]

  pub count_none : (xs : List A) → ((a : A) → Memᴰ a xs → p a ≡ false) → count p xs ≡ 0
  count_none [] none_passes = refl
  count_none (x ∷ xs) none_passes =
      count_no x xs (none_passes x (Memᴰ.head refl))
      ∙ count_none xs (λ a m. none_passes a (Memᴰ.tail m))

module _ {ℓ κ} {A : Type ℓ} {B : Type κ} where
  pub count-map :
      (p : B → Bool) (f : A → B) (xs : List A) → count p (map f xs) ≡ count (λ x. p (f x)) xs
  count-map p f [] = refl
  count-map p f (x ∷ xs) = elim (Bool-cases (p (f x))) [
    | inl e ↦ rw e (ap suc (count-map p f xs))
    | inr e ↦ rw e (count-map p f xs)
  ]
