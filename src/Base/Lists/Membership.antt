-- ===== src/Base/Lists/Membership.antt =====
-- Membership in the lists that the searches and filters give.
use mathlib.Core.Path.{◌≡◌, sym, ◌∙◌, subst}
use mathlib.Core.Bool.{Bool, true, false}
use mathlib.Core.Logic.{◌⊎◌, inl, inr}
use mathlib.Core.List.{List, [], ◌∷◌, ◌++◌, Memᴰ}
use native.Mathlib.Omega.{arith}
use controlled_job.Base.Tests.{Bool-cases}
use controlled_job.Base.Lists.{keep, count}

module _ {ℓ} {A : Type ℓ} where
  pub mem-append_left : {a : A} (xs ys : List A) → Memᴰ a xs → Memᴰ a (xs ++ ys)
  mem-append_left (x ∷ xs) ys (Memᴰ.head e) = Memᴰ.head e
  mem-append_left (x ∷ xs) ys (Memᴰ.tail m) = Memᴰ.tail (mem-append_left xs ys m)
  mem-append_left [] ys m = elim m [ ]

  pub mem-append_right : {a : A} (xs ys : List A) → Memᴰ a ys → Memᴰ a (xs ++ ys)
  mem-append_right [] ys m = m
  mem-append_right (x ∷ xs) ys m = Memᴰ.tail (mem-append_right xs ys m)

  pub mem_of_mem-append : {a : A} (xs ys : List A) → Memᴰ a (xs ++ ys) → Memᴰ a xs ⊎ Memᴰ a ys
  mem_of_mem-append [] ys m = inr m
  mem_of_mem-append (x ∷ xs) ys (Memᴰ.head e) = inl (Memᴰ.head e)
  mem_of_mem-append (x ∷ xs) ys (Memᴰ.tail m) = elim (mem_of_mem-append xs ys m) [
    | inl l ↦ inl (Memᴰ.tail l)
    | inr r ↦ inr r
  ]

module _ {ℓ} {A : Type ℓ} (p : A → Bool) where
  pub keep_yes : (x : A) (xs : List A) → p x ≡ true → keep p (x ∷ xs) ≡ x ∷ keep p xs
  keep_yes x xs e = rw e

  pub keep_no : (x : A) (xs : List A) → p x ≡ false → keep p (x ∷ xs) ≡ keep p xs
  keep_no x xs e = rw e

  pub mem-keep : (a : A) (xs : List A) → Memᴰ a xs → p a ≡ true → Memᴰ a (keep p xs)
  mem-keep a (x ∷ xs) (Memᴰ.head e) t =
      rw (keep_yes x xs (subst (λ y. p y ≡ true) e t)) (Memᴰ.head e)
  mem-keep a (x ∷ xs) (Memᴰ.tail m) t = elim (Bool-cases (p x)) [
    | inl e ↦ rw (keep_yes x xs e) (Memᴰ.tail (mem-keep a xs m t))
    | inr e ↦ rw (keep_no x xs e) (mem-keep a xs m t)
  ]
  mem-keep a [] m t = elim m [ ]

  mem_of_mem_tail :
      (a x : A) (xs : List A) → Memᴰ a xs × (p a ≡ true) → Memᴰ a (x ∷ xs) × (p a ≡ true)
  mem_of_mem_tail a x xs (m, t) = (Memᴰ.tail m, t)

  pub mem_of_mem-keep : (a : A) (xs : List A) → Memᴰ a (keep p xs) → Memᴰ a xs × (p a ≡ true)
  mem_of_mem-keep a [] m = elim m [ ]
  mem_of_mem-keep a (x ∷ xs) m = elim (Bool-cases (p x)) [
    | inl e ↦ first e (mem_of_mem-keep a xs) (subst (Memᴰ a) (keep_yes x xs e) m)
    | inr e ↦ mem_of_mem_tail a x xs (mem_of_mem-keep a xs (subst (Memᴰ a) (keep_no x xs e) m))
  ]
    where
      first :
          p x ≡ true
          → (Memᴰ a (keep p xs) → Memᴰ a xs × (p a ≡ true))
          → Memᴰ a (x ∷ keep p xs)
          → Memᴰ a (x ∷ xs) × (p a ≡ true)
      first t ih (Memᴰ.head e) = (Memᴰ.head e, subst (λ y. p y ≡ true) (sym e) t)
      first t ih (Memᴰ.tail n) = mem_of_mem_tail a x xs (ih n)

  -- Nothing passes where the count is 0.
  pub count-zero : (a : A) (xs : List A) → count p xs ≡ 0 → Memᴰ a xs → p a ≡ false
  count-zero a (x ∷ xs) c (Memᴰ.head e) = subst (λ y. p y ≡ false) (sym e) (ground arith)
  count-zero a (x ∷ xs) c (Memᴰ.tail m) = count-zero a xs (ground arith) m
  count-zero a [] c m = elim m [ ]

  -- Where the count is 1, one element passes.
  pub count-one :
      (a b : A) (xs : List A)
      → count p xs ≡ 1
      → Memᴰ a xs
      → Memᴰ b xs
      → p a ≡ true
      → p b ≡ true
      → a ≡ b
  count-one a b [] c m n s t = elim m [ ]
  count-one a b (x ∷ xs) c (Memᴰ.head e) (Memᴰ.head f) s t = e ∙ sym f
  count-one a b (x ∷ xs) c (Memᴰ.head e) (Memᴰ.tail n) s t =
      let first = subst (λ y. p y ≡ true) e s in
      absurd (ground (arith, first, count-zero b xs (ground (arith, first)) n))
  count-one a b (x ∷ xs) c (Memᴰ.tail m) (Memᴰ.head f) s t =
      let first = subst (λ y. p y ≡ true) f t in
      absurd (ground (arith, first, count-zero a xs (ground (arith, first)) m))
  count-one a b (x ∷ xs) c (Memᴰ.tail m) (Memᴰ.tail n) s t = elim (Bool-cases (p x)) [
    | inl e ↦ absurd (ground (arith, e, count-zero a xs (ground (arith, e)) m))
    | inr e ↦ count-one a b xs (ground (arith, e)) m n s t
  ]

module _ {ℓ} {A : Type ℓ} where
  pub eq_of_mem-singleton : {a x : A} → Memᴰ a (x ∷ []) → a ≡ x
  eq_of_mem-singleton (Memᴰ.head e) = e
  eq_of_mem-singleton (Memᴰ.tail m) = elim m [ ]

  pub not-mem_of_nil : {a : A} {xs : List A} → xs ≡ [] → ¬ Memᴰ a xs
  not-mem_of_nil {a = a} e m = elim (subst (Memᴰ a) e m) [ ]
