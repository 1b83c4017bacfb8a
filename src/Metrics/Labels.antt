-- ===== src/Metrics/Labels.antt =====
-- Which labels the gauge of pkg/metrics/metrics.go has after it is set or deleted from.
use controlled_job.Base.{
  ◌≡◌, ◌≢◌, sym, refl, ◌⊎◌, inl, inr, ◌↔◌, String, true, false, not, List, [], ◌∷◌, ◌&&◌, Memᴰ, any,
  keep, str_eq, eq_iff, arith, Bool-cases,
}
use controlled_job.Base.Lists.Membership.{mem-keep, mem_of_mem-keep}
use controlled_job.Metrics.{deep_equal, Gauge, set_one, delete_label_values}

pub deep_equal_iff : (ss ts : List String) → (deep_equal ss ts ≡ true) ↔ (ss ≡ ts)
unfolding deep_equal
deep_equal_iff [] [] = (λ h. refl, λ h. refl)
deep_equal_iff [] (t ∷ ts) = (λ h. absurd (cc), λ h. absurd (cc))
deep_equal_iff (s ∷ ss) [] = (λ h. absurd (cc), λ h. absurd (cc))
deep_equal_iff (s ∷ ss) (t ∷ ts) = both (deep_equal_iff ss ts)
  where
    both :
        (deep_equal ss ts ≡ true) ↔ (ss ≡ ts)
        → ((str_eq s t && deep_equal ss ts) ≡ true) ↔ (s ∷ ss ≡ t ∷ ts)
    both (to, from) = (
      λ h. joined ((eq_iff s t).0 (ground (arith, h))) (to (ground (arith, h))),
      λ h. rw ((eq_iff s t).1 (head_of h), from (tail_of h)) refl,
    )
      where
        joined : s ≡ t → ss ≡ ts → s ∷ ss ≡ t ∷ ts
        joined p q = cc

        head_of : s ∷ ss ≡ t ∷ ts → s ≡ t
        head_of h = cc

        tail_of : s ∷ ss ≡ t ∷ ts → ss ≡ ts
        tail_of h = cc

mem_of_any : (labels : List String) (g : Gauge) → any (deep_equal labels) g ≡ true → Memᴰ labels g
mem_of_any labels [] h = absurd (cc)
mem_of_any labels (x ∷ g) h = elim (Bool-cases (deep_equal labels x)) [
  | inl e ↦ Memᴰ.head ((deep_equal_iff labels x).0 e)
  | inr e ↦ Memᴰ.tail (mem_of_any labels g (ground (arith, e, h)))
]

-- The labels are in the gauge afterwards exactly if they were set or were there.
pub mem-set_one :
    (l labels : List String) (g : Gauge) → Memᴰ l (set_one labels g) ↔ ((l ≡ labels) ⊎ Memᴰ l g)
unfolding set_one
mem-set_one l labels g = elim (Bool-cases (any (deep_equal labels) g)) [
  | inl e ↦
      rw e (λ m. inr m, λ why. elim why [ inl same ↦ rw same (mem_of_any labels g e) | inr m ↦ m ])
  | inr e ↦ rw e (split, λ why. elim why [ inl same ↦ Memᴰ.head same | inr m ↦ Memᴰ.tail m ])
]
  where
    split : Memᴰ l (labels ∷ g) → (l ≡ labels) ⊎ Memᴰ l g
    split (Memᴰ.head q) = inl q
    split (Memᴰ.tail m) = inr m

pub mem-delete_label_values :
    (l labels : List String) (g : Gauge)
    → Memᴰ l (delete_label_values labels g) ↔ (Memᴰ l g × (l ≢ labels))
unfolding delete_label_values
mem-delete_label_values l labels g = (there, back)
  where
    there : Memᴰ l (keep (λ x. not (deep_equal labels x)) g) → Memᴰ l g × (l ≢ labels)
    there m =
        let (n, other) = mem_of_mem-keep (λ x. not (deep_equal labels x)) l g m in
        (n, λ e. absurd (ground (arith, other, (deep_equal_iff labels l).1 (sym e))))

    back : Memᴰ l g × (l ≢ labels) → Memᴰ l (keep (λ x. not (deep_equal labels x)) g)
    back (n, apart) =
        mem-keep (λ x. not (deep_equal labels x)) l g n (by_test (Bool-cases (deep_equal labels l)))
      where
        by_test :
            (deep_equal labels l ≡ true) ⊎ (deep_equal labels l ≡ false)
            → not (deep_equal labels l) ≡ true
        by_test (inl e) = absurd (apart (sym ((deep_equal_iff labels l).0 e)))
        by_test (inr e) = rw e refl
