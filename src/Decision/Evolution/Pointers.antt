-- ===== src/Decision/Evolution/Pointers.antt =====
-- Counting the pointers of pkg/reconciliation/state.go to a list of jobs.
use controlled_job.Base.{
  ℕ, suc, ◌≤◌, ◌≡◌, refl, inl, inr, Bool, true, false, List, [], ◌∷◌, ap, arith, Memᴰ, any, count,
  Bool-cases,
}
use controlled_job.Base.Lists.Counting.{count_yes, count_no, count_none}
use controlled_job.Kube.{Job}
use controlled_job.State.{Handle, same_handle, pointers_from, pointers_above}

pub count-pointers :
    (p : Job → Bool) (n : ℕ) (jobs : List Job)
    → count (λ (h : Handle). p h.job) (pointers_from n jobs) ≡ count p jobs
unfolding pointers_from
count-pointers p n [] = refl
count-pointers p n (j ∷ jobs) = elim (Bool-cases (p j)) [
  | inl e ↦ rw e (ap suc (count-pointers p (suc n) jobs))
  | inr e ↦ rw e (count-pointers p (suc n) jobs)
]

-- A test that at most one pointer passes has a count of at most 1.
pub count_at_most_one :
    (p : Handle → Bool) (n : ℕ) (jobs : List Job)
    → ((h k : Handle)
        → Memᴰ h (pointers_from n jobs)
        → Memᴰ k (pointers_from n jobs)
        → p h ≡ true
        → p k ≡ true
        → h ≡ k)
    → count p (pointers_from n jobs) ≤ 1
unfolding pointers_from
count_at_most_one p n [] same = omega arith
count_at_most_one p n (j ∷ jobs) same = elim (Bool-cases (p (record { addr = n; job = j }))) [
  | inl e ↦ omega (
    arith,
    count_yes p (record { addr = n; job = j }) (pointers_from (suc n) jobs) e,
    count_none p (pointers_from (suc n) jobs) (others e),
  )
  | inr e ↦ omega (
    arith,
    count_no p (record { addr = n; job = j }) (pointers_from (suc n) jobs) e,
    count_at_most_one p (suc n) jobs (λ h k m l. same h k (Memᴰ.tail m) (Memᴰ.tail l)),
  )
]
  where
    others :
        p (record { addr = n; job = j }) ≡ true
        → (k : Handle) → Memᴰ k (pointers_from (suc n) jobs)
        → p k ≡ false
    others e k l = elim (Bool-cases (p k)) [
      | inl t ↦ absurd (
          apart (same (record { addr = n; job = j }) k (Memᴰ.head refl) (Memᴰ.tail l) e t)
            (pointers_above (suc n) jobs k l).0)
      | inr t ↦ t
    ]
      where
        apart : record { addr = n; job = j } ≡ k → ¬ (suc n ≤ k.addr)
        apart q above = omega (arith, ap (λ (h : Handle). h.addr) q, above)

pub listed_mem :
    (h : Handle) (ks : List Handle)
    → any (same_handle h) ks ≡ true
    → (k : Handle) × Memᴰ k ks × (h.addr ≡ k.addr)
listed_mem h [] e = absurd (ground (arith, e))
listed_mem h (k ∷ ks) e = elim (Bool-cases (same_handle h k)) [
  | inl t ↦ (k, Memᴰ.head refl, ground (arith, t))
  | inr t ↦ let (x, m, q) = listed_mem h ks (ground (arith, e, t)) in (x, Memᴰ.tail m, q)
]
