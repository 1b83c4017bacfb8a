-- ===== src/Lifetime/Bounded.antt =====
-- Which jobs may have pods while the calls of one run of Reconcile of
-- pkg/reconciliation/reconcile.go take effect.
use controlled_job.Base.{
  ℕ, zero, suc, ◌≤◌, ◌≡◌, refl, sym, ap, String, Bool, true, false, List, [], ◌∷◌, map, any, count,
  arith, Memᴰ, inl, inr, ◌⊎◌, Bool-cases,
}
use controlled_job.Base.Lists.Membership.{count-zero, count-one}
use controlled_job.Base.Lists.Counting.{count_yes, count_no, count_none}
use controlled_job.Kube.{Job}
use controlled_job.Metadata.{
  is_job_potentially_running, is_job_completed, job_has_condition, get_job_condition,
}
use controlled_job.Client.{Call, create_call, update_call, delete_call, with_suspend}
use controlled_job.State.{Handle, pointers_from, same_handle}
use controlled_job.Decision.{Decision}
use controlled_job.Lifetime.{updated_by}
use controlled_job.Lifetime.Names.{HasDistinctNames, none_there, next}

-- What a decision without suspensions may write.
pub data Allowed (d : Decision) : Call → Type 0 where
  deleting : (job : Job) (propagation : String) → Allowed d (delete_call job propagation)
  creating : (h : Handle) → Memᴰ h d.jobs_to_create → Allowed d (create_call h.job)
  unsuspending :
      (h : Handle) → Memᴰ h d.jobs_to_unsuspend → Allowed d (update_call (with_suspend false h.job))

-- An update leaves open only whether the job is suspended.
pub running-updated :
    (sent stored : Job)
    → is_job_potentially_running (updated_by sent stored) ≡ is_job_potentially_running stored
unfolding is_job_potentially_running is_job_completed job_has_condition get_job_condition
running-updated sent stored = refl

pub mem-pointers :
    (n : ℕ) (jobs : List Job) (j : Job)
    → Memᴰ j jobs
    → (h : Handle) × Memᴰ h (pointers_from n jobs) × (h.job ≡ j)
unfolding pointers_from
mem-pointers n (x ∷ jobs) j (Memᴰ.head e) = (record { addr = n; job = x }, Memᴰ.head refl, sym e)
mem-pointers n (x ∷ jobs) j (Memᴰ.tail m) =
    let (h, l, e) = mem-pointers (suc n) jobs j m in (h, Memᴰ.tail l, e)
mem-pointers n [] j m = elim m [ ]

pub mem_of_mem-pointers :
    (n : ℕ) (jobs : List Job) (h : Handle) → Memᴰ h (pointers_from n jobs) → Memᴰ h.job jobs
unfolding pointers_from
mem_of_mem-pointers n [] h m = elim m [ ]
mem_of_mem-pointers n (x ∷ jobs) h (Memᴰ.head e) = Memᴰ.head (ap (λ (k : Handle). k.job) e)
mem_of_mem-pointers n (x ∷ jobs) h (Memᴰ.tail m) = Memᴰ.tail (mem_of_mem-pointers (suc n) jobs h m)

pub mem-map {ℓ κ} :
    {A : Type ℓ} {B : Type κ} (f : A → B) (xs : List A) (a : A) → Memᴰ a xs → Memᴰ (f a) (map f xs)
mem-map f [] a m = elim m [ ]
mem-map f (x ∷ xs) a (Memᴰ.head e) = Memᴰ.head (ap f e)
mem-map f (x ∷ xs) a (Memᴰ.tail m) = Memᴰ.tail (mem-map f xs a m)

pub any-mem : (h : Handle) (hs : List Handle) → Memᴰ h hs → any (same_handle h) hs ≡ true
any-mem h [] m = elim m [ ]
any-mem h (x ∷ hs) (Memᴰ.head e) = rw (sym e) (ground arith)
any-mem h (x ∷ hs) (Memᴰ.tail m) = ground (arith, any-mem h hs m)

-- A count of at most 1 makes two that pass equal.
pub same_of_count :
    (p : Job → Bool) (j k : Job) (jobs : List Job)
    → count p jobs ≤ 1
    → Memᴰ j jobs
    → Memᴰ k jobs
    → p j ≡ true
    → p k ≡ true
    → j ≡ k
same_of_count p j k jobs few m l s t = elim (zero_or_one (count p jobs) few) [
  | inl z ↦ absurd (ground (arith, s, count-zero p j jobs z m))
  | inr o ↦ count-one p j k jobs o m l s t
]
  where
    zero_or_one : (n : ℕ) → n ≤ 1 → (n ≡ 0) ⊎ (n ≡ 1)
    zero_or_one zero h = inl refl
    zero_or_one (suc zero) h = inr refl
    zero_or_one (suc (suc n)) h = absurd (omega (arith, h))

-- With distinct names, a test that only one job passes has a count of at most 1.
pub count_of_same :
    (p : Job → Bool) (jobs : List Job)
    → HasDistinctNames jobs
    → ((j k : Job) → Memᴰ j jobs → Memᴰ k jobs → p j ≡ true → p k ≡ true → j ≡ k)
    → count p jobs ≤ 1
count_of_same p jobs none_there same = omega arith
count_of_same p jobs (next job rest apart d) same = elim (Bool-cases (p job)) [
  | inl e ↦ omega (arith, count_yes p job rest e, count_none p rest (alone e))
  | inr e ↦ omega (
    arith,
    count_no p job rest e,
    count_of_same p rest d (λ j k m l. same j k (Memᴰ.tail m) (Memᴰ.tail l)),
  )
]
  where
    alone : p job ≡ true → (k : Job) → Memᴰ k rest → p k ≡ false
    alone e k m = elim (Bool-cases (p k)) [
      | inl t ↦
          absurd
            (apart k m (ap (λ (j : Job). j.name) (same k job (Memᴰ.tail m) (Memᴰ.head refl) t e)))
      | inr t ↦ t
    ]
