-- ===== src/Lifetime/Names.antt =====
-- Jobs with distinct names, as the API server keeps them.
use controlled_job.Base.{
  ◌≡◌, ◌≢◌, refl, sym, ap, ◌∙◌, subst, Bool, true, false, List, [], ◌∷◌, ◌++◌, map, any, eq_iff,
  arith, Memᴰ, if◌then◌else◌, inl, inr, Bool-cases,
}
use controlled_job.Base.Lists.Membership.{mem_of_mem-append, eq_of_mem-singleton}
use controlled_job.Kube.{Job}
use controlled_job.Lifetime.{Fades, nothing, stays, goes, Weakens, is_named, updated_by}

-- No two jobs share a name.
pub data HasDistinctNames : List Job → Type 0 where
  none_there : HasDistinctNames []
  next :
      (job : Job) (jobs : List Job)
      → ((k : Job) → Memᴰ k jobs → k.name ≢ job.name)
      → HasDistinctNames jobs
      → HasDistinctNames (job ∷ jobs)

pub mem_of_mem-map {ℓ κ} :
    {A : Type ℓ} {B : Type κ} (f : A → B) (xs : List A) (b : B)
    → Memᴰ b (map f xs)
    → (a : A) × Memᴰ a xs × (b ≡ f a)
mem_of_mem-map f [] b m = elim m [ ]
mem_of_mem-map f (x ∷ xs) b (Memᴰ.head e) = (x, Memᴰ.head refl, e)
mem_of_mem-map f (x ∷ xs) b (Memᴰ.tail m) =
    let (a, l, e) = mem_of_mem-map f xs b m in (a, Memᴰ.tail l, e)

any_of_mem : (p : Job → Bool) (a : Job) (xs : List Job) → Memᴰ a xs → p a ≡ true → any p xs ≡ true
any_of_mem p a [] m t = elim m [ ]
any_of_mem p a (x ∷ xs) (Memᴰ.head e) t = rw (sym e, t) refl
any_of_mem p a (x ∷ xs) (Memᴰ.tail m) t = ground (arith, any_of_mem p a xs m t)

-- A job that went on was there before.
pub mem_of_mem-Fades :
    (olds news : List Job) (k : Job)
    → Fades olds news
    → Memᴰ k news
    → (j : Job) × Memᴰ j olds × Weakens j k
mem_of_mem-Fades olds news k nothing m = elim m [ ]
mem_of_mem-Fades olds news k (stays old new js ks w f) (Memᴰ.head e) =
    (old, Memᴰ.head refl, subst (Weakens old) (sym e) w)
mem_of_mem-Fades olds news k (stays old new js ks w f) (Memᴰ.tail m) =
    let (j, l, v) = mem_of_mem-Fades js ks k f m in (j, Memᴰ.tail l, v)
mem_of_mem-Fades olds news k (goes old js ks f) m =
    let (j, l, v) = mem_of_mem-Fades js ks k f m in (j, Memᴰ.tail l, v)

pub Fades-HasDistinctNames :
    (olds news : List Job) → Fades olds news → HasDistinctNames olds → HasDistinctNames news
Fades-HasDistinctNames olds news nothing d = none_there
Fades-HasDistinctNames olds news (stays old new js ks w f) (next j rest apart d) =
    next new ks
      (λ k m e.
        let (x, l, v) = mem_of_mem-Fades js ks k f m in
        apart x l (sym v.same_name ∙ e ∙ w.same_name))
      (Fades-HasDistinctNames js ks f d)
Fades-HasDistinctNames olds news (goes old js ks f) (next j rest apart d) =
    Fades-HasDistinctNames js ks f d

pub map-HasDistinctNames :
    (f : Job → Job)
    → ((j : Job) → (f j).name ≡ j.name)
    → (jobs : List Job) → HasDistinctNames jobs
    → HasDistinctNames (map f jobs)
map-HasDistinctNames f keeps jobs none_there = none_there
map-HasDistinctNames f keeps jobs (next job rest apart d) =
    next (f job) (map f rest)
      (λ k m e.
        let (x, l, q) = mem_of_mem-map f rest k m in
        apart x l (sym (keeps x) ∙ ap (λ (j : Job). j.name) (sym q) ∙ e ∙ keeps job))
      (map-HasDistinctNames f keeps rest d)

-- An update keeps the name of the job that it replaces.
abbrev pub replace_named : Job → Job → Job
replace_named sent old = if is_named sent.name old then updated_by sent old else old

pub name-replace_named : (sent old : Job) → (replace_named sent old).name ≡ old.name
name-replace_named sent old = elim (Bool-cases (is_named sent.name old)) [
  | inl e ↦ rw e (sym ((eq_iff old.name sent.name).0 e))
  | inr e ↦ rw e refl
]

pub created-HasDistinctNames :
    (job : Job) (jobs : List Job)
    → any (is_named job.name) jobs ≡ false
    → HasDistinctNames jobs
    → HasDistinctNames (jobs ++ job ∷ [])
created-HasDistinctNames job jobs free none_there = next job [] (λ k m. elim m [ ]) none_there
created-HasDistinctNames job jobs free (next j rest apart d) =
    next j (rest ++ job ∷ [])
      (λ k m. elim (mem_of_mem-append rest (job ∷ []) m) [
        | inl l ↦ apart k l
        | inr l ↦ λ e. new_apart (ap (λ (x : Job). x.name) (sym (eq_of_mem-singleton l)) ∙ e)
      ])
      (created-HasDistinctNames job rest (ground (arith, free)) d)
  where
    new_apart : job.name ≢ j.name
    new_apart e = ground (arith, free, (eq_iff j.name job.name).1 (sym e))

-- Of a list with distinct names, two jobs of one name are one.
pub same_of_name :
    (jobs : List Job) (h k : Job)
    → HasDistinctNames jobs
    → Memᴰ h jobs
    → Memᴰ k jobs
    → h.name ≡ k.name
    → h ≡ k
same_of_name jobs h k (next j rest apart d) (Memᴰ.head e) (Memᴰ.head f) q = e ∙ sym f
same_of_name jobs h k (next j rest apart d) (Memᴰ.head e) (Memᴰ.tail m) q =
    absurd (apart k m (sym q ∙ ap (λ (x : Job). x.name) e))
same_of_name jobs h k (next j rest apart d) (Memᴰ.tail m) (Memᴰ.head e) q =
    absurd (apart h m (q ∙ ap (λ (x : Job). x.name) e))
same_of_name jobs h k (next j rest apart d) (Memᴰ.tail m) (Memᴰ.tail l) q =
    same_of_name rest h k d m l q
same_of_name jobs h k none_there m l q = elim m [ ]
