-- ===== src/Metrics/Tracking.antt =====
-- The gauge of pkg/metrics/watcher.go has the labels of the ControlledJobs that exist.
use controlled_job.Base.{
  ◌≡◌, ◌≢◌, ◌∙◌, sym, ap, refl, ◌⊎◌, inl, inr, ◌↔◌, String, List, [], ◌∷◌, ◌++◌, Memᴰ, Bool-cases,
}
use controlled_job.Base.Lists.Membership.{mem-append_left, mem-append_right, mem_of_mem-append}
use controlled_job.Api.{ControlledJob}
use controlled_job.Metrics.{
  controlled_job_info_label_values_for, deep_equal, Gauge, set_one, delete_label_values, created,
  deleted, generic, updated, watch,
}
use controlled_job.Metrics.Labels.{deep_equal_iff, mem-set_one, mem-delete_label_values}

abbrev pub labels_of : ControlledJob → List String
labels_of = controlled_job_info_label_values_for

-- Some ControlledJob of the list has the labels.
abbrev pub HasLabels : List ControlledJob → List String → Type 0
HasLabels cjs l = (cj : ControlledJob) × Memᴰ cj cjs × (labels_of cj ≡ l)

-- The gauge has exactly the labels of the ControlledJobs of the list.
abbrev pub Tracks : List ControlledJob → Gauge → Type 0
Tracks cjs g = (l : List String) → Memᴰ l g ↔ HasLabels cjs l

-- The names of ControlledJobs in a namespace are distinct: no other one is called like `cj`.
abbrev pub IsOnly : ControlledJob → List ControlledJob → Type 0
IsOnly cj cjs =
    (other : ControlledJob)
    → Memᴰ other cjs
    → ¬ ((other.namespace ≡ cj.namespace) × (other.name ≡ cj.name))

-- The ControlledJobs that there are, as they are created, updated and deleted, and the gauge as the
-- Watcher has left it.
pub data Watched : List ControlledJob → Gauge → Type 0 where
  at_first : Watched [] []
  creates :
      (cjs : List ControlledJob) (g : Gauge) (cj : ControlledJob)
      → Watched cjs g
      → IsOnly cj cjs
      → Watched (cj ∷ cjs) (watch (created cj) g)
  deletes :
      (before rest : List ControlledJob) (g : Gauge) (cj : ControlledJob)
      → Watched (before ++ cj ∷ rest) g
      → IsOnly cj (before ++ rest)
      → Watched (before ++ rest) (watch (deleted cj) g)
  updates :
      (before rest : List ControlledJob) (g : Gauge) (old new : ControlledJob)
      → Watched (before ++ old ∷ rest) g
      → IsOnly old (before ++ rest)
      → (new.namespace ≡ old.namespace) × (new.name ≡ old.name)
      → Watched (before ++ new ∷ rest) (watch (updated old new) g)
  others : (cjs : List ControlledJob) (g : Gauge) → Watched cjs g → Watched cjs (watch generic g)

module _ (before rest : List ControlledJob) (l : List String) where
  split_labels :
      (x : ControlledJob)
      → HasLabels (before ++ x ∷ rest) l
      → (labels_of x ≡ l) ⊎ HasLabels (before ++ rest) l
  split_labels x (cj, m, e) = elim (mem_of_mem-append before (x ∷ rest) m) [
    | inl n ↦ inr (cj, mem-append_left before rest n, e)
    | inr n ↦ by_place n
  ]
    where
      by_place : Memᴰ cj (x ∷ rest) → (labels_of x ≡ l) ⊎ HasLabels (before ++ rest) l
      by_place (Memᴰ.head q) = inl (ap labels_of (sym q) ∙ e)
      by_place (Memᴰ.tail n) = inr (cj, mem-append_right before rest n, e)

  insert_new : (x : ControlledJob) → labels_of x ≡ l → HasLabels (before ++ x ∷ rest) l
  insert_new x e = (x, mem-append_right before (x ∷ rest) (Memᴰ.head refl), e)

  insert_others :
      (x : ControlledJob) → HasLabels (before ++ rest) l → HasLabels (before ++ x ∷ rest) l
  insert_others x (cj, m, e) = elim (mem_of_mem-append before rest m) [
    | inl n ↦ (cj, mem-append_left before (x ∷ rest) n, e)
    | inr n ↦ (cj, mem-append_right before (x ∷ rest) (Memᴰ.tail n), e)
  ]

-- The labels begin with the namespace and the name.
same_key :
    (a b : ControlledJob)
    → labels_of a ≡ labels_of b
    → (a.namespace ≡ b.namespace) × (a.name ≡ b.name)
unfolding controlled_job_info_label_values_for
same_key a b h = (cc, cc)

module _ (before rest : List ControlledJob) (g : Gauge) where
  Tracks-deleted :
      (cj : ControlledJob)
      → Tracks (before ++ cj ∷ rest) g
      → IsOnly cj (before ++ rest)
      → Tracks (before ++ rest) (delete_label_values (labels_of cj) g)
  Tracks-deleted cj tracks only l =
      let (in_gauge, to_gauge) = mem-delete_label_values l (labels_of cj) g in
      (
        λ m. elim (split_labels before rest l cj ((tracks l).0 (in_gauge m).0)) [
          | inl e ↦ absurd ((in_gauge m).1 (sym e))
          | inr has ↦ has
        ],
        λ has. to_gauge ((tracks l).1 (insert_others before rest l cj has), apart has),
      )
    where
      apart : HasLabels (before ++ rest) l → l ≢ labels_of cj
      apart (other, m, e) q = only other m (same_key other cj (e ∙ q))

  Tracks-set :
      (cj : ControlledJob)
      → Tracks (before ++ rest) g
      → Tracks (before ++ cj ∷ rest) (set_one (labels_of cj) g)
  Tracks-set cj tracks l =
      let (in_gauge, to_gauge) = mem-set_one l (labels_of cj) g in
      (
        λ m. elim (in_gauge m) [
          | inl e ↦ insert_new before rest l cj (sym e)
          | inr n ↦ insert_others before rest l cj ((tracks l).0 n)
        ],
        λ has. elim (split_labels before rest l cj has) [
          | inl e ↦ to_gauge (inl (sym e))
          | inr still ↦ to_gauge (inr ((tracks l).1 still))
        ],
      )

  Tracks-same :
      (old new : ControlledJob)
      → Tracks (before ++ old ∷ rest) g
      → labels_of old ≡ labels_of new
      → Tracks (before ++ new ∷ rest) g
  Tracks-same old new tracks same l = (
    λ m. elim (split_labels before rest l old ((tracks l).0 m)) [
      | inl e ↦ insert_new before rest l new (sym same ∙ e)
      | inr still ↦ insert_others before rest l new still
    ],
    λ has. elim (split_labels before rest l new has) [
      | inl e ↦ (tracks l).1 (insert_new before rest l old (same ∙ e))
      | inr still ↦ (tracks l).1 (insert_others before rest l old still)
    ],
  )

Tracks-updated :
    (before rest : List ControlledJob) (g : Gauge) (old new : ControlledJob)
    → Tracks (before ++ old ∷ rest) g
    → IsOnly old (before ++ rest)
    → Tracks (before ++ new ∷ rest) (watch (updated old new) g)
unfolding watch
Tracks-updated before rest g old new tracks only =
    elim (Bool-cases (deep_equal (labels_of old) (labels_of new))) [
      | inl e ↦ rw e (
          Tracks-same before rest g old new tracks
            ((deep_equal_iff (labels_of old) (labels_of new)).0 e))
      | inr e ↦ rw e (
          Tracks-set before rest (delete_label_values (labels_of old) g) new
            (Tracks-deleted before rest g old tracks only))
    ]

-- As ControlledJobs are created, updated and deleted, their names distinct in each namespace, the
-- gauge has at every moment exactly the labels of those that there are.
pub Watched-Tracks : (cjs : List ControlledJob) (g : Gauge) → Watched cjs g → Tracks cjs g
unfolding watch
Watched-Tracks cjs g at_first = λ l. (λ m. elim m [ ], λ has. no_labels l has)
  where
    no_labels : (l : List String) → HasLabels [] l → Memᴰ l []
    no_labels l (cj, m, e) = elim m [ ]
Watched-Tracks cjs g (creates others_then then_gauge cj past only) =
    Tracks-set [] others_then then_gauge cj (Watched-Tracks others_then then_gauge past)
Watched-Tracks cjs g (deletes before rest then_gauge cj past only) =
    Tracks-deleted before rest then_gauge cj (Watched-Tracks (before ++ cj ∷ rest) then_gauge past)
      only
Watched-Tracks cjs g (updates before rest then_gauge old new past only same) =
    Tracks-updated before rest then_gauge old new
      (Watched-Tracks (before ++ old ∷ rest) then_gauge past) only
Watched-Tracks cjs g (others then_cjs then_gauge past) = Watched-Tracks then_cjs then_gauge past
