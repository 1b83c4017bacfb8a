-- ===== src/Metrics.antt =====
-- The gauge that tells which ControlledJobs there are: pkg/metrics/metrics.go and
-- pkg/metrics/watcher.go.
pub mod Labels
pub mod Tracking
mod Tests
use controlled_job.Base.{
  String, Bool, true, false, not, Option, none, some, List, [], ◌∷◌, ◌&&◌, str_eq, any, keep,
  if◌then◌else◌,
}
use controlled_job.Base.Text.{concat}
use controlled_job.Base.Decimal.{print_ℤ}
use controlled_job.Api.{ControlledJob}

-- ControlledJobInfoLabelValuesFor: namespace, name and time zone.
unfoldable pub controlled_job_info_label_values_for : ControlledJob → List String
controlled_job_info_label_values_for cj =
    cj.namespace
    ∷ cj.name
    ∷ concat (cj.spec.timezone.zone ∷ "+" ∷ print_ℤ cj.spec.timezone.offset_seconds ∷ [])
    ∷ []

-- reflect.DeepEqual on slices of strings.
unfoldable pub deep_equal : List String → List String → Bool
deep_equal [] [] = true
deep_equal [] (t ∷ ts) = false
deep_equal (s ∷ ss) [] = false
deep_equal (s ∷ ss) (t ∷ ts) = str_eq s t && deep_equal ss ts

-- A gauge vector by the label values that it has; the code sets no value but 1.
abbrev pub Gauge : Type 0
Gauge = List (List String)

-- WithLabelValues(...).Set(1)
unfoldable pub set_one : List String → Gauge → Gauge
set_one labels g = if any (deep_equal labels) g then g else labels ∷ g

unfoldable pub delete_label_values : List String → Gauge → Gauge
delete_label_values labels g = keep (λ l. not (deep_equal labels l)) g

-- What the Watcher is told; a generic event changes nothing.
pub data WatchEvent : Type 0 where
  created : ControlledJob → WatchEvent
  deleted : ControlledJob → WatchEvent
  generic : WatchEvent
  updated : ControlledJob → ControlledJob → WatchEvent

unfoldable pub watch : WatchEvent → Gauge → Gauge
watch (created cj) g = set_one (controlled_job_info_label_values_for cj) g
watch (deleted cj) g = delete_label_values (controlled_job_info_label_values_for cj) g
watch generic g = g
watch (updated old new) g =
    let old_labels = controlled_job_info_label_values_for old in
    let new_labels = controlled_job_info_label_values_for new in
    if not (deep_equal old_labels new_labels)
    then set_one new_labels (delete_label_values old_labels g)
    else g
