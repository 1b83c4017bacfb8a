-- ===== src/Metrics/Tests.antt =====
-- The gauge of pkg/metrics/watcher.go after an update and a deletion.
use controlled_job.Base.{◌≡◌, refl, [], ◌∷◌}
use controlled_job.Base.Decimal.{print_ℤ}
use controlled_job.Api.{ControlledJob}
use controlled_job.Metrics.{
  Gauge, controlled_job_info_label_values_for, deep_equal, set_one, delete_label_values, watch,
  created, updated,
}
use controlled_job.Metrics.Tracking.{
  Tracks, Watched, at_first, creates, updates, IsOnly, Watched-Tracks,
}
use controlled_job.Samples.{sample_controlled_job}

abbrev in_london : ControlledJob
in_london = record sample_controlled_job {
  spec = record sample_controlled_job.spec {
    timezone = record sample_controlled_job.spec.timezone { zone = "Europe/London" };
  };
}

abbrev moved : Gauge
moved = watch (updated sample_controlled_job in_london) (watch (created sample_controlled_job) [])

moved_labels : moved ≡ ("ns" ∷ "cj" ∷ "Europe/London+0" ∷ []) ∷ []
unfolding watch set_one delete_label_values deep_equal controlled_job_info_label_values_for print_ℤ
moved_labels = refl

none_there : IsOnly sample_controlled_job []
none_there other m = elim m [ ]

moved_once : Watched (in_london ∷ []) moved
moved_once =
    updates [] [] (watch (created sample_controlled_job) []) sample_controlled_job in_london
      (creates [] [] sample_controlled_job at_first none_there) none_there (refl, refl)

Watched-Tracks_example : Tracks (in_london ∷ []) moved
Watched-Tracks_example = Watched-Tracks (in_london ∷ []) moved moved_once
