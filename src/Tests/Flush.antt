-- ===== src/Tests/Flush.antt =====
-- flush_to_disk of src/rrdb/rrdb.cpp on a map with one metric, and the statements of clients.
use stats_rrdb.Prelude.{ℕ, refl, true, false, inl, inr, none, List, [], ◌∷◌, ◌++◌, replicate}
use stats_rrdb.Value.{nat_value}
use stats_rrdb.PaddedString.{reset, padded_size, get_file_size}
use stats_rrdb.Metric.{is_dirty, is_deleted}
use stats_rrdb.Rrdb.{Rrdb}
use stats_rrdb.Rrdb.Disk.{Disk}
use stats_rrdb.Rrdb.Flush.One.{Flushable}
use stats_rrdb.Rrdb.Flush.Loop.{DbFlushed, flush_to_disk-DbFlushed}
use stats_rrdb.Rrdb.Load.{DirEntry, get_name}
use stats_rrdb.Rrdb.Load.Restored.{Restored, changed, load_metrics-flush_to_disk}
use stats_rrdb.Tests.Fixtures.{cpu, metric, metric-IsMetric}
use stats_rrdb.Tests.Files.{
  nat_bytes, metric-AllFlushable, metric-MetricFits, flush-IsSavable, zeros-Held,
}

abbrev one_metric : Rrdb ℕ
one_metric = record { default_policy = []; metrics = (cpu, metric) ∷ [] }

abbrev zeros_on_disk : Disk
zeros_on_disk = record {
  files = (cpu, replicate 40 0 ++ (replicate 344 0 ++ (replicate 200 0 ++ []))) ∷ [];
  journal = none;
  jnl_opened = false;
}

metric-Flushable : Flushable metric zeros_on_disk.files
unfolding is_deleted reset padded_size get_file_size
metric-Flushable = record {
  blocks_fit = metric-AllFlushable;
  sound = metric-IsMetric;
  live = refl;
  fits = metric-MetricFits;
  savable = flush-IsSavable;
  head = replicate 40 0;
  blocks = replicate 344 0 ++ (replicate 200 0 ++ []);
  sized = refl;
  held = zeros-Held;
  stands = refl;
}

flush_to_disk-DbFlushed_example : DbFlushed one_metric zeros_on_disk cpu metric
flush_to_disk-DbFlushed_example =
    flush_to_disk-DbFlushed one_metric zeros_on_disk cpu metric (tt, tt, tt)
      (inr metric-Flushable, tt) refl

-- A folder and the metric's file.
abbrev entries : List DirEntry
entries =
    record { filename = 48 ∷ []; is_regular_file = false; has_extension = false }
    ∷ record { filename = cpu; is_regular_file = true; has_extension = true }
    ∷ []

load_metrics-flush_to_disk_example : Restored one_metric zeros_on_disk entries
unfolding get_name reset padded_size is_dirty
load_metrics-flush_to_disk_example =
    load_metrics-flush_to_disk one_metric zeros_on_disk entries (tt, tt, tt)
      (inr metric-Flushable, tt) (refl, tt) (changed refl, tt) (inr (inl (refl, refl)), tt)
      (inl refl, (inr (cpu, metric, refl, refl), tt))
