-- ===== src/Rrdb/Flush.antt =====
-- flush_to_disk of src/rrdb/rrdb.cpp. A metric that fails is left as it is then, and the loop goes on.
pub mod One
pub mod Loop
use stats_rrdb.Prelude.{ℕ, List, [], ◌∷◌, if◌then◌else◌}
use stats_rrdb.Prelude.Result.{ok, err}
use stats_rrdb.Value.{Value}
use stats_rrdb.Bytes.{Bytes}
use stats_rrdb.Metric.{Metric, is_deleted}
use stats_rrdb.Metric.Flush.{save_dirty_blocks}
use stats_rrdb.Journal.{Journal, clear}
use stats_rrdb.Rrdb.{Rrdb, put, get_dirty_metrics}
use stats_rrdb.Rrdb.Disk.{
  Disk, apply_to_file, save_journal, delete_journal_file, delete_metric_file,
}

module _ {W : Type 0} ⦃v : Value W⦄ ⦃b : Bytes W⦄ where
  -- Behind save_dirty_blocks, in the try block.
  pub apply_one : Metric W → Journal → Disk → Metric W × Disk
  apply_one m j disk = elim (save_journal j disk) [
    | err e ↦ (m, disk)
    | ok saved ↦ elim (apply_to_file j m.filename saved) [
      | err e ↦ (m, saved)
      | ok applied ↦
          if is_deleted m
          then (let (m', removed, r) = delete_metric_file m applied in (m', removed))
          else (m, applied)
    ]
  ]

  -- The body of the loop.
  pub flush_one : Metric W → Journal → Disk → Metric W × Journal × Disk
  unfolding apply_one
  flush_one m j disk =
      let (m', j', r) = save_dirty_blocks m j in
      elim r [
        | err e ↦ (m', clear j', disk)
        | ok n ↦ let (m'', disk') = apply_one m' j' disk in (m'', clear j', disk')
      ]

  -- The loop over the dirty metrics, which are those that the map points to.
  unfoldable pub flush_all :
      List (List ℕ × Metric W)
      → List (List ℕ × Metric W)
      → Journal
      → Disk
      → List (List ℕ × Metric W) × Journal × Disk
  unfolding flush_one
  flush_all [] metrics j disk = (metrics, j, disk)
  flush_all ((name, m) ∷ dirty) metrics j disk =
      let (m', j', disk') = flush_one m j disk in flush_all dirty (put metrics name m') j' disk'

  unfoldable pub flush_to_disk : Rrdb W → Journal → Disk → Rrdb W × Journal × Disk
  unfolding flush_all get_dirty_metrics
  flush_to_disk db j disk =
      let (metrics, j', disk') = flush_all (get_dirty_metrics db) db.metrics j disk in
      (record db { metrics = metrics }, j', delete_journal_file disk')
