-- ===== src/Metric/Flush/Recovered.antt =====
-- A flush of one metric, as flush_to_disk of src/rrdb/rrdb.cpp makes it, and the recovery from a crash
-- in it, as start makes it.
use stats_rrdb.Prelude.{
  false, ℕ, ◌+◌, ◌-◌, ◌≡◌, refl, sym, ap, ◌∙◌, List, [], ◌++◌, length, length-append, arith,
}
use stats_rrdb.Prelude.Result.{ok, ◌>>=◌}
use stats_rrdb.Value.{Value}
use stats_rrdb.Bytes.{Bytes}
use stats_rrdb.PaddedString.{get_file_size}
use stats_rrdb.Storage.{apply_writes}
use stats_rrdb.Storage.Laws.{write_at-middle}
use stats_rrdb.Storage.Torn.{Torn}
use stats_rrdb.Journal.{Journal, new_journal, save_journal_file, apply_journal}
use stats_rrdb.Journal.Built.{journal_of, apply_journal-ok}
use stats_rrdb.Journal.Saved.{IsSavable, load_journal_file-save_journal_file}
use stats_rrdb.Journal.Recovery.{recover, recover-Torn}
use stats_rrdb.Metric.{Metric, new_metric, sizeof_metric_header, is_deleted}
use stats_rrdb.Metric.Sound.{IsMetric}
use stats_rrdb.Metric.File.{clear_dirty, load_cells, load_file}
use stats_rrdb.Metric.File.Codec.{MetricFits, head_of, length-head_of, read_header-head_of}
use stats_rrdb.Metric.File.Saved.{saved, stored_cells}
use stats_rrdb.Metric.Flush.{save_dirty_blocks}
use stats_rrdb.Metric.Flush.Journaled.{
  AllFlushable, block_writes, flush_writes, save_dirty_blocks-journal_of,
}
use stats_rrdb.Metric.Flush.Held.{Held, CellsFlushed, Held-CellsFlushed}

module _ {W : Type 0} ⦃v : Value W⦄ ⦃b : Bytes W⦄ where
  -- A flush of a metric whose file holds `before`, while the journal's file holds `old`, and the
  -- recovery from a crash that leaves `torn`.
  pub record Flushed (m : Metric W)
      (i : AllFlushable (sizeof_metric_header + get_file_size m.name) m.blocks)
      (old before torn : List ℕ) : Type 0 where
    pub journal : Journal
    pub count : ℕ
    pub jnl_file : List ℕ
    pub after : List ℕ
    pub recorded : save_dirty_blocks m new_journal ≡ (saved m, journal, ok count)
    pub journal_saved : save_journal_file journal old ≡ ok jnl_file
    pub applied : apply_journal journal before ≡ ok after
    pub recovered : recover jnl_file torn ≡ ok after
    pub loads : load_file after (new_metric m.filename) ≡ ok (saved m)

  -- The header is written over the old one.
  writes_applied :
      (m : Metric W) (i : AllFlushable (sizeof_metric_header + get_file_size m.name) m.blocks)
      (head blocks : List ℕ)
      (f : CellsFlushed (sizeof_metric_header + get_file_size m.name) m.blocks i blocks)
      → length head ≡ sizeof_metric_header + get_file_size m.name
      → apply_writes (flush_writes m i) (head ++ blocks) ≡ head_of (clear_dirty m) ++ f.new
  unfolding flush_writes apply_writes clear_dirty
  writes_applied m i head blocks f h =
      ap (apply_writes (block_writes (sizeof_metric_header + get_file_size m.name) m.blocks i)) (
        write_at-middle 0 [] head (head_of (clear_dirty m)) blocks refl
          (h ∙ sym (length-head_of (clear_dirty m))))
      ∙ f.applied (head_of (clear_dirty m)) (length-head_of (clear_dirty m))

  flushed_loads :
      (m : Metric W) (i : AllFlushable (sizeof_metric_header + get_file_size m.name) m.blocks)
      (blocks : List ℕ)
      (f : CellsFlushed (sizeof_metric_header + get_file_size m.name) m.blocks i blocks)
      → IsMetric m
      → MetricFits (clear_dirty m)
      → load_file (head_of (clear_dirty m) ++ f.new) (new_metric m.filename) ≡ ok (saved m)
  unfolding load_file saved clear_dirty new_metric is_deleted
  flushed_loads m i blocks f o fits =
      rw (read_header-head_of (clear_dirty m) (new_metric m.filename) f.new fits)
        (ap (λ r. r >>= λ found. ok (record (clear_dirty m) { blocks = found })) found)
    where
      after : List ℕ
      after = head_of (clear_dirty m) ++ f.new

      found :
          load_cells after m.blocks_size (length after - length f.new) f.new
          ≡ ok (stored_cells m.blocks)
      found =
          ap (λ k. load_cells {W = W} after k (length after - length f.new) f.new) (sym o.counted)
          ∙ ap (λ k. load_cells {W = W} after (length m.blocks) k f.new)
              (omega (
                arith,
                length-append (head_of (clear_dirty m)) f.new,
                length-head_of (clear_dirty m),
              ))
          ∙ f.loads after (head_of (clear_dirty m)) refl (length-head_of (clear_dirty m))

  -- Take a metric in order that is not deleted, whose header fits its fields, each of whose blocks is
  -- unchanged, or can be written at its place and loses no slot when the last block is cut behind its
  -- largest position, whose writes the journal can hold, and whose file holds the blocks as they were
  -- before they changed, under a header of the same length. It is flushed:
  -- save_dirty_blocks and save_journal_file return, and apply_journal makes the file from which
  -- load_file gives the metric as the flush leaves it. If a crash leaves any stretches of the writes
  -- in the file instead, in any order, then recovery from the journal's file makes the same file.
  pub save_dirty_blocks-Flushed :
      (m : Metric W) (i : AllFlushable (sizeof_metric_header + get_file_size m.name) m.blocks)
      (old head blocks torn : List ℕ)
      → IsMetric m
      → is_deleted m ≡ false
      → MetricFits (clear_dirty m)
      → IsSavable m.filename (flush_writes m i)
      → length head ≡ sizeof_metric_header + get_file_size m.name
      → Held (sizeof_metric_header + get_file_size m.name) m.blocks i blocks
      → Torn (flush_writes m i) (head ++ blocks) torn
      → Flushed m i old (head ++ blocks) torn
  save_dirty_blocks-Flushed m i old head blocks torn o live fits savable h held t = record {
    journal = journal_of m.filename (flush_writes m i);
    count = length (block_writes (sizeof_metric_header + get_file_size m.name) m.blocks i);
    jnl_file = (load_journal_file-save_journal_file m.filename (flush_writes m i) old savable).0;
    after = head_of (clear_dirty m) ++ f.new;
    recorded = save_dirty_blocks-journal_of m i o live fits savable;
    journal_saved =
        (load_journal_file-save_journal_file m.filename (flush_writes m i) old savable).1;
    applied =
        apply_journal-ok m.filename (flush_writes m i) (head ++ blocks)
        ∙ ap ok (writes_applied m i head blocks f h);
    recovered =
        recover-Torn m.filename (flush_writes m i) old (head ++ blocks) torn savable t
        ∙ ap ok (writes_applied m i head blocks f h);
    loads = flushed_loads m i blocks f o fits;
  }
    where
      f : CellsFlushed (sizeof_metric_header + get_file_size m.name) m.blocks i blocks
      f = Held-CellsFlushed (sizeof_metric_header + get_file_size m.name) m.blocks i blocks held
