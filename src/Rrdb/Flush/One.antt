-- ===== src/Rrdb/Flush/One.antt =====
-- A round of flush_to_disk of src/rrdb/rrdb.cpp.
use Prim.Native.Nat.{bit_and}
use stats_rrdb.Prelude.{
  ℕ, ◌+◌, ◌≡◌, refl, sym, ap, ◌∙◌, true, false, not, some, List, ◌++◌, length, ◌==◌, arith,
}
use stats_rrdb.Prelude.Result.{ok}
use stats_rrdb.Prelude.Bits.{bit_and-and_even, bit_and-and_two}
use stats_rrdb.Value.{Value}
use stats_rrdb.Bytes.{Bytes}
use stats_rrdb.PaddedString.{get_file_size}
use stats_rrdb.Storage.Torn.{intact}
use stats_rrdb.Journal.{Journal, new_journal, clear, save_journal_file, apply_journal}
use stats_rrdb.Journal.Built.{journal_of}
use stats_rrdb.Journal.Saved.{IsSavable}
use stats_rrdb.Metric.{Metric, new_metric, sizeof_metric_header, is_dirty, is_deleted}
use stats_rrdb.Metric.Sound.{IsMetric}
use stats_rrdb.Metric.File.{clear_dirty, load_file}
use stats_rrdb.Metric.File.Codec.{MetricFits}
use stats_rrdb.Metric.File.Saved.{saved}
use stats_rrdb.Metric.Flush.{save_dirty_blocks}
use stats_rrdb.Metric.Flush.Journaled.{AllFlushable, flush_writes, save_dirty_blocks-journal_of}
use stats_rrdb.Metric.Flush.Held.{Held}
use stats_rrdb.Metric.Flush.Recovered.{Flushed, save_dirty_blocks-Flushed}
use stats_rrdb.Rrdb.Disk.{Disk, file_at, put_file, journal_before, apply_to_file, save_journal}
use stats_rrdb.Rrdb.Flush.{apply_one, flush_one}

zero_of : (n : ℕ) → not (n == 0) ≡ false → n ≡ 0
zero_of n h = ground arith

module _ {W : Type 0} ⦃v : Value W⦄ ⦃b : Bytes W⦄ where
  -- A metric that can be flushed, whose file holds its blocks as they were before they changed.
  pub record Flushable (m : Metric W) (files : List (List ℕ × List ℕ)) : Type 0 where
    pub blocks_fit : AllFlushable (sizeof_metric_header + get_file_size m.name) m.blocks
    pub sound : IsMetric m
    pub live : is_deleted m ≡ false
    pub fits : MetricFits (clear_dirty m)
    pub savable : IsSavable m.filename (flush_writes m blocks_fit)
    pub head : List ℕ
    pub blocks : List ℕ
    pub sized : length head ≡ sizeof_metric_header + get_file_size m.name
    pub held : Held (sizeof_metric_header + get_file_size m.name) m.blocks blocks_fit blocks
    pub stands : file_at files m.filename ≡ some (head ++ blocks)

  is_deleted-saved : (m : Metric W) → is_deleted m ≡ false → is_deleted (saved m) ≡ false
  unfolding is_deleted saved clear_dirty
  is_deleted-saved m live =
      rw (bit_and-and_two m.status 65534 (zero_of (bit_and m.status 2) live)) refl

  pub is_dirty-saved : (m : Metric W) → is_dirty (saved m) ≡ false
  unfolding is_dirty saved clear_dirty
  is_dirty-saved m = rw (bit_and-and_even m.status 65534 refl) refl

  clear-journal_of :
      (m : Metric W) (i : AllFlushable (sizeof_metric_header + get_file_size m.name) m.blocks)
      → clear (journal_of m.filename (flush_writes m i)) ≡ new_journal
  unfolding clear journal_of
  clear-journal_of m i = refl

  -- The disk after a round, with the metric's file.
  pub record OneFlushed (m : Metric W) (disk : Disk) : Type 0 where
    pub file : List ℕ
    pub journal : List ℕ
    pub returns : flush_one m new_journal disk ≡ (
      saved m,
      new_journal,
      record {
        files = put_file disk.files m.filename file;
        journal = some journal;
        jnl_opened = true;
      },
    )
    pub loads : load_file file (new_metric m.filename) ≡ ok (saved m)

  applied :
      (m : Metric W) (j : Journal) (disk : Disk) (bytes old new : List ℕ)
      → save_journal_file j (journal_before disk) ≡ ok bytes
      → file_at disk.files m.filename ≡ some old
      → apply_journal j old ≡ ok new
      → is_deleted m ≡ false
      → apply_one m j disk ≡ (
        m,
        record {
          files = put_file disk.files m.filename new;
          journal = some bytes;
          jnl_opened = true;
        },
      )
  unfolding apply_one save_journal apply_to_file
  applied m j disk bytes old new saves stands applies live =
      rw (apply_one, save_journal, saves, apply_to_file, stands, applies, live) refl

  recorded :
      (m m' : Metric W) (j j' : Journal) (disk disk' : Disk) (n : ℕ)
      → save_dirty_blocks m j ≡ (m', j', ok n)
      → apply_one m' j' disk ≡ (m', disk')
      → flush_one m j disk ≡ (m', clear j', disk')
  unfolding flush_one
  recorded m m' j j' disk disk' n e a = rw (flush_one, e, e, a) refl

  pub flush_one-OneFlushed :
      (m : Metric W) (disk : Disk) → Flushable m disk.files → OneFlushed m disk
  unfolding saved clear_dirty
  flush_one-OneFlushed m disk f =
      let r : Flushed m f.blocks_fit (journal_before disk) (f.head ++ f.blocks)
          (f.head ++ f.blocks) =
        save_dirty_blocks-Flushed m f.blocks_fit (journal_before disk) f.head f.blocks
          (f.head ++ f.blocks) f.sound f.live f.fits f.savable f.sized f.held intact in
      let cleared : clear r.journal ≡ new_journal =
        ap clear (
          ap (λ p. p.1)
            (sym r.recorded
              ∙ save_dirty_blocks-journal_of m f.blocks_fit f.sound f.live f.fits f.savable))
        ∙ clear-journal_of m f.blocks_fit in
      let after : Disk = record {
        files = put_file disk.files m.filename r.after;
        journal = some r.jnl_file;
        jnl_opened = true;
      } in
      record {
        file = r.after;
        journal = r.jnl_file;
        returns =
            recorded m (saved m) new_journal r.journal disk after r.count r.recorded (
              applied (saved m) r.journal disk r.jnl_file (f.head ++ f.blocks) r.after
                r.journal_saved f.stands r.applied (is_deleted-saved m f.live))
            ∙ ap (λ j. (saved m, j, after)) cleared;
        loads = r.loads;
      }
