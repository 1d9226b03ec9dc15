-- ===== src/Metric/Flush/Journaled.antt =====
-- What save_dirty_blocks of src/rrdb/rrdb_metric.cpp leaves in the journal.
use stats_rrdb.Prelude.{
  ℕ, suc, ◌+◌, ◌≡◌, ◌⊎◌, inl, inr, refl, sym, ap, ◌∙◌, true, false, none, some, List, [], ◌∷◌,
  length,
}
use stats_rrdb.Prelude.Result.{ok, >>=-eq-ok}
use stats_rrdb.Value.{Value}
use stats_rrdb.Bytes.{Bytes}
use stats_rrdb.PaddedString.{get_file_size}
use stats_rrdb.Tuple.{Tuple}
use stats_rrdb.Storage.{Write}
use stats_rrdb.Block.{sizeof_header, get_disk_data_size}
use stats_rrdb.Block
use stats_rrdb.Block.Disk.Slots.{same_place}
use stats_rrdb.Metric.{Metric, Cell, sizeof_metric_header, is_deleted, check_metric}
use stats_rrdb.Metric.Sound.{IsMetric, check_metric-ok}
use stats_rrdb.Metric.File.{clear_dirty, write_header}
use stats_rrdb.Metric.File.Codec.{
  MetricFits, head_of, length-head_of, write_header-ok, stored, IsWritable, cell_written,
  write_cell-ok,
}
use stats_rrdb.Metric.File.Saved.{stored_cells, stored-eq, saved}
use stats_rrdb.Metric.Flush.{
  save_dirty_cells, save_dirty_behind, save_dirty_begun, save_dirty_blocks,
}
use stats_rrdb.Journal.{Journal, new_journal, begin_file, end_file, write_stream, add_block}
use stats_rrdb.Journal.Built.{record_write, record_writes, record_file, record_file-ok, journal_of}
use stats_rrdb.Journal.Saved.{IsSavable}

module _ {W : Type 0} ⦃v : Value W⦄ ⦃b : Bytes W⦄ where
  -- Every block has not changed since it was written, or can be written at its place.
  abbrev pub AllFlushable : ℕ → List (Cell W) → Type 0
  AllFlushable at [] = Unit
  AllFlushable at (c ∷ cs) =
      ((c.block.modified ≡ none) ⊎ IsWritable at c)
      × AllFlushable (at + sizeof_header + get_disk_data_size (stored c).block.header) cs

  -- The writes of the changed blocks.
  abbrev pub block_writes : (at : ℕ) (cs : List (Cell W)) → AllFlushable at cs → List Write
  block_writes at [] i = []
  block_writes at (c ∷ cs) (inl clean, rest) =
      block_writes (at + sizeof_header + get_disk_data_size (stored c).block.header) cs rest
  block_writes at (c ∷ cs) (inr dirty, rest) =
      record { offset = at; bytes = (cell_written dirty).bytes }
      ∷ block_writes (at + sizeof_header + get_disk_data_size (stored c).block.header) cs rest

  -- A changed block is one write.
  cell_recorded :
      (at : ℕ) (c : Cell W) (i : IsWritable at c) (j j' : Journal)
      → record_write (record { offset = at; bytes = (cell_written i).bytes }) j ≡ ok j'
      → add_block
          (stored c).block.header.offset
          (sizeof_header + get_disk_data_size (stored c).block.header)
          (write_stream (cell_written i).bytes j)
        ≡ ok j'
  cell_recorded at c i j j' e =
      ap
        (λ n.
          add_block n (sizeof_header + get_disk_data_size (stored c).block.header)
            (write_stream (cell_written i).bytes j))
        (ap (λ (d : Cell W). d.block.header.offset) (stored-eq at c i)
          ∙ (same_place c.block.header).4
          ∙ i.placed)
      ∙ ap (λ n. add_block at n (write_stream (cell_written i).bytes j))
          (ap (λ (d : Cell W). sizeof_header + get_disk_data_size d.block.header) (stored-eq at c i)
            ∙ sym (cell_written i).sized)
      ∙ unfold record_write in e

  pub stored-clean : (c : Cell W) → c.block.modified ≡ none → stored c ≡ c
  unfolding stored
  stored-clean c clean = rw clean refl

  is_dirty-some :
      (c : Cell W) (tuples : List (Tuple W))
      → c.block.modified ≡ some tuples
      → Block.is_dirty c.block ≡ true
  unfolding Block.is_dirty
  is_dirty-some c tuples held = rw held refl

  is_dirty-none : (c : Cell W) → c.block.modified ≡ none → Block.is_dirty c.block ≡ false
  unfolding Block.is_dirty
  is_dirty-none c clean = rw clean refl

  dirty_cell :
      (at : ℕ) (c : Cell W) (cs : List (Cell W)) (i : IsWritable at c) (j j1 j' : Journal) (n : ℕ)
      → record_write (record { offset = at; bytes = (cell_written i).bytes }) j ≡ ok j1
      → save_dirty_cells cs j1 ≡ (stored_cells cs, j', ok n)
      → save_dirty_cells (c ∷ cs) j ≡ (stored_cells (c ∷ cs), j', ok (suc n))
  unfolding save_dirty_cells
  dirty_cell at c cs i j j1 j' n e rest =
      rw
        (
          save_dirty_cells,
          is_dirty-some c i.tuples i.held,
          write_cell-ok c i,
          cell_recorded at c i j j1 e,
          ap (λ p. p.0) rest,
          ap (λ p. p.1) rest,
          ap (λ p. p.2) rest,
        )
        refl

  clean_cell :
      (c : Cell W) (cs : List (Cell W)) (j j' : Journal) (n : ℕ)
      → c.block.modified ≡ none
      → save_dirty_cells cs j ≡ (stored_cells cs, j', ok n)
      → save_dirty_cells (c ∷ cs) j ≡ (stored_cells (c ∷ cs), j', ok n)
  unfolding save_dirty_cells
  clean_cell c cs j j' n clean rest =
      rw
        (
          save_dirty_cells,
          is_dirty-none c clean,
          stored-clean c clean,
          ap (λ p. p.0) rest,
          ap (λ p. p.1) rest,
          ap (λ p. p.2) rest,
        )
        refl

  save_dirty_cells-ok :
      (at : ℕ) (cs : List (Cell W)) (i : AllFlushable at cs) (j j' : Journal)
      → record_writes (block_writes at cs i) j ≡ ok j'
      → save_dirty_cells cs j ≡ (stored_cells cs, j', ok (length (block_writes at cs i)))
  unfolding save_dirty_cells record_writes
  save_dirty_cells-ok at [] i j j' e = ap (λ k. ([], k, ok 0)) same
    where
      same : j ≡ j'
      same = cc
  save_dirty_cells-ok at (c ∷ cs) (inl clean, rest) j j' e = clean_cell c cs j j' _ clean (
      save_dirty_cells-ok (at + sizeof_header + get_disk_data_size (stored c).block.header) cs rest
        j j' e)
  save_dirty_cells-ok at (c ∷ cs) (inr dirty, rest) j j' e =
      let (j1, e1, e2) =
        >>=-eq-ok (record_write (record { offset = at; bytes = (cell_written dirty).bytes }) j) _
          e in
      dirty_cell at c cs dirty j j1 j' _ e1 (
        save_dirty_cells-ok (at + sizeof_header + get_disk_data_size (stored c).block.header) cs
          rest j1 j' e2)

  -- The writes of a flush: the header, and the changed blocks.
  unfoldable pub flush_writes :
      (m : Metric W)
      → AllFlushable (sizeof_metric_header + get_file_size m.name) m.blocks
      → List Write
  flush_writes m i =
      record { offset = 0; bytes = head_of (clear_dirty m) }
      ∷ block_writes (sizeof_metric_header + get_file_size m.name) m.blocks i

  header_recorded :
      (m : Metric W) (j j' : Journal)
      → record_write (record { offset = 0; bytes = head_of (clear_dirty m) }) j ≡ ok j'
      → add_block 0
          (sizeof_metric_header + get_file_size m.name)
          (write_stream (head_of (clear_dirty m)) j)
        ≡ ok j'
  unfolding record_write clear_dirty
  header_recorded m j j' e =
      ap (λ n. add_block 0 n (write_stream (head_of (clear_dirty m)) j))
        (sym (length-head_of (clear_dirty m)))
      ∙ e

  behind :
      (m : Metric W) (cs : List (Cell W)) (jh j2 j : Journal) (n : ℕ)
      → save_dirty_cells m.blocks jh ≡ (cs, j2, ok n)
      → end_file j2 ≡ ok j
      → save_dirty_behind m jh ≡ (record m { blocks = cs }, j, ok n)
  unfolding save_dirty_behind
  behind m cs jh j2 j n cells ended =
      rw (save_dirty_behind, ap (λ p. p.2) cells, ap (λ p. p.1) cells, ended, ap (λ p. p.0) cells)
        refl

  -- The steps of save_dirty_blocks, where none throws.
  flushed :
      (m : Metric W) (j1 jh j2 j : Journal) (n : ℕ)
      → is_deleted m ≡ false
      → begin_file m.filename new_journal ≡ ok j1
      → check_metric m ≡ ok tt
      → write_header (clear_dirty m)
        ≡ ok (head_of (clear_dirty m), sizeof_metric_header + get_file_size m.name)
      → add_block 0
          (sizeof_metric_header + get_file_size m.name)
          (write_stream (head_of (clear_dirty m)) j1)
        ≡ ok jh
      → save_dirty_cells m.blocks jh ≡ (stored_cells m.blocks, j2, ok n)
      → end_file j2 ≡ ok j
      → save_dirty_blocks m new_journal ≡ (saved m, j, ok n)
  unfolding save_dirty_blocks save_dirty_begun saved clear_dirty
  flushed m j1 jh j2 j n live begun checked headed added cells ended =
      rw (live, begun, save_dirty_begun, checked, headed, added)
        (behind (clear_dirty m) (stored_cells m.blocks) jh j2 j n cells ended)

  -- For a metric in order, each of whose blocks is unchanged or can be written, and a journal that can
  -- hold its writes, save_dirty_blocks leaves the journal of these writes, returns the number of the
  -- changed blocks, and leaves the metric as save_file does.
  pub save_dirty_blocks-journal_of :
      (m : Metric W) (i : AllFlushable (sizeof_metric_header + get_file_size m.name) m.blocks)
      → IsMetric m
      → is_deleted m ≡ false
      → MetricFits (clear_dirty m)
      → IsSavable m.filename (flush_writes m i)
      → save_dirty_blocks m new_journal ≡ (
        saved m,
        journal_of m.filename (flush_writes m i),
        ok (length (block_writes (sizeof_metric_header + get_file_size m.name) m.blocks i)),
      )
  unfolding save_dirty_blocks save_dirty_begun save_dirty_behind saved flush_writes clear_dirty
      record_file record_writes
  save_dirty_blocks-journal_of m i o live f fits =
      let (j1, begun, e1) =
        >>=-eq-ok (begin_file m.filename new_journal) _
          (record_file-ok m.filename (flush_writes m i) fits.named fits.filled) in
      let (j2, wrote, ended) = >>=-eq-ok (record_writes (flush_writes m i) j1) end_file e1 in
      let (jh, headed, cells) =
        >>=-eq-ok (record_write (record { offset = 0; bytes = head_of (clear_dirty m) }) j1) _
          wrote in
      flushed m j1 jh j2 (journal_of m.filename (flush_writes m i)) _ live begun (check_metric-ok o)
        (write_header-ok (clear_dirty m) f) (header_recorded m j1 jh headed)
        (save_dirty_cells-ok (sizeof_metric_header + get_file_size m.name) m.blocks i jh j2 cells)
        ended
