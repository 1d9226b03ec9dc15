-- ===== src/Metric/Flush.antt =====
-- save_dirty_blocks of src/rrdb/rrdb_metric.cpp: the header and the blocks that have changed, as
-- writes in the journal. What it is left with on an exception is written out: the metric is dirty
-- again, and the journal keeps what it got.
pub mod Journaled
pub mod Held
pub mod Recovered
use stats_rrdb.Prelude.{
  ℕ, suc, ◌+◌, Bool, true, false, Option, none, some, List, [], ◌∷◌, if◌then◌else◌,
}
use stats_rrdb.Prelude.Result.{Result, ok, err, deleted, ◌>>=◌}
use stats_rrdb.Value.{Value}
use stats_rrdb.Bytes.{Bytes}
use stats_rrdb.Block.{sizeof_header, get_disk_data_size}
use stats_rrdb.Block
use stats_rrdb.Metric.{Metric, Cell, set_dirty, is_deleted, check_metric}
use stats_rrdb.Metric.File.{clear_dirty, write_header, write_cell}
use stats_rrdb.Journal.{Journal, begin_file, end_file, write_stream, add_block}

module _ {W : Type 0} ⦃v : Value W⦄ ⦃b : Bytes W⦄ where
  -- The loop: the blocks and the journal afterwards, and how many blocks were dirty.
  pub save_dirty_cells : List (Cell W) → Journal → List (Cell W) × Journal × Result ℕ
  save_dirty_cells [] j = ([], j, ok 0)
  save_dirty_cells (c ∷ cs) j = elim (Block.is_dirty c.block) [
    | false ↦ let (cs', j', r) = save_dirty_cells cs j in (c ∷ cs', j', r)
    | true ↦ elim (write_cell c) [
      | err e ↦ (c ∷ cs, j, err e)
      | ok (c', bytes) ↦
          elim (add_block c'.block.header.offset
            (sizeof_header + get_disk_data_size c'.block.header) (write_stream bytes j)) [
              | err e ↦ (c' ∷ cs, write_stream bytes j, err e)
              | ok j1 ↦
                  let (cs', j', r) = save_dirty_cells cs j1 in (c' ∷ cs', j', do n ← r; ok (suc n))
            ]
    ]
  ]

  -- The part behind the header.
  pub save_dirty_behind : Metric W → Journal → Metric W × Journal × Result ℕ
  unfolding save_dirty_cells
  save_dirty_behind m j =
      let (cells, j', r) = save_dirty_cells m.blocks j in
      let m' = record m { blocks = cells } in
      elim r [
        | err e ↦ (set_dirty m', j', err e)
        | ok n ↦ elim (end_file j') [ err e ↦ (set_dirty m', j', err e) | ok j'' ↦ (m', j'', ok n) ]
      ]

  -- The part behind begin_file.
  pub save_dirty_begun : Metric W → Journal → Metric W × Journal × Result ℕ
  unfolding save_dirty_behind
  save_dirty_begun m j = elim (check_metric m) [
    | err e ↦ (set_dirty m, j, err e)
    | ok _ ↦
        let m' = clear_dirty m in
        elim (write_header m') [
          | err e ↦ (set_dirty m', j, err e)
          | ok (head, size) ↦ elim (add_block 0 size (write_stream head j)) [
            | err e ↦ (set_dirty m', write_stream head j, err e)
            | ok j1 ↦ save_dirty_behind m' j1
          ]
        ]
  ]

  pub save_dirty_blocks : Metric W → Journal → Metric W × Journal × Result ℕ
  unfolding save_dirty_begun
  save_dirty_blocks m j =
      if is_deleted m then (m, j, err deleted) else elim (begin_file m.filename j) [
        | err e ↦ (set_dirty m, j, err e)
        | ok j1 ↦ save_dirty_begun m j1
      ]
