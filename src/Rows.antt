-- ===== src/Rows.antt =====
-- data_walker_select_no_group_by of src/rrdb/rrdb.cpp: the walker that writes the tuples of a query
-- without GROUP BY as it gets them. `out` is the output so far.
pub mod Order
pub mod Query
use stats_rrdb.Prelude.{ℕ, Bool, ◌&&◌, List, [], ◌∷◌, ◌++◌, if◌then◌else◌}
use stats_rrdb.Prelude.Int.{ℤ, pos, ◌+ℤ◌, leb_ℤ, ltb_ℤ}
use stats_rrdb.Prelude.Result.{Result, ok}
use stats_rrdb.Text.{Chunk}
use stats_rrdb.Value.{Value}
use stats_rrdb.Tuple.{Tuple}
use stats_rrdb.Tuple.Output.{Extractor, write_tuple}
use stats_rrdb.Block.Select.{Walker}

pub record RowsState (W : Type 0) : Type 0 where
  pub last_ts : ℤ
  pub out : List (Chunk W)

-- The constructor.
abbrev pub start_rows : {W : Type 0} → ℤ → List (Chunk W) → RowsState W
start_rows ts_end out = record { last_ts = ts_end +ℤ pos 1; out = out }

module _ {W : Type 0} ⦃v : Value W⦄ (exprs : List (Extractor W)) (ts_begin : ℤ) where
  pub append_row : RowsState W → Tuple W → RowsState W
  append_row s tuple =
      if leb_ℤ ts_begin tuple.ts && (ltb_ℤ tuple.ts s.last_ts && v.lt v.zero tuple.count)
      then record { last_ts = tuple.ts; out = s.out ++ write_tuple exprs tuple }
      else s

  unfoldable pub rows_walker : Walker W (RowsState W)
  unfolding append_row
  rows_walker = record { append = λ s tuple interval. ok (append_row s tuple); flush = λ s. ok s }
