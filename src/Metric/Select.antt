-- ===== src/Metric/Select.antt =====
-- rrdb_metric::select of src/rrdb/rrdb_metric.cpp.
use stats_rrdb.Prelude.{List, [], ◌∷◌, ◌==◌, if◌then◌else◌}
use stats_rrdb.Prelude.Int.{ℤ, pos, negsuc}
use stats_rrdb.Prelude.Result.{Result, ok, ◌>>=◌, ◌>>◌}
use stats_rrdb.Common.{interval_overlap}
use stats_rrdb.Value.{Value}
use stats_rrdb.Block.{get_earliest_ts, get_latest_ts}
use stats_rrdb.Block.Select.{Walker}
use stats_rrdb.Block.Select
use stats_rrdb.Metric.{Metric, Cell, check_metric}

module _ {W S : Type 0} ⦃v : Value W⦄ (walker : Walker W S) where
  -- A round of the loop on `res` of interval_overlap: leave it, or ask the block if it may have
  -- data, and go on.
  unfoldable pub on_block : ℤ → Cell W → ℤ → ℤ → (S → Result S) → S → Result S
  on_block (negsuc n) c ts1 ts2 again s = ok s
  on_block (pos n) c ts1 ts2 again s = do
    s' ← if n == 0 then Select.select walker c.block c.fetched ts1 ts2 s else ok s
    again s'

  unfoldable pub select_blocks : List (Cell W) → ℤ → ℤ → S → Result S
  select_blocks [] ts1 ts2 s = ok s
  select_blocks (c ∷ cs) ts1 ts2 s =
      let h = c.block.header in
      on_block (interval_overlap (get_earliest_ts h) (get_latest_ts h) ts1 ts2) c ts1 ts2
        (select_blocks cs ts1 ts2) s

  unfoldable pub select : Metric W → ℤ → ℤ → S → Result S
  select m ts1 ts2 s = do check_metric m; s' ← select_blocks m.blocks ts1 ts2 s; walker.flush s'
