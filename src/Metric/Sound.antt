-- ===== src/Metric/Sound.antt =====
-- When the blocks of a metric are in order, and so the metric.
use stats_rrdb.Prelude.{◌<◌, ◌≡◌, List, [], ◌∷◌, length, arith}
use stats_rrdb.Prelude.Result.{ok}
use stats_rrdb.Value.{Value}
use stats_rrdb.Tuple.{Tuple}
use stats_rrdb.Block.Find.Ages.{IsRing}
use stats_rrdb.Block.Update.{get_tuples}
use stats_rrdb.Metric.{Metric, Cell, check_metric}

module _ {W : Type 0} ⦃v : Value W⦄ where
  -- The block's array can be had, and is a well-formed ring.
  pub record IsSound (c : Cell W) : Type 0 where
    pub tuples : List (Tuple W)
    pub got : get_tuples c.block c.fetched ≡ ok tuples
    pub ring : IsRing c.block.header tuples

  abbrev pub AllSound : List (Cell W) → Type 0
  AllSound [] = Unit
  AllSound (c ∷ cs) = IsSound c × AllSound cs

  pub record IsMetric (m : Metric W) : Type 0 where
    pub named : 0 < m.name.size
    pub has_blocks : 0 < length m.blocks
    pub counted : length m.blocks ≡ m.blocks_size
    pub sound : AllSound m.blocks

  pub check_metric-ok : {m : Metric W} → IsMetric m → check_metric m ≡ ok tt
  unfolding check_metric
  check_metric-ok {m} i = ground (arith, i.named, i.has_blocks, i.counted)
