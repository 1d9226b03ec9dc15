-- ===== src/Block/Select.antt =====
-- rrdb_metric_block::select of src/rrdb/rrdb_metric_block.cpp, and the interface
-- rrdb::data_walker of src/rrdb/rrdb.h that it calls back.
pub mod Laws
use stats_rrdb.Prelude.{ℕ, zero, suc, true, false, List, ltb, ◌==◌, if◌then◌else◌}
use stats_rrdb.Prelude.Int.{ℤ, pos, negsuc, ◌+ℤ◌}
use stats_rrdb.Prelude.Result.{Result, ok, err, fuel, ◌>>=◌, ◌>>◌, require}
use stats_rrdb.Common.{interval_overlap}
use stats_rrdb.Value.{Value}
use stats_rrdb.Tuple.{Tuple, get_at}
use stats_rrdb.Block.{Header, Block, get_prev_pos, check_tuples}
use stats_rrdb.Block.Update.{get_tuples}

-- A walker with its state.
pub record Walker (W S : Type 0) : Type 0 where
  pub append : S → Tuple W → ℕ → Result S
  pub flush : S → Result S

module _ {W S : Type 0} ⦃v : Value W⦄ (walker : Walker W S) where
  -- The rest of a round, on `res` of interval_overlap: leave the loop, or call back if the slot
  -- and the query meet, and go on from the previous position until the loop is round.
  pub on_overlap : ℤ → Tuple W → Header → ℕ → (ℕ → S → Result S) → S → Result S
  on_overlap (negsuc n) tuple h p again s = ok s
  on_overlap (pos n) tuple h p again s = do
    s' ← if n == 0 then walker.append s tuple h.freq else ok s
    let p' = get_prev_pos h p
    if p' == h.cur then ok s' else again p' s'

  -- The do-while loop, from the newest tuple to the oldest; `count` rounds are enough.
  pub select_loop : ℕ → Header → List (Tuple W) → ℤ → ℤ → ℕ → S → Result S
  select_loop zero h tuples ts1 ts2 p s = err fuel
  select_loop (suc f) h tuples ts1 ts2 p s = do
    tuple ← get_at tuples p
    on_overlap (interval_overlap tuple.ts (tuple.ts +ℤ pos h.freq) ts1 ts2) tuple h p
        (select_loop f h tuples ts1 ts2) s

  pub select : Block W → Result (List (Tuple W)) → ℤ → ℤ → S → Result S
  select b fetched ts1 ts2 s = do
    require (ltb b.header.cur b.header.count)
    tuples ← get_tuples b fetched
    check_tuples b.header tuples
    select_loop b.header.count b.header tuples ts1 ts2 b.header.cur s
