-- ===== src/Groups.antt =====
-- data_walker_select of src/rrdb/rrdb.cpp: the walker of a query with GROUP BY. It goes through the
-- time of the query backwards, interval by interval, and adds to the current interval's tuple the part
-- of each tuple that lies in it. `out` is the output so far.
--
-- Both while loops have fuel: the first one ends before the interval can begin at the query's begin,
-- and every round of the second one moves the interval or its end.
pub mod Order
pub mod Loops
pub mod Query
use stats_rrdb.Prelude.{
  ℕ, zero, suc, ◌+◌, Bool, true, false, ◌&&◌, List, [], ◌∷◌, ◌++◌, ltb, if◌then◌else◌,
}
use stats_rrdb.Prelude.Int.{ℤ, pos, pos_part, ◌+ℤ◌, ◌-ℤ◌, rem, leb_ℤ, ltb_ℤ, max_ℤ, min_ℤ}
use stats_rrdb.Prelude.Result.{Result, ok, err, fuel, ◌>>=◌, ◌>>◌, require}
use stats_rrdb.Text.{Chunk, endl}
use stats_rrdb.Value.{Value}
use stats_rrdb.Tuple.{Tuple, zero_tuple, update_tuple, update_part}
use stats_rrdb.Tuple.Output.{Extractor, write_tuple}
use stats_rrdb.Block.Select.{Walker}

pub record GroupState (W : Type 0) : Type 0 where
  pub tuple : Tuple W
  pub ts : ℤ
  pub ts_beg : ℤ
  pub ts_end : ℤ
  pub out : List (Chunk W)

module _ {W : Type 0} ⦃v : Value W⦄ (exprs : List (Extractor W)) (ts_begin : ℤ) (group_by : ℕ) where
  pub reset_cur_tuple : GroupState W → ℤ → GroupState W
  reset_cur_tuple s new_ts_end =
      let beg = max_ℤ (new_ts_end -ℤ pos group_by) ts_begin in
      record s {
        ts = new_ts_end;
        ts_end = new_ts_end;
        ts_beg = beg;
        tuple = record zero_tuple { ts = beg };
      }

  -- write_tuple ends the line, and flush ends it once more.
  pub flush_group : GroupState W → GroupState W
  flush_group s =
      if v.lt v.zero s.tuple.count
      then record s { out = s.out ++ (write_tuple exprs s.tuple ++ endl ∷ []) }
      else s

  -- "this->flush(); this->reset_cur_tuple(_ts_beg);"
  pub next_group : GroupState W → GroupState W
  unfolding reset_cur_tuple flush_group
  next_group s = reset_cur_tuple (flush_group s) s.ts_beg

  -- The first loop, for a tuple that ends at tuple_end.
  pub skip_groups : ℕ → GroupState W → ℤ → Result (GroupState W)
  unfolding next_group
  skip_groups zero s tuple_end = if leb_ℤ tuple_end s.ts_beg then err fuel else ok s
  skip_groups (suc f) s tuple_end =
      let rest = skip_groups f (next_group s) tuple_end in
      if leb_ℤ tuple_end s.ts_beg then rest else ok s

  -- "check if tuple is inside the current group by interval"
  pub add_overlap : Tuple W → Tuple W → ℕ → ℤ → Tuple W
  add_overlap cur tuple interval overlap =
      if leb_ℤ (pos interval) overlap
      then update_tuple cur tuple
      else if ltb_ℤ (pos 0) overlap
      then update_part cur tuple (v.div (v.of_int overlap) (v.of_int (pos interval)))
      else cur

  -- The current tuple with the part of a tuple that lies in the interval.
  pub weigh : GroupState W → Tuple W → ℕ → Tuple W
  unfolding add_overlap
  weigh s tuple interval =
      let lower_bound = max_ℤ tuple.ts s.ts_beg in
      let upper_bound = min_ℤ (tuple.ts +ℤ pos interval) s.ts in
      let overlap = upper_bound -ℤ lower_bound in
      add_overlap s.tuple tuple interval
        (if ltb_ℤ (pos group_by) overlap then pos group_by else overlap)

  -- The second loop.
  pub cover_groups : ℕ → GroupState W → Tuple W → ℕ → Result (GroupState W)
  unfolding next_group weigh
  cover_groups zero s tuple interval =
      if ltb_ℤ tuple.ts s.ts && ltb_ℤ ts_begin s.ts then err fuel else ok s
  cover_groups (suc f) s tuple interval =
      let s' = record s { tuple = weigh s tuple interval } in
      let rest = cover_groups f (next_group s') tuple interval in
      if ltb_ℤ tuple.ts s.ts && ltb_ℤ ts_begin s.ts
      then (if leb_ℤ s.ts_beg tuple.ts then ok (record s' { ts = tuple.ts }) else rest)
      else ok s

  pub append_group : GroupState W → Tuple W → ℕ → Result (GroupState W)
  unfolding skip_groups cover_groups
  append_group s tuple interval = do
    s' ← skip_groups (pos_part (s.ts_beg -ℤ ts_begin)) s (tuple.ts +ℤ pos interval)
    cover_groups (pos_part (s'.ts -ℤ ts_begin) + pos_part (s'.ts_beg -ℤ ts_begin)) s' tuple interval

  pub groups_walker : Walker W (GroupState W)
  unfolding append_group flush_group
  groups_walker = record { append = append_group; flush = λ s. ok (flush_group s) }

  -- The constructor.
  pub start_groups : ℤ → List (Chunk W) → Result (GroupState W)
  unfolding reset_cur_tuple
  start_groups ts_end out = do
    require (ltb 0 group_by)
    require (ltb_ℤ ts_begin ts_end)
    let x = rem (ts_end -ℤ ts_begin) group_by
    let fresh : GroupState W = record {
      tuple = zero_tuple;
      ts = pos 0;
      ts_beg = pos 0;
      ts_end = pos 0;
      out = out;
    }
    ok (
        if ltb_ℤ (pos 0) x
        then reset_cur_tuple fresh (ts_end +ℤ pos group_by -ℤ x)
        else reset_cur_tuple fresh ts_end)
