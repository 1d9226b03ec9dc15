-- ===== src/Groups/Query.antt =====
-- A query with GROUP BY (src/rrdb/rrdb.cpp) over a metric's blocks (rrdb_metric::select of
-- src/rrdb/rrdb_metric.cpp).
use native.Mathlib.Nat.{mod-lt}
use stats_rrdb.Prelude.{
  ℕ, ◌<◌, ◌≡◌, inl, inr, refl, sym, ap, ◌∙◌, true, Bool-cases, ◌==◌, List, [], ◌∷◌, ◌++◌,
  append_nil, append_assoc, lt→ltb, arith,
}
use stats_rrdb.Prelude.Int.{
  ℤ, pos, negsuc, pos_part, neg_part, ◌+ℤ◌, ◌-ℤ◌, ◌≤ℤ◌, ◌<ℤ◌, ltb_ℤ, max_ℤ, rem, int_laws, lt→ltb_ℤ,
}
use stats_rrdb.Prelude.Result.{Result, ok, ◌>>=◌}
use stats_rrdb.Common.{interval_overlap}
use stats_rrdb.Text.{Chunk, endl}
use stats_rrdb.Value.{Value, IsOrdered}
use stats_rrdb.Tuple.{Tuple, zero_tuple}
use stats_rrdb.Tuple.Output.{Extractor, write_tuple}
use stats_rrdb.Block.{get_earliest_ts, get_latest_ts}
use stats_rrdb.Block.Select
use stats_rrdb.Block.Select.Laws.{overlaps, selected, aged, append_all, select-selected}
use stats_rrdb.Metric.{Metric, Cell}
use stats_rrdb.Metric.Sound.{IsSound, AllSound, IsMetric, check_metric-ok}
use stats_rrdb.Metric.Select.{on_block, select_blocks, select}
use stats_rrdb.Rows.Order.{Descends}
use stats_rrdb.Rows.Query.{AllBefore, Descends-append}
use stats_rrdb.Groups.{
  GroupState, reset_cur_tuple, flush_group, append_group, groups_walker, start_groups,
}
use stats_rrdb.Groups.Order.{
  group_lines, group_lines-append, InGroup, Grouped, Grouped-ok, Grouped-then, begins_before,
  reset_at-InGroup, reset_cur_tuple-out,
}
use stats_rrdb.Groups.Loops.{append_group-Grouped}

module _ {W : Type 0} ⦃v : Value W⦄ ⦃o : IsOrdered W⦄ (exprs : List (Extractor W)) (ts1 : ℤ)
    (group_by : ℕ) (some_group : 0 < group_by) where
  late_enough :
      (freq : ℕ) (ts2 : ℤ) (t : Tuple W) → overlaps freq ts1 ts2 t ≡ true → ts1 <ℤ t.ts +ℤ pos freq
  unfolding overlaps
  late_enough freq ts2 t h = ground arith

  selected-Grouped :
      (freq : ℕ) (ts2 last : ℤ) (s : GroupState W) (tuples : List (Tuple W))
      → InGroup exprs ts1 group_by some_group last s
      → Grouped exprs ts1 group_by some_group last s
          (append_all (groups_walker exprs ts1 group_by) freq s (selected freq ts1 ts2 tuples))
  unfolding append_all selected groups_walker
  selected-Grouped freq ts2 last s [] i = Grouped-ok exprs ts1 group_by some_group last s s refl i
  selected-Grouped freq ts2 last s (t ∷ ts) i = elim (Bool-cases (overlaps freq ts1 ts2 t)) [
    | inl meets ↦ rw meets (
        Grouped-then exprs ts1 group_by some_group last s (append_group exprs ts1 group_by s t freq)
          (λ s'. append_all (groups_walker exprs ts1 group_by) freq s' (selected freq ts1 ts2 ts))
          (append_group-Grouped exprs ts1 group_by some_group last s t freq
            (late_enough freq ts2 t meets) i)
          (λ end s' e j. selected-Grouped freq ts2 end s' ts j))
    | inr apart ↦ rw apart (selected-Grouped freq ts2 last s ts i)
  ]

  block-Grouped :
      (c : Cell W) (ts2 last : ℤ) (s : GroupState W)
      → IsSound c
      → pos c.block.header.freq ≤ℤ ts1
      → InGroup exprs ts1 group_by some_group last s
      → Grouped exprs ts1 group_by some_group last s
          (Select.select (groups_walker exprs ts1 group_by) c.block c.fetched ts1 ts2 s)
  block-Grouped c ts2 last s i before g =
      rw
        (select-selected c.block c.fetched ts1 ts2 (groups_walker exprs ts1 group_by) s i.got i.ring
          before)
        (selected-Grouped c.block.header.freq ts2 last s
          (aged c.block.header i.tuples c.block.header.count 0) g)

  on_block-Grouped :
      (res : ℤ) (c : Cell W) (ts2 last : ℤ) (again : GroupState W → Result (GroupState W))
      (s : GroupState W)
      → IsSound c
      → pos c.block.header.freq ≤ℤ ts1
      → InGroup exprs ts1 group_by some_group last s
      → ((end : ℤ) (s' : GroupState W)
          → InGroup exprs ts1 group_by some_group end s'
          → Grouped exprs ts1 group_by some_group end s' (again s'))
      → Grouped exprs ts1 group_by some_group last s
          (on_block (groups_walker exprs ts1 group_by) res c ts1 ts2 again s)
  unfolding on_block
  on_block-Grouped (negsuc n) c ts2 last again s i before g k =
      Grouped-ok exprs ts1 group_by some_group last s s refl g
  on_block-Grouped (pos n) c ts2 last again s i before g k = elim (Bool-cases (n == 0)) [
    | inl meets ↦ rw meets (
        Grouped-then exprs ts1 group_by some_group last s
          (Select.select (groups_walker exprs ts1 group_by) c.block c.fetched ts1 ts2 s) again
          (block-Grouped c ts2 last s i before g) (λ end s' e j. k end s' j))
    | inr later ↦ rw later (k last s g)
  ]

  select_blocks-Grouped :
      (cs : List (Cell W)) (ts2 last : ℤ) (s : GroupState W)
      → AllSound cs
      → AllBefore ts1 cs
      → InGroup exprs ts1 group_by some_group last s
      → Grouped exprs ts1 group_by some_group last s
          (select_blocks (groups_walker exprs ts1 group_by) cs ts1 ts2 s)
  unfolding select_blocks
  select_blocks-Grouped [] ts2 last s i before g =
      Grouped-ok exprs ts1 group_by some_group last s s refl g
  select_blocks-Grouped (c ∷ cs) ts2 last s i before g =
      on_block-Grouped
        (interval_overlap (get_earliest_ts c.block.header) (get_latest_ts c.block.header) ts1 ts2) c
        ts2 last (select_blocks (groups_walker exprs ts1 group_by) cs ts1 ts2) s i.0 before.0 g
        (λ end s' j. select_blocks-Grouped cs ts2 end s' i.1 before.1 j)

  max_before : (a b last : ℤ) → a <ℤ last → b <ℤ last → max_ℤ a b <ℤ last
  max_before a b last h k = elim (Bool-cases (ltb_ℤ a b)) [
    | inl less ↦ rw less k
    | inr more ↦ rw more h
  ]

  rem_small : (a : ℤ) → rem a group_by ≤ℤ pos group_by
  unfolding rem
  rem_small a = ground (arith, mod-lt (pos_part a) some_group, mod-lt (neg_part a) some_group)

  fresh_state : List (Chunk W) → GroupState W
  fresh_state out = record {
    tuple = zero_tuple;
    ts = pos 0;
    ts_beg = pos 0;
    ts_end = pos 0;
    out = out;
  }

  -- The state that the constructor makes.
  start_groups-InGroup :
      (ts2 : ℤ) (out : List (Chunk W))
      → ts1 <ℤ ts2
      → (s : GroupState W) × (start_groups exprs ts1 group_by ts2 out ≡ ok s)
        × (s.out ≡ out)
        × InGroup exprs ts1 group_by some_group ts2 s
  unfolding start_groups fresh_state
  start_groups-InGroup ts2 out h = elim (Bool-cases (ltb_ℤ (pos 0) (rem (ts2 -ℤ ts1) group_by))) [
    | inl partial ↦ (
      reset_cur_tuple exprs ts1 group_by (fresh_state out)
          (ts2 +ℤ pos group_by -ℤ rem (ts2 -ℤ ts1) group_by),
      rw (lt→ltb 0 group_by some_group, lt→ltb_ℤ ts1 ts2 h, partial) refl,
      reset_cur_tuple-out exprs ts1 group_by some_group (fresh_state out)
          (ts2 +ℤ pos group_by -ℤ rem (ts2 -ℤ ts1) group_by),
      reset_at-InGroup exprs ts1 group_by some_group ts2
          (ts2 +ℤ pos group_by -ℤ rem (ts2 -ℤ ts1) group_by) (fresh_state out)
          (omega (int_laws, rem_small (ts2 -ℤ ts1)))
          (max_before (ts2 +ℤ pos group_by -ℤ rem (ts2 -ℤ ts1) group_by -ℤ pos group_by) ts1 ts2
            (omega int_laws) h),
    )
    | inr whole ↦ (
      reset_cur_tuple exprs ts1 group_by (fresh_state out) ts2,
      rw (lt→ltb 0 group_by some_group, lt→ltb_ℤ ts1 ts2 h, whole) refl,
      reset_cur_tuple-out exprs ts1 group_by some_group (fresh_state out) ts2,
      reset_at-InGroup exprs ts1 group_by some_group ts2 ts2 (fresh_state out) (omega arith)
          (max_before (ts2 -ℤ pos group_by) ts1 ts2 (omega int_laws) h),
    )
  ]

  -- What the walker has written when it is flushed at the end.
  pub record GroupsWritten (last : ℤ) (out : List (Chunk W)) (r : Result (GroupState W))
      : Type 0 where
    pub rows : List (Tuple W)
    pub end : ℤ
    pub state : GroupState W
    pub returns : r ≡ ok state
    pub written : state.out ≡ out ++ group_lines exprs rows
    pub descends : Descends ts1 last rows end

  flush_group-GroupsWritten :
      (last : ℤ) (s : GroupState W)
      → InGroup exprs ts1 group_by some_group last s
      → GroupsWritten last s.out (ok (flush_group exprs ts1 group_by s))
  unfolding flush_group
  flush_group-GroupsWritten last s i = elim (Bool-cases (v.lt v.zero s.tuple.count)) [
    | inl holds ↦ rw holds (record {
      rows = s.tuple ∷ [];
      end = s.tuple.ts;
      state = record s { out = s.out ++ (write_tuple exprs s.tuple ++ endl ∷ []) };
      returns = refl;
      written = ap (λ l. s.out ++ l) (sym (append_nil (write_tuple exprs s.tuple ++ endl ∷ [])));
      descends = (
        omega (int_laws, i.dated, i.begins),
        omega (int_laws, i.dated, begins_before exprs ts1 group_by some_group last s i holds),
        holds,
        refl,
      );
    })
    | inr empty ↦ rw empty (record {
      rows = [];
      end = last;
      state = s;
      returns = refl;
      written = sym (append_nil s.out);
      descends = refl;
    })
  ]

  -- With a positive GROUP BY, a query that is not empty on a metric in order returns, if it begins at
  -- least a slot's length after the epoch for each block: both loops of every append end, and what is
  -- written are lines of tuples that hold values, begin in the query and come in the order of falling
  -- time over all the blocks, no time twice.
  pub select-GroupsWritten :
      (m : Metric W) (ts2 : ℤ) (out : List (Chunk W))
      → ts1 <ℤ ts2
      → IsMetric m
      → AllBefore ts1 m.blocks
      → GroupsWritten ts2 out (do
        s ← start_groups exprs ts1 group_by ts2 out
        select (groups_walker exprs ts1 group_by) m ts1 ts2 s)
  unfolding select groups_walker
  select-GroupsWritten m ts2 out h i before =
      let (s, started, kept, g) = start_groups-InGroup ts2 out h in
      let w = select_blocks-Grouped m.blocks ts2 ts2 s i.sound before g in
      let f = flush_group-GroupsWritten w.end w.state w.in_group in
      record {
        rows = w.rows ++ f.rows;
        end = f.end;
        state = f.state;
        returns = rw (started, check_metric-ok i) (rw w.returns f.returns);
        written =
            f.written
            ∙ ap (λ l. l ++ group_lines exprs f.rows)
                (w.out ∙ ap (λ l. l ++ group_lines exprs w.rows) kept)
            ∙ append_assoc out (group_lines exprs w.rows) (group_lines exprs f.rows)
            ∙ ap (λ l. out ++ l) (sym (group_lines-append exprs w.rows f.rows));
        descends = Descends-append ts1 ts2 w.end f.end w.rows f.rows w.descends f.descends;
      }
