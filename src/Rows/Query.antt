-- ===== src/Rows/Query.antt =====
-- A query without GROUP BY on a whole metric: rrdb_metric::select of src/rrdb/rrdb_metric.cpp with the
-- walker of src/rrdb/rrdb.cpp.
use stats_rrdb.Prelude.{
  append_nil, append_assoc, ◌≡◌, refl, sym, ap, ◌∙◌, inl, inr, Bool-cases, List, [], ◌∷◌, ◌++◌,
  ◌==◌,
}
use stats_rrdb.Prelude.Int.{ℤ, pos, negsuc, ◌≤ℤ◌}
use stats_rrdb.Prelude.Result.{Result, ok, ◌>>=◌}
use stats_rrdb.Common.{interval_overlap}
use stats_rrdb.Value.{Value}
use stats_rrdb.Tuple.{Tuple}
use stats_rrdb.Tuple.Output.{Extractor, write_tuple}
use stats_rrdb.Block.{get_earliest_ts, get_latest_ts}
use stats_rrdb.Block.Select
use stats_rrdb.Block.Select.Laws.{selected, aged, select-selected}
use stats_rrdb.Metric.{Metric, Cell}
use stats_rrdb.Metric.Sound.{IsSound, AllSound, IsMetric, check_metric-ok}
use stats_rrdb.Metric.Select.{on_block, select_blocks, select}
use stats_rrdb.Rows.{RowsState, rows_walker}
use stats_rrdb.Rows.Order.{Descends, lines, Written, append_all-Written}

module _ {W : Type 0} ⦃v : Value W⦄ where
  -- The query begins no earlier than a slot's length after the epoch, for each block.
  abbrev pub AllBefore : ℤ → List (Cell W) → Type 0
  AllBefore ts1 [] = Unit
  AllBefore ts1 (c ∷ cs) = (pos c.block.header.freq ≤ℤ ts1) × AllBefore ts1 cs

  lines-append :
      (exprs : List (Extractor W)) (ts us : List (Tuple W))
      → lines exprs (ts ++ us) ≡ lines exprs ts ++ lines exprs us
  lines-append exprs [] us = refl
  lines-append exprs (t ∷ ts) us =
      ap (λ o. write_tuple exprs t ++ o) (lines-append exprs ts us)
      ∙ sym (append_assoc (write_tuple exprs t) (lines exprs ts) (lines exprs us))

  pub Descends-append :
      (b last mid end : ℤ) (ts us : List (Tuple W))
      → Descends b last ts mid
      → Descends b mid us end
      → Descends b last (ts ++ us) end
  Descends-append b last mid end [] us d e = rw (← d) e
  Descends-append b last mid end (t ∷ ts) us d e =
      (d.0, d.1, d.2, Descends-append b t.ts mid end ts us d.3 e)

module _ {W : Type 0} ⦃v : Value W⦄ (exprs : List (Extractor W)) (ts1 : ℤ) where
  Written-ok : (s : RowsState W) → Written exprs ts1 s (ok s)
  Written-ok s = record {
    rows = [];
    last = s.last_ts;
    returns = rw (append_nil s.out);
    descends = refl;
  }

  Written-then :
      (s : RowsState W) {r : Result (RowsState W)} (next : RowsState W → Result (RowsState W))
      → Written exprs ts1 s r
      → ((s' : RowsState W) → Written exprs ts1 s' (next s'))
      → Written exprs ts1 s (r >>= next)
  Written-then s next w k =
      let s' : RowsState W = record { last_ts = w.last; out = s.out ++ lines exprs w.rows } in
      let w' = k s' in
      record {
        rows = w.rows ++ w'.rows;
        last = w'.last;
        returns = rw w.returns (
            w'.returns
            ∙ ap (λ o. ok (record { last_ts = w'.last; out = o }))
                (append_assoc s.out (lines exprs w.rows) (lines exprs w'.rows)
                  ∙ ap (λ o. s.out ++ o) (sym (lines-append exprs w.rows w'.rows))));
        descends =
            Descends-append ts1 s.last_ts w.last w'.last w.rows w'.rows w.descends w'.descends;
      }

  block-Written :
      (c : Cell W) (ts2 : ℤ) (s : RowsState W)
      → IsSound c
      → pos c.block.header.freq ≤ℤ ts1
      → Written exprs ts1 s (Select.select (rows_walker exprs ts1) c.block c.fetched ts1 ts2 s)
  block-Written c ts2 s i before =
      rw (select-selected c.block c.fetched ts1 ts2 (rows_walker exprs ts1) s i.got i.ring before) (
        append_all-Written exprs ts1 c.block.header.freq s (
          selected c.block.header.freq ts1 ts2
            (aged c.block.header i.tuples c.block.header.count 0)))

  on_block-Written :
      (res : ℤ) (c : Cell W) (ts2 : ℤ) (again : RowsState W → Result (RowsState W))
      (s : RowsState W)
      → IsSound c
      → pos c.block.header.freq ≤ℤ ts1
      → ((s' : RowsState W) → Written exprs ts1 s' (again s'))
      → Written exprs ts1 s (on_block (rows_walker exprs ts1) res c ts1 ts2 again s)
  unfolding on_block
  on_block-Written (negsuc n) c ts2 again s i before k = Written-ok s
  on_block-Written (pos n) c ts2 again s i before k = elim (Bool-cases (n == 0)) [
    | inl meets ↦ rw meets (Written-then s again (block-Written c ts2 s i before) k)
    | inr later ↦ rw later (k s)
  ]

  select_blocks-Written :
      (cs : List (Cell W)) (ts2 : ℤ) (s : RowsState W)
      → AllSound cs
      → AllBefore ts1 cs
      → Written exprs ts1 s (select_blocks (rows_walker exprs ts1) cs ts1 ts2 s)
  unfolding select_blocks
  select_blocks-Written [] ts2 s i before = Written-ok s
  select_blocks-Written (c ∷ cs) ts2 s i before =
      on_block-Written
        (interval_overlap (get_earliest_ts c.block.header) (get_latest_ts c.block.header) ts1 ts2) c
        ts2 (select_blocks (rows_walker exprs ts1) cs ts1 ts2) s i.0 before.0
        (λ s'. select_blocks-Written cs ts2 s' i.1 before.1)

  -- A query without GROUP BY on a metric in order returns, if it begins at least a slot's length after
  -- the epoch for each block: what it writes are lines of tuples that hold values, begin in the query
  -- and come in the order of falling time over all the blocks, no time twice.
  pub select-Written :
      (m : Metric W) (ts2 : ℤ) (s : RowsState W)
      → IsMetric m
      → AllBefore ts1 m.blocks
      → Written exprs ts1 s (select (rows_walker exprs ts1) m ts1 ts2 s)
  unfolding select rows_walker
  select-Written m ts2 s i before = rw (check_metric-ok i) (
      Written-then s (λ s'. ok s') (select_blocks-Written m.blocks ts2 s i.sound before) Written-ok)
