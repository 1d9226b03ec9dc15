-- ===== src/Rows/Order.antt =====
-- What the walker of src/rrdb/rrdb.cpp for a query without GROUP BY writes.
use stats_rrdb.Prelude.{
  append_nil, append_assoc, ℕ, ◌≡◌, refl, ap, ◌∙◌, inl, inr, true, ◌&&◌, Bool-cases, List, [], ◌∷◌,
  ◌++◌, arith,
}
use stats_rrdb.Prelude.Int.{ℤ, ◌≤ℤ◌, ◌<ℤ◌, leb_ℤ, ltb_ℤ}
use stats_rrdb.Prelude.Result.{Result, ok}
use stats_rrdb.Text.{Chunk}
use stats_rrdb.Value.{Value}
use stats_rrdb.Tuple.{Tuple}
use stats_rrdb.Tuple.Output.{Extractor, write_tuple}
use stats_rrdb.Block.Select.Laws.{append_all}
use stats_rrdb.Rows.{RowsState, append_row, rows_walker}

module _ {W : Type 0} ⦃v : Value W⦄ where
  -- Each tuple holds values and begins in the query, earlier than `last` and the one before; the last
  -- of them begins at `end`.
  abbrev pub Descends : ℤ → ℤ → List (Tuple W) → ℤ → Type 0
  Descends ts_begin last [] end = end ≡ last
  Descends ts_begin last (t ∷ ts) end =
      (ts_begin ≤ℤ t.ts)
      × (t.ts <ℤ last)
      × (v.lt v.zero t.count ≡ true)
      × Descends ts_begin t.ts ts end

  abbrev pub lines : List (Extractor W) → List (Tuple W) → List (Chunk W)
  lines exprs [] = []
  lines exprs (t ∷ ts) = write_tuple exprs t ++ lines exprs ts

module _ {W : Type 0} ⦃v : Value W⦄ (exprs : List (Extractor W)) (ts_begin : ℤ) where
  pub record Written (s : RowsState W) (r : Result (RowsState W)) : Type 0 where
    pub rows : List (Tuple W)
    pub last : ℤ
    pub returns : r ≡ ok (record { last_ts = last; out = s.out ++ lines exprs rows })
    pub descends : Descends ts_begin s.last_ts rows last

  taken :
      (s : RowsState W) (t : Tuple W)
      → (leb_ℤ ts_begin t.ts && (ltb_ℤ t.ts s.last_ts && v.lt v.zero t.count)) ≡ true
      → (ts_begin ≤ℤ t.ts) × (t.ts <ℤ s.last_ts) × (v.lt v.zero t.count ≡ true)
  taken s t h = ground arith

  -- Whatever tuples the walker gets, it returns and has written lines of tuples that hold values, begin
  -- in the query and come in the order of falling time, no time twice.
  pub append_all-Written :
      (freq : ℕ) (s : RowsState W) (tuples : List (Tuple W))
      → Written s (append_all (rows_walker exprs ts_begin) freq s tuples)
  unfolding append_all rows_walker append_row
  append_all-Written freq s [] = record {
    rows = [];
    last = s.last_ts;
    returns = rw (append_nil s.out);
    descends = refl;
  }
  append_all-Written freq s (t ∷ ts) =
      elim (Bool-cases (leb_ℤ ts_begin t.ts && (ltb_ℤ t.ts s.last_ts && v.lt v.zero t.count))) [
        | inl row_kept ↦
            let rest =
              append_all-Written freq
                (record { last_ts = t.ts; out = s.out ++ write_tuple exprs t }) ts in
            let (begins, before, holds) = taken s t row_kept in
            record {
              rows = t ∷ rest.rows;
              last = rest.last;
              returns =
                  rw (append_row, row_kept)
                    (rest.returns
                      ∙ ap (λ o. ok (record { last_ts = rest.last; out = o }))
                          (append_assoc s.out (write_tuple exprs t) (lines exprs rest.rows)));
              descends = (begins, before, holds, rest.descends);
            }
        | inr row_passed ↦
            let rest = append_all-Written freq s ts in
            record {
              rows = rest.rows;
              last = rest.last;
              returns = rw (append_row, row_passed) rest.returns;
              descends = rest.descends;
            }
      ]
