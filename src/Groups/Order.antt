-- ===== src/Groups/Order.antt =====
-- What the walker of src/rrdb/rrdb.cpp with GROUP BY writes, and its state between two calls.
use mathlib.Core.Path.{subst}
use stats_rrdb.Prelude.{
  ℕ, ◌<◌, ◌≡◌, ◌⊎◌, inl, inr, refl, sym, ap, ◌∙◌, true, false, Bool-cases, List, [], ◌∷◌, ◌++◌,
  append_nil, append_assoc, arith,
}
use stats_rrdb.Prelude.Int.{ℤ, pos, ◌-ℤ◌, ◌≤ℤ◌, ◌<ℤ◌, ltb_ℤ, max_ℤ, int_laws}
use stats_rrdb.Prelude.Result.{Result, ok, ◌>>=◌}
use stats_rrdb.Text.{Chunk, endl}
use stats_rrdb.Value.{Value, IsOrdered}
use stats_rrdb.Tuple.{Tuple}
use stats_rrdb.Tuple.Output.{Extractor, write_tuple}
use stats_rrdb.Rows.Order.{Descends}
use stats_rrdb.Rows.Query.{Descends-append}
use stats_rrdb.Groups.{GroupState, reset_cur_tuple, flush_group, next_group}

module _ {W : Type 0} ⦃v : Value W⦄ where
  abbrev pub group_lines : List (Extractor W) → List (Tuple W) → List (Chunk W)
  group_lines exprs [] = []
  group_lines exprs (t ∷ ts) = (write_tuple exprs t ++ endl ∷ []) ++ group_lines exprs ts

  pub group_lines-append :
      (exprs : List (Extractor W)) (ts us : List (Tuple W))
      → group_lines exprs (ts ++ us) ≡ group_lines exprs ts ++ group_lines exprs us
  group_lines-append exprs [] us = refl
  group_lines-append exprs (t ∷ ts) us =
      ap (λ l. (write_tuple exprs t ++ endl ∷ []) ++ l) (group_lines-append exprs ts us)
      ∙ sym (
          append_assoc (write_tuple exprs t ++ endl ∷ []) (group_lines exprs ts)
            (group_lines exprs us))

module _ {W : Type 0} ⦃v : Value W⦄ ⦃o : IsOrdered W⦄ (exprs : List (Extractor W)) (ts_begin : ℤ)
    (group_by : ℕ) (some_group : 0 < group_by) where
  -- The state between two calls, where the last row written begins at `last`: the current tuple begins
  -- with its interval, before that row, or the walker is through and it holds nothing.
  pub record InGroup (last : ℤ) (s : GroupState W) : Type 0 where
    pub begins : ts_begin ≤ℤ s.ts_beg
    pub ends : s.ts_beg ≤ℤ s.ts
    pub dated : s.tuple.ts ≡ s.ts_beg
    pub fresh : (s.ts_beg <ℤ last) ⊎ ((s.ts ≤ℤ ts_begin) × (v.lt v.zero s.tuple.count ≡ false))

  -- What the walker has done: it returns, in order, and has written lines of tuples that hold values,
  -- begin in the query and come in the order of falling time, no time twice.
  pub record Grouped (last : ℤ) (s : GroupState W) (r : Result (GroupState W)) : Type 0 where
    pub rows : List (Tuple W)
    pub end : ℤ
    pub state : GroupState W
    pub returns : r ≡ ok state
    pub out : state.out ≡ s.out ++ group_lines exprs rows
    pub descends : Descends ts_begin last rows end
    pub in_group : InGroup end state

  pub Grouped-ok :
      (last : ℤ) (s s' : GroupState W) → s'.out ≡ s.out → InGroup last s' → Grouped last s (ok s')
  Grouped-ok last s s' e i = record {
    rows = [];
    end = last;
    state = s';
    returns = refl;
    out = e ∙ sym (append_nil s.out);
    descends = refl;
    in_group = i;
  }

  -- The same output so far.
  pub Grouped-same :
      (last : ℤ) (s s' : GroupState W) (r : Result (GroupState W))
      → s'.out ≡ s.out
      → Grouped last s' r
      → Grouped last s r
  Grouped-same last s s' r e g = record {
    rows = g.rows;
    end = g.end;
    state = g.state;
    returns = g.returns;
    out = g.out ∙ ap (λ l. l ++ group_lines exprs g.rows) e;
    descends = g.descends;
    in_group = g.in_group;
  }

  pub Grouped-then :
      (last : ℤ) (s : GroupState W) (r : Result (GroupState W))
      (next : GroupState W → Result (GroupState W))
      → Grouped last s r
      → ((end : ℤ) (s' : GroupState W) → r ≡ ok s' → InGroup end s' → Grouped end s' (next s'))
      → Grouped last s (r >>= next)
  Grouped-then last s r next g k =
      let h = k g.end g.state g.returns g.in_group in
      record {
        rows = g.rows ++ h.rows;
        end = h.end;
        state = h.state;
        returns = rw g.returns h.returns;
        out =
            h.out
            ∙ ap (λ l. l ++ group_lines exprs h.rows) g.out
            ∙ append_assoc s.out (group_lines exprs g.rows) (group_lines exprs h.rows)
            ∙ ap (λ l. s.out ++ l) (sym (group_lines-append exprs g.rows h.rows));
        descends = Descends-append ts_begin last g.end h.end g.rows h.rows g.descends h.descends;
        in_group = h.in_group;
      }

  -- Where the interval before begins.
  pub earlier :
      (t : ℤ)
      → ts_begin ≤ℤ t
      → (let m = max_ℤ (t -ℤ pos group_by) ts_begin in
          (ts_begin ≤ℤ m) × (m ≤ℤ t) × ((m <ℤ t) ⊎ (t ≤ℤ ts_begin)))
  earlier t h = elim (Bool-cases (ltb_ℤ (t -ℤ pos group_by) ts_begin)) [
    | inl clipped ↦ rw clipped (omega int_laws, h, omega int_laws)
    | inr inside ↦ rw inside (omega int_laws, omega int_laws, omega int_laws)
  ]

  reset_fresh :
      (last t : ℤ)
      → ts_begin ≤ℤ t
      → (t ≤ℤ last) ⊎ (t ≤ℤ ts_begin)
      → (max_ℤ (t -ℤ pos group_by) ts_begin <ℤ last)
        ⊎ ((t ≤ℤ ts_begin) × (v.lt v.zero v.zero ≡ false))
  reset_fresh last t h before = elim (earlier t h).2 [
    | inr through ↦ inr (through, o.lt_irrefl v.zero)
    | inl moved ↦ elim before [
      | inl behind ↦ inl (omega arith)
      | inr through ↦ inr (through, o.lt_irrefl v.zero)
    ]
  ]

  -- The first interval.
  pub reset_at-InGroup :
      (last t : ℤ) (s : GroupState W)
      → ts_begin ≤ℤ t
      → max_ℤ (t -ℤ pos group_by) ts_begin <ℤ last
      → InGroup last (reset_cur_tuple exprs ts_begin group_by s t)
  unfolding reset_cur_tuple
  reset_at-InGroup last t s h before = record {
    begins = (earlier t h).0;
    ends = (earlier t h).1;
    dated = refl;
    fresh = inl before;
  }

  pub reset_cur_tuple-out :
      (s : GroupState W) (t : ℤ) → (reset_cur_tuple exprs ts_begin group_by s t).out ≡ s.out
  unfolding reset_cur_tuple
  reset_cur_tuple-out s t = refl

  pub begins_before :
      (last : ℤ) (s : GroupState W)
      → InGroup last s
      → v.lt v.zero s.tuple.count ≡ true
      → s.ts_beg <ℤ last
  begins_before last s i holds = elim i.fresh [ inl before ↦ before | inr (through, empty) ↦ cc ]

  reset_before :
      (last : ℤ) (s : GroupState W) → InGroup last s → (s.ts_beg ≤ℤ last) ⊎ (s.ts_beg ≤ℤ ts_begin)
  reset_before last s i = elim i.fresh [
    | inl before ↦ inl (omega arith)
    | inr (through, empty) ↦ inr (omega (arith, i.ends))
  ]

  reset_cur_tuple-InGroup :
      (last : ℤ) (s : GroupState W)
      → ts_begin ≤ℤ s.ts_beg
      → (s.ts_beg ≤ℤ last) ⊎ (s.ts_beg ≤ℤ ts_begin)
      → InGroup last (reset_cur_tuple exprs ts_begin group_by s s.ts_beg)
  unfolding reset_cur_tuple
  reset_cur_tuple-InGroup last s h before = record {
    begins = (earlier s.ts_beg h).0;
    ends = (earlier s.ts_beg h).1;
    dated = refl;
    fresh = reset_fresh last s.ts_beg h before;
  }

  -- A flush that writes, and one that does not.
  next_group-Grouped :
      (last : ℤ) (s : GroupState W)
      → InGroup last s
      → Grouped last s (ok (next_group exprs ts_begin group_by s))
  unfolding next_group flush_group reset_cur_tuple
  next_group-Grouped last s i = elim (Bool-cases (v.lt v.zero s.tuple.count)) [
    | inl holds ↦
        rw (next_group, holds)
          (record {
            rows = s.tuple ∷ [];
            end = s.tuple.ts;
            state =
                reset_cur_tuple exprs ts_begin group_by
                  (record s { out = s.out ++ (write_tuple exprs s.tuple ++ endl ∷ []) }) s.ts_beg;
            returns = refl;
            out = ap (λ l. s.out ++ l) (sym (append_nil (write_tuple exprs s.tuple ++ endl ∷ [])));
            descends = (
              omega (int_laws, i.dated, i.begins),
              omega (int_laws, i.dated, begins_before last s i holds),
              holds,
              refl,
            );
            in_group =
                reset_cur_tuple-InGroup s.tuple.ts
                  (record s { out = s.out ++ (write_tuple exprs s.tuple ++ endl ∷ []) }) i.begins
                  (inl (omega (int_laws, i.dated)));
          })
    | inr empty ↦
        rw (next_group, empty)
          (Grouped-ok last s (reset_cur_tuple exprs ts_begin group_by s s.ts_beg) refl
            (reset_cur_tuple-InGroup last s i.begins (reset_before last s i)))
  ]

  -- A round that moves to the interval before.
  pub next_group-then :
      (last : ℤ) (s : GroupState W) (r : Result (GroupState W))
      → InGroup last s
      → ((end : ℤ)
          → InGroup end (next_group exprs ts_begin group_by s)
          → Grouped end (next_group exprs ts_begin group_by s) r)
      → Grouped last s r
  next_group-then last s r i k =
      Grouped-then last s (ok (next_group exprs ts_begin group_by s)) (λ s'. r)
        (next_group-Grouped last s i)
        (λ end s' e j.
          subst (λ n. Grouped end n r) (same s' e)
            (k end (subst (InGroup end) (sym (same s' e)) j)))
    where
      same :
          (s' : GroupState W)
          → ok (next_group exprs ts_begin group_by s) ≡ ok s'
          → next_group exprs ts_begin group_by s ≡ s'
      same s' e = cc
