-- ===== src/Groups/Loops.antt =====
-- Both loops of append in src/rrdb/rrdb.cpp's walker with GROUP BY end, and keep the rows in order.
use stats_rrdb.Prelude.{
  ℕ, zero, suc, ◌+◌, ◌≤◌, ◌<◌, ◌≡◌, inl, inr, refl, ◌∙◌, true, ◌&&◌, Bool-cases, List, arith,
}
use stats_rrdb.Prelude.Int.{ℤ, pos, pos_part, ◌+ℤ◌, ◌-ℤ◌, ◌≤ℤ◌, ◌<ℤ◌, leb_ℤ, ltb_ℤ, max_ℤ, int_laws}
use stats_rrdb.Value.{Value, IsOrdered}
use stats_rrdb.Tuple.{Tuple, update_tuple, update_part}
use stats_rrdb.Tuple.Output.{Extractor}
use stats_rrdb.Groups.{
  GroupState, reset_cur_tuple, next_group, skip_groups, add_overlap, weigh, cover_groups,
  append_group,
}
use stats_rrdb.Groups.Order.{
  next_group-then, Grouped-same, Grouped-then, Grouped-ok, earlier, InGroup, Grouped,
}

module _ {W : Type 0} ⦃v : Value W⦄ ⦃o : IsOrdered W⦄ (exprs : List (Extractor W)) (ts_begin : ℤ)
    (group_by : ℕ) (some_group : 0 < group_by) where
  next_place :
      (s : GroupState W)
      → ((next_group exprs ts_begin group_by s).ts ≡ s.ts_beg)
        × ((next_group exprs ts_begin group_by s).ts_beg
            ≡ max_ℤ (s.ts_beg -ℤ pos group_by) ts_begin)
  unfolding next_group reset_cur_tuple
  next_place s = (refl, refl)

  closer : (a c : ℤ) → a <ℤ c → ts_begin ≤ℤ a → pos_part (a -ℤ ts_begin) < pos_part (c -ℤ ts_begin)
  unfolding ◌-ℤ◌
  closer a c h k = ground arith

  no_farther : (a c : ℤ) → a ≤ℤ c → pos_part (a -ℤ ts_begin) ≤ pos_part (c -ℤ ts_begin)
  unfolding ◌-ℤ◌
  no_farther a c h = ground arith

  skip_closer :
      (t : ℤ)
      → ts_begin ≤ℤ t
      → ts_begin <ℤ t
      → pos_part (max_ℤ (t -ℤ pos group_by) ts_begin -ℤ ts_begin) < pos_part (t -ℤ ts_begin)
  skip_closer t h late = elim (earlier exprs ts_begin group_by some_group t h).2 [
    | inl moved ↦
        closer (max_ℤ (t -ℤ pos group_by) ts_begin) t moved
          (earlier exprs ts_begin group_by some_group t h).0
    | inr through ↦ absurd (omega arith)
  ]

  skip_groups-Grouped :
      (f : ℕ) (last : ℤ) (s : GroupState W) (tuple_end : ℤ)
      → ts_begin <ℤ tuple_end
      → pos_part (s.ts_beg -ℤ ts_begin) ≤ f
      → InGroup exprs ts_begin group_by some_group last s
      → Grouped exprs ts_begin group_by some_group last s
          (skip_groups exprs ts_begin group_by f s tuple_end)
  unfolding skip_groups
  skip_groups-Grouped zero last s tuple_end late enough i =
      elim (Bool-cases (leb_ℤ tuple_end s.ts_beg)) [
        | inl behind ↦ absurd (omega int_laws)
        | inr reached ↦ rw reached (Grouped-ok exprs ts_begin group_by some_group last s s refl i)
      ]
  skip_groups-Grouped (suc f) last s tuple_end late enough i =
      elim (Bool-cases (leb_ℤ tuple_end s.ts_beg)) [
        | inl behind ↦ rw behind (
            next_group-then exprs ts_begin group_by some_group last s
              (skip_groups exprs ts_begin group_by f (next_group exprs ts_begin group_by s)
                tuple_end)
              i
              (λ end j.
                skip_groups-Grouped f end (next_group exprs ts_begin group_by s) tuple_end late
                  (omega (arith, skip_closer s.ts_beg i.begins (omega int_laws), enough)) j))
        | inr reached ↦ rw reached (Grouped-ok exprs ts_begin group_by some_group last s s refl i)
      ]

  add_overlap-ts :
      (cur tuple : Tuple W) (interval : ℕ) (overlap : ℤ)
      → (add_overlap exprs ts_begin group_by cur tuple interval overlap).ts ≡ cur.ts
  unfolding add_overlap update_tuple update_part
  add_overlap-ts cur tuple interval overlap = elim (Bool-cases (leb_ℤ (pos interval) overlap)) [
    | inl whole ↦ rw whole refl
    | inr part ↦ elim (Bool-cases (ltb_ℤ (pos 0) overlap)) [
      | inl some_part ↦ rw (part, some_part) refl
      | inr apart ↦ rw (part, apart) refl
    ]
  ]

  weigh-ts :
      (s : GroupState W) (tuple : Tuple W) (interval : ℕ)
      → (weigh exprs ts_begin group_by s tuple interval).ts ≡ s.tuple.ts
  unfolding weigh
  weigh-ts s tuple interval = add_overlap-ts s.tuple tuple interval _

  weighed : GroupState W → Tuple W → ℕ → GroupState W
  weighed s tuple interval = record s { tuple = weigh exprs ts_begin group_by s tuple interval }

  weighed-InGroup :
      (last : ℤ) (s : GroupState W) (tuple : Tuple W) (interval : ℕ)
      → ts_begin <ℤ s.ts
      → InGroup exprs ts_begin group_by some_group last s
      → (s.ts_beg <ℤ last)
        × InGroup exprs ts_begin group_by some_group last (weighed s tuple interval)
  unfolding weighed
  weighed-InGroup last s tuple interval open_group i = elim i.fresh [
    | inl before ↦ (
      before,
      record {
        begins = i.begins;
        ends = i.ends;
        dated = weigh-ts s tuple interval ∙ i.dated;
        fresh = inl before;
      },
    )
    | inr (through, empty) ↦ absurd (omega arith)
  ]

  both : (a b c d : ℤ) → (ltb_ℤ a b && ltb_ℤ c d) ≡ true → (a <ℤ b) × (c <ℤ d)
  both a b c d h = ground arith

  -- A round of the second loop that is not the last one.
  cover_closer :
      (s : GroupState W)
      → ts_begin ≤ℤ s.ts_beg
      → s.ts_beg ≤ℤ s.ts
      → ts_begin <ℤ s.ts
      → pos_part (s.ts_beg -ℤ ts_begin)
          + pos_part (max_ℤ (s.ts_beg -ℤ pos group_by) ts_begin -ℤ ts_begin)
        < pos_part (s.ts -ℤ ts_begin) + pos_part (s.ts_beg -ℤ ts_begin)
  cover_closer s h k late = elim (earlier exprs ts_begin group_by some_group s.ts_beg h).2 [
    | inl moved ↦ omega (
      arith,
      no_farther s.ts_beg s.ts k,
      closer (max_ℤ (s.ts_beg -ℤ pos group_by) ts_begin) s.ts_beg moved
          (earlier exprs ts_begin group_by some_group s.ts_beg h).0,
    )
    | inr through ↦ omega (
      arith,
      closer s.ts_beg s.ts (omega arith) h,
      no_farther (max_ℤ (s.ts_beg -ℤ pos group_by) ts_begin) s.ts_beg
          (earlier exprs ts_begin group_by some_group s.ts_beg h).1,
    )
  ]

  cover_groups-Grouped :
      (f : ℕ) (last : ℤ) (s : GroupState W) (tuple : Tuple W) (interval : ℕ)
      → pos_part (s.ts -ℤ ts_begin) + pos_part (s.ts_beg -ℤ ts_begin) ≤ f
      → InGroup exprs ts_begin group_by some_group last s
      → Grouped exprs ts_begin group_by some_group last s
          (cover_groups exprs ts_begin group_by f s tuple interval)
  unfolding cover_groups weighed
  cover_groups-Grouped zero last s tuple interval enough i =
      elim (Bool-cases (ltb_ℤ tuple.ts s.ts && ltb_ℤ ts_begin s.ts)) [
        | inl going ↦ absurd (
            omega (
              arith,
              closer ts_begin s.ts (both tuple.ts s.ts ts_begin s.ts going).1 (omega arith),
            ))
        | inr over ↦ rw over (Grouped-ok exprs ts_begin group_by some_group last s s refl i)
      ]
  cover_groups-Grouped (suc f) last s tuple interval enough i =
      elim (Bool-cases (ltb_ℤ tuple.ts s.ts && ltb_ℤ ts_begin s.ts)) [
        | inr over ↦ rw over (Grouped-ok exprs ts_begin group_by some_group last s s refl i)
        | inl going ↦ elim (Bool-cases (leb_ℤ s.ts_beg tuple.ts)) [
          | inl inside ↦
              rw (going, inside)
                (Grouped-ok exprs ts_begin group_by some_group last s
                  (record (weighed s tuple interval) { ts = tuple.ts }) refl
                  (record {
                    begins = i.begins;
                    ends = omega int_laws;
                    dated = weigh-ts s tuple interval ∙ i.dated;
                    fresh =
                        inl
                          (weighed-InGroup last s tuple interval
                            (both tuple.ts s.ts ts_begin s.ts going).1 i).0;
                  }))
          | inr outside ↦
              rw (going, outside)
                (Grouped-same exprs ts_begin group_by some_group last s (weighed s tuple interval) _
                  refl
                  (next_group-then exprs ts_begin group_by some_group last
                    (weighed s tuple interval)
                    (cover_groups exprs ts_begin group_by f
                      (next_group exprs ts_begin group_by (weighed s tuple interval)) tuple
                      interval)
                    (weighed-InGroup last s tuple interval
                      (both tuple.ts s.ts ts_begin s.ts going).1 i).1
                    (λ end j.
                      cover_groups-Grouped f end
                        (next_group exprs ts_begin group_by (weighed s tuple interval)) tuple
                        interval
                        (omega (
                          arith,
                          enough,
                          cover_closer s i.begins i.ends (both tuple.ts s.ts ts_begin s.ts going).1,
                        ))
                        j)))
        ]
      ]

  -- With a positive GROUP BY, for a walker in order and a tuple that ends after the query's begin, both
  -- loops of append end: the walker is in order again, and it has written lines of tuples that hold
  -- values, begin in the query and come in the order of falling time, no time twice.
  pub append_group-Grouped :
      (last : ℤ) (s : GroupState W) (tuple : Tuple W) (interval : ℕ)
      → ts_begin <ℤ tuple.ts +ℤ pos interval
      → InGroup exprs ts_begin group_by some_group last s
      → Grouped exprs ts_begin group_by some_group last s
          (append_group exprs ts_begin group_by s tuple interval)
  unfolding append_group
  append_group-Grouped last s tuple interval late i =
      Grouped-then exprs ts_begin group_by some_group last s
        (skip_groups exprs ts_begin group_by (pos_part (s.ts_beg -ℤ ts_begin)) s
          (tuple.ts +ℤ pos interval))
        (λ s'.
          cover_groups exprs ts_begin group_by
            (pos_part (s'.ts -ℤ ts_begin) + pos_part (s'.ts_beg -ℤ ts_begin)) s' tuple interval)
        (skip_groups-Grouped (pos_part (s.ts_beg -ℤ ts_begin)) last s (tuple.ts +ℤ pos interval)
          late (omega arith) i)
        (λ end s' e j.
          cover_groups-Grouped (pos_part (s'.ts -ℤ ts_begin) + pos_part (s'.ts_beg -ℤ ts_begin)) end
            s' tuple interval (omega arith) j)
