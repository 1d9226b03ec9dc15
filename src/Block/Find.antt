-- ===== src/Block/Find.antt =====
-- rrdb_metric_block::find_tuple of src/rrdb/rrdb_metric_block.cpp: the slot for a timestamp.
-- The array is changed in place in the source; here the new contents are returned. Each loop visits
-- every slot at most once, so that `count` rounds of fuel are enough.
pub mod Ages
pub mod Advance
pub mod Behind
pub mod Spec
pub mod Rings
pub mod Cases
pub mod Total
use stats_rrdb.Prelude.{
  ℕ, zero, suc, true, false, Option, none, some, List, length, set, replicate, ltb, ◌==◌,
  if◌then◌else◌,
}
use stats_rrdb.Prelude.Int.{ℤ, pos, ◌+ℤ◌, ◌-ℤ◌, ltb_ℤ, leb_ℤ}
use stats_rrdb.Prelude.Result.{Result, ok, err, fuel, ◌>>=◌, ◌>>◌, require}
use stats_rrdb.Value.{Value}
use stats_rrdb.Tuple.{Tuple, zero_tuple, get_at}
use stats_rrdb.Block.{
  Header, UpdateCtx, stop, rollup, get_ts, get_earliest_ts, get_latest_possible_ts, get_next_pos,
  get_prev_pos, check_tuples,
}

-- What find_tuple leaves behind: header, array and `out`, and the slot that it returns, if any.
pub record Found (W : Type 0) : Type 0 where
  pub header : Header
  pub tuples : List (Tuple W)
  pub out : UpdateCtx W
  pub slot : Option ℕ

module _ {W : Type 0} ⦃v : Value W⦄ where
  -- The do-while loop: move the pointer on, reset the slot there, until the slot holds `ts`.
  pub advance : ℕ → Header → List (Tuple W) → ℤ → ℤ → Result (Header × List (Tuple W))
  advance zero h tuples next ts = err fuel
  advance (suc f) h tuples next ts = do
    let p = get_next_pos h h.cur
    tuple ← get_at tuples p
    let tuples' = set tuples p (record zero_tuple { ts = next })
    let h' = record h { cur = p; cur_ts = next }
    let next' = next +ℤ pos h.freq
    let more = advance f h' tuples' next' ts
    if leb_ℤ next' ts then more else ok (h', tuples')

  -- The for loop: walk back from the slot before the current one, set each slot's timestamp, and
  -- stop at the first slot that does not begin after `ts`.
  pub walk_back : ℕ → Header → List (Tuple W) → ℕ → ℤ → ℤ → Result (List (Tuple W) × Option ℕ)
  walk_back zero h tuples p tuple_ts ts = err fuel
  walk_back (suc f) h tuples p tuple_ts ts = elim (p == h.cur) [
    | true ↦ ok (tuples, none)
    | false ↦ do
      let tuple_ts' = tuple_ts -ℤ pos h.freq
      tuple ← get_at tuples p
      let tuples' = set tuples p (record tuple { ts = tuple_ts' })
      let more = walk_back f h tuples' (get_prev_pos h p) tuple_ts' ts
      if leb_ℤ tuple_ts' ts
          then (do require (ltb_ℤ ts (tuple_ts' +ℤ pos h.freq)); ok (tuples', some p))
          else more
  ]

  -- "complete shift forward": everything in the block is older than `ts` allows.
  pub find_far_ahead : Header → List (Tuple W) → UpdateCtx W → ℤ → Result (Found W)
  find_far_ahead h tuples out ts = do
    old ← get_at tuples h.cur
    let zeroed = replicate (length tuples) zero_tuple
    first ← get_at zeroed 0
    ok (record {
      header = record h { cur = 0; cur_ts = ts };
      tuples = set zeroed 0 (record first { ts = ts });
      out = record out { state = rollup; tuple = old };
      slot = some 0;
    })

  -- "somewhere ahead but not too much"
  pub find_ahead : Header → List (Tuple W) → UpdateCtx W → ℤ → Result (Found W)
  unfolding advance
  find_ahead h tuples out ts = do
    tuple ← get_at tuples h.cur
    let next = tuple.ts +ℤ pos h.freq
    if ltb_ℤ ts next
        then ok (record {
          header = h;
          tuples = tuples;
          out = record out { state = stop };
          slot = some h.cur;
        })
        else (do
          (h', tuples') ← advance h.count h tuples next ts
          ok (record {
            header = h';
            tuples = tuples';
            out = record out { state = rollup; tuple = tuple };
            slot = some h'.cur;
          }))

  -- "somewhere behind but not too much"
  pub find_behind : Header → List (Tuple W) → UpdateCtx W → ℤ → Result (Found W)
  unfolding walk_back
  find_behind h tuples input ts = do
    (tuples', slot) ← walk_back h.count h tuples (get_prev_pos h h.cur) h.cur_ts ts
    ok (record { header = h; tuples = tuples'; out = input; slot = slot })

  pub find_tuple : Header → List (Tuple W) → UpdateCtx W → UpdateCtx W → Result (Found W)
  find_tuple h tuples input out = do
    check_tuples h tuples
    require (ltb h.cur h.count)
    require (ltb 0 h.freq)
    ts ← get_ts input
    if leb_ℤ (get_latest_possible_ts h) ts
        then find_far_ahead h tuples out ts
        else if leb_ℤ h.cur_ts ts
        then find_ahead h tuples out ts
        else if leb_ℤ (get_earliest_ts h) ts
        then find_behind h tuples input ts
        else (do
          require (ltb_ℤ ts (get_earliest_ts h))
          ok (record { header = h; tuples = tuples; out = input; slot = none }))
