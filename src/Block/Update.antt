-- ===== src/Block/Update.antt =====
-- rrdb_metric_block::get_tuples and ::update of src/rrdb/rrdb_metric_block.cpp.
-- What the tuples cache finds, or the disk holds where it finds nothing, is the argument `fetched`.
-- The array is shared with the cache, so that `tuples` of the result is the array's new contents
-- whether or not the block keeps a pointer to it.
pub mod Laws
pub mod Total
use stats_rrdb.Prelude.{
  ℕ, ◌<◌, true, false, Option, none, some, List, length, get_or, set, ltb, if◌then◌else◌,
}
use stats_rrdb.Prelude.Int.{ℤ, pos, ◌+ℤ◌, ltb_ℤ, leb_ℤ, eqb_ℤ}
use stats_rrdb.Prelude.Result.{Result, ok, err, bad_state, ◌>>=◌, ◌>>◌, require}
use stats_rrdb.Value.{Value}
use stats_rrdb.Tuple.{Tuple, zero_tuple, update_value, update_tuple, get_at}
use stats_rrdb.Block.{Block, UpdateCtx, stop, single, rollup, get_ts, check_tuples}
use stats_rrdb.Block.Find.{Found, find_tuple}

pub record Updated (W : Type 0) : Type 0 where
  pub block : Block W
  pub tuples : List (Tuple W)
  pub out : UpdateCtx W

module _ {W : Type 0} ⦃v : Value W⦄ where
  unfoldable pub get_tuples : Block W → Result (List (Tuple W)) → Result (List (Tuple W))
  get_tuples b fetched = elim b.modified [
    | some tuples ↦ do require (ltb 0 (length tuples)); ok tuples
    | none ↦ do tuples ← fetched; require (ltb 0 (length tuples)); ok tuples
  ]

  -- The `switch` on the state of the incoming context.
  pub apply_ctx : UpdateCtx W → Tuple W → Result (Tuple W)
  apply_ctx input t = elim input.state [
    | stop ↦ err bad_state
    | single ↦ ok (update_value t input.value)
    | rollup ↦ ok (update_tuple t input.tuple)
  ]

  -- After find_tuple: no slot leaves the update to the next block, else the slot takes it.
  pub write_found : Block W → UpdateCtx W → Found W → Result (Updated W)
  unfolding apply_ctx
  write_found b input f = elim f.slot [
    | none ↦ ok (record {
      block = record {
        header = f.header;
        modified = elim b.modified [ none ↦ none | some old ↦ some f.tuples ];
      };
      tuples = f.tuples;
      out = f.out;
    })
    | some i ↦ do
      tuple ← get_at f.tuples i
      ts ← get_ts input
      require (leb_ℤ tuple.ts ts)
      require (ltb_ℤ ts (tuple.ts +ℤ pos f.header.freq))
      tuple' ← apply_ctx input tuple
      let tuples' = set f.tuples i tuple'
      ok (record {
        block = record { header = f.header; modified = some tuples' };
        tuples = tuples';
        out = f.out;
      })
  ]

  pub update : Block W → Result (List (Tuple W)) → UpdateCtx W → UpdateCtx W → Result (Updated W)
  unfolding get_tuples write_found
  update b fetched input out = do
    tuples ← get_tuples b fetched
    check_tuples b.header tuples
    current ← get_at tuples b.header.cur
    require (eqb_ℤ b.header.cur_ts current.ts)
    f ← find_tuple b.header tuples input out
    write_found b input f
