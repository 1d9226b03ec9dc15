-- ===== src/Metric/Update.antt =====
-- rrdb_metric::update of src/rrdb/rrdb_metric.cpp.
pub mod Laws
use stats_rrdb.Prelude.{
  ℕ, Bool, true, false, Option, none, some, List, [], ◌∷◌, length, ltb, ◌==◌, if◌then◌else◌,
}
use stats_rrdb.Prelude.Int.{ℤ, leb_ℤ}
use stats_rrdb.Prelude.Result.{Result, ok, err, check, ◌>>=◌, ◌>>◌, require}
use stats_rrdb.Value.{Value}
use stats_rrdb.Block.{Block, UpdateCtx, UpdateState, stop, single, rollup, get_normalized_ts}
use stats_rrdb.Block.Update
use stats_rrdb.Metric.{Metric, Cell, set_dirty, check_metric}

module _ {W : Type 0} ⦃v : Value W⦄ where
  abbrev pub is_stop : UpdateCtx W → Bool
  is_stop c = elim c.state [ stop ↦ true | single ↦ false | rollup ↦ false ]

  -- One block's update; its array is in memory afterwards.
  pub update_cell : Cell W → UpdateCtx W → UpdateCtx W → Result (Cell W × UpdateCtx W)
  update_cell c input out = do
    u ← Update.update c.block c.fetched input out
    ok (record { block = u.block; fetched = ok u.tuples }, u.out)

  -- The loop over the blocks. `one` and `two` are swapped from block to block, to avoid copying.
  pub cascade : ℕ → List (Cell W) → UpdateCtx W → UpdateCtx W → Result (List (Cell W))
  cascade ii [] one two = ok []
  cascade ii (c ∷ cs) one two = elim (ii == 1) [
    | true ↦ do
      (c', two') ← update_cell c one two
      let more = cascade 2 cs one two'
      cs' ← if is_stop two' then ok cs else more
      ok (c' ∷ cs')
    | false ↦ do
      (c', one') ← update_cell c two one
      let more = cascade 1 cs one' two
      cs' ← if is_stop one' then ok cs else more
      ok (c' ∷ cs')
  ]

  -- "update last value if new is greater"
  pub note_last : Metric W → ℤ → W → Metric W
  note_last m ts value =
      if leb_ℤ m.last_value_ts ts then record m { last_value_ts = ts; last_value = value } else m

  abbrev pub front_normalized : List (Cell W) → ℤ → Result ℤ
  front_normalized [] ts = err check
  front_normalized (c ∷ cs) ts = ok (get_normalized_ts c.block.header ts)

  -- `one` and `two` are what the two contexts hold before they are set: the C++ leaves them
  -- uninitialised.
  pub update : UpdateCtx W → UpdateCtx W → Metric W → ℤ → W → Result (Metric W)
  unfolding update_cell cascade note_last
  update one two m ts value = do
    check_metric m
    let m' = note_last (set_dirty m) ts value
    ts' ← front_normalized m'.blocks ts
    blocks ← cascade 1 m'.blocks (record one { state = single; ts = ts'; value = value }) two
    ok (record m' { blocks = blocks })
