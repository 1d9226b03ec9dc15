-- ===== src/Metric/Update/Laws.antt =====
-- rrdb_metric::update of src/rrdb/rrdb_metric.cpp.
use stats_rrdb.Prelude.{
  suc, ◌<◌, ◌≡◌, refl, ap, ◌⊎◌, inl, inr, List, [], ◌∷◌, length, arith, true, false, if◌then◌else◌,
}
use stats_rrdb.Prelude.Int.{ℤ, ◌≤ℤ◌, ◌<ℤ◌}
use stats_rrdb.Prelude.Result.{Result, ok, ◌>>=◌}
use mathlib.Core.Path.{fun_ext}
use stats_rrdb.Value.{Value}
use stats_rrdb.Tuple.{Tuple}
use stats_rrdb.Block.{Header, UpdateCtx, single, get_ts, get_normalized_ts}
use stats_rrdb.Block.Find.Ages.{age}
use stats_rrdb.Block.Find.Advance.{moved_header}
use stats_rrdb.Block.Find.Spec.{Told, tell_stop, tell_rollup, tell_same}
use stats_rrdb.Block.Update
use stats_rrdb.Block.Update.{get_tuples}
use stats_rrdb.Block.Update.Laws.{Updates}
use stats_rrdb.Block.Update.Total.{update-Updates}
use stats_rrdb.Metric.{Metric, Cell, set_dirty, policy_of}
use stats_rrdb.Metric.Sound.{IsSound, AllSound, IsMetric, check_metric-ok}
use stats_rrdb.Metric.Update.{is_stop, update_cell, cascade, note_last, front_normalized, update}

module _ {W : Type 0} ⦃v : Value W⦄ where
  -- The loop without the two buffers: each block gets the message of the one before, until one says
  -- to stop. The buffer that a block writes its message to is the one that held the message before.
  pub chain : List (Cell W) → UpdateCtx W → UpdateCtx W → Result (List (Cell W))
  chain [] input out = ok []
  chain (c ∷ cs) input out = do
    (c', message) ← update_cell c input out
    let more = chain cs message input
    cs' ← if is_stop message then ok cs else more
    ok (c' ∷ cs')

  -- What the loop does after a block's update.
  after_cell :
      Result (Cell W × UpdateCtx W)
      → (UpdateCtx W → Result (List (Cell W)))
      → List (Cell W)
      → Result (List (Cell W))
  after_cell r more cs =
      r >>= λ u. (if is_stop u.1 then ok cs else more u.1) >>= λ rest. ok (u.0 ∷ rest)

  -- The alternating buffers of the loop pass every message on to the next block.
  pub cascade-chain :
      (cs : List (Cell W)) (one two : UpdateCtx W)
      → (cascade 1 cs one two ≡ chain cs one two) × (cascade 2 cs one two ≡ chain cs two one)
  unfolding cascade chain after_cell
  cascade-chain [] one two = (refl, refl)
  cascade-chain (c ∷ cs) one two = (
    ap (λ k. after_cell (update_cell c one two) k cs) (fun_ext λ m. (cascade-chain cs one m).1),
    ap (λ k. after_cell (update_cell c two one) k cs) (fun_ext λ m. (cascade-chain cs m two).0),
  )

  pub record CellUpdated (c : Cell W) (ts : ℤ) (r : Result (Cell W × UpdateCtx W)) : Type 0 where
    pub cell : Cell W
    pub message : UpdateCtx W
    pub returns : r ≡ ok (cell, message)
    pub sound : IsSound cell
    pub same_freq : cell.block.header.freq ≡ c.block.header.freq
    pub same_count : cell.block.header.count ≡ c.block.header.count
    pub goes_on : (is_stop message ≡ true) ⊎ ((ts' : ℤ) × (get_ts message ≡ ok ts'))

  Told-goes_on :
      {h : Header} {tuples : List (Tuple W)} {input out m : UpdateCtx W} {ts : ℤ}
      → get_ts input ≡ ok ts
      → Told h tuples input out ts m
      → (is_stop m ≡ true) ⊎ ((ts' : ℤ) × (get_ts m ≡ ok ts'))
  unfolding get_ts
  Told-goes_on e (tell_stop lo hi same) = inl (rw same)
  Told-goes_on {h} {tuples} e (tell_rollup past same) =
      inr ((age h.count h.cur tuples 0).ts, rw same)
  Told-goes_on {ts = ts} e (tell_same late same) = inr (ts, rw same e)

  update_cell-CellUpdated :
      (c : Cell W) (input out : UpdateCtx W) (ts : ℤ)
      → IsSound c
      → get_ts input ≡ ok ts
      → CellUpdated c ts (update_cell c input out)
  unfolding update_cell
  update_cell-CellUpdated c input out ts s e = record {
    cell = record {
      block = record { header = moved_header c.block.header u.at u.at_ts; modified = u.kept };
      fetched = ok u.result;
    };
    message = u.message;
    returns = rw u.returns;
    sound = record { tuples = u.result; got = u.coherent; ring = u.ring };
    same_freq = refl;
    same_count = refl;
    goes_on = Told-goes_on e u.told;
  }
    where
      u : Updates c.block.header s.tuples input out ts (Update.update c.block c.fetched input out)
      u = update-Updates c.block c.fetched input out ts s.got s.ring e

  runs : (m : UpdateCtx W) (ts : ℤ) → get_ts m ≡ ok ts → is_stop m ≡ false
  unfolding get_ts
  runs m ts e = ground arith

  -- The chain of updates returns, and leaves every block in order.
  pub record Chained (cs : List (Cell W)) (r : Result (List (Cell W))) : Type 0 where
    pub cells : List (Cell W)
    pub returns : r ≡ ok cells
    pub sound : AllSound cells
    pub same_length : length cells ≡ length cs
    pub same_policy : policy_of cells ≡ policy_of cs

  chain-Chained :
      (cs : List (Cell W)) (input out : UpdateCtx W) (ts : ℤ)
      → AllSound cs
      → get_ts input ≡ ok ts
      → Chained cs (chain cs input out)
  unfolding chain policy_of
  chain-Chained [] input out ts s e = record {
    cells = [];
    returns = refl;
    sound = tt;
    same_length = refl;
    same_policy = refl;
  }
  chain-Chained (c ∷ cs) input out ts s e =
      go u.goes_on (λ ts' e'. chain-Chained cs u.message input ts' s.1 e')
    where
      u : CellUpdated c ts (update_cell c input out)
      u = update_cell-CellUpdated c input out ts s.0 e

      go :
          (is_stop u.message ≡ true) ⊎ ((ts' : ℤ) × (get_ts u.message ≡ ok ts'))
          → ((ts' : ℤ) → get_ts u.message ≡ ok ts' → Chained cs (chain cs u.message input))
          → Chained (c ∷ cs) (chain (c ∷ cs) input out)
      go (inl st) rec = record {
        cells = u.cell ∷ cs;
        returns = rw (u.returns, st);
        sound = (u.sound, s.1);
        same_length = refl;
        same_policy = rw (u.same_freq, u.same_count);
      }
      go (inr (ts', e')) rec =
          let rest = rec ts' e' in
          record {
            cells = u.cell ∷ rest.cells;
            returns = rw (u.returns, runs u.message ts' e', rest.returns);
            sound = (u.sound, rest.sound);
            same_length = ap suc rest.same_length;
            same_policy = rw (u.same_freq, u.same_count, rest.same_policy);
          }

  front-ok :
      (cs : List (Cell W)) (ts : ℤ) → 0 < length cs → (ts' : ℤ) × (front_normalized cs ts ≡ ok ts')
  front-ok [] ts h = absurd (omega arith)
  front-ok (c ∷ cs) ts h = (get_normalized_ts c.block.header ts, refl)

  pub record MetricUpdated (m : Metric W) (ts : ℤ) (value : W) (r : Result (Metric W))
      : Type 0 where
    pub metric : Metric W
    pub returns : r ≡ ok metric
    pub sound : IsMetric metric
    pub same_policy : policy_of metric.blocks ≡ policy_of m.blocks
    pub same_name : (metric.name ≡ m.name) × (metric.filename ≡ m.filename)
    pub newer : m.last_value_ts ≤ℤ ts → (metric.last_value_ts ≡ ts) × (metric.last_value ≡ value)
    pub older :
        ts <ℤ m.last_value_ts
        → (metric.last_value_ts ≡ m.last_value_ts) × (metric.last_value ≡ m.last_value)

  note_last_blocks :
      (m : Metric W) (ts : ℤ) (value : W) → (note_last (set_dirty m) ts value).blocks ≡ m.blocks
  unfolding note_last set_dirty
  note_last_blocks m ts value = ground arith

  noted :
      (m : Metric W) (ts : ℤ) (value : W) (cells : List (Cell W)) {r : Result (Metric W)}
      → IsMetric m
      → AllSound cells
      → length cells ≡ length m.blocks
      → policy_of cells ≡ policy_of m.blocks
      → r ≡ ok (record (note_last (set_dirty m) ts value) { blocks = cells })
      → MetricUpdated m ts value r
  unfolding note_last set_dirty
  noted m ts value cells i s l p e = record {
    metric = record (note_last (set_dirty m) ts value) { blocks = cells };
    returns = e;
    sound = record {
      named = ground (arith, i.named);
      has_blocks = omega (arith, l, i.has_blocks);
      counted = ground (arith, l, i.counted);
      sound = s;
    };
    same_policy = p;
    same_name = ground arith;
    newer = λ h. ground arith;
    older = λ h. ground arith;
  }

  -- An update of a metric in order returns for every timestamp and value, whatever the two contexts
  -- hold before: every block stays in order, the policy and the names stay, and the last value is
  -- replaced exactly when the new one is not older.
  pub update-MetricUpdated :
      (one two : UpdateCtx W) (m : Metric W) (ts : ℤ) (value : W)
      → IsMetric m
      → MetricUpdated m ts value (update one two m ts value)
  unfolding update get_ts
  update-MetricUpdated one two m ts value i =
      let (ts', front) = front-ok m.blocks ts i.has_blocks in
      let input : UpdateCtx W = record one { state = single; ts = ts'; value = value } in
      let c : Chained m.blocks (chain m.blocks input two) =
        chain-Chained m.blocks input two ts' i.sound refl in
      noted m ts value c.cells i c.sound c.same_length c.same_policy (
        rw (
          check_metric-ok i,
          note_last_blocks m ts value,
          front,
          (cascade-chain m.blocks input two).0,
          c.returns,
        ))
