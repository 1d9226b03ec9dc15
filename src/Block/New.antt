-- ===== src/Block/New.antt =====
-- The constructor of rrdb_metric_block (src/rrdb/rrdb_metric_block.cpp) makes a well-formed block.
use stats_rrdb.Prelude.{
  ℕ, zero, suc, ◌*◌, ◌<◌, ◌≡◌, refl, ap, ◌∙◌, some, List, length-replicate, get_or-replicate, arith,
  lt→ltb, ==_iff,
}
use stats_rrdb.Prelude.Int.{pos, ◌-ℤ◌, int_laws}
use stats_rrdb.Prelude.Result.{ok}
use stats_rrdb.Value.{Value}
use stats_rrdb.Tuple.{Tuple, zero_tuple, new_tuples, sizeof_tuple}
use stats_rrdb.Block.{Header, u32_mod, new_header, new_block, set_last_block}
use stats_rrdb.Block.Find.Ages.{Shape, IsRing, age, back}

new-Shape :
    (freq count offset : ℕ)
    → 0 < freq
    → 0 < count
    → freq * count < u32_mod
    → Shape (new_header freq count offset)
unfolding new_header
new-Shape freq count offset hf hc fits = record {
  freq_pos = hf;
  cur_in = hc;
  count_in = grind arith;
  duration_is = omega arith;
  data_size_is = refl;
}

module _ {W : Type 0} ⦃v : Value W⦄ where
  pub new_block-ok :
      (freq count offset : ℕ)
      → 0 < count
      → new_block {W = W} freq count offset
        ≡ ok (record { header = new_header freq count offset; modified = some (new_tuples count) })
  unfolding new_block new_header
  new_block-ok freq count offset h = rw (
    length-replicate count (zero_tuple {W = W}),
    lt→ltb 0 count h,
    lt→ltb 0 (count * sizeof_tuple) (omega arith),
    (==_iff count count).1 refl,
    (==_iff (count * sizeof_tuple) (count * sizeof_tuple)).1 refl,
  )

  -- A new block with a duration that fits 32 bits is a ring of zeroed slots, the current one at the
  -- epoch.
  pub new-IsRing :
      (freq count offset : ℕ)
      → 0 < freq
      → 0 < count
      → freq * count < u32_mod
      → IsRing {W = W} (new_header freq count offset) (new_tuples count)
  unfolding new_header age
  new-IsRing freq count offset hf hc fits = record {
    shape = new-Shape freq count offset hf hc fits;
    sized = length-replicate count zero_tuple;
    filled = 1;
    filled_in = omega arith;
    stamped = λ k hk.
        ap (λ (t : Tuple W). t.ts) (get_or-replicate count (back count 0 k) zero_tuple)
        ∙ epoch k hk;
    blank = λ k lo hi. get_or-replicate count (back count 0 k) zero_tuple;
  }
    where
      epoch : (k : ℕ) → k < 1 → pos 0 ≡ pos 0 -ℤ pos (k * freq)
      epoch zero hk = omega int_laws
      epoch (suc k) hk = absurd (omega arith)

  pub last-IsRing :
      {h : Header} {tuples : List (Tuple W)} → IsRing h tuples → IsRing (set_last_block h) tuples
  unfolding set_last_block
  last-IsRing r = record {
    shape = record {
      freq_pos = r.shape.freq_pos;
      cur_in = r.shape.cur_in;
      count_in = r.shape.count_in;
      duration_is = r.shape.duration_is;
      data_size_is = r.shape.data_size_is;
    };
    sized = r.sized;
    filled = r.filled;
    filled_in = r.filled_in;
    stamped = r.stamped;
    blank = r.blank;
  }
