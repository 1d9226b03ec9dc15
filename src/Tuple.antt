-- ===== src/Tuple.antt =====
-- src/rrdb/rrdb_metric_tuple.h and .cpp: the aggregated tuple of a time slot, and how it is updated.
-- The array `t_rrdb_metric_tuples` is a list; its allocation and its reference count are not
-- modelled.
pub mod Bounds
pub mod Output
use stats_rrdb.Prelude.{ℕ, ◌*◌, Bool, ◌||◌, List, length, get_or, replicate, ltb, if◌then◌else◌}
use stats_rrdb.Prelude.Int.{ℤ, pos}
use stats_rrdb.Prelude.Result.{Result, ok, ◌>>=◌, ◌>>◌, require}
use stats_rrdb.Value.{Value}

pub record Tuple (W : Type 0) : Type 0 where
  pub ts : ℤ
  pub count : W
  pub sum : W
  pub sum_sqr : W
  pub min : W
  pub max : W

-- sizeof(t_rrdb_metric_tuple): six fields of eight bytes.
abbrev pub sizeof_tuple : ℕ
sizeof_tuple = 48

module _ {W : Type 0} ⦃v : Value W⦄ where
  -- What `memset(tuple, 0, sizeof(*tuple))` leaves.
  abbrev pub zero_tuple : Tuple W
  zero_tuple = record {
    ts = pos 0;
    count = v.zero;
    sum = v.zero;
    sum_sqr = v.zero;
    min = v.zero;
    max = v.zero;
  }

  -- rrdb_metric_tuple_update(tuple, value)
  unfoldable pub update_value : Tuple W → W → Tuple W
  update_value t x = record t {
    min = if v.lt x t.min || v.eq t.count v.zero then x else t.min;
    max = if v.lt t.max x || v.eq t.count v.zero then x else t.max;
    sum = v.add t.sum x;
    sum_sqr = v.add t.sum_sqr (v.mul x x);
    count = v.add t.count (v.of_int (pos 1));
  }

  -- rrdb_metric_tuple_update(tuple, other)
  unfoldable pub update_tuple : Tuple W → Tuple W → Tuple W
  update_tuple t o = record t {
    min = if v.lt o.min t.min || v.eq t.count v.zero then o.min else t.min;
    max = if v.lt t.max o.max || v.eq t.count v.zero then o.max else t.max;
    sum = v.add t.sum o.sum;
    sum_sqr = v.add t.sum_sqr o.sum_sqr;
    count = v.add t.count o.count;
  }

  -- rrdb_metric_tuple_update(tuple, other, factor)
  unfoldable pub update_part : Tuple W → Tuple W → W → Tuple W
  update_part t o factor = record t {
    min = if v.lt o.min t.min || v.eq t.count v.zero then o.min else t.min;
    max = if v.lt t.max o.max || v.eq t.count v.zero then o.max else t.max;
    sum = v.add t.sum (v.mul factor o.sum);
    sum_sqr = v.add t.sum_sqr (v.mul factor o.sum_sqr);
    count = v.add t.count (v.mul factor o.count);
  }

  -- The array of `size` tuples that the constructor makes and zeroes.
  abbrev pub new_tuples : ℕ → List (Tuple W)
  new_tuples size = replicate size zero_tuple

  abbrev pub get_memory_size : List (Tuple W) → ℕ
  get_memory_size tuples = length tuples * sizeof_tuple

  -- get_at and operator[]: a position out of bounds throws.
  abbrev pub get_at : List (Tuple W) → ℕ → Result (Tuple W)
  get_at tuples i = do require (ltb i (length tuples)); ok (get_or tuples i zero_tuple)
