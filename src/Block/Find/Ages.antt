-- ===== src/Block/Find/Ages.antt =====
-- The circular buffer read by age: the slot of age k is k steps before the current one. What the
-- positions of src/rrdb/rrdb_metric_block.h do to ages, and the order that a block's slots keep.
use stats_rrdb.Prelude.{
  ℕ, suc, ◌+◌, ◌-◌, ◌*◌, ◌≤◌, ◌<◌, ◌≡◌, ◌≢◌, ap, List, length, get_or, set, get_or-set_self,
  get_or-set_ne, arith, leb, if◌then◌else◌,
}
use stats_rrdb.Prelude.Int.{pos, ◌-ℤ◌}
use stats_rrdb.Value.{Value}
use stats_rrdb.Tuple.{Tuple, sizeof_tuple, zero_tuple}
use stats_rrdb.Block.{Header, u32_mod, get_next_pos, get_prev_pos}

-- The position of age k, from the current position.
pub back : ℕ → ℕ → ℕ → ℕ
back count cur k = if leb k cur then cur - k else cur + count - k

pub back-lt : (count cur k : ℕ) → cur < count → k < count → back count cur k < count
unfolding back
back-lt count cur k h hk = ground arith

pub back_inj :
    (count cur i j : ℕ)
    → cur < count
    → i < count
    → j < count
    → i ≢ j
    → back count cur i ≢ back count cur j
unfolding back
back_inj count cur i j h hi hj n = ground arith

pub back_zero : (count cur : ℕ) → back count cur 0 ≡ cur
unfolding back
back_zero count cur = ground arith

pub cur-ne-back : (count cur k : ℕ) → cur < count → suc k < count → cur ≢ back count cur (suc k)
unfolding back
cur-ne-back count cur k h hk = ground arith

-- A full turn leads back to the current position.
pub back_full : (count cur : ℕ) → cur < count → back count cur count ≡ cur
unfolding back
back_full count cur h = ground arith

pub get_prev_pos-back :
    (h : Header) (k : ℕ)
    → h.cur < h.count
    → h.count < u32_mod
    → k < h.count
    → get_prev_pos h (back h.count h.cur k) ≡ back h.count h.cur (suc k)
unfolding back get_prev_pos
get_prev_pos-back h k p q hk = ground arith

pub get_next_pos-lt : (h : Header) (p : ℕ) → p < h.count → get_next_pos h p < h.count
unfolding get_next_pos
get_next_pos-lt h p q = ground arith

pub get_next_pos-back :
    (h : Header) (p k : ℕ)
    → p < h.count
    → h.count < u32_mod
    → suc k < h.count
    → back h.count (get_next_pos h p) (suc k) ≡ back h.count p k
unfolding back get_next_pos
get_next_pos-back h p k q r hk = ground arith

-- The fields of a header agree with one another.
pub record Shape (h : Header) : Type 0 where
  pub freq_pos : 0 < h.freq
  pub cur_in : h.cur < h.count
  pub count_in : h.count < u32_mod
  pub duration_is : h.duration ≡ h.freq * h.count
  pub data_size_is : h.data_size ≡ h.count * sizeof_tuple

module _ {W : Type 0} ⦃v : Value W⦄ where
  unfoldable pub age : ℕ → ℕ → List (Tuple W) → ℕ → Tuple W
  age count cur tuples k = get_or tuples (back count cur k) zero_tuple

  -- The `filled` youngest slots are consecutive in time, and the rest of the array is zeroed.
  pub record IsRing (h : Header) (tuples : List (Tuple W)) : Type 0 where
    pub shape : Shape h
    pub sized : length tuples ≡ h.count
    pub filled : ℕ
    pub filled_in : (0 < filled) × (filled ≤ h.count)
    pub stamped :
        (k : ℕ) → k < filled → (age h.count h.cur tuples k).ts ≡ h.cur_ts -ℤ pos (k * h.freq)
    pub blank : (k : ℕ) → filled ≤ k → k < h.count → age h.count h.cur tuples k ≡ zero_tuple

  pub age-set_self :
      (count cur : ℕ) (tuples : List (Tuple W)) (k : ℕ) (t : Tuple W)
      → length tuples ≡ count
      → cur < count
      → k < count
      → age count cur (set tuples (back count cur k) t) k ≡ t
  unfolding age
  age-set_self count cur tuples k t e h hk =
      get_or-set_self tuples (back count cur k) t zero_tuple
        (omega (arith, back-lt count cur k h hk))

  pub age-set_ne :
      (count cur : ℕ) (tuples : List (Tuple W)) (i j : ℕ) (t : Tuple W)
      → cur < count
      → i < count
      → j < count
      → i ≢ j
      → age count cur (set tuples (back count cur i) t) j ≡ age count cur tuples j
  unfolding age
  age-set_ne count cur tuples i j t h hi hj n =
      get_or-set_ne tuples (back count cur i) (back count cur j) t zero_tuple
        (back_inj count cur i j h hi hj n)

  -- A write at the current position is seen at age 0 only.
  pub age-set_cur :
      (count cur : ℕ) (tuples : List (Tuple W)) (t : Tuple W)
      → length tuples ≡ count
      → cur < count
      → age count cur (set tuples cur t) 0 ≡ t
  unfolding age
  age-set_cur count cur tuples t e h =
      rw (back_zero count cur) (get_or-set_self tuples cur t zero_tuple (omega arith))

  pub age-set_older :
      (count cur : ℕ) (tuples : List (Tuple W)) (t : Tuple W) (k : ℕ)
      → cur < count
      → suc k < count
      → age count cur (set tuples cur t) (suc k) ≡ age count cur tuples (suc k)
  unfolding age
  age-set_older count cur tuples t k h hk =
      get_or-set_ne tuples cur (back count cur (suc k)) t zero_tuple (cur-ne-back count cur k h hk)

  -- Seen from the next position, every slot is one step older.
  pub age_next :
      (h : Header) (tuples : List (Tuple W)) (k : ℕ)
      → h.cur < h.count
      → h.count < u32_mod
      → suc k < h.count
      → age h.count (get_next_pos h h.cur) tuples (suc k) ≡ age h.count h.cur tuples k
  unfolding age
  age_next h tuples k p q hk =
      ap (λ i. get_or tuples i zero_tuple) (get_next_pos-back h h.cur k p q hk)
