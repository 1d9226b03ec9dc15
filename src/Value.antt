-- ===== src/Value.antt =====
-- `my::value_t` of src/common/types.h, a `double`: the operators that the code applies to it, as an
-- interface, and what its proofs use of them.
use stats_rrdb.Prelude.{ℕ, ◌+◌, ◌-◌, ◌*◌, ◌/◌, ◌≡◌, ◌⊎◌, Bool, true, false, arith, ltb, ◌==◌}
use stats_rrdb.Prelude.Int.{ℤ, pos, pos_part}

pub record Value (W : Type 0) : Type 0 where
  pub zero : W
  pub add : W → W → W
  pub mul : W → W → W
  pub sub : W → W → W
  pub div : W → W → W
  pub sqrt : W → W
  pub lt : W → W → Bool
  pub eq : W → W → Bool
  pub of_int : ℤ → W

-- What IEEE 754 says of these comparisons, NaN included, and of a counter that grows from zero.
pub record IsOrdered (W : Type 0) ⦃v : Value W⦄ : Type 0 where
  pub lt_irrefl : (x : W) → v.lt x x ≡ false
  pub lt_trans : (x y z : W) → v.lt x y ≡ true → v.lt y z ≡ true → v.lt x z ≡ true
  pub lt_split :
      (x y z : W) → v.eq y y ≡ true → v.lt x z ≡ true → (v.lt x y ≡ true) ⊎ (v.lt y z ≡ true)
  pub zero_eq : v.eq v.zero v.zero ≡ true
  pub pos_ne : (x : W) → v.lt v.zero x ≡ true → v.eq x v.zero ≡ false
  pub one_pos : v.lt v.zero (v.add v.zero (v.of_int (pos 1))) ≡ true
  pub suc_pos : (x : W) → v.lt v.zero x ≡ true → v.lt v.zero (v.add x (v.of_int (pos 1))) ≡ true

-- The laws can be met: small whole numbers.
instance abbrev pub nat_value : Value ℕ
nat_value = record {
  zero = 0;
  add = λ a b. a + b;
  mul = λ a b. a * b;
  sub = λ a b. a - b;
  div = λ a b. a / b;
  sqrt = λ a. a;
  lt = ltb;
  eq = λ a b. a == b;
  of_int = pos_part;
}

pub nat-IsOrdered : IsOrdered ℕ
nat-IsOrdered = ground arith
