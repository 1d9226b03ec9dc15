-- ===== src/Bytes/Laws.antt =====
-- What is written field by field is read back.
use native.Mathlib.Nat.{pow-suc}
use stats_rrdb.Prelude.{
  ℕ, zero, suc, ◌/◌, ◌^◌, ◌<◌, ◌≡◌, refl, ap, List, ◌++◌, length, take-append, drop-append, arith,
}
use stats_rrdb.Prelude.Int.{ℤ, pos, negsuc}
use stats_rrdb.Bytes.{Bytes, le, from_le, to_u64, of_u64, IsI64, uint, int64, float64}

pub length-le : (w n : ℕ) → length (le w n) ≡ w
unfolding le
length-le zero n = refl
length-le (suc w) n = ap suc (length-le w (n / 256))

from_le-le : (w n : ℕ) → n < 256 ^ w → from_le (le w n) ≡ n
unfolding le from_le
from_le-le zero n h = omega arith
from_le-le (suc w) n h = omega (arith, from_le-le w (n / 256) (omega (arith, pow-suc 256 w)))

pub uint-le : (w n : ℕ) (rest : List ℕ) → n < 256 ^ w → uint w (le w n ++ rest) ≡ (n, rest)
unfolding uint
uint-le w n rest h = rw (
  take-append w (le w n) rest (length-le w n),
  drop-append w (le w n) rest (length-le w n),
  from_le-le w n h,
)

of_u64-to_u64 : (z : ℤ) → IsI64 z → (of_u64 (to_u64 z) ≡ z) × (to_u64 z < 256 ^ 8)
unfolding of_u64 to_u64
of_u64-to_u64 (pos n) h = ground arith
of_u64-to_u64 (negsuc n) h = ground arith

pub int64-le : (z : ℤ) (rest : List ℕ) → IsI64 z → int64 (le 8 (to_u64 z) ++ rest) ≡ (z, rest)
unfolding int64
int64-le z rest h = rw (
  take-append 8 (le 8 (to_u64 z)) rest (length-le 8 (to_u64 z)),
  drop-append 8 (le 8 (to_u64 z)) rest (length-le 8 (to_u64 z)),
  from_le-le 8 (to_u64 z) (of_u64-to_u64 z h).1,
  (of_u64-to_u64 z h).0,
)

module _ {W : Type 0} ⦃b : Bytes W⦄ where
  pub float64-to_bytes : (x : W) (rest : List ℕ) → float64 (b.to_bytes x ++ rest) ≡ (x, rest)
  unfolding float64
  float64-to_bytes x rest = rw (
    take-append 8 (b.to_bytes x) rest (b.sized x),
    drop-append 8 (b.to_bytes x) rest (b.sized x),
    b.kept x,
  )
