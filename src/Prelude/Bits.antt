-- ===== src/Prelude/Bits.antt =====
-- The lowest bit under `&`, from the digits of the native operation.
use Prim.Native.Nat.{min, digits, bit_and, bit_and-bitwise}
use stats_rrdb.Prelude.{ℕ, zero, suc, ◌*◌, ◌/◌, ◌%◌, ◌≤◌, ◌≡◌, refl, arith}

digits-zero : (n a : ℕ) → digits (λ y. 0) min n a 0 ≡ 0
digits-zero zero a = refl
digits-zero (suc n) zero = refl
digits-zero (suc n) (suc a) = omega (arith, digits-zero n (suc a / 2))

low_bit : (a b : ℕ) → b % 2 ≡ 0 → bit_and a b % 2 ≡ 0
low_bit zero b h = rw bit_and-bitwise refl
low_bit (suc a) b h = rw bit_and-bitwise (omega arith)

and_one : (a : ℕ) → a % 2 ≡ 0 → bit_and a 1 ≡ 0
and_one zero h = rw bit_and-bitwise refl
and_one (suc a) h = rw bit_and-bitwise (omega (arith, digits-zero a (suc a / 2)))

-- An even mask clears the lowest bit.
pub bit_and-and_even : (a mask : ℕ) → mask % 2 ≡ 0 → bit_and (bit_and a mask) 1 ≡ 0
bit_and-and_even a mask h = and_one (bit_and a mask) (low_bit a mask h)

digits-one : (n a : ℕ) → a ≤ n → digits (λ y. 0) min n a 1 ≡ a % 2
digits-one zero zero h = refl
digits-one zero (suc a) h = absurd (omega arith)
digits-one (suc n) zero h = refl
digits-one (suc n) (suc a) h = omega (arith, digits-zero n (suc a / 2))

and_two : (a : ℕ) → bit_and a 2 ≡ a / 2 % 2 * 2
and_two zero = rw bit_and-bitwise refl
and_two (suc a) = rw bit_and-bitwise (omega (arith, digits-one a (suc a / 2) (omega arith)))

digits-low : (n a b : ℕ) → a ≤ n → digits (λ y. 0) min n a b % 2 ≡ min (a % 2) (b % 2)
digits-low zero zero b h = omega arith
digits-low zero (suc a) b h = absurd (omega arith)
digits-low (suc n) zero b h = omega arith
digits-low (suc n) (suc a) b h = omega arith

second_bit : (a b : ℕ) → bit_and a b / 2 % 2 ≡ min (a / 2 % 2) (b / 2 % 2)
second_bit zero b = rw bit_and-bitwise (omega arith)
second_bit (suc a) b =
    rw bit_and-bitwise (omega (arith, digits-low a (suc a / 2) (b / 2) (omega arith)))

-- A number whose second bit is clear keeps it so under a mask.
pub bit_and-and_two : (a mask : ℕ) → bit_and a 2 ≡ 0 → bit_and (bit_and a mask) 2 ≡ 0
bit_and-and_two a mask h = omega (arith, and_two a, and_two (bit_and a mask), second_bit a mask)
