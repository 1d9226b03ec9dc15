-- ===== src/Bytes.antt =====
-- Values as the bytes of a machine with the low byte first: what os.write((const char*)&x, sizeof(x))
-- writes and is.read gets back. A `double` is eight bytes, given by an interface.
pub mod Laws
use stats_rrdb.Prelude.{
  ℕ, zero, suc, ◌+◌, ◌-◌, ◌*◌, ◌/◌, ◌%◌, ◌^◌, ◌<◌, ◌≡◌, List, [], ◌∷◌, ◌++◌, length, take, drop,
  ltb, if◌then◌else◌,
}
use stats_rrdb.Prelude.Int.{ℤ, pos, negsuc}

-- The object representation of a `double`, and what the language says of it.
pub record Bytes (W : Type 0) : Type 0 where
  pub to_bytes : W → List ℕ
  pub of_bytes : List ℕ → W
  pub sized : (x : W) → length (to_bytes x) ≡ 8
  pub kept : (x : W) → of_bytes (to_bytes x) ≡ x

-- An unsigned number in w bytes.
pub le : ℕ → ℕ → List ℕ
le zero n = []
le (suc w) n = n % 256 ∷ le w (n / 256)

pub from_le : List ℕ → ℕ
from_le [] = 0
from_le (b ∷ bs) = b + 256 * from_le bs

-- An `int64_t` as its bit pattern.
pub to_u64 : ℤ → ℕ
to_u64 (pos n) = n % 2 ^ 64
to_u64 (negsuc n) = 2 ^ 64 - 1 - n % 2 ^ 64

pub of_u64 : ℕ → ℤ
of_u64 n = if ltb n (2 ^ 63) then pos n else negsuc (2 ^ 64 - 1 - n)

-- What fits an `int64_t`.
abbrev pub IsI64 : ℤ → Type 0
IsI64 (pos n) = n < 2 ^ 63
IsI64 (negsuc n) = n < 2 ^ 63

-- The next field of a struct, and the bytes behind it.
pub uint : ℕ → List ℕ → ℕ × List ℕ
unfolding from_le
uint w bs = (from_le (take w bs), drop w bs)

pub int64 : List ℕ → ℤ × List ℕ
unfolding from_le of_u64
int64 bs = (of_u64 (from_le (take 8 bs)), drop 8 bs)

pub float64 : {W : Type 0} ⦃b : Bytes W⦄ → List ℕ → W × List ℕ
float64 ⦃b⦄ bs = (b.of_bytes (take 8 bs), drop 8 bs)
