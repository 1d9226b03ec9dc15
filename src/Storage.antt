-- ===== src/Storage.antt =====
-- What an fstream does to a file: a file is the list of its bytes, and a write at a position
-- overwrites what is there, makes the file longer where it has to, and leaves zeros in a gap.
pub mod Laws
pub mod Torn
use stats_rrdb.Prelude.{ℕ, zero, suc, ◌+◌, List, [], ◌∷◌, length, get_or, drop}

abbrev pub byte_at : List ℕ → ℕ → ℕ
byte_at file i = get_or file i 0

-- A write at the front.
pub overwrite : List ℕ → List ℕ → List ℕ
overwrite [] file = file
overwrite (b ∷ bs) file = b ∷ overwrite bs (drop 1 file)

-- seekg to a position, and write.
pub write_at : ℕ → List ℕ → List ℕ → List ℕ
unfolding overwrite
write_at offset [] file = file
write_at zero (b ∷ bs) file = overwrite (b ∷ bs) file
write_at (suc offset) (b ∷ bs) [] = 0 ∷ write_at offset (b ∷ bs) []
write_at (suc offset) (b ∷ bs) (x ∷ file) = x ∷ write_at offset (b ∷ bs) file

-- A write that is still to be made.
pub record Write : Type 0 where
  pub offset : ℕ
  pub bytes : List ℕ

unfoldable pub apply_writes : List Write → List ℕ → List ℕ
unfolding write_at
apply_writes [] file = file
apply_writes (w ∷ ws) file = apply_writes ws (write_at w.offset w.bytes file)
