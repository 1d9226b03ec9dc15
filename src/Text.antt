-- ===== src/Text.antt =====
-- What the program writes to a stream, chunk by chunk; the standard library's formatting of a number
-- is left as it is. t_memory_buffer of src/common/memory_buffer.h is such a list.
use Prim.Native.Char.{code}
use Prim.Native.String.{String}
use stats_rrdb.Prelude.{ℕ, ◌+◌, ◌≡◌, List, [], ◌∷◌, ◌++◌, ◌==◌, if◌then◌else◌, arith}
use stats_rrdb.Prelude.Int.{ℤ}

pub data Chunk (W : Type 0) : Type 0 where
  str : String → Chunk W
  num : W → Chunk W
  int : ℤ → Chunk W
  nat : ℕ → Chunk W
  text : List ℕ → Chunk W

-- The characters of a text.
abbrev pub codes : String → List ℕ
codes String.[] = []
codes (String.◌∷◌ c s) = code c ∷ codes s

abbrev pub endl : {W : Type 0} → Chunk W
endl = str "\n"

-- The commas of a literal.
abbrev pub commas_in : String → ℕ
commas_in String.[] = 0
commas_in (String.◌∷◌ c s) = if code c == 44 then 1 + commas_in s else commas_in s

-- The commas of a name.
abbrev pub commas_of : List ℕ → ℕ
commas_of [] = 0
commas_of (c ∷ cs) = if c == 44 then 1 + commas_of cs else commas_of cs

-- The separators of a line: a number has none.
abbrev pub commas : {W : Type 0} → List (Chunk W) → ℕ
commas [] = 0
commas (str s ∷ cs) = commas_in s + commas cs
commas (num x ∷ cs) = commas cs
commas (int i ∷ cs) = commas cs
commas (nat n ∷ cs) = commas cs
commas (text n ∷ cs) = commas_of n + commas cs

pub commas-append :
    {W : Type 0} (cs bs : List (Chunk W)) → commas (cs ++ bs) ≡ commas cs + commas bs
commas-append [] bs = omega arith
commas-append (str s ∷ cs) bs = omega (arith, commas-append cs bs)
commas-append (num x ∷ cs) bs = commas-append cs bs
commas-append (int i ∷ cs) bs = commas-append cs bs
commas-append (nat n ∷ cs) bs = commas-append cs bs
commas-append (text n ∷ cs) bs = omega (arith, commas-append cs bs)
