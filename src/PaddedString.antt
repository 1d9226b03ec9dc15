-- ===== src/PaddedString.antt =====
-- padded_string of src/common/utils.h and src/common/utils.cpp: a text with zeros behind it, up to a
-- multiple of eight bytes. A file is the list of its bytes, read and written from the front.
-- The header's two 16-bit fields are written in the byte order of the machine, the low byte first;
-- its unused fields are zero.
pub mod Laws
use stats_rrdb.Prelude.{
  ℕ, zero, suc, ◌+◌, ◌-◌, ◌*◌, ◌/◌, ◌%◌, ◌^◌, List, [], ◌∷◌, ◌++◌, Bool, length, replicate, ltb,
  ◌==◌,
}
use stats_rrdb.Prelude.Result.{Result, ok, err, io, ◌>>=◌, ◌>>◌, require}

pub record PaddedString : Type 0 where
  pub buf : List ℕ
  pub size : ℕ

abbrev pub pad_bytes : ℕ
pad_bytes = 8

-- sizeof(t_string_header)
abbrev pub sizeof_string_header : ℕ
sizeof_string_header = 8

-- `_size + (8 - _size % 8)`
unfoldable pub padded_size : ℕ → ℕ
padded_size n = n + (pad_bytes - n % pad_bytes)

-- reset: a buffer of zeros of the padded size, with the text copied over its front.
unfoldable pub reset : List ℕ → PaddedString
unfolding padded_size
reset str = record {
  buf = str ++ replicate (padded_size (length str) - length str) 0;
  size = length str;
}

unfoldable pub get_file_size : PaddedString → ℕ
get_file_size s = sizeof_string_header + length s.buf

abbrev pub is_empty : PaddedString → Bool
is_empty s = s.size == 0

abbrev pub cleared : PaddedString
cleared = record { buf = []; size = 0 }

-- A uint16_t in memory.
pub word16 : ℕ → List ℕ
word16 n = n % 2 ^ 8 ∷ n / 2 ^ 8 % 2 ^ 8 ∷ []

-- write: the bytes that it appends to the stream, and their number.
pub write : PaddedString → Result (List ℕ × ℕ)
unfolding word16
write s = do
  require (ltb s.size (length s.buf))
  ok (
    word16 s.size ++ word16 (length s.buf) ++ word16 0 ++ word16 0 ++ s.buf,
    sizeof_string_header + length s.buf,
  )

-- is.read(n): the next n bytes and the rest; a stream that is too short throws.
pub read_bytes : ℕ → List ℕ → Result (List ℕ × List ℕ)
read_bytes zero is = ok ([], is)
read_bytes (suc n) [] = err io
read_bytes (suc n) (b ∷ is) = do (bs, rest) ← read_bytes n is; ok (b ∷ bs, rest)

-- read: the string, and what is left of the stream.
pub read : List ℕ → Result (PaddedString × List ℕ)
unfolding read_bytes
read (s0 ∷ s1 ∷ p0 ∷ p1 ∷ _ ∷ _ ∷ _ ∷ _ ∷ is) = do
  let size = s0 + 2 ^ 8 * s1
  let padded = p0 + 2 ^ 8 * p1
  require (ltb size padded)
  (buf, rest) ← read_bytes padded is
  ok (record { buf = buf; size = size }, rest)
read _ = err io
