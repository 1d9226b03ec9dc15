-- ===== src/PaddedString/Laws.antt =====
-- The layout of padded_string and its round trip through a file.
use stats_rrdb.Prelude.{
  ℕ, ◌+◌, ◌*◌, ◌/◌, ◌%◌, ◌^◌, ◌<◌, ◌≤◌, ◌≡◌, refl, sym, ap, ◌∙◌, List, [], ◌∷◌, ◌++◌, length,
  length-append, length-replicate, arith, lt→ltb,
}
use stats_rrdb.Prelude.Result.{ok}
use stats_rrdb.PaddedString.{
  PaddedString, padded_size, reset, get_file_size, word16, write, read_bytes, read,
}

-- The buffer is longer than the text, by at most eight bytes, so that a zero ends it, and its length
-- is a multiple of eight.
pub length-reset :
    (str : List ℕ)
    → let n = length (reset str).buf in (n % 8 ≡ 0) × (length str < n) × (n ≤ length str + 8)
unfolding reset padded_size
length-reset str = omega (arith, length-append {0}, length-replicate {0})

read_bytes-append : (bs rest : List ℕ) → read_bytes (length bs) (bs ++ rest) ≡ ok (bs, rest)
unfolding read_bytes
read_bytes-append [] rest = refl
read_bytes-append (b ∷ bs) rest = rw (read_bytes-append bs rest)

pub read_bytes-sized :
    (n : ℕ) (bs rest : List ℕ) → length bs ≡ n → read_bytes n (bs ++ rest) ≡ ok (bs, rest)
read_bytes-sized n bs rest h =
    ap (λ k. read_bytes k (bs ++ rest)) (sym h) ∙ read_bytes-append bs rest

word16-read : (n : ℕ) → n < 2 ^ 16 → n % 2 ^ 8 + 2 ^ 8 * (n / 2 ^ 8 % 2 ^ 8) ≡ n
word16-read n h = omega arith

-- The bytes of a string whose text ends within its buffer.
pub written : PaddedString → List ℕ
unfolding word16
written s = word16 s.size ++ word16 (length s.buf) ++ word16 0 ++ word16 0 ++ s.buf

pub write-ok :
    (s : PaddedString) → s.size < length s.buf → write s ≡ ok (written s, get_file_size s)
unfolding write written get_file_size
write-ok s h = rw (lt→ltb s.size (length s.buf) h)

pub read-written :
    (s : PaddedString) (rest : List ℕ)
    → s.size < length s.buf
    → length s.buf < 2 ^ 16
    → read (written s ++ rest) ≡ ok (s, rest)
unfolding read written
read-written s rest h fits = rw (
  word16-read s.size (omega arith),
  word16-read (length s.buf) fits,
  lt→ltb s.size (length s.buf) h,
  read_bytes-append s.buf rest,
)

pub length-written : (s : PaddedString) → length (written s) ≡ get_file_size s
unfolding written get_file_size
length-written s = omega arith

pub reset_short : (str : List ℕ) → (reset str).size < length (reset str).buf
reset_short str = unfold reset in (length-reset str).1

-- A text whose padded size fits 16 bits can be written, in get_file_size bytes, and reading those,
-- whatever follows them in the file, gives the string back and leaves the rest.
pub read-write :
    (str rest : List ℕ)
    → length (reset str).buf < 2 ^ 16
    → (bytes : List ℕ) × (write (reset str) ≡ ok (bytes, get_file_size (reset str)))
      × (length bytes ≡ get_file_size (reset str))
      × (read (bytes ++ rest) ≡ ok (reset str, rest))
read-write str rest fits = (
  written (reset str),
  write-ok (reset str) (reset_short str),
  length-written (reset str),
  read-written (reset str) rest (reset_short str) fits,
)
