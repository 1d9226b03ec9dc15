-- ===== src/Journal/Built.antt =====
-- The journal that a list of writes leaves: what save_dirty_blocks of src/rrdb/rrdb_metric.cpp does
-- to it, as an equation.
use stats_rrdb.Prelude.{
  ℕ, ◌+◌, ◌≤◌, ◌<◌, ◌≡◌, refl, sym, ap, ◌∙◌, false, List, [], ◌∷◌, ◌++◌, length, take, drop,
  length-append, take-append, drop-append, append_nil, append_assoc, lt→ltb, le→leb, arith,
}
use stats_rrdb.Prelude.Result.{Result, ok, ◌>>=◌}
use stats_rrdb.PaddedString.{PaddedString, reset, is_empty}
use stats_rrdb.Storage.{Write, write_at, apply_writes}
use stats_rrdb.Journal.{
  BlockHeader, Journal, block_magic, new_journal, begin_file, end_file, write_stream, next_offset,
  add_block, apply_blocks, apply_journal,
}

-- A write to the stream, and the block for it.
unfoldable pub record_write : Write → Journal → Result Journal
unfolding write_stream add_block
record_write w j = add_block w.offset (length w.bytes) (write_stream w.bytes j)

unfoldable pub record_writes : List Write → Journal → Result Journal
unfolding record_write
record_writes [] j = ok j
record_writes (w ∷ ws) j = do j' ← record_write w j; record_writes ws j'

-- begin_file, the writes, and end_file.
unfoldable pub record_file : List ℕ → List Write → Journal → Result Journal
unfolding begin_file record_writes end_file
record_file filename ws j = do j1 ← begin_file filename j; j2 ← record_writes ws j1; end_file j2

abbrev pub bytes_of : List Write → List ℕ
bytes_of [] = []
bytes_of (w ∷ ws) = w.bytes ++ bytes_of ws

abbrev pub block_of : ℕ → Write → BlockHeader
block_of k w = record {
  magic = block_magic;
  real_offset = w.offset;
  journal_offset = k;
  size = length w.bytes;
}

abbrev pub blocks_of : ℕ → List Write → List BlockHeader
blocks_of k [] = []
blocks_of k (w ∷ ws) = block_of k w ∷ blocks_of (k + length w.bytes) ws

-- No write is empty.
abbrev pub AllSome : List Write → Type 0
AllSome [] = Unit
AllSome (w ∷ ws) = (0 < length w.bytes) × AllSome ws

unfoldable pub journal_of : List ℕ → List Write → Journal
journal_of filename ws = record {
  filename = reset filename;
  pending = [];
  buffer = bytes_of ws;
  blocks = blocks_of 0 ws;
}

next_offset-snoc :
    (bs : List BlockHeader) (b : BlockHeader)
    → next_offset (bs ++ b ∷ []) ≡ b.journal_offset + b.size
unfolding next_offset
next_offset-snoc [] b = refl
next_offset-snoc (c ∷ []) b = refl
next_offset-snoc (c ∷ d ∷ bs) b = next_offset-snoc (d ∷ bs) b

-- What the writes leave, after any blocks and any bytes.
record_writes-ok :
    (ws : List Write) (s : PaddedString) (waiting buffer : List ℕ) (bs : List BlockHeader)
    → is_empty s ≡ false
    → AllSome ws
    → record_writes ws (record { filename = s; pending = waiting; buffer = buffer; blocks = bs })
      ≡ ok (record {
        filename = s;
        pending = waiting ++ bytes_of ws;
        buffer = buffer;
        blocks = bs ++ blocks_of (next_offset bs) ws;
      })
unfolding record_writes record_write add_block write_stream
record_writes-ok [] s waiting buffer bs named filled =
    ap (λ l. ok (record { filename = s; pending = l; buffer = buffer; blocks = bs }))
      (sym (append_nil waiting))
    ∙ ap (λ l. ok (record { filename = s; pending = waiting ++ []; buffer = buffer; blocks = l }))
        (sym (append_nil bs))
record_writes-ok (w ∷ ws) s waiting buffer bs named filled =
    rw (named, lt→ltb 0 (length w.bytes) filled.0)
      (record_writes-ok ws s (waiting ++ w.bytes) buffer (bs ++ block_of (next_offset bs) w ∷ [])
          named filled.1
        ∙ rw
            (
              next_offset-snoc bs (block_of (next_offset bs) w),
              append_assoc waiting w.bytes (bytes_of ws),
              append_assoc bs (block_of (next_offset bs) w ∷ [])
                  (blocks_of (next_offset bs + length w.bytes) ws),
            )
            refl)

pub not_empty : (filename : List ℕ) → 0 < length filename → is_empty (reset filename) ≡ false
unfolding reset
not_empty filename named = ground arith

pub record_file-ok :
    (filename : List ℕ) (ws : List Write)
    → 0 < length filename
    → AllSome ws
    → record_file filename ws new_journal ≡ ok (journal_of filename ws)
unfolding record_file begin_file end_file next_offset journal_of
record_file-ok filename ws named filled =
    rw
      (
        lt→ltb 0 (length filename) named,
        record_writes-ok ws (reset filename) [] [] [] (not_empty filename named) filled,
        not_empty filename named,
      )
      refl

-- The bytes of a block are those of its write.
pub cut-bytes_of :
    (w : Write) (ws : List Write) (pre buffer : List ℕ) (k : ℕ)
    → buffer ≡ pre ++ bytes_of (w ∷ ws)
    → k ≡ length pre
    → (k + length w.bytes ≤ length buffer) × (take (length w.bytes) (drop k buffer) ≡ w.bytes)
cut-bytes_of w ws pre buffer k e h = (
  omega (
    arith,
    ap length e,
    length-append pre (w.bytes ++ bytes_of ws),
    length-append w.bytes (bytes_of ws),
  ),
  rw (e, drop-append k pre (w.bytes ++ bytes_of ws) (sym h))
      (take-append (length w.bytes) w.bytes (bytes_of ws) refl),
)

-- The loop of apply_journal makes the writes.
apply_blocks-ok :
    (ws : List Write) (pre buffer file : List ℕ) (k : ℕ)
    → buffer ≡ pre ++ bytes_of ws
    → k ≡ length pre
    → apply_blocks (blocks_of k ws) buffer file ≡ ok (apply_writes ws file)
unfolding apply_blocks apply_writes
apply_blocks-ok [] pre buffer file k e h = refl
apply_blocks-ok (w ∷ ws) pre buffer file k e h =
    rw
      (
        le→leb (k + length w.bytes) (length buffer) (cut-bytes_of w ws pre buffer k e h).0,
        (cut-bytes_of w ws pre buffer k e h).1,
      )
      (apply_blocks-ok ws (pre ++ w.bytes) buffer (write_at w.offset w.bytes file)
        (k + length w.bytes) (e ∙ sym (append_assoc pre w.bytes (bytes_of ws)))
        (omega (arith, length-append pre w.bytes)))

pub apply_journal-ok :
    (filename : List ℕ) (ws : List Write) (file : List ℕ)
    → apply_journal (journal_of filename ws) file ≡ ok (apply_writes ws file)
unfolding apply_journal journal_of
apply_journal-ok filename ws file = apply_blocks-ok ws [] (bytes_of ws) file 0 refl refl
