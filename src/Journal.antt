-- ===== src/Journal.antt =====
-- rrdb_journal_file of src/rrdb/rrdb_journal_file.h and src/rrdb/rrdb_journal_file.cpp: the writes
-- to one metric's file, kept in memory, saved to a file of their own, and made afterwards.
--
-- `buffer` is `_cur_data`, and `pending` what the memory stream holds that is not in it yet: end_file flushes it, and clear
-- leaves it. The bytes of a file are a list. Opening, flushing and closing the journal's own file is
-- not modelled; what it held before is an argument of save_journal_file.
pub mod Built
pub mod Saved
pub mod Recovery
use stats_rrdb.Prelude.{
  ℕ, zero, suc, ◌+◌, ◌*◌, ◌%◌, ◌^◌, Bool, true, false, not, Option, none, some, List, [], ◌∷◌, ◌++◌,
  length, take, drop, ltb, leb, ◌==◌,
}
use stats_rrdb.Prelude.Result.{Result, ok, err, fault, ◌>>=◌, ◌>>◌, guard, require}
use stats_rrdb.PaddedString.{PaddedString, cleared, reset, is_empty, write, read, read_bytes}
use stats_rrdb.Bytes.{le, uint}
use stats_rrdb.Storage.{write_at}

-- t_journal_block_header
pub record BlockHeader : Type 0 where
  pub magic : ℕ
  pub real_offset : ℕ
  pub journal_offset : ℕ
  pub size : ℕ

pub record Journal : Type 0 where
  pub filename : PaddedString
  pub pending : List ℕ
  pub buffer : List ℕ
  pub blocks : List BlockHeader

-- RRDB_JOURNAL_FILE_HEADER_MAGIC, RRDB_JOURNAL_BLOCK_HEADER_MAGIC, RRDB_JOURNAL_FILE_VERSION
abbrev pub file_magic : ℕ
file_magic = 0xDA99

abbrev pub block_magic : ℕ
block_magic = 0xDA66

abbrev pub file_version : ℕ
file_version = 1

-- sizeof(t_journal_file_header), sizeof(t_journal_block_header)
abbrev pub sizeof_file_header : ℕ
sizeof_file_header = 8

abbrev pub sizeof_block_header : ℕ
sizeof_block_header = 32

abbrev pub new_journal : Journal
new_journal = record { filename = cleared; pending = []; buffer = []; blocks = [] }

unfoldable pub clear : Journal → Journal
clear j = record j { filename = cleared; buffer = []; blocks = [] }

pub begin_file : List ℕ → Journal → Result Journal
begin_file filename j = do
  require (ltb 0 (length filename))
  require (is_empty j.filename)
  require (length j.buffer == 0)
  require (length j.blocks == 0)
  ok (record j { filename = reset filename })

pub end_file : Journal → Result Journal
end_file j = do
  require (not (is_empty j.filename))
  ok (record j { pending = []; buffer = j.buffer ++ j.pending })

-- A write to the stream that begin_file returns.
pub write_stream : List ℕ → Journal → Journal
write_stream bytes j = record j { pending = j.pending ++ bytes }

-- Where the last block ends: `prev_block._journal_offset + prev_block._size`, 0 without blocks.
pub next_offset : List BlockHeader → ℕ
next_offset [] = 0
next_offset (b ∷ []) = b.journal_offset + b.size
next_offset (b ∷ c ∷ bs) = next_offset (c ∷ bs)

pub add_block : ℕ → ℕ → Journal → Result Journal
unfolding next_offset
add_block offset size j = do
  require (not (is_empty j.filename))
  require (ltb 0 size)
  ok (record j {
    blocks =
        j.blocks
        ++ record {
          magic = block_magic;
          real_offset = offset;
          journal_offset = next_offset j.blocks;
          size = size;
        }
          ∷ [];
  })

-- The loop of apply_journal over a file's bytes: reading behind the buffer is undefined behaviour.
pub apply_blocks : List BlockHeader → List ℕ → List ℕ → Result (List ℕ)
apply_blocks [] buffer file = ok file
apply_blocks (b ∷ bs) buffer file = do
  guard (leb (b.journal_offset + b.size) (length buffer)) fault
  apply_blocks bs buffer (write_at b.real_offset (take b.size (drop b.journal_offset buffer)) file)

pub apply_journal : Journal → List ℕ → Result (List ℕ)
unfolding apply_blocks
apply_journal j file = apply_blocks j.blocks j.buffer file

-- The struct's bytes: 2 and three unused 2, then three times 8.
pub encode_block_header : BlockHeader → List ℕ
encode_block_header b =
    le 2 b.magic
    ++ (le 2 0
        ++ (le 2 0
            ++ (le 2 0 ++ (le 8 b.real_offset ++ (le 8 b.journal_offset ++ (le 8 b.size ++ []))))))

pub decode_block_header : List ℕ → BlockHeader
decode_block_header bs =
    let (magic, b1) = uint 2 bs in
    let (unused1, b2) = uint 2 b1 in
    let (unused2, b3) = uint 2 b2 in
    let (unused3, b4) = uint 2 b3 in
    let (real_offset, b5) = uint 8 b4 in
    let (journal_offset, b6) = uint 8 b5 in
    let (size, b7) = uint 8 b6 in
    record {
      magic = magic;
      real_offset = real_offset;
      journal_offset = journal_offset;
      size = size;
    }

-- The loop of save_journal_file.
pub save_blocks : List BlockHeader → List ℕ → Result (List ℕ)
unfolding encode_block_header
save_blocks [] buffer = ok []
save_blocks (b ∷ bs) buffer = do
  require (leb (b.journal_offset + b.size) (length buffer))
  rest ← save_blocks bs buffer
  ok (encode_block_header b ++ (take b.size (drop b.journal_offset buffer) ++ rest))

-- `_blocks_size` is a uint16_t.
pub encode_file_header : List BlockHeader → List ℕ
encode_file_header bs =
    le 2 file_magic ++ (le 2 file_version ++ (le 2 0 ++ (le 2 (length bs % 2 ^ 16) ++ [])))

-- The journal's file afterwards. It is written over from its front, and keeps what lies behind.
pub save_journal_file : Journal → List ℕ → Result (List ℕ)
unfolding encode_file_header save_blocks
save_journal_file j file = do
  require (not (is_empty j.filename))
  require (not (length j.blocks == 0))
  (name, size) ← write j.filename
  blocks ← save_blocks j.blocks j.buffer
  ok (write_at 0 (encode_file_header j.blocks ++ (name ++ blocks)) file)

-- The loop of load_journal_file: the blocks still to read, `journal_offset`, the buffer so far and the
-- file's next bytes. The buffer is made longer by the block's size, and that part is read into.
pub load_blocks : ℕ → ℕ → List ℕ → List ℕ → Result (List BlockHeader × List ℕ)
unfolding decode_block_header
load_blocks zero journal_offset buffer is = ok ([], buffer)
load_blocks (suc n) journal_offset buffer is = do
  (header, is1) ← read_bytes sizeof_block_header is
  let b = decode_block_header header
  require (b.magic == block_magic)
  require (b.journal_offset == journal_offset)
  require (journal_offset == length buffer)
  (bytes, is2) ← read_bytes b.size is1
  (bs, all) ← load_blocks n (journal_offset + b.size) (buffer ++ bytes) is2
  ok (b ∷ bs, all)

pub load_behind : List ℕ → List ℕ → Journal → Result Journal
unfolding load_blocks
load_behind header is j = do
  let (magic, b1) = uint 2 header
  let (version, b2) = uint 2 b1
  let (status, b3) = uint 2 b2
  let (blocks_size, b4) = uint 2 b3
  require (magic == file_magic)
  require (version == file_version)
  require (status == 0)
  require (ltb 0 blocks_size)
  (filename, is1) ← read is
  (blocks, buffer) ← load_blocks blocks_size 0 j.buffer is1
  ok (record j { filename = filename; buffer = buffer; blocks = blocks })

pub load_journal_file : List ℕ → Journal → Result Journal
unfolding load_behind
load_journal_file file j = do
  require (is_empty j.filename)
  require (length j.blocks == 0)
  (header, is) ← read_bytes sizeof_file_header file
  load_behind header is j
