-- ===== src/Journal/Saved.antt =====
-- A journal that is saved is loaded again, whatever its file held before (save_journal_file and
-- load_journal_file of src/rrdb/rrdb_journal_file.cpp).
use stats_rrdb.Prelude.{
  ℕ, suc, ◌+◌, ◌%◌, ◌^◌, ◌<◌, ◌≡◌, refl, sym, ap, ◌∙◌, false, List, [], ◌∷◌, ◌++◌, length, drop,
  length-append, append_nil, append_assoc, ◌==◌, lt→ltb, le→leb, ==_iff, arith,
}
use stats_rrdb.Prelude.Result.{Result, ok, ◌>>=◌, ◌>>◌, require}
use stats_rrdb.PaddedString.{reset, read_bytes}
use stats_rrdb.PaddedString.Laws.{read_bytes-sized, written, write-ok, read-written, reset_short}
use stats_rrdb.Bytes.Laws.{length-le, uint-le}
use stats_rrdb.Storage.{Write, write_at}
use stats_rrdb.Storage.Laws.{write_at-front}
use stats_rrdb.Journal.{
  BlockHeader, block_magic, file_magic, file_version, sizeof_block_header, sizeof_file_header,
  new_journal, encode_block_header, decode_block_header, save_blocks, encode_file_header,
  save_journal_file, load_blocks, load_behind, load_journal_file,
}
use stats_rrdb.Journal.Built.{
  bytes_of, block_of, blocks_of, AllSome, journal_of, not_empty, cut-bytes_of,
}

-- Every position fits 64 bits.
abbrev pub AllPlaced : List Write → Type 0
AllPlaced [] = Unit
AllPlaced (w ∷ ws) = (w.offset < 2 ^ 64) × AllPlaced ws

record BlockHeaderFits (b : BlockHeader) : Type 0 where
  magic : b.magic < 2 ^ 16
  real_offset : b.real_offset < 2 ^ 64
  journal_offset : b.journal_offset < 2 ^ 64
  size : b.size < 2 ^ 64

length-encode_block_header :
    (b : BlockHeader) → length (encode_block_header b) ≡ sizeof_block_header
unfolding encode_block_header
length-encode_block_header b = simp (length-append, length-le)

decode_block_header-encode_block_header :
    (b : BlockHeader) → BlockHeaderFits b → decode_block_header (encode_block_header b) ≡ b
unfolding encode_block_header decode_block_header
decode_block_header-encode_block_header b f = rw (
  uint-le 2 b.magic _ f.magic,
  uint-le 2 0 _ (omega arith),
  uint-le 2 0 _ (omega arith),
  uint-le 2 0 _ (omega arith),
  uint-le 8 b.real_offset _ f.real_offset,
  uint-le 8 b.journal_offset _ f.journal_offset,
  uint-le 8 b.size _ f.size,
)

-- The blocks in the journal's file.
saved : ℕ → List Write → List ℕ
saved k [] = []
saved k (w ∷ ws) = encode_block_header (block_of k w) ++ (w.bytes ++ saved (k + length w.bytes) ws)

save_blocks-ok :
    (ws : List Write) (pre buffer : List ℕ) (k : ℕ)
    → buffer ≡ pre ++ bytes_of ws
    → k ≡ length pre
    → save_blocks (blocks_of k ws) buffer ≡ ok (saved k ws)
unfolding save_blocks saved
save_blocks-ok [] pre buffer k e h = refl
save_blocks-ok (w ∷ ws) pre buffer k e h =
    rw
      (
        le→leb (k + length w.bytes) (length buffer) (cut-bytes_of w ws pre buffer k e h).0,
        save_blocks-ok ws (pre ++ w.bytes) buffer (k + length w.bytes)
            (e ∙ sym (append_assoc pre w.bytes (bytes_of ws)))
            (omega (arith, length-append pre w.bytes)),
        (cut-bytes_of w ws pre buffer k e h).1,
      )
      refl

load_blocks-saved :
    (ws : List Write) (pre rest : List ℕ) (k : ℕ)
    → k ≡ length pre
    → k + length (bytes_of ws) < 2 ^ 64
    → AllPlaced ws
    → load_blocks (length ws) k pre (saved k ws ++ rest) ≡ ok (blocks_of k ws, pre ++ bytes_of ws)
unfolding load_blocks saved
load_blocks-saved [] pre rest k h fits placed = ap (λ l. ok ([], l)) (sym (append_nil pre))
load_blocks-saved (w ∷ ws) pre rest k h fits placed =
    rw
      (
        append_assoc (encode_block_header (block_of k w)) (w.bytes ++ saved (k + length w.bytes) ws)
            rest,
        append_assoc w.bytes (saved (k + length w.bytes) ws) rest,
        read_bytes-sized sizeof_block_header (encode_block_header (block_of k w))
            (w.bytes ++ (saved (k + length w.bytes) ws ++ rest))
            (length-encode_block_header (block_of k w)),
      )
      (ap behind (
          decode_block_header-encode_block_header (block_of k w) (record {
            magic = omega arith;
            real_offset = placed.0;
            journal_offset = omega arith;
            size = omega (arith, length-append w.bytes (bytes_of ws));
          }))
        ∙ rw
            (
              (==_iff k k).1 refl,
              (==_iff k (length pre)).1 h,
              read_bytes-sized (length w.bytes) w.bytes (saved (k + length w.bytes) ws ++ rest)
                  refl,
              load_blocks-saved ws (pre ++ w.bytes) rest (k + length w.bytes)
                  (omega (arith, length-append pre w.bytes))
                  (omega (arith, length-append w.bytes (bytes_of ws))) placed.1,
              append_assoc pre w.bytes (bytes_of ws),
            )
            refl)
  where
    -- What the loop does with a block's header.
    behind : BlockHeader → Result (List BlockHeader × List ℕ)
    behind b = do
      require (b.magic == block_magic)
      require (b.journal_offset == k)
      require (k == length pre)
      (bytes, is2) ← read_bytes b.size (w.bytes ++ (saved (k + length w.bytes) ws ++ rest))
      (bs, all) ← load_blocks (length ws) (k + b.size) (pre ++ bytes) is2
      ok (b ∷ bs, all)

length-blocks_of : (k : ℕ) (ws : List Write) → length (blocks_of k ws) ≡ length ws
length-blocks_of k [] = refl
length-blocks_of k (w ∷ ws) = ap suc (length-blocks_of (k + length w.bytes) ws)

length-encode_file_header :
    (bs : List BlockHeader) → length (encode_file_header bs) ≡ sizeof_file_header
unfolding encode_file_header
length-encode_file_header bs = simp (length-append, length-le)

-- What follows the file's header is read.
load_behind-ok :
    (filename : List ℕ) (ws : List Write) (rest : List ℕ)
    → length (reset filename).buf < 2 ^ 16
    → 0 < length ws
    → length ws < 2 ^ 16
    → length (bytes_of ws) < 2 ^ 64
    → AllPlaced ws
    → load_behind
        (encode_file_header (blocks_of 0 ws))
        (written (reset filename) ++ (saved 0 ws ++ rest))
        new_journal
      ≡ ok (journal_of filename ws)
unfolding load_behind encode_file_header journal_of
load_behind-ok filename ws rest short filled few wide placed =
    rw
      (
        uint-le 2 file_magic _ (omega arith),
        uint-le 2 file_version _ (omega arith),
        uint-le 2 0 _ (omega arith),
        uint-le 2 (length (blocks_of 0 ws) % 2 ^ 16) _ (omega arith),
        sized,
        lt→ltb 0 (length ws) filled,
        read-written (reset filename) (saved 0 ws ++ rest) (reset_short filename) short,
        load_blocks-saved ws [] rest 0 refl (omega arith) placed,
      )
      refl
  where
    sized : length (blocks_of 0 ws) % 2 ^ 16 ≡ length ws
    sized = omega (arith, length-blocks_of 0 ws)

-- What the journal of a name and of some writes has to fit.
pub record IsSavable (filename : List ℕ) (ws : List Write) : Type 0 where
  pub named : 0 < length filename
  pub short : length (reset filename).buf < 2 ^ 16
  pub some_writes : 0 < length ws
  pub few_writes : length ws < 2 ^ 16
  pub few_bytes : length (bytes_of ws) < 2 ^ 64
  pub filled : AllSome ws
  pub placed : AllPlaced ws

-- The journal of a name and of writes that fit it is saved, and what the file holds then is loaded as
-- that journal, whatever the file held before.
pub load_journal_file-save_journal_file :
    (filename : List ℕ) (ws : List Write) (old : List ℕ)
    → IsSavable filename ws
    → (file : List ℕ) × (save_journal_file (journal_of filename ws) old ≡ ok file)
      × (load_journal_file file new_journal ≡ ok (journal_of filename ws))
unfolding save_journal_file load_journal_file load_behind journal_of
load_journal_file-save_journal_file filename ws old i = (
  write_at 0 contents old,
  rw
      (
        not_empty filename i.named,
        blocks_there,
        write-ok (reset filename) (reset_short filename),
        save_blocks-ok ws [] (bytes_of ws) 0 refl refl,
      )
      refl,
  rw
      (
        write_at-front contents old,
        append_assoc (encode_file_header (blocks_of 0 ws)) (written (reset filename) ++ saved 0 ws)
            (drop (length contents) old),
        read_bytes-sized sizeof_file_header (encode_file_header (blocks_of 0 ws))
            ((written (reset filename) ++ saved 0 ws) ++ drop (length contents) old)
            (length-encode_file_header (blocks_of 0 ws)),
      )
      (rw (append_assoc (written (reset filename)) (saved 0 ws) (drop (length contents) old)) (
        load_behind-ok filename ws (drop (length contents) old) i.short i.some_writes i.few_writes
          i.few_bytes i.placed)),
)
  where
    contents : List ℕ
    contents = encode_file_header (blocks_of 0 ws) ++ (written (reset filename) ++ saved 0 ws)

    blocks_there : (length (blocks_of 0 ws) == 0) ≡ false
    blocks_there = ground (arith, length-blocks_of 0 ws, i.some_writes)
