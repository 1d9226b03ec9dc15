-- ===== src/Block/Disk.antt =====
-- write_block, read_block and read_block_data of src/rrdb/rrdb_metric_block.cpp. A stream is the list
-- of its bytes from the current position on; `at` is what tellg returns there.
pub mod Codec
pub mod Tuples
pub mod Slots
pub mod Roundtrip
use stats_rrdb.Prelude.{
  ℕ, zero, suc, ◌+◌, ◌*◌, ◌%◌, Bool, true, false, not, ◌&&◌, Option, none, some, List, [], ◌∷◌,
  ◌++◌, length, take, drop, ltb, leb, ◌==◌, if◌then◌else◌,
}
use stats_rrdb.Prelude.Int.{ℤ, eqb_ℤ}
use stats_rrdb.Prelude.Result.{Result, ok, err, check, bad_header, ◌>>=◌, ◌>>◌, guard, require}
use stats_rrdb.Value.{Value}
use stats_rrdb.Bytes.{Bytes, le, to_u64, uint, int64, float64}
use stats_rrdb.Tuple.{Tuple, zero_tuple, new_tuples, get_memory_size, get_at, sizeof_tuple}
use stats_rrdb.PaddedString.{read_bytes}
use stats_rrdb.Block.{
  Header, Block, block_magic, sizeof_header, u32_mod, get_disk_data_size, check_tuples,
}

-- The struct's bytes: 2 + 2 + 4 + 8 + 8 + 4 + 4 + 4 + 4 + 8 + 4 + 4, the unused ones zero.
pub encode_header : Header → List ℕ
encode_header h =
    le 2 h.magic
    ++ (le 2 h.status
        ++ (le 4 0
            ++ (le 8 h.offset
                ++ (le 8 h.data_size
                    ++ (le 4 h.freq
                        ++ (le 4 h.duration
                            ++ (le 4 h.count
                                ++ (le 4 h.cur
                                    ++ (le 8 (to_u64 h.cur_ts)
                                        ++ (le 4 h.max_pos ++ (le 4 0 ++ [])))))))))))

pub decode_header : List ℕ → Header
decode_header bs =
    let (magic, b1) = uint 2 bs in
    let (status, b2) = uint 2 b1 in
    let (unused1, b3) = uint 4 b2 in
    let (offset, b4) = uint 8 b3 in
    let (data_size, b5) = uint 8 b4 in
    let (freq, b6) = uint 4 b5 in
    let (duration, b7) = uint 4 b6 in
    let (count, b8) = uint 4 b7 in
    let (cur, b9) = uint 4 b8 in
    let (cur_ts, b10) = int64 b9 in
    let (max_pos, b11) = uint 4 b10 in
    record {
      magic = magic;
      status = status;
      offset = offset;
      data_size = data_size;
      freq = freq;
      duration = duration;
      count = count;
      cur = cur;
      cur_ts = cur_ts;
      max_pos = max_pos;
    }

-- "update max pos"
unfoldable pub update_max_pos : Header → Header
update_max_pos h = if ltb h.max_pos h.cur then record h { max_pos = h.cur } else h

-- The checks that read_block makes of a header that it has read at the position `at`.
pub check_header : ℕ → Header → Result (Unit {0})
check_header at h = do
  guard (h.magic == block_magic) bad_header
  guard (ltb 0 h.freq) bad_header
  guard (ltb 0 h.count) bad_header
  guard (h.duration == h.freq * h.count % u32_mod) bad_header
  guard (ltb h.cur h.count) bad_header
  guard (ltb h.max_pos h.count) bad_header
  guard (not (ltb 0 h.max_pos && ltb h.max_pos h.cur)) bad_header
  guard (h.offset == at) bad_header
  guard (h.data_size == h.count * sizeof_tuple) bad_header

module _ {W : Type 0} ⦃v : Value W⦄ ⦃b : Bytes W⦄ where
  pub encode_tuple : Tuple W → List ℕ
  encode_tuple t =
      le 8 (to_u64 t.ts)
      ++ (b.to_bytes t.count
          ++ (b.to_bytes t.sum
              ++ (b.to_bytes t.sum_sqr ++ (b.to_bytes t.min ++ (b.to_bytes t.max ++ [])))))

  pub decode_tuple : List ℕ → Tuple W
  decode_tuple bs =
      let (ts, b1) = int64 bs in
      let (count, b2) = float64 b1 in
      let (sum, b3) = float64 b2 in
      let (sum_sqr, b4) = float64 b3 in
      let (min, b5) = float64 b4 in
      let (max, b6) = float64 b5 in
      record { ts = ts; count = count; sum = sum; sum_sqr = sum_sqr; min = min; max = max }

  -- The array's memory, and the array of n tuples in a memory.
  pub encode_tuples : List (Tuple W) → List ℕ
  unfolding encode_tuple
  encode_tuples [] = []
  encode_tuples (t ∷ ts) = encode_tuple t ++ encode_tuples ts

  pub decode_tuples : ℕ → List ℕ → List (Tuple W)
  unfolding decode_tuple
  decode_tuples zero bs = []
  decode_tuples (suc n) bs =
      decode_tuple (take sizeof_tuple bs) ∷ decode_tuples n (drop sizeof_tuple bs)

  -- The part of write_block behind the update of the header.
  pub write_both : Header → List (Tuple W) → Result (Block W × List ℕ)
  unfolding encode_header encode_tuples
  write_both h tuples = do
    require (leb (get_disk_data_size h) (get_memory_size tuples))
    ok (
      record { header = h; modified = none },
      encode_header h ++ take (get_disk_data_size h) (encode_tuples tuples),
    )

  -- What it writes, and the block afterwards, which keeps no array.
  pub write_block : Block W → Result (Block W × List ℕ)
  unfolding update_max_pos write_both
  write_block blk = elim blk.modified [
    | none ↦ err check
    | some tuples ↦ check_tuples blk.header tuples >> write_both (update_max_pos blk.header) tuples
  ]

  -- The new array is zeroed, and its front is overwritten by what is read.
  pub read_block_data : Header → List ℕ → Result (List (Tuple W) × List ℕ)
  unfolding encode_tuples decode_tuples
  read_block_data h is = do
    let zeroed : List (Tuple W) = new_tuples h.count
    check_tuples h zeroed
    require (leb (get_disk_data_size h) (get_memory_size zeroed))
    require (ltb 0 (get_disk_data_size h))
    (bytes, rest) ← read_bytes (get_disk_data_size h) is
    let tuples = decode_tuples h.count (bytes ++ drop (get_disk_data_size h) (encode_tuples zeroed))
    current ← get_at tuples h.cur
    guard (eqb_ℤ current.ts h.cur_ts) bad_header
    ok (tuples, rest)

  -- The part of read_block behind the header, which was read at the position `at`. With `skip_data`
  -- the stream is moved on behind the data, which is not looked at.
  pub read_behind : ℕ → Header → List ℕ → Bool → Result (Block W × List ℕ)
  unfolding check_header read_block_data
  read_behind at h is skip_data = do
    check_header at h
    elim skip_data [
      | true ↦ ok (record { header = h; modified = none }, drop (get_disk_data_size h) is)
      | false ↦ do
        (tuples, rest) ← read_block_data h is
        check_tuples h tuples
        ok (record { header = h; modified = some tuples }, rest)
    ]

  pub read_block : ℕ → List ℕ → Bool → Result (Block W × List ℕ)
  unfolding decode_header read_behind
  read_block at is skip_data = do
    (bytes, rest) ← read_bytes sizeof_header is
    read_behind at (decode_header bytes) rest skip_data
