-- ===== src/Metric/File.antt =====
-- What rrdb_metric of src/rrdb/rrdb_metric.cpp does with its file: write_header, read_header,
-- save_file, load_file and save_dirty_blocks. A file is the list of its bytes. Opening, flushing and
-- renaming a file is left out: save_file gives the bytes of the file that it makes, and load_file
-- takes those of the file that it opens. In save_to the opening of the new file, and its writing and
-- renaming, are a Store, which is the operating system's. Each operation holds the metric's lock while
-- it uses the metric, so that it is one step.
--
-- A cell's `fetched` is, after its block is written, what a read of the written data gives.
pub mod Codec
pub mod Saved
use Prim.Native.Nat.{bit_and}
use stats_rrdb.Prelude.{
  ℕ, zero, suc, ◌+◌, ◌-◌, ◌^◌, ◌%◌, Bool, true, false, not, Option, none, some, List, [], ◌∷◌, ◌++◌,
  length, take, drop, ltb, ◌==◌, if◌then◌else◌,
}
use stats_rrdb.Prelude.Int.{ℤ}
use stats_rrdb.Prelude.Result.{Result, ok, err, deleted, bad_header, ◌>>=◌, ◌>>◌, guard, require}
use stats_rrdb.Value.{Value}
use stats_rrdb.Bytes.{Bytes, le, to_u64, uint, int64, float64}
use stats_rrdb.Tuple.{Tuple}
use stats_rrdb.PaddedString.{PaddedString, is_empty, write, read, read_bytes}
use stats_rrdb.Block.{Block, Header, sizeof_header, get_disk_data_size, get_offset_to_data}
use stats_rrdb.Block
use stats_rrdb.Block.Disk.{write_block, read_block, read_block_data}
use stats_rrdb.Metric.{
  Metric, Cell, metric_magic, metric_version, sizeof_metric_header, status_dirty, set_dirty,
  is_deleted, check_metric,
}
use stats_rrdb.Journal.{Journal, begin_file, end_file, write_stream, add_block}

-- The file of a name can be opened anew, and its bytes be written and put in the place of the old
-- file, or an exception tells why not. The stream throws nothing while the blocks are written to it.
pub record Store : Type 0 where
  pub open_new : List ℕ → Result (Unit {0})
  pub put_bytes : List ℕ → List ℕ → Result (Unit {0})

module _ {W : Type 0} where
  -- my::bitmask_clear of a uint16_t
  unfoldable pub clear_dirty : Metric W → Metric W
  clear_dirty m = record m { status = bit_and m.status (2 ^ 16 - 1 - status_dirty) }

module _ {W : Type 0} ⦃v : Value W⦄ ⦃b : Bytes W⦄ where
  -- The struct's bytes: four times 2, and twice 8.
  pub encode_metric_header : Metric W → List ℕ
  encode_metric_header m =
      le 2 m.magic
      ++ (le 2 m.version
          ++ (le 2 m.status
              ++ (le 2 m.blocks_size
                  ++ (b.to_bytes m.last_value ++ (le 8 (to_u64 m.last_value_ts) ++ [])))))

  -- The metric with the fields that the bytes give.
  pub decode_metric_header : List ℕ → Metric W → Metric W
  decode_metric_header bs m =
      let (magic, b1) = uint 2 bs in
      let (version, b2) = uint 2 b1 in
      let (status, b3) = uint 2 b2 in
      let (blocks_size, b4) = uint 2 b3 in
      let (last_value, b5) = float64 b4 in
      let (last_value_ts, b6) = int64 b5 in
      record m {
        magic = magic;
        version = version;
        status = status;
        blocks_size = blocks_size;
        last_value = last_value;
        last_value_ts = last_value_ts;
      }

  -- The bytes, and their number as it is counted.
  pub write_header : Metric W → Result (List ℕ × ℕ)
  unfolding encode_metric_header
  write_header m = do
    (name, size) ← write m.name
    ok (encode_metric_header m ++ name, sizeof_metric_header + size)

  -- The part of read_header behind the read of the struct.
  pub read_name : Metric W → List ℕ → Result (Metric W × List ℕ)
  read_name m is = do
    guard (m.magic == metric_magic) bad_header
    guard (m.version == metric_version) bad_header
    (name, rest) ← read is
    ok (record m { name = name }, rest)

  pub read_header : List ℕ → Metric W → Result (Metric W × List ℕ)
  unfolding decode_metric_header read_name
  read_header is m = do
    (bytes, rest) ← read_bytes sizeof_metric_header is
    read_name (decode_metric_header bytes m) rest

  -- The loop of load_file: the blocks still to read, the position in the file, and the bytes from
  -- there on. The data is skipped; what it is read as later is found in the file by its offset.
  unfoldable pub load_cells : List ℕ → ℕ → ℕ → List ℕ → Result (List (Cell W))
  load_cells file zero at is = ok []
  load_cells file (suc n) at is = do
    (blk, rest) ← read_block at is true
    cells ← load_cells file n (at + sizeof_header + get_disk_data_size blk.header) rest
    ok (
        record {
          block = blk;
          fetched = do
            (tuples, behind) ←
                read_block_data blk.header (drop (get_offset_to_data blk.header) file)
            ok tuples;
        }
        ∷ cells)

  unfoldable pub load_file : List ℕ → Metric W → Result (Metric W)
  unfolding read_header load_cells
  load_file file m = do
    guard (not (is_deleted m)) deleted
    require (is_empty m.name)
    require (length m.blocks == 0)
    (m', rest) ← read_header file m
    cells ← load_cells file m'.blocks_size (length file - length rest) rest
    ok (record m' { blocks = cells })

  -- The block afterwards, and what is written.
  pub write_cell : Cell W → Result (Cell W × List ℕ)
  write_cell c = do
    (blk, bytes) ← write_block c.block
    ok (
      record {
        block = blk;
        fetched = do
          (tuples, behind) ← read_block_data blk.header (drop sizeof_header bytes)
          ok tuples;
      },
      bytes,
    )

  -- The loop of save_file: the blocks afterwards, and what is written, or the exception that ended it.
  pub save_cells : List (Cell W) → List (Cell W) × Result (List ℕ)
  unfolding write_cell
  save_cells [] = ([], ok [])
  save_cells (c ∷ cs) =
      let rest = save_cells cs in
      elim (write_cell c) [
        | err e ↦ (c ∷ cs, err e)
        | ok (c', bytes) ↦ (c' ∷ rest.0, do more ← rest.1; ok (bytes ++ more))
      ]

  -- The metric afterwards, and the file's bytes or the exception: a metric that is not saved is dirty.
  pub save_file : Metric W → Metric W × Result (List ℕ)
  unfolding write_header save_cells
  save_file m = if is_deleted m then (m, err deleted) else elim (check_metric m) [
    | err e ↦ (set_dirty m, err e)
    | ok _ ↦
        let m' = clear_dirty m in
        elim (write_header m') [
          | err e ↦ (set_dirty m', err e)
          | ok (head, size) ↦
              let (cells, r) = save_cells m'.blocks in
              let m'' = record m' { blocks = cells } in
              elim r [ err e ↦ (set_dirty m'', err e) | ok bytes ↦ (m'', ok (head ++ bytes)) ]
        ]
  ]

  -- save_file with the files of the operating system. It throws anew what it catches, with the text of
  -- that in its own; the error stands for both.
  unfoldable pub save_to : Store → Metric W → Metric W × Result (Unit {0})
  unfolding save_file
  save_to store m = if is_deleted m then (m, err deleted) else elim (store.open_new m.filename) [
    | err e ↦ (set_dirty m, err e)
    | ok _ ↦
        let (m', r) = save_file m in
        elim r [
          | err e ↦ (m', err e)
          | ok bytes ↦ elim (store.put_bytes m.filename bytes) [
            | err e ↦ (set_dirty m', err e)
            | ok _ ↦ (m', ok tt)
          ]
        ]
  ]
