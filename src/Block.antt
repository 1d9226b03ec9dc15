-- ===== src/Block.antt =====
-- src/rrdb/rrdb_metric_block.h and the constructor of src/rrdb/rrdb_metric_block.cpp: one block of a
-- metric's data, a circular buffer of tuples for one element of the retention policy.
--
-- A `time_t` is an integer that does not overflow; the unsigned fields are natural numbers, with the
-- wrap-around of 32-bit arithmetic written out. The unused header fields and the reference count are
-- left out. `modified` is `_modified_tuples`: `none` for the null pointer, else the array's contents.
pub mod Find
pub mod Disk
pub mod New
pub mod Update
pub mod Select
use Prim.Native.Nat.{bit_and, bit_or}
use stats_rrdb.Prelude.{
  ℕ, ◌+◌, ◌-◌, ◌*◌, ◌%◌, ◌^◌, Bool, true, false, not, ◌&&◌, Option, none, some, List, length, ltb,
  ◌==◌, if◌then◌else◌,
}
use stats_rrdb.Prelude.Int.{ℤ, pos, ◌+ℤ◌, ◌-ℤ◌, rem}
use stats_rrdb.Prelude.Result.{Result, ok, err, ◌>>=◌, ◌>>◌, bad_state, require}
use stats_rrdb.Value.{Value}
use stats_rrdb.Tuple.{Tuple, sizeof_tuple, zero_tuple, new_tuples, get_memory_size}

pub record Header : Type 0 where
  pub magic : ℕ
  pub status : ℕ
  pub offset : ℕ
  pub data_size : ℕ
  pub freq : ℕ
  pub duration : ℕ
  pub count : ℕ
  pub cur : ℕ
  pub cur_ts : ℤ
  pub max_pos : ℕ

pub record Block (W : Type 0) : Type 0 where
  pub header : Header
  pub modified : Option (List (Tuple W))

pub data UpdateState : Type 0 where
  stop single rollup : UpdateState

-- t_update_ctx: what one block tells the next.
pub record UpdateCtx (W : Type 0) : Type 0 where
  pub state : UpdateState
  pub ts : ℤ
  pub value : W
  pub tuple : Tuple W

abbrev pub block_magic : ℕ
block_magic = 0xBB99

-- sizeof(t_rrdb_metric_block_header)
abbrev pub sizeof_header : ℕ
sizeof_header = 56

abbrev pub status_last_block : ℕ
status_last_block = 1

abbrev pub u32_mod : ℕ
u32_mod = 2 ^ 32

module _ {W : Type 0} where
  unfoldable pub get_ts : UpdateCtx W → Result ℤ
  get_ts c = elim c.state [ stop ↦ err bad_state | single ↦ ok c.ts | rollup ↦ ok c.tuple.ts ]

  unfoldable pub is_dirty : Block W → Bool
  is_dirty b = elim b.modified [ none ↦ false | some ts ↦ true ]

unfoldable pub is_last_block : Header → Bool
is_last_block h = not (bit_and h.status status_last_block == 0)

unfoldable pub set_last_block : Header → Header
set_last_block h = record h { status = bit_or h.status status_last_block }

unfoldable pub get_max_disk_size : Header → ℕ
get_max_disk_size h = h.data_size + sizeof_header

unfoldable pub get_earliest_ts : Header → ℤ
get_earliest_ts h = h.cur_ts -ℤ pos h.duration -ℤ pos h.freq

unfoldable pub get_latest_ts : Header → ℤ
get_latest_ts h = h.cur_ts +ℤ pos h.freq

unfoldable pub get_latest_possible_ts : Header → ℤ
get_latest_possible_ts h = h.cur_ts +ℤ pos h.duration

unfoldable pub get_normalized_ts : Header → ℤ → ℤ
get_normalized_ts h ts = ts -ℤ rem ts h.freq

unfoldable pub get_next_pos : Header → ℕ → ℕ
get_next_pos h p = let new_pos = (p + 1) % u32_mod in if ltb new_pos h.count then new_pos else 0

unfoldable pub get_prev_pos : Header → ℕ → ℕ
get_prev_pos h p = if ltb 0 p then p - 1 else (h.count + u32_mod - 1) % u32_mod

unfoldable pub get_offset_to_data : Header → ℕ
get_offset_to_data h = h.offset + sizeof_header

-- The part of the data that goes to disk: the last block of a file is cut after `max_pos`.
unfoldable pub get_disk_data_size : Header → ℕ
unfolding is_last_block
get_disk_data_size h = if is_last_block h then sizeof_tuple * (h.max_pos + 1) else h.data_size

-- The header that the constructor fills in. A count is below 2 ^ 32, so that its `data_size`, a
-- 64-bit number, does not wrap.
unfoldable pub new_header : ℕ → ℕ → ℕ → Header
new_header freq count offset = record {
  magic = block_magic;
  status = 0;
  offset = offset;
  data_size = count * sizeof_tuple;
  freq = freq;
  duration = freq * count % u32_mod;
  count = count;
  cur = 0;
  cur_ts = pos 0;
  max_pos = 0;
}

module _ {W : Type 0} ⦃v : Value W⦄ where
  -- rrdb_metric_block::rrdb_metric_block: a block with no tuples has a null array.
  pub new_block : ℕ → ℕ → ℕ → Result (Block W)
  unfolding new_header
  new_block freq count offset =
      let h = new_header freq count offset in
      let tuples : List (Tuple W) = new_tuples count in
      if ltb 0 h.count && ltb 0 h.data_size
      then (do
        require (ltb 0 (length tuples))
        require (length tuples == h.count)
        require (get_memory_size tuples == h.data_size)
        ok (record { header = h; modified = some tuples }))
      else ok (record { header = h; modified = none })

  -- The four checks on an array of tuples that open most of the methods.
  unfoldable pub check_tuples : Header → List (Tuple W) → Result (Unit {0})
  check_tuples h tuples = do
    require (ltb 0 (length tuples))
    require (length tuples == h.count)
    require (get_memory_size tuples == h.data_size)
