-- ===== src/Metric.antt =====
-- src/rrdb/rrdb_metric.h and the operations of src/rrdb/rrdb_metric.cpp on a metric in memory:
-- create, update, select, get_policy and get_last_value. Each holds the metric's lock from its first
-- access to its last, so that it is one step. The parsing of names and the hash of a name are not in
-- the repository, or are a Boost.Spirit grammar: they are parameters.
pub mod Sound
pub mod Create
pub mod Update
pub mod Select
pub mod File
pub mod Flush
use Prim.Native.Nat.{bit_and, bit_or}
use stats_rrdb.Prelude.{ℕ, ◌*◌, ◌%◌, ◌^◌, Bool, not, List, [], ◌∷◌, length, ltb, ◌==◌}
use stats_rrdb.Prelude.Int.{ℤ, pos}
use stats_rrdb.Prelude.Result.{Result, ok, ◌>>=◌, ◌>>◌, require}
use stats_rrdb.Value.{Value}
use stats_rrdb.Tuple.{Tuple}
use stats_rrdb.Block.{Block}
use stats_rrdb.Policy.{PolicyElem}
use stats_rrdb.PaddedString.{PaddedString, is_empty, cleared}

-- A block, and what the tuples cache or else the metric's file holds for it.
pub record Cell (W : Type 0) : Type 0 where
  pub block : Block W
  pub fetched : Result (List (Tuple W))

-- t_rrdb_metric_header and the members of rrdb_metric. `blocks_size` is a uint16_t.
pub record Metric (W : Type 0) : Type 0 where
  pub magic : ℕ
  pub version : ℕ
  pub status : ℕ
  pub blocks_size : ℕ
  pub last_value : W
  pub last_value_ts : ℤ
  pub name : PaddedString
  pub filename : List ℕ
  pub blocks : List (Cell W)

abbrev pub metric_magic : ℕ
metric_magic = 0xDB99

abbrev pub metric_version : ℕ
metric_version = 1

-- sizeof(t_rrdb_metric_header)
abbrev pub sizeof_metric_header : ℕ
sizeof_metric_header = 24

abbrev pub status_dirty : ℕ
status_dirty = 1

abbrev pub status_deleted : ℕ
status_deleted = 2

module _ {W : Type 0} where
  unfoldable pub is_dirty : Metric W → Bool
  is_dirty m = not (bit_and m.status status_dirty == 0)

  unfoldable pub set_dirty : Metric W → Metric W
  set_dirty m = record m { status = bit_or m.status status_dirty }

  unfoldable pub is_deleted : Metric W → Bool
  is_deleted m = not (bit_and m.status status_deleted == 0)

  pub get_last_value : Metric W → W × ℤ
  get_last_value m = (m.last_value, m.last_value_ts)

  -- The elements that get_policy pushes, block by block.
  unfoldable pub policy_of : List (Cell W) → List PolicyElem
  policy_of [] = []
  policy_of (c ∷ cs) =
      record {
        freq = c.block.header.freq;
        duration = c.block.header.freq * c.block.header.count % 2 ^ 32;
      }
      ∷ policy_of cs

  unfoldable pub get_policy : Metric W → Result (List PolicyElem)
  unfolding policy_of
  get_policy m = do require (length m.blocks == m.blocks_size); ok (policy_of m.blocks)

  -- The three checks that open update and select.
  unfoldable pub check_metric : Metric W → Result (Unit {0})
  check_metric m = do
    require (not (is_empty m.name))
    require (ltb 0 (length m.blocks))
    require (length m.blocks == m.blocks_size)

module _ {W : Type 0} ⦃v : Value W⦄ where
  -- rrdb_metric::rrdb_metric
  pub new_metric : List ℕ → Metric W
  new_metric filename = record {
    magic = metric_magic;
    version = metric_version;
    status = 0;
    blocks_size = 0;
    last_value = v.zero;
    last_value_ts = pos 0;
    name = cleared;
    filename = filename;
    blocks = [];
  }
