-- ===== src/Metric/Create.antt =====
-- rrdb_metric::create of src/rrdb/rrdb_metric.cpp.
pub mod Laws
pub mod Written
use stats_rrdb.Prelude.{
  ℕ, zero, suc, ◌+◌, ◌*◌, ◌/◌, ◌%◌, ◌^◌, Bool, true, false, not, Option, none, some, List, [], ◌∷◌,
  ◌++◌, length, ltb, ◌==◌,
}
use stats_rrdb.Prelude.Result.{Result, ok, err, fault, bad_name, ◌>>=◌, ◌>>◌, guard, require, io}
use stats_rrdb.Value.{Value}
use stats_rrdb.Block.{Block, Header, new_block, set_last_block, get_max_disk_size}
use stats_rrdb.Policy.{PolicyElem}
use stats_rrdb.PaddedString.{PaddedString, reset, get_file_size, is_empty}
use stats_rrdb.Metric.{Metric, Cell, sizeof_metric_header}

module _ {W : Type 0} ⦃v : Value W⦄ where
  -- The loop over the policy: each block begins in the file where the one before may end at most.
  -- A block keeps its array until it is saved, so that nothing is fetched for it yet.
  pub make_blocks : ℕ → List PolicyElem → Result (List (Cell W))
  make_blocks offset [] = ok []
  make_blocks offset (e ∷ es) = do
    guard (not (e.freq == 0)) fault
    block ← new_block e.freq (e.duration / e.freq) offset
    rest ← make_blocks (offset + get_max_disk_size block.header) es
    ok (record { block = block; fetched = err io } ∷ rest)

  -- `_blocks.back()->set_last_block()`
  pub mark_last : List (Cell W) → List (Cell W)
  mark_last [] = []
  mark_last (c ∷ []) =
      record c {
        block = record { header = set_last_block c.block.header; modified = c.block.modified };
      }
      ∷ []
  mark_last (c ∷ d ∷ cs) = c ∷ mark_last (d ∷ cs)

  -- `check_name` is statement_check_metric_name without upper case, and `to_filename` is
  -- construct_filename.
  unfoldable pub create :
      (check_name : List ℕ → Bool) (to_filename : List ℕ → List ℕ)
      → Metric W
      → List ℕ
      → List PolicyElem
      → Result (Metric W)
  unfolding make_blocks mark_last
  create check_name to_filename m name policy = do
    guard (check_name name) bad_name
    require (ltb 0 (length policy))
    require (is_empty m.name)
    require (length m.blocks == 0)
    let name' = reset name
    blocks ← make_blocks (sizeof_metric_header + get_file_size name') policy
    require (ltb 0 (length blocks))
    ok (record m {
      name = name';
      filename = to_filename name;
      blocks_size = length policy % 2 ^ 16;
      blocks = mark_last blocks;
    })
