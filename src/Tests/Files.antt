-- ===== src/Tests/Files.antt =====
-- The files of src/rrdb/rrdb_metric_block.cpp, src/rrdb/rrdb_metric.cpp and
-- src/rrdb/rrdb_journal_file.cpp on the fixtures: a block, a metric, and a journal.
use mathlib.Core.List.{Memᴰ}
use stats_rrdb.Prelude.{
  take, drop, ℕ, ◌+◌, ◌≡◌, inr, refl, sym, ◌∙◌, false, List, [], ◌∷◌, ◌++◌, length, replicate,
  length-replicate, length-append, some, none, arith,
}
use stats_rrdb.Prelude.Result.{ok}
use stats_rrdb.Value.{nat_value}
use stats_rrdb.Bytes.{Bytes}
use stats_rrdb.Tuple.{new_tuples}
use stats_rrdb.PaddedString.{reset, padded_size, get_file_size}
use stats_rrdb.Storage.{Write, write_at}
use stats_rrdb.Storage.Torn.{Torn, intact, reached}
use stats_rrdb.Block.{Header, new_header, is_last_block, get_disk_data_size}
use stats_rrdb.Block.New.{new-IsRing}
use stats_rrdb.Block.Disk.{update_max_pos, write_block, read_block}
use stats_rrdb.Block.Disk.Codec.{HeaderFits}
use stats_rrdb.Block.Disk.Slots.{saved_slots}
use stats_rrdb.Block.Disk.Tuples.{AllI64-zero}
use stats_rrdb.Block.Disk.Roundtrip.{BlockWritten, write_block-BlockWritten, read_block-write_block}
use stats_rrdb.Journal.{save_journal_file, load_journal_file, new_journal}
use stats_rrdb.Journal.Built.{journal_of}
use stats_rrdb.Journal.Saved.{IsSavable, load_journal_file-save_journal_file}
use stats_rrdb.Journal.Recovery.{Recoverable, record_file-Recoverable}
use stats_rrdb.Metric.{sizeof_metric_header, is_deleted}
use stats_rrdb.Metric.File.{clear_dirty, save_file}
use stats_rrdb.Metric.File.Codec.{
  MetricFits, head_of, length-head_of, stored, IsWritable, cell_written,
}
use stats_rrdb.Metric.File.Saved.{AllWritable, FileSaved, save_file-FileSaved}
use stats_rrdb.Metric.Flush.Journaled.{AllFlushable, flush_writes}
use stats_rrdb.Metric.Flush.Held.{Held, nothing, changed}
use stats_rrdb.Metric.Flush.Recovered.{Flushed, save_dirty_blocks-Flushed}
use stats_rrdb.Tests.Fixtures.{cpu, fine, coarse, metric, metric-IsMetric}

-- A number as the first of eight bytes.
abbrev first_byte : List ℕ → ℕ
first_byte [] = 0
first_byte (x ∷ bs) = x

instance pub nat_bytes : Bytes ℕ
nat_bytes = record {
  to_bytes = λ x. x ∷ replicate 7 0;
  of_bytes = first_byte;
  sized = λ x. refl;
  kept = λ x. refl;
}

abbrev header_a : Header
header_a = new_header 10 6 40

abbrev header_b : Header
header_b = new_header 60 3 384

header_a-HeaderFits : HeaderFits header_a
unfolding new_header
header_a-HeaderFits = record {
  magic = omega arith;
  status = omega arith;
  offset = omega arith;
  data_size = omega arith;
  freq = omega arith;
  duration = omega arith;
  count = omega arith;
  cur = omega arith;
  cur_ts = omega arith;
  max_pos = omega arith;
}

header_b-HeaderFits : HeaderFits header_b
unfolding new_header
header_b-HeaderFits = record {
  magic = omega arith;
  status = omega arith;
  offset = omega arith;
  data_size = omega arith;
  freq = omega arith;
  duration = omega arith;
  count = omega arith;
  cur = omega arith;
  cur_ts = omega arith;
  max_pos = omega arith;
}

write_block-BlockWritten_example :
    BlockWritten
      (update_max_pos header_a)
      (new_tuples 6)
      (write_block (record { header = header_a; modified = some (new_tuples {W = ℕ} 6) }))
unfolding new_header
write_block-BlockWritten_example =
    write_block-BlockWritten header_a (new_tuples 6)
      (new-IsRing 10 6 40 (omega arith) (omega arith) (omega arith)) header_a-HeaderFits refl
      (omega arith) (AllI64-zero ℕ 6)

read_block-write_block_example :
    (bytes : List ℕ) × (write_block
        (record { header = header_a; modified = some (new_tuples {W = ℕ} 6) })
      ≡ ok (record { header = update_max_pos header_a; modified = none }, bytes))
    × ((rest : List ℕ)
        → read_block (update_max_pos header_a).offset (bytes ++ rest) false
          ≡ ok (
            record { header = update_max_pos header_a; modified = some (new_tuples {W = ℕ} 6) },
            rest,
          ))
unfolding is_last_block new_header
read_block-write_block_example =
    read_block-write_block header_a (new_tuples 6)
      (new-IsRing 10 6 40 (omega arith) (omega arith) (omega arith)) header_a-HeaderFits refl
      (omega arith) (AllI64-zero ℕ 6) refl

fine-IsWritable : IsWritable 40 fine
unfolding update_max_pos saved_slots is_last_block new_header
fine-IsWritable = record {
  tuples = new_tuples 6;
  held = refl;
  ring = new-IsRing 10 6 40 (omega arith) (omega arith) (omega arith);
  fits = header_a-HeaderFits;
  magic = refl;
  max_in = omega arith;
  wide = AllI64-zero ℕ 6;
  placed = refl;
  whole = refl;
}

coarse-IsWritable : IsWritable 384 coarse
unfolding update_max_pos saved_slots is_last_block new_header
coarse-IsWritable = record {
  tuples = new_tuples 3;
  held = refl;
  ring = new-IsRing 60 3 384 (omega arith) (omega arith) (omega arith);
  fits = header_b-HeaderFits;
  magic = refl;
  max_in = omega arith;
  wide = AllI64-zero ℕ 3;
  placed = refl;
  whole = refl;
}

pub metric-MetricFits : MetricFits (clear_dirty metric)
unfolding clear_dirty reset padded_size
metric-MetricFits = record {
  magic = refl;
  version = refl;
  status = omega arith;
  blocks_size = omega arith;
  last_value_ts = omega arith;
  name_ends = omega arith;
  name_short = omega arith;
}

metric-AllWritable : AllWritable (sizeof_metric_header + get_file_size metric.name) metric.blocks
unfolding reset padded_size get_file_size update_max_pos get_disk_data_size is_last_block new_header
metric-AllWritable = (fine-IsWritable, (coarse-IsWritable, tt))

save_file-FileSaved_example : FileSaved metric (save_file metric)
unfolding is_deleted
save_file-FileSaved_example =
    save_file-FileSaved metric metric-IsMetric refl metric-MetricFits metric-AllWritable

abbrev two_writes : List Write
two_writes =
    record { offset = 10; bytes = 1 ∷ 2 ∷ 3 ∷ [] } ∷ record { offset = 0; bytes = 9 ∷ [] } ∷ []

two_writes-IsSavable : IsSavable cpu two_writes
unfolding reset padded_size
two_writes-IsSavable = record {
  named = omega arith;
  short = omega arith;
  some_writes = omega arith;
  few_writes = omega arith;
  few_bytes = omega arith;
  filled = (omega arith, (omega arith, tt));
  placed = (omega arith, (omega arith, tt));
}

-- The middle byte of the first write has reached the file.
first-Torn : Torn two_writes (7 ∷ 7 ∷ []) (write_at 11 (2 ∷ []) (7 ∷ 7 ∷ []))
first-Torn = reached intact (record { offset = 10; bytes = 1 ∷ 2 ∷ 3 ∷ [] }) (Memᴰ.head refl) 1 1

record_file-Recoverable_example :
    Recoverable cpu two_writes [] (7 ∷ 7 ∷ []) (write_at 11 (2 ∷ []) (7 ∷ 7 ∷ []))
record_file-Recoverable_example =
    record_file-Recoverable cpu two_writes [] (7 ∷ 7 ∷ []) (write_at 11 (2 ∷ []) (7 ∷ 7 ∷ []))
      two_writes-IsSavable first-Torn

load_journal_file-save_journal_file_example :
    (file : List ℕ) × (save_journal_file (journal_of cpu two_writes) (5 ∷ []) ≡ ok file)
    × (load_journal_file file new_journal ≡ ok (journal_of cpu two_writes))
load_journal_file-save_journal_file_example =
    load_journal_file-save_journal_file cpu two_writes (5 ∷ []) two_writes-IsSavable

-- Both blocks of the metric are written.
pub metric-AllFlushable :
    AllFlushable (sizeof_metric_header + get_file_size metric.name) metric.blocks
unfolding reset padded_size get_file_size stored update_max_pos get_disk_data_size is_last_block
    new_header
metric-AllFlushable = (inr fine-IsWritable, (inr coarse-IsWritable, tt))

fine_bytes : length (cell_written fine-IsWritable).bytes ≡ 344
unfolding update_max_pos get_disk_data_size is_last_block new_header
fine_bytes = (cell_written fine-IsWritable).sized ∙ refl

coarse_bytes : length (cell_written coarse-IsWritable).bytes ≡ 200
unfolding update_max_pos get_disk_data_size is_last_block new_header
coarse_bytes = (cell_written coarse-IsWritable).sized ∙ refl

head_bytes : length (head_of (clear_dirty metric)) ≡ 40
unfolding clear_dirty reset padded_size get_file_size
head_bytes = length-head_of (clear_dirty metric) ∙ refl

pub flush-IsSavable : IsSavable metric.filename (flush_writes metric metric-AllFlushable)
unfolding flush_writes reset padded_size metric-AllFlushable
flush-IsSavable = record {
  named = omega arith;
  short = omega arith;
  some_writes = omega arith;
  few_writes = omega arith;
  few_bytes = omega (
    arith,
    head_bytes,
    fine_bytes,
    coarse_bytes,
    length-append (head_of (clear_dirty metric))
        ((cell_written fine-IsWritable).bytes ++ ((cell_written coarse-IsWritable).bytes ++ [])),
    length-append (cell_written fine-IsWritable).bytes
        ((cell_written coarse-IsWritable).bytes ++ []),
    length-append (cell_written coarse-IsWritable).bytes [],
  );
  filled =
      (omega (arith, head_bytes), (omega (arith, fine_bytes), (omega (arith, coarse_bytes), tt)));
  placed = (omega arith, (omega arith, (omega arith, tt)));
}

pub zeros-Held :
    Held
      (sizeof_metric_header + get_file_size metric.name)
      metric.blocks
      metric-AllFlushable
      (replicate 344 0 ++ (replicate 200 0 ++ []))
unfolding reset padded_size get_file_size stored update_max_pos get_disk_data_size is_last_block
    new_header metric-AllFlushable
zeros-Held =
    changed (replicate 344 0) (replicate 200 0 ++ [])
      (length-replicate {A = ℕ} 344 0 ∙ sym fine_bytes)
      (changed (replicate 200 0) [] (length-replicate {A = ℕ} 200 0 ∙ sym coarse_bytes) nothing)

abbrev zeros : List ℕ
zeros = replicate 40 0 ++ (replicate 344 0 ++ (replicate 200 0 ++ []))

-- Twenty bytes of the first block have reached the file.
abbrev half_flushed : List ℕ
half_flushed = write_at 50 (take 20 (drop 10 (cell_written fine-IsWritable).bytes)) zeros

half_flushed-Torn : Torn (flush_writes metric metric-AllFlushable) zeros half_flushed
unfolding flush_writes metric-AllFlushable
half_flushed-Torn =
    reached intact (record { offset = 40; bytes = (cell_written fine-IsWritable).bytes })
      (Memᴰ.tail (Memᴰ.head refl)) 10 20

save_dirty_blocks-Flushed_example : Flushed metric metric-AllFlushable [] zeros half_flushed
unfolding is_deleted reset padded_size get_file_size
save_dirty_blocks-Flushed_example =
    save_dirty_blocks-Flushed metric metric-AllFlushable [] (replicate 40 0)
      (replicate 344 0 ++ (replicate 200 0 ++ [])) half_flushed metric-IsMetric refl
      metric-MetricFits flush-IsSavable refl zeros-Held half_flushed-Torn
