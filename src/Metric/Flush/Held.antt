-- ===== src/Metric/Flush/Held.antt =====
-- The blocks in a metric's file before and after the writes of save_dirty_blocks
-- (src/rrdb/rrdb_metric.cpp).
use mathlib.Core.Path.{subst}
use stats_rrdb.Prelude.{
  true, ℕ, suc, ◌+◌, ◌≤◌, ◌≡◌, inl, inr, refl, sym, ap, ◌∙◌, none, List, [], ◌∷◌, ◌++◌, length,
  drop, length-append, drop-append_more, append_nil, append_assoc, arith,
}
use stats_rrdb.Prelude.Result.{ok, ◌>>=◌}
use stats_rrdb.Value.{Value}
use stats_rrdb.Bytes.{Bytes}
use stats_rrdb.Storage.{write_at, apply_writes}
use stats_rrdb.Storage.Laws.{write_at-middle, write_at-end}
use stats_rrdb.Block.{sizeof_header, get_disk_data_size, get_offset_to_data}
use stats_rrdb.Block.Disk.{read_block, read_block_data}
use stats_rrdb.Block.Disk.Slots.{same_place}
use stats_rrdb.Metric.{Cell}
use stats_rrdb.Metric.File.{load_cells}
use stats_rrdb.Metric.File.Codec.{stored, IsWritable, cell_written}
use stats_rrdb.Metric.File.Saved.{stored_cells, stored-eq, skips_at}
use stats_rrdb.Metric.Flush.Journaled.{AllFlushable, block_writes, stored-clean}

module _ {W : Type 0} ⦃v : Value W⦄ ⦃b : Bytes W⦄ where
  -- The bytes of an unchanged block in the file.
  pub record CellBytes (at : ℕ) (c : Cell W) (bytes : List ℕ) : Type 0 where
    pub placed : c.block.header.offset ≡ at
    pub sized : length bytes ≡ sizeof_header + get_disk_data_size c.block.header
    pub skips : (rest : List ℕ) → read_block at (bytes ++ rest) true ≡ ok (c.block, rest)
    pub reads :
        (rest : List ℕ)
        → (do
          (tuples, behind) ← read_block_data c.block.header (drop sizeof_header (bytes ++ rest))
          ok tuples)
          ≡ c.fetched

  -- What the file holds of the blocks before the flush: an unchanged block as it is, and for a changed
  -- one as many bytes as will be written; for the last one there may be fewer.
  pub data Held : (at : ℕ) (cs : List (Cell W)) → AllFlushable at cs → List ℕ → Type 0 where
    nothing : {at : ℕ} → Held at [] tt []
    unchanged :
        {at : ℕ} {c : Cell W} {cs : List (Cell W)} (bytes more : List ℕ)
        {clean : c.block.modified ≡ none}
        {rest : AllFlushable (at + sizeof_header + get_disk_data_size (stored c).block.header) cs}
        → CellBytes at c bytes
        → Held (at + sizeof_header + get_disk_data_size (stored c).block.header) cs rest more
        → Held at (c ∷ cs) (inl clean, rest) (bytes ++ more)
    changed :
        {at : ℕ} {c : Cell W} {cs : List (Cell W)} (bytes more : List ℕ) {dirty : IsWritable at c}
        {rest : AllFlushable (at + sizeof_header + get_disk_data_size (stored c).block.header) cs}
        → length bytes ≡ length (cell_written dirty).bytes
        → Held (at + sizeof_header + get_disk_data_size (stored c).block.header) cs rest more
        → Held at (c ∷ cs) (inr dirty, rest) (bytes ++ more)
    grown :
        {at : ℕ} {c : Cell W} {bytes : List ℕ} {dirty : IsWritable at c}
        → length bytes ≤ length (cell_written dirty).bytes
        → Held at (c ∷ []) (inr dirty, tt) bytes

  -- What the writes of the changed blocks make of them.
  pub record CellsFlushed (at : ℕ) (cs : List (Cell W)) (i : AllFlushable at cs) (old : List ℕ)
      : Type 0 where
    pub new : List ℕ
    pub applied :
        (front : List ℕ)
        → length front ≡ at
        → apply_writes (block_writes at cs i) (front ++ old) ≡ front ++ new
    pub loads :
        (file front : List ℕ)
        → file ≡ front ++ new
        → length front ≡ at
        → load_cells file (length cs) at new ≡ ok (stored_cells cs)

  -- A changed block after it is written.
  written_bytes :
      (at : ℕ) (c : Cell W) (i : IsWritable at c) → CellBytes at (stored c) (cell_written i).bytes
  written_bytes at c i =
      subst (λ d. CellBytes at d (cell_written i).bytes) (sym (stored-eq at c i))
        (record {
          placed = (same_place c.block.header).4 ∙ i.placed;
          sized = (cell_written i).sized;
          skips = λ rest. skips_at at c i rest;
          reads = λ rest. rw ((cell_written i).reads_data rest, i.whole) refl;
        })

  -- A block whose bytes stand in the file is loaded.
  cell_loaded :
      (at n : ℕ) (c : Cell W) (cs : List (Cell W)) (bytes more file front : List ℕ)
      → CellBytes at c bytes
      → load_cells file n (at + sizeof_header + get_disk_data_size c.block.header) more ≡ ok cs
      → file ≡ front ++ (bytes ++ more)
      → length front ≡ at
      → load_cells file (suc n) at (bytes ++ more) ≡ ok (c ∷ cs)
  unfolding load_cells get_offset_to_data
  cell_loaded at n c cs bytes more file front held others e h =
      rw (held.skips more, others, read) refl
    where
      read :
          (do
            (tuples, behind) ←
                read_block_data c.block.header (drop (c.block.header.offset + sizeof_header) file)
            ok tuples)
          ≡ c.fetched
      read =
          ap (λ l. do (tuples, behind) ← read_block_data c.block.header l; ok tuples)
            (ap (drop (c.block.header.offset + sizeof_header)) e
              ∙ drop-append_more at sizeof_header (c.block.header.offset + sizeof_header) front
                  (bytes ++ more) h (omega (arith, held.placed)))
          ∙ held.reads more

  cells_loaded :
      (at : ℕ) (c : Cell W) (cs : List (Cell W)) (bytes more : List ℕ)
      (rest : AllFlushable (at + sizeof_header + get_disk_data_size (stored c).block.header) cs)
      → CellBytes at (stored c) bytes
      → (f : CellsFlushed
          (at + sizeof_header + get_disk_data_size (stored c).block.header)
          cs
          rest
          more)
      → (file front : List ℕ) → file ≡ front ++ (bytes ++ f.new)
      → length front ≡ at
      → load_cells file (suc (length cs)) at (bytes ++ f.new) ≡ ok (stored_cells (c ∷ cs))
  cells_loaded at c cs bytes more rest held f file front e h =
      cell_loaded at (length cs) (stored c) (stored_cells cs) bytes f.new file front held
        (f.loads file (front ++ bytes) (e ∙ sym (append_assoc front bytes f.new))
          (omega (arith, length-append front bytes, held.sized)))
        e h

  unchanged_flushed :
      (at : ℕ) (c : Cell W) (cs : List (Cell W)) (bytes more : List ℕ)
      (clean : c.block.modified ≡ none)
      (rest : AllFlushable (at + sizeof_header + get_disk_data_size (stored c).block.header) cs)
      → CellBytes at (stored c) bytes
      → CellsFlushed (at + sizeof_header + get_disk_data_size (stored c).block.header) cs rest more
      → CellsFlushed at (c ∷ cs) (inl clean, rest) (bytes ++ more)
  unchanged_flushed at c cs bytes more clean rest held f = record {
    new = bytes ++ f.new;
    applied = λ front h.
        ap
          (apply_writes (
            block_writes (at + sizeof_header + get_disk_data_size (stored c).block.header) cs rest))
          (sym (append_assoc front bytes more))
        ∙ f.applied (front ++ bytes) (omega (arith, length-append front bytes, held.sized))
        ∙ append_assoc front bytes f.new;
    loads = λ file front e h. cells_loaded at c cs bytes more rest held f file front e h;
  }

  -- A block that is written at its place.
  changed_flushed :
      (at : ℕ) (c : Cell W) (cs : List (Cell W)) (old more : List ℕ) (dirty : IsWritable at c)
      (rest : AllFlushable (at + sizeof_header + get_disk_data_size (stored c).block.header) cs)
      → ((front : List ℕ)
          → length front ≡ at
          → write_at at (cell_written dirty).bytes (front ++ old)
            ≡ front ++ ((cell_written dirty).bytes ++ more))
      → CellsFlushed (at + sizeof_header + get_disk_data_size (stored c).block.header) cs rest more
      → CellsFlushed at (c ∷ cs) (inr dirty, rest) old
  unfolding apply_writes
  changed_flushed at c cs old more dirty rest placed f = record {
    new = (cell_written dirty).bytes ++ f.new;
    applied = λ front h.
        ap
          (apply_writes (
            block_writes (at + sizeof_header + get_disk_data_size (stored c).block.header) cs rest))
          (placed front h ∙ sym (append_assoc front (cell_written dirty).bytes more))
        ∙ f.applied (front ++ (cell_written dirty).bytes) (
            omega (
              arith,
              length-append front (cell_written dirty).bytes,
              (written_bytes at c dirty).sized,
            ))
        ∙ append_assoc front (cell_written dirty).bytes f.new;
    loads = λ file front e h.
        cells_loaded at c cs (cell_written dirty).bytes more rest (written_bytes at c dirty) f file
          front e h;
  }

  none_flushed : (at : ℕ) → CellsFlushed at [] tt []
  unfolding apply_writes load_cells
  none_flushed at = record { new = []; applied = λ front h. refl; loads = λ file front e h. refl }

  pub Held-CellsFlushed :
      (at : ℕ) (cs : List (Cell W)) (i : AllFlushable at cs) (old : List ℕ)
      → Held at cs i old
      → CellsFlushed at cs i old
  Held-CellsFlushed at [] i old nothing = none_flushed at
  Held-CellsFlushed at (c ∷ cs) i old
        (unchanged bytes more {clean = clean} {rest = rest} held others) =
      unchanged_flushed at c cs bytes more clean rest
        (subst (λ d. CellBytes at d bytes) (sym (stored-clean c clean)) held)
        (Held-CellsFlushed (at + sizeof_header + get_disk_data_size (stored c).block.header) cs rest
          more others)
  Held-CellsFlushed at (c ∷ cs) i old
        (changed bytes more {dirty = dirty} {rest = rest} same others) =
      changed_flushed at c cs (bytes ++ more) more dirty rest
        (λ front h. write_at-middle at front bytes (cell_written dirty).bytes more h same)
        (Held-CellsFlushed (at + sizeof_header + get_disk_data_size (stored c).block.header) cs rest
          more others)
  Held-CellsFlushed at (c ∷ []) i old (grown {bytes = bytes} {dirty = dirty} fits) =
      changed_flushed at c [] bytes [] dirty tt
        (λ front h.
          write_at-end at front bytes (cell_written dirty).bytes h fits
          ∙ ap (λ l. front ++ l) (sym (append_nil (cell_written dirty).bytes)))
        (none_flushed (at + sizeof_header + get_disk_data_size (stored c).block.header))
