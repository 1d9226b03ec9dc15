-- ===== src/Metric/File/Saved.antt =====
-- save_file and load_file of src/rrdb/rrdb_metric.cpp: what is saved is loaded.
use mathlib.Core.Path.{subst}
use stats_rrdb.Prelude.{
  ℕ, suc, ◌+◌, ◌-◌, ◌≡◌, refl, sym, ap, ◌∙◌, true, false, none, List, [], ◌∷◌, ◌++◌, length, drop,
  length-append, drop-append_more, append_nil, append_assoc, lt→ltb, arith,
}
use stats_rrdb.Prelude.Result.{Result, ok, ◌>>=◌}
use stats_rrdb.Value.{Value}
use stats_rrdb.Bytes.{Bytes}
use stats_rrdb.PaddedString.{get_file_size}
use stats_rrdb.Block.{sizeof_header, get_disk_data_size, get_offset_to_data}
use stats_rrdb.Block.Disk.{update_max_pos, write_block, read_block, read_block_data}
use stats_rrdb.Block.Disk.Roundtrip.{BlockWritten}
use stats_rrdb.Block.Disk.Slots.{same_place, IsRing-update_max_pos}
use stats_rrdb.Metric.{Metric, Cell, new_metric, sizeof_metric_header, is_deleted}
use stats_rrdb.Metric.Sound.{IsSound, AllSound, IsMetric, check_metric-ok}
use stats_rrdb.Block.Update.{get_tuples}
use stats_rrdb.Metric.File.{clear_dirty, load_cells, load_file, save_cells, save_file}
use stats_rrdb.Metric.File.Codec.{
  MetricFits, head_of, length-head_of, write_header-ok, read_header-head_of, stored, IsWritable,
  cell_written, write_cell-ok,
}

module _ {W : Type 0} ⦃v : Value W⦄ ⦃b : Bytes W⦄ where
  -- The blocks follow one another in the file.
  abbrev pub AllWritable : ℕ → List (Cell W) → Type 0
  AllWritable at [] = Unit
  AllWritable at (c ∷ cs) =
      IsWritable at c
      × AllWritable (at + sizeof_header + get_disk_data_size (update_max_pos c.block.header)) cs

  abbrev pub stored_cells : List (Cell W) → List (Cell W)
  stored_cells [] = []
  stored_cells (c ∷ cs) = stored c ∷ stored_cells cs

  -- What the blocks are as bytes, and what these are read as at their place in a file.
  record CellsSaved (at : ℕ) (cs : List (Cell W)) (r : List (Cell W) × Result (List ℕ))
      : Type 0 where
    bytes : List ℕ
    returns : r ≡ (stored_cells cs, ok bytes)
    loads :
        (file front back : List ℕ)
        → file ≡ front ++ (bytes ++ back)
        → length front ≡ at
        → load_cells file (length cs) at (bytes ++ back) ≡ ok (stored_cells cs)

  pub data_found :
      (at : ℕ) (c : Cell W) (i : IsWritable at c) (file front back : List ℕ)
      → file ≡ front ++ ((cell_written i).bytes ++ back)
      → length front ≡ at
      → read_block_data
          (update_max_pos c.block.header)
          (drop (get_offset_to_data (update_max_pos c.block.header)) file)
        ≡ ok (i.tuples, back)
  unfolding get_offset_to_data
  data_found at c i file front back e h =
      ap
        (λ l.
          read_block_data (update_max_pos c.block.header)
            (drop ((update_max_pos c.block.header).offset + sizeof_header) l))
        e
      ∙ ap (read_block_data (update_max_pos c.block.header)) (
          drop-append_more at sizeof_header ((update_max_pos c.block.header).offset + sizeof_header)
            front ((cell_written i).bytes ++ back) h
            (omega (arith, (same_place c.block.header).4, i.placed)))
      ∙ (cell_written i).reads_data back
      ∙ ap (λ ts. ok (ts, back)) i.whole

  pub stored-eq :
      (at : ℕ) (c : Cell W) (i : IsWritable at c)
      → stored c ≡ record {
        block = record { header = update_max_pos c.block.header; modified = none };
        fetched = ok i.tuples;
      }
  unfolding stored
  stored-eq at c i = rw i.held refl

  pub skips_at :
      (at : ℕ) (c : Cell W) (i : IsWritable at c) (rest : List ℕ)
      → read_block {W = W} at ((cell_written i).bytes ++ rest) true
        ≡ ok (record { header = update_max_pos c.block.header; modified = none }, rest)
  skips_at at c i rest =
      ap (λ n. read_block n ((cell_written i).bytes ++ rest) true)
        (sym i.placed ∙ sym (same_place c.block.header).4)
      ∙ (cell_written i).skips rest

  CellsSaved-step :
      (at : ℕ) (c : Cell W) (cs : List (Cell W)) (i : IsWritable at c)
      → CellsSaved
          (at + sizeof_header + get_disk_data_size (update_max_pos c.block.header))
          cs
          (save_cells cs)
      → CellsSaved at (c ∷ cs) (save_cells (c ∷ cs))
  unfolding save_cells load_cells
  CellsSaved-step at c cs i rest = record {
    bytes = w.bytes ++ rest.bytes;
    returns =
        rw (save_cells, write_cell-ok c i, ap (λ p. p.1) rest.returns, ap (λ p. p.0) rest.returns)
          refl;
    loads = λ file front back e h.
        rw
          (
            append_assoc w.bytes rest.bytes back,
            skips_at at c i (rest.bytes ++ back),
            data_found at c i file front (rest.bytes ++ back)
                (e ∙ ap (λ l. front ++ l) (append_assoc w.bytes rest.bytes back)) h,
            rest.loads file (front ++ w.bytes) back (behind file front back e)
                (omega (arith, length-append front w.bytes, w.sized)),
            stored-eq at c i,
          )
          refl;
  }
    where
      w : BlockWritten (update_max_pos c.block.header) i.tuples (write_block c.block)
      w = cell_written i

      behind :
          (file front back : List ℕ)
          → file ≡ front ++ ((w.bytes ++ rest.bytes) ++ back)
          → file ≡ (front ++ w.bytes) ++ (rest.bytes ++ back)
      behind file front back e =
          e
          ∙ ap (λ l. front ++ l) (append_assoc w.bytes rest.bytes back)
          ∙ sym (append_assoc front w.bytes (rest.bytes ++ back))

  save_cells-CellsSaved :
      (at : ℕ) (cs : List (Cell W)) → AllWritable at cs → CellsSaved at cs (save_cells cs)
  save_cells-CellsSaved at [] i =
      unfold save_cells load_cells in
      record { bytes = []; returns = refl; loads = λ file front back e h. refl }
  save_cells-CellsSaved at (c ∷ cs) i = CellsSaved-step at c cs i.0 (
      save_cells-CellsSaved
        (at + sizeof_header + get_disk_data_size (update_max_pos c.block.header)) cs i.1)

  -- All the blocks, from the end of the header on.
  cells_found :
      (at : ℕ) (cs : List (Cell W)) (r : List (Cell W) × Result (List ℕ)) (s : CellsSaved at cs r)
      (front : List ℕ) (n : ℕ)
      → length front ≡ at
      → n ≡ length cs
      → load_cells (front ++ s.bytes) n (length (front ++ s.bytes) - length s.bytes) s.bytes
        ≡ ok (stored_cells cs)
  cells_found at cs r s front n h e =
      ap
        (λ k.
          load_cells {W = W} (front ++ s.bytes) k (length (front ++ s.bytes) - length s.bytes)
            s.bytes)
        e
      ∙ ap (λ k. load_cells {W = W} (front ++ s.bytes) (length cs) k s.bytes)
          (omega (arith, length-append front s.bytes))
      ∙ ap (load_cells {W = W} (front ++ s.bytes) (length cs) at) (sym (append_nil s.bytes))
      ∙ s.loads (front ++ s.bytes) front [] (ap (λ l. front ++ l) (sym (append_nil s.bytes))) h

  AllSound-stored_cells :
      (at : ℕ) (cs : List (Cell W)) → AllWritable at cs → AllSound (stored_cells cs)
  unfolding get_tuples
  AllSound-stored_cells at [] i = tt
  AllSound-stored_cells at (c ∷ cs) i = (
    subst IsSound (sym (stored-eq at c i.0)) (record {
      tuples = i.0.tuples;
      got =
          rw (lt→ltb 0 (length i.0.tuples) (omega (arith, i.0.ring.sized, i.0.ring.filled_in)))
            refl;
      ring = IsRing-update_max_pos c.block.header i.0.tuples i.0.ring;
    }),
    AllSound-stored_cells (at + sizeof_header + get_disk_data_size (update_max_pos c.block.header))
        cs i.1,
  )

  pub length-stored_cells : (cs : List (Cell W)) → length (stored_cells cs) ≡ length cs
  length-stored_cells [] = refl
  length-stored_cells (c ∷ cs) = ap suc (length-stored_cells cs)

  -- The metric after it is saved.
  unfoldable pub saved : Metric W → Metric W
  saved m = record (clear_dirty m) { blocks = stored_cells m.blocks }

  -- What saving a metric gives, and loading the file.
  pub record FileSaved (m : Metric W) (r : Metric W × Result (List ℕ)) : Type 0 where
    pub file : List ℕ
    pub returns : r ≡ (saved m, ok file)
    pub in_order : IsMetric (saved m)
    pub loads : load_file file (new_metric m.filename) ≡ ok (saved m)

  -- Saving a metric in order that is not deleted, whose header fits its fields, and whose blocks have
  -- changed, follow one another in the file, fit their fields and lose no slot, returns: the file is
  -- one from which load_file gives the metric as save_file leaves it, and that is in order.
  pub save_file-FileSaved :
      (m : Metric W)
      → IsMetric m
      → is_deleted m ≡ false
      → MetricFits (clear_dirty m)
      → AllWritable (sizeof_metric_header + get_file_size m.name) m.blocks
      → FileSaved m (save_file m)
  unfolding save_file saved load_file clear_dirty new_metric is_deleted
  save_file-FileSaved m o live f i = record {
    file = head_of (clear_dirty m) ++ cells.bytes;
    returns =
        rw
          (
            live,
            check_metric-ok o,
            write_header-ok (clear_dirty m) f,
            ap (λ p. p.1) cells.returns,
            ap (λ p. p.0) cells.returns,
          )
          refl;
    in_order = record {
      named = o.named;
      has_blocks = omega (arith, o.has_blocks, length-stored_cells m.blocks);
      counted = length-stored_cells m.blocks ∙ o.counted;
      sound = AllSound-stored_cells (sizeof_metric_header + get_file_size m.name) m.blocks i;
    };
    loads = rw (read_header-head_of (clear_dirty m) (new_metric m.filename) cells.bytes f) (
        ap (λ r. r >>= λ found. ok (record (clear_dirty m) { blocks = found }))
          (cells_found (sizeof_metric_header + get_file_size m.name) m.blocks (save_cells m.blocks)
            cells (head_of (clear_dirty m)) m.blocks_size (length-head_of (clear_dirty m))
            (sym o.counted)));
  }
    where
      cells :
          CellsSaved (sizeof_metric_header + get_file_size m.name) m.blocks (save_cells m.blocks)
      cells = save_cells-CellsSaved (sizeof_metric_header + get_file_size m.name) m.blocks i
