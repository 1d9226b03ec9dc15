-- ===== src/Metric/Create/Written.antt =====
-- A metric that rrdb_metric::create has made can be saved (src/rrdb/rrdb_metric.cpp).
use Prim.Native.Nat.{bit_and}
use stats_rrdb.Prelude.{
  inl, inr, Bool-cases, ltb, ◌-◌, ℕ, ◌+◌, ◌*◌, ◌/◌, ◌^◌, ◌≤◌, ◌<◌, ◌≡◌, refl, ap, ◌∙◌, none, some,
  Option, List, [], ◌∷◌, ◌++◌, length, take, drop, take-drop, replicate, length-replicate, arith,
  false,
}
use stats_rrdb.Prelude.Result.{Result, ok}
use stats_rrdb.Value.{Value}
use stats_rrdb.Bytes.{Bytes}
use stats_rrdb.Tuple.{new_tuples, zero_tuple, sizeof_tuple}
use stats_rrdb.Policy.{PolicyElem}
use stats_rrdb.Policy.Laws.{IsWhole, IsPolicy}
use stats_rrdb.PaddedString.{reset, get_file_size}
use stats_rrdb.PaddedString.Laws.{length-reset}
use stats_rrdb.Block.{
  Header, new_header, set_last_block, is_last_block, get_disk_data_size, get_max_disk_size,
  sizeof_header,
}
use stats_rrdb.Block.New.{new-IsRing, last-IsRing}
use stats_rrdb.Block.Disk.{update_max_pos}
use stats_rrdb.Block.Disk.Codec.{HeaderFits}
use stats_rrdb.Block.Disk.Tuples.{AllI64-zero, cut_at}
use stats_rrdb.Metric.{
  Metric, Cell, policy_of, get_policy, is_deleted, status_dirty, sizeof_metric_header,
}
use stats_rrdb.Metric.Sound.{IsMetric}
use stats_rrdb.Metric.Create.{mark_last}
use stats_rrdb.Metric.Create.Laws.{
  IsKept, Created, header_of, first_cell, first_cells, some_slots, whole_duration,
}
use stats_rrdb.Metric.File.{Store, clear_dirty, save_to}
use stats_rrdb.Metric.File.Codec.{MetricFits, IsWritable}
use stats_rrdb.Metric.File.Saved.{
  AllWritable, stored_cells, stored-eq, length-stored_cells, saved, save_file-FileSaved,
}

-- The bytes of a block whose count has 32 bits.
abbrev block_bytes : ℕ
block_bytes = 2 ^ 32 * sizeof_tuple + sizeof_header

module _ {W : Type 0} ⦃v : Value W⦄ where
  cut_zeros : (n c : ℕ) → cut_at n (replicate c (zero_tuple {W = W})) ≡ replicate c zero_tuple
  cut_zeros n c =
      ap (λ l. take n (replicate c zero_tuple) ++ drop n (replicate l zero_tuple))
        (length-replicate c zero_tuple)
      ∙ take-drop n (replicate c zero_tuple)

  abbrev last_cell : PolicyElem → ℕ → Cell W
  last_cell e offset =
      let c = first_cell e offset in
      record c {
        block = record { header = set_last_block c.block.header; modified = c.block.modified };
      }

module _ (e : PolicyElem) (offset : ℕ) (w : IsWhole e) (positive : 0 < e.duration)
    (fits : e.duration < 2 ^ 32) (room : offset < 2 ^ 64) where
  few_slots : e.duration / e.freq < 2 ^ 32
  few_slots = grind (arith, whole_duration e w, w.0)

  short_freq : e.freq < 2 ^ 32
  short_freq = grind (arith, whole_duration e w, some_slots e w positive)

  first-HeaderFits : HeaderFits (header_of e offset)
  unfolding new_header
  first-HeaderFits = record {
    magic = omega arith;
    status = omega arith;
    offset = room;
    data_size = omega (arith, few_slots);
    freq = short_freq;
    duration = omega arith;
    count = few_slots;
    cur = omega arith;
    cur_ts = omega arith;
    max_pos = omega arith;
  }

  last-HeaderFits : HeaderFits (set_last_block (header_of e offset))
  unfolding new_header set_last_block
  last-HeaderFits = record {
    magic = omega arith;
    status = omega arith;
    offset = room;
    data_size = omega (arith, few_slots);
    freq = short_freq;
    duration = omega arith;
    count = few_slots;
    cur = omega arith;
    cur_ts = omega arith;
    max_pos = omega arith;
  }

  module _ {W : Type 0} ⦃v : Value W⦄ ⦃b : Bytes W⦄ where
    first-IsWritable : IsWritable offset (first_cell {W = W} e offset)
    unfolding new_header
    first-IsWritable = record {
      tuples = new_tuples (e.duration / e.freq);
      held = refl;
      ring =
          new-IsRing e.freq (e.duration / e.freq) offset w.0 (some_slots e w positive)
            (omega (arith, whole_duration e w));
      fits = first-HeaderFits;
      magic = refl;
      max_in = some_slots e w positive;
      wide = AllI64-zero W (e.duration / e.freq);
      placed = refl;
      whole = cut_zeros _ (e.duration / e.freq);
    }

    last-IsWritable : IsWritable offset (last_cell {W = W} e offset)
    unfolding new_header set_last_block
    last-IsWritable = record {
      tuples = new_tuples (e.duration / e.freq);
      held = refl;
      ring = last-IsRing (
          new-IsRing e.freq (e.duration / e.freq) offset w.0 (some_slots e w positive)
            (omega (arith, whole_duration e w)));
      fits = last-HeaderFits;
      magic = refl;
      max_in = some_slots e w positive;
      wide = AllI64-zero W (e.duration / e.freq);
      placed = refl;
      whole = cut_zeros _ (e.duration / e.freq);
    }

  next_place :
      offset + sizeof_header + get_disk_data_size (update_max_pos (header_of e offset))
      ≡ offset + get_max_disk_size (header_of e offset)
  unfolding new_header get_max_disk_size get_disk_data_size is_last_block update_max_pos
  next_place = omega arith

  next_bound : get_max_disk_size (header_of e offset) ≤ block_bytes
  unfolding new_header get_max_disk_size
  next_bound = omega (arith, few_slots)

-- Files can be written.
pub record Stores (store : Store) : Type 0 where
  pub opens : (n : List ℕ) → store.open_new n ≡ ok tt
  pub puts : (n bytes : List ℕ) → store.put_bytes n bytes ≡ ok tt

-- A name that is not empty, and that the 16-bit fields of its file have room for.
abbrev pub IsName : List ℕ → Type 0
IsName n = (0 < length n) × (length n + 8 < 2 ^ 16)

same_elem : (h : Header) → ((update_max_pos h).freq ≡ h.freq) × ((update_max_pos h).count ≡ h.count)
unfolding update_max_pos
same_elem h = elim (Bool-cases (ltb h.max_pos h.cur)) [
  | inl grows ↦ rw (update_max_pos, grows) (refl, refl)
  | inr stays ↦ rw (update_max_pos, stays) (refl, refl)
]

name_room :
    (n : List ℕ)
    → length n + 8 < 2 ^ 16
    → (length n < length (reset n).buf) × (length (reset n).buf < 2 ^ 16)
name_room n h = let r = length-reset n in (r.1, omega (arith, r.2))

file_room : (n : List ℕ) → length n + 8 < 2 ^ 16 → get_file_size (reset n) < 2 ^ 17
unfolding get_file_size
file_room n h = omega (arith, name_room n h)

module _ (W : Type 0) ⦃v : Value W⦄ ⦃b : Bytes W⦄ where
  first_cells-AllWritable :
      (prev : Option PolicyElem) (p : List PolicyElem) (offset : ℕ)
      → IsPolicy prev p
      → IsKept p
      → offset + length p * block_bytes < 2 ^ 64
      → AllWritable offset (mark_last (first_cells {W = W} offset p))
  unfolding mark_last
  first_cells-AllWritable prev [] offset ip kept room = tt
  first_cells-AllWritable prev (e ∷ []) offset ip kept room =
      (last-IsWritable e offset ip.0 kept.0 kept.1 (omega arith), tt)
  first_cells-AllWritable prev (e ∷ d ∷ es) offset ip kept room = (
    first-IsWritable e offset ip.0 kept.0 kept.1 (omega arith),
    rw (next_place e offset ip.0 kept.0 kept.1 (omega arith)) (
        first_cells-AllWritable (some e) (d ∷ es) (offset + get_max_disk_size (header_of e offset))
          ip.2 kept.2 (omega (arith, next_bound e offset ip.0 kept.0 kept.1 (omega arith)))),
  )

module _ {W : Type 0} ⦃v : Value W⦄ ⦃b : Bytes W⦄ where
  stored_policy :
      (at : ℕ) (cs : List (Cell W)) → AllWritable at cs → policy_of (stored_cells cs) ≡ policy_of cs
  unfolding policy_of
  stored_policy at [] i = refl
  stored_policy at (c ∷ cs) i =
      let rest =
        stored_policy (at + sizeof_header + get_disk_data_size (update_max_pos c.block.header)) cs
          i.1 in
      rw (stored-eq at c i.0, (same_elem c.block.header).0, (same_elem c.block.header).1, rest) refl

  -- What save_file does to a metric: it returns, and changes no more than the status and where the
  -- arrays are kept.
  pub record Saves (store : Store) (m : Metric W) : Type 0 where
    pub after : Metric W
    pub returns : save_to store m ≡ (after, ok tt)
    pub sound : IsMetric after
    pub same_policy : get_policy after ≡ get_policy m
    pub same_ts : (after.last_value_ts ≡ m.last_value_ts) × (after.last_value ≡ m.last_value)

  pub not_deleted : (m : Metric W) → m.status ≡ 0 → is_deleted m ≡ false
  unfolding is_deleted
  not_deleted m h = rw h refl

  create-MetricFits :
      {name : List ℕ} {policy : List PolicyElem} {r : Result (Metric W)} (c : Created name policy r)
      → IsName name
      → MetricFits (clear_dirty c.metric)
  unfolding clear_dirty reset
  create-MetricFits {name} c short = record {
    magic = c.as_new.0;
    version = c.as_new.1;
    status = rw (ap (λ n. bit_and n (2 ^ 16 - 1 - status_dirty)) c.as_new.2) (omega arith);
    blocks_size = c.as_new.3;
    last_value_ts = rw c.fresh_ts (omega arith);
    name_ends = rw c.named (name_room name short.1).0;
    name_short = rw c.named (name_room name short.1).1;
  }

  create-AllWritable :
      {name : List ℕ} {policy : List PolicyElem} {r : Result (Metric W)} (c : Created name policy r)
      → IsName name
      → IsPolicy none policy
      → IsKept policy
      → length policy < 2 ^ 16
      → AllWritable (sizeof_metric_header + get_file_size c.metric.name) c.metric.blocks
  create-AllWritable {name} {policy} c short valid kept few =
      rw (c.named, c.new_blocks)
        (first_cells-AllWritable W none policy (sizeof_metric_header + get_file_size (reset name))
          valid kept (omega (arith, file_room name short.1)))

  -- Where files can be written, a metric that create has made is saved.
  pub create-Saves :
      (store : Store)
      → Stores store
      → {name : List ℕ} {policy : List PolicyElem} {r : Result (Metric W)}
        (c : Created name policy r)
      → IsName name
      → IsPolicy none policy
      → IsKept policy
      → length policy < 2 ^ 16
      → Saves store c.metric
  unfolding save_to saved clear_dirty get_policy
  create-Saves store s c short valid kept few =
      let live = not_deleted c.metric c.as_new.2 in
      let writable = create-AllWritable c short valid kept few in
      let f = save_file-FileSaved c.metric c.sound live (create-MetricFits c short) writable in
      record {
        after = saved c.metric;
        returns =
            rw
              (save_to, live, s.opens c.metric.filename, f.returns, s.puts c.metric.filename f.file)
              (ap (λ q. (q.0, ok tt)) f.returns);
        sound = f.in_order;
        same_policy =
            rw (length-stored_cells c.metric.blocks, stored_policy _ c.metric.blocks writable) refl;
        same_ts = (refl, refl);
      }
