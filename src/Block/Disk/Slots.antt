-- ===== src/Block/Disk/Slots.antt =====
-- The header that write_block of src/rrdb/rrdb_metric_block.cpp writes, and how much of the array.
use stats_rrdb.Prelude.{
  ℕ, zero, suc, ◌+◌, ◌*◌, ◌≤◌, ◌<◌, ◌≡◌, refl, inl, inr, Bool-cases, List, [], ◌∷◌, ◌++◌, length,
  get_or, take, drop, replicate, length-append, length-take, length-drop, length-replicate, ltb,
  if◌then◌else◌, arith,
}
use stats_rrdb.Prelude.Result.{ok}
use stats_rrdb.Value.{Value}
use stats_rrdb.Tuple.{Tuple, zero_tuple, sizeof_tuple}
use stats_rrdb.Block.{Header, block_magic, is_last_block, get_disk_data_size}
use stats_rrdb.Block.Find.Ages.{Shape, IsRing}
use stats_rrdb.Block.Disk.{update_max_pos, check_header}
use stats_rrdb.Block.Disk.Codec.{HeaderFits}
use stats_rrdb.Block.Disk.Tuples.{cut_at}

-- How many slots the file holds.
unfoldable pub saved_slots : Header → ℕ
saved_slots h = if is_last_block h then h.max_pos + 1 else h.count

pub saved_slots-size : (h : Header) → Shape h → get_disk_data_size h ≡ sizeof_tuple * saved_slots h
unfolding saved_slots get_disk_data_size
saved_slots-size h s = elim (Bool-cases (is_last_block h)) [
  | inl last ↦ rw last
  | inr other ↦ rw other (omega (arith, s.data_size_is))
]

-- A header that write_block may write, after its update of the largest position.
pub record IsStored (h : Header) : Type 0 where
  pub shape : Shape h
  pub fits : HeaderFits h
  pub is_magic : h.magic ≡ block_magic
  pub max_in : h.max_pos < h.count
  pub cur_saved : h.cur ≤ h.max_pos

pub saved_slots-in : (h : Header) → IsStored h → (saved_slots h ≤ h.count) × (h.cur < saved_slots h)
unfolding saved_slots
saved_slots-in h i = elim (Bool-cases (is_last_block h)) [
  | inl last ↦ rw last (omega (arith, i.max_in), omega (arith, i.cur_saved))
  | inr other ↦ rw other (omega arith, i.shape.cur_in)
]

pub check_header-ok : (h : Header) → IsStored h → check_header h.offset h ≡ ok tt
unfolding check_header
check_header-ok h i = ground (
  arith, i.is_magic, i.shape.freq_pos, i.shape.cur_in, i.shape.duration_is, i.fits.duration,
  i.max_in, i.cur_saved, i.shape.data_size_is,
)

module _ {W : Type 0} ⦃v : Value W⦄ where
  -- The cut array holds what the array held before the cut, and zeros behind it.
  pub get_or-cut_before :
      (n i : ℕ) (ts zs : List (Tuple W))
      → i < n
      → n ≤ length ts
      → get_or (take n ts ++ zs) i zero_tuple ≡ get_or ts i zero_tuple
  get_or-cut_before zero i ts zs hi h = absurd (omega arith)
  get_or-cut_before (suc n) i [] zs hi h = absurd (omega arith)
  get_or-cut_before (suc n) zero (t ∷ ts) zs hi h = refl
  get_or-cut_before (suc n) (suc i) (t ∷ ts) zs hi h =
      get_or-cut_before n i ts zs (omega arith) (omega arith)

  pub length-cut_at :
      (n : ℕ) (ts : List (Tuple W)) → n ≤ length ts → length (cut_at n ts) ≡ length ts
  length-cut_at n ts h = omega (
    arith,
    length-append (take n ts) (drop n (replicate (length ts) (zero_tuple {W = W}))),
    length-take n ts h,
    length-drop n (replicate (length ts) (zero_tuple {W = W})),
    length-replicate (length ts) (zero_tuple {W = W}),
  )

-- What the update of the largest position keeps.
pub same_place :
    (h : Header)
    → ((update_max_pos h).count ≡ h.count)
      × ((update_max_pos h).cur ≡ h.cur)
      × ((update_max_pos h).cur_ts ≡ h.cur_ts)
      × (is_last_block (update_max_pos h) ≡ is_last_block h)
      × ((update_max_pos h).offset ≡ h.offset)
unfolding update_max_pos is_last_block
same_place h = elim (Bool-cases (ltb h.max_pos h.cur)) [
  | inl grows ↦ rw (update_max_pos, grows) (refl, refl, refl, refl, refl)
  | inr stays ↦ rw (update_max_pos, stays) (refl, refl, refl, refl, refl)
]

-- The header that write_block leaves is one that it may write.
pub update_max_pos-IsStored :
    (h : Header)
    → Shape h
    → HeaderFits h
    → h.magic ≡ block_magic
    → h.max_pos < h.count
    → IsStored (update_max_pos h)
unfolding update_max_pos
update_max_pos-IsStored h s f m i = elim (Bool-cases (ltb h.max_pos h.cur)) [
  | inl grows ↦
      rw (update_max_pos, grows)
        (record {
          shape = record {
            freq_pos = s.freq_pos;
            cur_in = s.cur_in;
            count_in = s.count_in;
            duration_is = s.duration_is;
            data_size_is = s.data_size_is;
          };
          fits = record {
            magic = f.magic;
            status = f.status;
            offset = f.offset;
            data_size = f.data_size;
            freq = f.freq;
            duration = f.duration;
            count = f.count;
            cur = f.cur;
            cur_ts = f.cur_ts;
            max_pos = f.cur;
          };
          is_magic = m;
          max_in = s.cur_in;
          cur_saved = omega arith;
        })
  | inr stays ↦
      rw (update_max_pos, stays)
        (record { shape = s; fits = f; is_magic = m; max_in = i; cur_saved = ground arith })
]

module _ {W : Type 0} ⦃v : Value W⦄ where
  pub IsRing-update_max_pos :
      (h : Header) (tuples : List (Tuple W)) → IsRing h tuples → IsRing (update_max_pos h) tuples
  unfolding update_max_pos
  IsRing-update_max_pos h tuples r = elim (Bool-cases (ltb h.max_pos h.cur)) [
    | inl grows ↦
        rw (update_max_pos, grows)
          (record {
            shape = record {
              freq_pos = r.shape.freq_pos;
              cur_in = r.shape.cur_in;
              count_in = r.shape.count_in;
              duration_is = r.shape.duration_is;
              data_size_is = r.shape.data_size_is;
            };
            sized = r.sized;
            filled = r.filled;
            filled_in = r.filled_in;
            stamped = r.stamped;
            blank = r.blank;
          })
    | inr stays ↦ rw (update_max_pos, stays) r
  ]
