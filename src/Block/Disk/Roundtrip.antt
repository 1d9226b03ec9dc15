-- ===== src/Block/Disk/Roundtrip.antt =====
-- What write_block of src/rrdb/rrdb_metric_block.cpp writes, read_block and read_block_data read back.
use stats_rrdb.Prelude.{
  ℕ, ◌+◌, ◌*◌, ◌≤◌, ◌<◌, ◌≡◌, sym, ap, ◌∙◌, Bool, true, false, none, some, List, ◌++◌, length,
  get_or, take, drop, replicate, length-append, length-take, length-replicate, take_all, drop_all,
  append_nil, append_assoc, drop-append, lt→ltb, le→leb, arith,
}
use stats_rrdb.Prelude.Int.{eqb-refl_ℤ}
use stats_rrdb.Prelude.Result.{Result, ok}
use stats_rrdb.Value.{Value}
use stats_rrdb.Bytes.{Bytes}
use stats_rrdb.Tuple.{Tuple, zero_tuple, new_tuples, get_memory_size, get_at, sizeof_tuple}
use stats_rrdb.PaddedString.{read_bytes}
use stats_rrdb.PaddedString.Laws.{read_bytes-sized}
use stats_rrdb.Block.{
  Header, Block, block_magic, sizeof_header, is_last_block, get_disk_data_size, check_tuples,
}
use stats_rrdb.Block.Find.Ages.{IsRing, age, back_zero}
use stats_rrdb.Block.Find.Cases.{check_tuples-ok, current_ts}
use stats_rrdb.Block.Disk.{
  encode_header, update_max_pos, encode_tuples, decode_tuples, write_both, write_block,
  read_block_data, read_behind, read_block,
}
use stats_rrdb.Block.Disk.Codec.{HeaderFits, length-encode_header, decode_header-encode_header}
use stats_rrdb.Block.Disk.Tuples.{AllI64, length-encode_tuples, cut_at, decode_tuples-overlay}
use stats_rrdb.Block.Disk.Slots.{
  saved_slots, saved_slots-size, IsStored, saved_slots-in, check_header-ok, get_or-cut_before,
  length-cut_at, same_place, update_max_pos-IsStored,
}

module _ {W : Type 0} ⦃v : Value W⦄ ⦃b : Bytes W⦄ where
  -- The bytes of a block with the header h, and what reading them gives.
  pub record BlockWritten (h : Header) (tuples : List (Tuple W)) (r : Result (Block W × List ℕ))
      : Type 0 where
    pub bytes : List ℕ
    pub returns : r ≡ ok (record { header = h; modified = none }, bytes)
    pub sized : length bytes ≡ sizeof_header + get_disk_data_size h
    pub skips :
        (rest : List ℕ)
        → read_block {W = W} h.offset (bytes ++ rest) true
          ≡ ok (record { header = h; modified = none }, rest)
    pub reads :
        (rest : List ℕ)
        → read_block {W = W} h.offset (bytes ++ rest) false
          ≡ ok (record { header = h; modified = some (cut_at (saved_slots h) tuples) }, rest)
    pub reads_data :
        (rest : List ℕ)
        → read_block_data h (drop sizeof_header (bytes ++ rest))
          ≡ ok (cut_at (saved_slots h) tuples, rest)

  module _ (h : Header) (tuples : List (Tuple W)) (i : IsStored h) (sized : length tuples ≡ h.count)
      (fits : AllI64 tuples) (current : (get_or tuples h.cur zero_tuple).ts ≡ h.cur_ts) where
    data_bytes : List ℕ
    data_bytes = take (get_disk_data_size h) (encode_tuples tuples)

    enough : get_disk_data_size h ≤ get_memory_size tuples
    enough = omega (arith, saved_slots-size h i.shape, (saved_slots-in h i).0, sized)

    length-data_bytes : length data_bytes ≡ get_disk_data_size h
    unfolding data_bytes
    length-data_bytes =
        length-take (get_disk_data_size h) (encode_tuples tuples)
          (omega (arith, enough, length-encode_tuples tuples))

    check-ok : (ts : List (Tuple W)) → length ts ≡ h.count → check_tuples h ts ≡ ok tt
    unfolding check_tuples
    check-ok ts e = ground (arith, e, i.shape.data_size_is, i.shape.cur_in)

    memory :
        decode_tuples h.count
          (data_bytes ++ drop (get_disk_data_size h) (encode_tuples (new_tuples {W = W} h.count)))
        ≡ cut_at (saved_slots h) tuples
    unfolding data_bytes
    memory = rw (saved_slots-size h i.shape) (
        ap
          (λ n. decode_tuples n (
            take (sizeof_tuple * saved_slots h) (encode_tuples tuples)
            ++ drop (sizeof_tuple * saved_slots h)
                (encode_tuples (replicate n (zero_tuple {W = W})))))
          (sym sized)
        ∙ decode_tuples-overlay (saved_slots h) tuples
            (omega (arith, (saved_slots-in h i).0, sized)) fits)

    cut_sized : length (cut_at (saved_slots h) tuples) ≡ h.count
    cut_sized =
        length-cut_at (saved_slots h) tuples (omega (arith, (saved_slots-in h i).0, sized)) ∙ sized

    cur_kept : get_at (cut_at (saved_slots h) tuples) h.cur ≡ ok (get_or tuples h.cur zero_tuple)
    cur_kept = rw (
      cut_sized,
      lt→ltb h.cur h.count i.shape.cur_in,
      get_or-cut_before (saved_slots h) h.cur tuples
          (drop (saved_slots h) (replicate (length tuples) zero_tuple)) (saved_slots-in h i).1
          (omega (arith, (saved_slots-in h i).0, sized)),
    )

    read_data :
        (rest : List ℕ)
        → read_block_data h (data_bytes ++ rest) ≡ ok (cut_at (saved_slots h) tuples, rest)
    unfolding read_block_data
    read_data rest = rw (
      check-ok (new_tuples {W = W} h.count) (length-replicate h.count (zero_tuple {W = W})),
      le→leb (get_disk_data_size h) (get_memory_size (new_tuples {W = W} h.count)) fits_zeroed,
      lt→ltb 0 (get_disk_data_size h) some_data,
      read_bytes-sized (get_disk_data_size h) data_bytes rest length-data_bytes,
      memory,
      cur_kept,
      eqb-refl_ℤ _ h.cur_ts current,
    )
      where
        fits_zeroed : get_disk_data_size h ≤ get_memory_size (new_tuples {W = W} h.count)
        fits_zeroed = omega (
          arith,
          saved_slots-size h i.shape,
          (saved_slots-in h i).0,
          length-replicate h.count (zero_tuple {W = W}),
        )

        some_data : 0 < get_disk_data_size h
        some_data = omega (arith, saved_slots-size h i.shape, (saved_slots-in h i).1)

    data_checks : check_tuples h (cut_at (saved_slots h) tuples) ≡ ok tt
    data_checks = check-ok (cut_at (saved_slots h) tuples) cut_sized

    block_bytes : List ℕ
    block_bytes = encode_header h ++ data_bytes

    header_read :
        (rest : List ℕ)
        → read_bytes sizeof_header (block_bytes ++ rest) ≡ ok (encode_header h, data_bytes ++ rest)
    unfolding block_bytes
    header_read rest =
        ap (read_bytes sizeof_header) (append_assoc (encode_header h) data_bytes rest)
        ∙ read_bytes-sized sizeof_header (encode_header h) (data_bytes ++ rest)
            (length-encode_header h)

    header_kept :
        (rest : List ℕ) (skip_data : Bool)
        → read_block {W = W} h.offset (block_bytes ++ rest) skip_data
          ≡ read_behind {W = W} h.offset h (data_bytes ++ rest) skip_data
    unfolding read_block
    header_kept rest skip_data = rw (header_read rest) (
        ap (λ k. read_behind h.offset k (data_bytes ++ rest) skip_data)
          (decode_header-encode_header h i.fits))

    skip_behind :
        (rest : List ℕ)
        → read_behind {W = W} h.offset h (data_bytes ++ rest) true
          ≡ ok (record { header = h; modified = none }, rest)
    unfolding read_behind
    skip_behind rest =
        rw (
          check_header-ok h i,
          drop-append (get_disk_data_size h) data_bytes rest length-data_bytes,
        )

    data_behind :
        (rest : List ℕ)
        → read_behind h.offset h (data_bytes ++ rest) false
          ≡ ok (record { header = h; modified = some (cut_at (saved_slots h) tuples) }, rest)
    unfolding read_behind
    data_behind rest = rw (check_header-ok h i, read_data rest, data_checks)

    both_written : BlockWritten h tuples (write_both h tuples)
    unfolding write_both block_bytes data_bytes
    both_written = record {
      bytes = block_bytes;
      returns = rw (le→leb (get_disk_data_size h) (get_memory_size tuples) enough);
      sized =
          length-append (encode_header h) data_bytes
          ∙ omega (arith, length-encode_header h, length-data_bytes);
      skips = λ rest. header_kept rest true ∙ skip_behind rest;
      reads = λ rest. header_kept rest false ∙ data_behind rest;
      reads_data = λ rest.
          rw
            (
              append_assoc (encode_header h) data_bytes rest,
              drop-append sizeof_header (encode_header h) (data_bytes ++ rest)
                  (length-encode_header h),
            )
            (read_data rest);
    }

  -- For a block whose array is a ring, whose header has the magic number, a largest position in the
  -- array and values that fit its fields, and whose timestamps fit 64 bits: write_block returns as many
  -- bytes as its header and data take, read_block gives the header back with and without the data,
  -- and the data read back is the array, for the last block of a file cut after the largest position.
  pub write_block-BlockWritten :
      (h : Header) (tuples : List (Tuple W))
      → IsRing h tuples
      → HeaderFits h
      → h.magic ≡ block_magic
      → h.max_pos < h.count
      → AllI64 tuples
      → BlockWritten
          (update_max_pos h)
          tuples
          (write_block (record { header = h; modified = some tuples }))
  unfolding write_block
  write_block-BlockWritten h tuples r f m in_array wide = rw (check_tuples-ok r) (
      both_written (update_max_pos h) tuples (update_max_pos-IsStored h r.shape f m in_array)
        (r.sized ∙ sym (same_place h).0) wide
        (ap (λ n. (get_or tuples n zero_tuple).ts) (same_place h).1
          ∙ current
          ∙ sym (same_place h).2))
    where
      current : (get_or tuples h.cur zero_tuple).ts ≡ h.cur_ts
      current =
          ap (λ n. (get_or tuples n zero_tuple).ts) (sym (back_zero h.count h.cur))
          ∙ unfold age in current_ts r

  -- For a block as in write_block-BlockWritten that is not the last one of its file, write_block
  -- returns, and reading what it writes, whatever follows, gives its header and its whole array.
  pub read_block-write_block :
      (h : Header) (tuples : List (Tuple W))
      → IsRing h tuples
      → HeaderFits h
      → h.magic ≡ block_magic
      → h.max_pos < h.count
      → AllI64 tuples
      → is_last_block h ≡ false
      → (bytes : List ℕ) × (write_block (record { header = h; modified = some tuples })
          ≡ ok (record { header = update_max_pos h; modified = none }, bytes))
        × ((rest : List ℕ)
            → read_block (update_max_pos h).offset (bytes ++ rest) false
              ≡ ok (record { header = update_max_pos h; modified = some tuples }, rest))
  read_block-write_block h tuples r f m in_array wide other = (
    w.bytes,
    w.returns,
    λ rest.
        w.reads rest
        ∙ ap (λ ts. ok (record { header = update_max_pos h; modified = some ts }, rest)) whole,
  )
    where
      w :
          BlockWritten
            (update_max_pos h)
            tuples
            (write_block (record { header = h; modified = some tuples }))
      w = write_block-BlockWritten h tuples r f m in_array wide

      all_slots : saved_slots (update_max_pos h) ≡ length tuples
      all_slots =
          unfold saved_slots in rw ((same_place h).3 ∙ other, (same_place h).0) (sym r.sized)

      whole : cut_at (saved_slots (update_max_pos h)) tuples ≡ tuples
      whole =
          ap (λ n. cut_at n tuples) all_slots
          ∙ rw
              (
                take_all tuples,
                drop_all (replicate (length tuples) (zero_tuple {W = W})) (length tuples)
                    (length-replicate (length tuples) (zero_tuple {W = W})),
              )
              (append_nil tuples)
