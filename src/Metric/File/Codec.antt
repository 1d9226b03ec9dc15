-- ===== src/Metric/File/Codec.antt =====
-- The header of a metric's file, and one block of it (src/rrdb/rrdb_metric.cpp).
use mathlib.Core.Path.{subst}
use stats_rrdb.Prelude.{
  ℕ, ◌+◌, ◌^◌, ◌<◌, ◌≡◌, refl, sym, ap, ◌∙◌, none, some, List, [], ◌++◌, length, drop,
  length-append, append_nil, append_assoc, ==_iff, arith,
}
use stats_rrdb.Prelude.Result.{ok}
use stats_rrdb.Value.{Value}
use stats_rrdb.Bytes.{Bytes, IsI64}
use stats_rrdb.Bytes.Laws.{length-le, uint-le, int64-le, float64-to_bytes}
use stats_rrdb.Tuple.{Tuple}
use stats_rrdb.PaddedString.{get_file_size}
use stats_rrdb.PaddedString.Laws.{read_bytes-sized, written, write-ok, read-written, length-written}
use stats_rrdb.Block.{block_magic, sizeof_header}
use stats_rrdb.Block.Find.Ages.{IsRing}
use stats_rrdb.Block.Disk.{update_max_pos, write_block, read_block_data}
use stats_rrdb.Block.Disk.Codec.{HeaderFits}
use stats_rrdb.Block.Disk.Tuples.{AllI64, cut_at}
use stats_rrdb.Block.Disk.Slots.{saved_slots}
use stats_rrdb.Block.Disk.Roundtrip.{BlockWritten, write_block-BlockWritten}
use stats_rrdb.Metric.{Metric, Cell, metric_magic, metric_version, sizeof_metric_header}
use stats_rrdb.Metric.File.{
  encode_metric_header, decode_metric_header, write_header, read_header, read_name, write_cell,
}

module _ {W : Type 0} where
  -- The fields of the header fit their types, and the name its file form.
  pub record MetricFits (m : Metric W) : Type 0 where
    pub magic : m.magic ≡ metric_magic
    pub version : m.version ≡ metric_version
    pub status : m.status < 2 ^ 16
    pub blocks_size : m.blocks_size < 2 ^ 16
    pub last_value_ts : IsI64 m.last_value_ts
    pub name_ends : m.name.size < length m.name.buf
    pub name_short : length m.name.buf < 2 ^ 16

module _ {W : Type 0} ⦃v : Value W⦄ ⦃b : Bytes W⦄ where
  pub length-encode_metric_header :
      (m : Metric W) → length (encode_metric_header m) ≡ sizeof_metric_header
  unfolding encode_metric_header
  length-encode_metric_header m = simp (length-append, length-le, b.sized)

  abbrev pub with_header : Metric W → Metric W → Metric W
  with_header m fresh = record fresh {
    magic = m.magic;
    version = m.version;
    status = m.status;
    blocks_size = m.blocks_size;
    last_value = m.last_value;
    last_value_ts = m.last_value_ts;
  }

  decode_metric_header-encode_metric_header :
      (m fresh : Metric W)
      → MetricFits m
      → decode_metric_header (encode_metric_header m) fresh ≡ with_header m fresh
  unfolding encode_metric_header decode_metric_header
  decode_metric_header-encode_metric_header m fresh f = rw (
    uint-le 2 m.magic _ (rw f.magic (omega arith)),
    uint-le 2 m.version _ (rw f.version (omega arith)),
    uint-le 2 m.status _ f.status,
    uint-le 2 m.blocks_size _ f.blocks_size,
    float64-to_bytes m.last_value _,
    int64-le m.last_value_ts _ f.last_value_ts,
  )

  -- The header that is written.
  pub head_of : Metric W → List ℕ
  head_of m = encode_metric_header m ++ written m.name

  pub length-head_of :
      (m : Metric W) → length (head_of m) ≡ sizeof_metric_header + get_file_size m.name
  unfolding head_of
  length-head_of m = omega (
    arith,
    length-append (encode_metric_header m) (written m.name),
    length-encode_metric_header m,
    length-written m.name,
  )

  pub write_header-ok :
      (m : Metric W)
      → MetricFits m
      → write_header m ≡ ok (head_of m, sizeof_metric_header + get_file_size m.name)
  unfolding write_header head_of
  write_header-ok m f = rw (write-ok m.name f.name_ends) refl

  pub read_header-head_of :
      (m fresh : Metric W) (rest : List ℕ)
      → MetricFits m
      → read_header (head_of m ++ rest) fresh
        ≡ ok (record (with_header m fresh) { name = m.name }, rest)
  unfolding read_header head_of
  read_header-head_of m fresh rest f =
      rw
        (
          append_assoc (encode_metric_header m) (written m.name) rest,
          read_bytes-sized sizeof_metric_header (encode_metric_header m) (written m.name ++ rest)
              (length-encode_metric_header m),
        )
        (ap (λ h. read_name h (written m.name ++ rest))
            (decode_metric_header-encode_metric_header m fresh f)
          ∙ named)
    where
      named :
          read_name (with_header m fresh) (written m.name ++ rest)
          ≡ ok (record (with_header m fresh) { name = m.name }, rest)
      named =
          unfold read_name in
          rw
            (
              (==_iff m.magic metric_magic).1 f.magic,
              (==_iff m.version metric_version).1 f.version,
              read-written m.name rest f.name_ends f.name_short,
            )
            refl

  -- The block after it is written, with its array in the file.
  unfoldable pub stored : Cell W → Cell W
  stored c = elim c.block.modified [
    | none ↦ c
    | some tuples ↦ record {
      block = record { header = update_max_pos c.block.header; modified = none };
      fetched = ok tuples;
    }
  ]

  -- A block that can be written at a position, and keeps its whole array there.
  pub record IsWritable (at : ℕ) (c : Cell W) : Type 0 where
    pub tuples : List (Tuple W)
    pub held : c.block.modified ≡ some tuples
    pub ring : IsRing c.block.header tuples
    pub fits : HeaderFits c.block.header
    pub magic : c.block.header.magic ≡ block_magic
    pub max_in : c.block.header.max_pos < c.block.header.count
    pub wide : AllI64 tuples
    pub placed : c.block.header.offset ≡ at
    pub whole : cut_at (saved_slots (update_max_pos c.block.header)) tuples ≡ tuples

  pub cell_written :
      {at : ℕ} {c : Cell W} (i : IsWritable at c)
      → BlockWritten (update_max_pos c.block.header) i.tuples (write_block c.block)
  cell_written {at} {c} i =
      subst
        (λ o.
          BlockWritten (update_max_pos c.block.header) i.tuples
            (write_block (record { header = c.block.header; modified = o })))
        (sym i.held)
        (write_block-BlockWritten c.block.header i.tuples i.ring i.fits i.magic i.max_in i.wide)

  pub write_cell-ok :
      {at : ℕ} (c : Cell W) (i : IsWritable at c)
      → write_cell c ≡ ok (stored c, (cell_written i).bytes)
  unfolding write_cell stored
  write_cell-ok c i =
      rw
        (
          (cell_written i).returns,
          i.held,
          ap (λ l. read_block_data (update_max_pos c.block.header) (drop sizeof_header l))
                (sym (append_nil (cell_written i).bytes))
              ∙ (cell_written i).reads_data [],
          i.whole,
        )
        refl
