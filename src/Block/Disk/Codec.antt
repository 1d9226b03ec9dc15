-- ===== src/Block/Disk/Codec.antt =====
-- The bytes of a block's header and of a tuple (src/rrdb/rrdb_metric_block.cpp) and back.
use stats_rrdb.Prelude.{◌^◌, ◌<◌, ◌≡◌, length, length-append, arith}
use stats_rrdb.Value.{Value}
use stats_rrdb.Bytes.{Bytes, IsI64}
use stats_rrdb.Bytes.Laws.{length-le, uint-le, int64-le, float64-to_bytes}
use stats_rrdb.Tuple.{Tuple, sizeof_tuple}
use stats_rrdb.Block.{Header, sizeof_header}
use stats_rrdb.Block.Disk.{encode_header, decode_header, encode_tuple, decode_tuple}

-- Each field fits its type.
pub record HeaderFits (h : Header) : Type 0 where
  pub magic : h.magic < 2 ^ 16
  pub status : h.status < 2 ^ 16
  pub offset : h.offset < 2 ^ 64
  pub data_size : h.data_size < 2 ^ 64
  pub freq : h.freq < 2 ^ 32
  pub duration : h.duration < 2 ^ 32
  pub count : h.count < 2 ^ 32
  pub cur : h.cur < 2 ^ 32
  pub cur_ts : IsI64 h.cur_ts
  pub max_pos : h.max_pos < 2 ^ 32

pub length-encode_header : (h : Header) → length (encode_header h) ≡ sizeof_header
unfolding encode_header
length-encode_header h = simp (length-append, length-le)

pub decode_header-encode_header : (h : Header) → HeaderFits h → decode_header (encode_header h) ≡ h
unfolding encode_header decode_header
decode_header-encode_header h f = rw (
  uint-le 2 h.magic _ f.magic,
  uint-le 2 h.status _ f.status,
  uint-le 4 0 _ (omega arith),
  uint-le 8 h.offset _ f.offset,
  uint-le 8 h.data_size _ f.data_size,
  uint-le 4 h.freq _ f.freq,
  uint-le 4 h.duration _ f.duration,
  uint-le 4 h.count _ f.count,
  uint-le 4 h.cur _ f.cur,
  int64-le h.cur_ts _ f.cur_ts,
  uint-le 4 h.max_pos _ f.max_pos,
)

module _ {W : Type 0} ⦃v : Value W⦄ ⦃b : Bytes W⦄ where
  pub length-encode_tuple : (t : Tuple W) → length (encode_tuple t) ≡ sizeof_tuple
  unfolding encode_tuple
  length-encode_tuple t = simp (length-append, length-le, b.sized)

  pub decode_tuple-encode_tuple : (t : Tuple W) → IsI64 t.ts → decode_tuple (encode_tuple t) ≡ t
  unfolding encode_tuple decode_tuple
  decode_tuple-encode_tuple t f = rw (
    int64-le t.ts _ f,
    float64-to_bytes t.count _,
    float64-to_bytes t.sum _,
    float64-to_bytes t.sum_sqr _,
    float64-to_bytes t.min _,
    float64-to_bytes t.max _,
  )
