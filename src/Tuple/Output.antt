-- ===== src/Tuple/Output.antt =====
-- The output of tuples, src/rrdb/rrdb_metric_tuple.cpp: the header line, a line for a tuple, and the
-- field extractors that both call, with a null pointer for the column names only.
pub mod Columns
use stats_rrdb.Prelude.{Option, none, some, List, [], ◌∷◌, ◌++◌, if◌then◌else◌}
use stats_rrdb.Prelude.Int.{ℤ}
use stats_rrdb.Text.{Chunk, str, num, int, endl}
use stats_rrdb.Value.{Value}
use stats_rrdb.Tuple.{Tuple}

-- t_tuple_field_extractor: what it appends.
abbrev pub Extractor : Type 0 → Type 0
Extractor W = Option (Tuple W) → List (Chunk W)

module _ {W : Type 0} ⦃v : Value W⦄ where
  pub get_avg : Tuple W → W
  get_avg t = if v.lt v.zero t.count then v.div t.sum t.count else v.zero

  pub get_stddev : Tuple W → W
  get_stddev t =
      if v.lt v.zero t.count
      then (let avg = v.div t.sum t.count in
          v.sqrt (v.sub (v.div t.sum_sqr t.count) (v.mul avg avg)))
      else v.zero

  pub write_all : Extractor W
  unfolding get_avg get_stddev
  write_all none = str "count,sum,avg,stddev,min,max" ∷ []
  write_all (some t) =
      num t.count
      ∷ str ","
      ∷ num t.sum
      ∷ str ","
      ∷ num (get_avg t)
      ∷ str ","
      ∷ num (get_stddev t)
      ∷ str ","
      ∷ num t.min
      ∷ str ","
      ∷ num t.max
      ∷ []

  pub write_min : Extractor W
  write_min none = str "min" ∷ []
  write_min (some t) = num t.min ∷ []

  pub write_max : Extractor W
  write_max none = str "max" ∷ []
  write_max (some t) = num t.max ∷ []

  pub write_avg : Extractor W
  unfolding get_avg
  write_avg none = str "avg" ∷ []
  write_avg (some t) = num (get_avg t) ∷ []

  pub write_sum : Extractor W
  write_sum none = str "sum" ∷ []
  write_sum (some t) = num t.sum ∷ []

  pub write_count : Extractor W
  write_count none = str "count" ∷ []
  write_count (some t) = num t.count ∷ []

  pub write_stddev : Extractor W
  unfolding get_stddev
  write_stddev none = str "stddev" ∷ []
  write_stddev (some t) = num (get_stddev t) ∷ []

  -- The loop over the expressions.
  pub write_fields : List (Extractor W) → Option (Tuple W) → List (Chunk W)
  write_fields [] t = []
  write_fields (func ∷ funcs) t = func t ++ write_fields funcs t

  -- rrdb_metric_tuple_write_header
  pub write_header : List (Extractor W) → List (Chunk W)
  unfolding write_fields
  write_header exprs = str "ts," ∷ write_fields exprs none ++ endl ∷ []

  -- rrdb_metric_tuple_write_tuple
  pub write_tuple : List (Extractor W) → Tuple W → List (Chunk W)
  unfolding write_fields
  write_tuple exprs t = int t.ts ∷ str "," ∷ write_fields exprs (some t) ++ endl ∷ []
