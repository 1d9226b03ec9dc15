-- ===== src/Tuple/Output/Columns.antt =====
-- The header of a result and its lines have the same columns.
use stats_rrdb.Prelude.{◌≡◌, refl, none, some, List, [], ◌∷◌, arith}
use stats_rrdb.Text.{endl, commas, commas-append}
use stats_rrdb.Value.{Value}
use stats_rrdb.Tuple.{Tuple}
use stats_rrdb.Tuple.Output.{
  Extractor, write_all, write_min, write_max, write_avg, write_sum, write_count, write_stddev,
  write_fields, write_header, write_tuple,
}

module _ {W : Type 0} ⦃v : Value W⦄ where
  -- One of the extractors of the program.
  pub data IsExtractor : Extractor W → Type 0 where
    all_field : IsExtractor write_all
    min_field : IsExtractor write_min
    max_field : IsExtractor write_max
    avg_field : IsExtractor write_avg
    sum_field : IsExtractor write_sum
    count_field : IsExtractor write_count
    stddev_field : IsExtractor write_stddev

  abbrev pub AllExtractors : List (Extractor W) → Type 0
  AllExtractors [] = Unit
  AllExtractors (f ∷ fs) = IsExtractor f × AllExtractors fs

  extractor_columns :
      {f : Extractor W} (t : Tuple W) → IsExtractor f → commas (f none) ≡ commas (f (some t))
  unfolding write_all write_min write_max write_avg write_sum write_count write_stddev
  extractor_columns t all_field = refl
  extractor_columns t min_field = refl
  extractor_columns t max_field = refl
  extractor_columns t avg_field = refl
  extractor_columns t sum_field = refl
  extractor_columns t count_field = refl
  extractor_columns t stddev_field = refl

  fields_columns :
      (fs : List (Extractor W)) (t : Tuple W)
      → AllExtractors fs
      → commas (write_fields fs none) ≡ commas (write_fields fs (some t))
  unfolding write_fields
  fields_columns [] t a = refl
  fields_columns (f ∷ fs) t a = omega (
    arith,
    commas-append (f none) (write_fields fs none),
    commas-append (f (some t)) (write_fields fs (some t)),
    extractor_columns t a.0,
    fields_columns fs t a.1,
  )

  -- For any list of the program's fields, a line of the result has as many separators as the header.
  pub commas-write_tuple :
      (fs : List (Extractor W)) (t : Tuple W)
      → AllExtractors fs
      → commas (write_tuple fs t) ≡ commas (write_header fs)
  unfolding write_tuple write_header
  commas-write_tuple fs t a = omega (
    arith,
    commas-append (write_fields fs none) (endl ∷ []),
    commas-append (write_fields fs (some t)) (endl ∷ []),
    fields_columns fs t a,
  )
