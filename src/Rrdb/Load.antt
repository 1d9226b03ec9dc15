-- ===== src/Rrdb/Load.antt =====
-- rrdb_metric::load_metrics and rrdb_metric::get_name of src/rrdb/rrdb_metric.cpp, and the part of
-- rrdb::start of src/rrdb/rrdb.cpp that loads the metrics. The directory's entries come from Boost, in
-- some order, with their extensions.
pub mod Agree
pub mod Restored
use stats_rrdb.Prelude.{
  ℕ, Bool, true, false, ◌&&◌, Option, none, some, List, [], ◌∷◌, take, if◌then◌else◌,
}
use stats_rrdb.Prelude.Result.{Result, ok, err, io, ◌>>=◌}
use stats_rrdb.Value.{Value}
use stats_rrdb.Bytes.{Bytes}
use stats_rrdb.Metric.{Metric, new_metric}
use stats_rrdb.Metric.File.{load_file}
use stats_rrdb.Rrdb.{lookup, put}
use stats_rrdb.Rrdb.Disk.{file_at}

-- An entry of the directory, or of one below it: its path behind the base folder's, whether it is a
-- regular file, and whether its extension is RRDB_METRIC_EXTENSION.
pub record DirEntry : Type 0 where
  pub filename : List ℕ
  pub is_regular_file : Bool
  pub has_extension : Bool

unfoldable pub get_name : {W : Type 0} → Metric W → List ℕ
get_name m = take m.name.size m.name.buf

-- "metrics[name] = metric", if there is none of the name.
abbrev pub put_new :
    {W : Type 0} → List (List ℕ × Metric W) → List ℕ → Metric W → List (List ℕ × Metric W)
put_new metrics name m = elim (lookup metrics name) [
  | none ↦ put metrics name m
  | some old ↦ metrics
]

abbrev pub is_wanted : DirEntry → Bool
is_wanted e = e.is_regular_file && e.has_extension

module _ {W : Type 0} ⦃v : Value W⦄ ⦃b : Bytes W⦄ where
  -- The metric in the file of an entry.
  pub load_entry : List (List ℕ × List ℕ) → List ℕ → Result (Metric W)
  load_entry files filename = elim (file_at files filename) [
    | none ↦ err io
    | some bytes ↦ load_file bytes (new_metric filename)
  ]

  pub load_metrics :
      List DirEntry
      → List (List ℕ × List ℕ)
      → List (List ℕ × Metric W)
      → Result (List (List ℕ × Metric W))
  unfolding load_entry get_name
  load_metrics [] files metrics = ok metrics
  load_metrics (e ∷ es) files metrics = elim (is_wanted e) [
    | false ↦ load_metrics es files metrics
    | true ↦ do
      m ← load_entry files e.filename
      load_metrics es files (put_new metrics (get_name m) m)
  ]
