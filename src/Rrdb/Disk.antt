-- ===== src/Rrdb/Disk.antt =====
-- The files of the database as flush_to_disk of src/rrdb/rrdb.cpp uses them: the metrics' files by
-- name, and the journal's own file with the stream on it (`_jnl_ofs`). Reading and writing a file
-- that is there does not fail here, and a file that is not there cannot be opened, as open_file asks
-- for a file to read. What is here is apply_journal(filename), save_journal_file, delete_journal_file
-- of src/rrdb/rrdb_journal_file.cpp, and delete_file of src/rrdb/rrdb_metric.cpp, on such files.
use Prim.Native.Nat.{bit_or}
use stats_rrdb.Prelude.{
  ℕ, Bool, true, false, Option, none, some, List, [], ◌∷◌, length, ltb, if◌then◌else◌,
}
use stats_rrdb.Prelude.Result.{Result, ok, err, io, ◌>>=◌, check}
use stats_rrdb.Metric.{Metric, set_dirty, status_deleted}
use stats_rrdb.Journal.{Journal, apply_journal, save_journal_file}
use stats_rrdb.Rrdb.{same_name}

pub record Disk : Type 0 where
  pub files : List (List ℕ × List ℕ)
  pub journal : Option (List ℕ)
  pub jnl_opened : Bool

abbrev pub file_at : List (List ℕ × List ℕ) → List ℕ → Option (List ℕ)
file_at [] n = none
file_at ((k, bytes) ∷ fs) n = if same_name k n then some bytes else file_at fs n

abbrev pub put_file : List (List ℕ × List ℕ) → List ℕ → List ℕ → List (List ℕ × List ℕ)
put_file [] n bytes = (n, bytes) ∷ []
put_file ((k, old) ∷ fs) n bytes =
    if same_name k n then (k, bytes) ∷ fs else (k, old) ∷ put_file fs n bytes

abbrev pub remove_file : List (List ℕ × List ℕ) → List ℕ → List (List ℕ × List ℕ)
remove_file [] n = []
remove_file ((k, old) ∷ fs) n =
    if same_name k n then remove_file fs n else (k, old) ∷ remove_file fs n

-- apply_journal(filename)
unfoldable pub apply_to_file : Journal → List ℕ → Disk → Result Disk
apply_to_file j filename disk = elim (file_at disk.files filename) [
  | none ↦ err io
  | some old ↦ do
    new ← apply_journal j old
    ok (record disk { files = put_file disk.files filename new })
]

-- The stream is opened on an empty file, and stays open.
abbrev pub journal_before : Disk → List ℕ
journal_before disk =
    if disk.jnl_opened then elim disk.journal [ none ↦ [] | some bytes ↦ bytes ] else []

unfoldable pub save_journal : Journal → Disk → Result Disk
save_journal j disk = do
  bytes ← save_journal_file j (journal_before disk)
  ok (record disk { journal = some bytes; jnl_opened = true })

unfoldable pub delete_journal_file : Disk → Disk
delete_journal_file disk = record disk { journal = none; jnl_opened = false }

-- rrdb_metric::delete_file, without the caches: no file name is an exception, and no file is none.
unfoldable pub delete_metric_file :
    {W : Type 0} → Metric W → Disk → Metric W × Disk × Result (Unit {0})
delete_metric_file m disk =
    let m' = record m { status = bit_or m.status status_deleted } in
    if ltb 0 (length m.filename)
    then (m', record disk { files = remove_file disk.files m.filename }, ok tt)
    else (set_dirty m', disk, err check)
