-- ===== src/Journal/Recovery.antt =====
-- What the journal is for: a crash while it is applied, and recovery from its file, as start of
-- src/rrdb/rrdb.cpp does it.
use stats_rrdb.Prelude.{ℕ, ◌≡◌, sym, ap, ◌∙◌, List}
use stats_rrdb.Prelude.Result.{Result, ok, ◌>>=◌}
use stats_rrdb.Storage.{Write, apply_writes}
use stats_rrdb.Storage.Torn.{Torn, apply_writes-Torn}
use stats_rrdb.Journal.{Journal, new_journal, save_journal_file, load_journal_file, apply_journal}
use stats_rrdb.Journal.Built.{record_file, record_file-ok, journal_of, apply_journal-ok}
use stats_rrdb.Journal.Saved.{IsSavable, load_journal_file-save_journal_file}

-- The journal is loaded from its file, and applied to the metric's file.
pub recover : List ℕ → List ℕ → Result (List ℕ)
unfolding load_journal_file apply_journal
recover jnl_file file = do j ← load_journal_file jnl_file new_journal; apply_journal j file

-- Recovery makes the writes of the journal, whatever stretches of them are in the file.
pub recover-Torn :
    (filename : List ℕ) (ws : List Write) (old before torn : List ℕ) (i : IsSavable filename ws)
    → Torn ws before torn
    → recover (load_journal_file-save_journal_file filename ws old i).0 torn
      ≡ ok (apply_writes ws before)
unfolding recover
recover-Torn filename ws old before torn i t =
    rw ((load_journal_file-save_journal_file filename ws old i).2)
      (apply_journal-ok filename ws torn ∙ ap ok (apply_writes-Torn ws before torn t))

-- What recording, saving and applying some writes to a metric's file give, and recovering after a
-- crash that leaves `torn`.
pub record Recoverable (filename : List ℕ) (ws : List Write) (old before torn : List ℕ)
    : Type 0 where
  pub journal : Journal
  pub jnl_file : List ℕ
  pub recorded : record_file filename ws new_journal ≡ ok journal
  pub saved : save_journal_file journal old ≡ ok jnl_file
  pub applied : apply_journal journal before ≡ ok (apply_writes ws before)
  pub recovered : recover jnl_file torn ≡ apply_journal journal before

-- Writes to a metric's file that the journal can hold are recorded and saved, whatever the journal's
-- file held before, and applying the journal makes the writes in their order. If a crash leaves any
-- stretches of them in the file, made in any order, then loading the journal's file and applying it
-- gives the file that an undisturbed run gives.
pub record_file-Recoverable :
    (filename : List ℕ) (ws : List Write) (old before torn : List ℕ)
    → IsSavable filename ws
    → Torn ws before torn
    → Recoverable filename ws old before torn
record_file-Recoverable filename ws old before torn i t = record {
  journal = journal_of filename ws;
  jnl_file = (load_journal_file-save_journal_file filename ws old i).0;
  recorded = record_file-ok filename ws i.named i.filled;
  saved = (load_journal_file-save_journal_file filename ws old i).1;
  applied = apply_journal-ok filename ws before;
  recovered =
      recover-Torn filename ws old before torn i t ∙ sym (apply_journal-ok filename ws before);
}
