-- ===== src/Rrdb/Failures.antt =====
-- create_metric of src/rrdb/rrdb.cpp when the file of the new metric cannot be written.
use stats_rrdb.Prelude.{ℕ, ◌<◌, ◌≡◌, Bool, true, false, none, some, List, [], length}
use stats_rrdb.Prelude.Result.{Error, err, already_exists}
use stats_rrdb.Value.{Value}
use stats_rrdb.Bytes.{Bytes}
use stats_rrdb.Metric.File.{Store, save_to}
use stats_rrdb.Metric.Create.Written.{not_deleted}
use stats_rrdb.Policy.{PolicyElem}
use stats_rrdb.Metric.{Metric, new_metric, set_dirty, is_deleted}
use stats_rrdb.Metric.Create.{create}
use stats_rrdb.Metric.Create.Laws.{Created, create-Created}
use stats_rrdb.Rrdb.{Rrdb, lookup, put, normalize_name, find_metric, insert_new, create_metric}
use stats_rrdb.Rrdb.Lookup.{lookup-put_self}
use stats_rrdb.Rrdb.Laws.{IsUsable}

module _ {W : Type 0} ⦃v : Value W⦄ ⦃b : Bytes W⦄ (trim to_lower : List ℕ → List ℕ)
    (check_name : List ℕ → Bool) (to_filename : List ℕ → List ℕ) (store : Store) (e : Error)
    (fails : (n : List ℕ) → store.open_new n ≡ err e) where
  -- If no file can be opened for writing, creating a metric under a name that passes its check
  -- and is not taken, with a usable policy, fails with the error of the opening, and the metric is
  -- found under its name all the same: a second creation fails as the metric exists.
  pub create_metric_unsaved :
      (db : Rrdb W) (name : List ℕ) (policy : List PolicyElem)
      → IsUsable policy
      → check_name (normalize_name trim to_lower name) ≡ true
      → 0 < length (normalize_name trim to_lower name)
      → lookup db.metrics (normalize_name trim to_lower name) ≡ none
      → (db' : Rrdb W) × (m : Metric W) × (create_metric trim to_lower check_name to_filename store
            db name policy true
          ≡ (db', err e))
        × (find_metric trim to_lower db' name ≡ some m)
        × (create_metric trim to_lower check_name to_filename store db' name policy true
            ≡ (db', err already_exists))
  unfolding create_metric insert_new find_metric save_to
  create_metric_unsaved db name policy p checked named absent = (
    record db { metrics = put db.metrics n m },
    m,
    rw (
      create_metric,
      p.valid,
      made.returns,
      insert_new,
      absent,
      save_to,
      live,
      fails made.metric.filename,
    ),
    rw (find_metric, lookup-put_self db.metrics n m),
    rw (create_metric, p.valid, made.returns, insert_new, lookup-put_self db.metrics n m),
  )
    where
      n : List ℕ
      n = normalize_name trim to_lower name

      made : Created {W = W} n policy (create check_name to_filename (new_metric []) n policy)
      made =
          create-Created check_name to_filename [] n policy checked named p.valid p.kept
            p.some_elems p.few_elems

      m : Metric W
      m = set_dirty made.metric

      live : is_deleted made.metric ≡ false
      live = not_deleted made.metric made.as_new.2
