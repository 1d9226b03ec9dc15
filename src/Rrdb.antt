-- ===== src/Rrdb.antt =====
-- src/rrdb/rrdb.cpp: the map of the metrics and the operations on it. Each access to the map is under
-- its lock; an operation is one step here, so that nothing is inserted or dropped within it. The map
-- is a list of its pairs in some order, with one pair for a name.
--
-- The parameters: trim and to_lower of Boost, the check of a name, which is a grammar, construct_filename
-- with the hash of Boost, what the operating system does with a file that save_file writes (Store), and
-- the deletion of a metric's file.
pub mod Lookup
pub mod Laws
pub mod Failures
pub mod Disk
pub mod Flush
pub mod Load
use stats_rrdb.Prelude.{
  ℕ, Bool, true, false, not, ◌&&◌, Option, none, some, List, [], ◌∷◌, length, ◌==◌, if◌then◌else◌,
}
use stats_rrdb.Prelude.Int.{ℤ}
use stats_rrdb.Prelude.Result.{Result, ok, err, not_found, already_exists, ◌>>=◌, ◌>>◌}
use stats_rrdb.Value.{Value}
use stats_rrdb.Block.{UpdateCtx}
use stats_rrdb.Block.Select.{Walker}
use stats_rrdb.Policy.{PolicyElem, validate}
use stats_rrdb.Metric.{Metric, new_metric, is_dirty}
use stats_rrdb.Metric.Create.{create}
use stats_rrdb.Metric.Update
use stats_rrdb.Metric.File.{Store, save_to}
use stats_rrdb.Bytes.{Bytes}
use stats_rrdb.Metric.Select

abbrev pub same_name : List ℕ → List ℕ → Bool
same_name [] [] = true
same_name [] (d ∷ ds) = false
same_name (c ∷ cs) [] = false
same_name (c ∷ cs) (d ∷ ds) = (c == d) && same_name cs ds

abbrev pub is_prefix : List ℕ → List ℕ → Bool
is_prefix [] s = true
is_prefix (p ∷ ps) [] = false
is_prefix (p ∷ ps) (c ∷ cs) = (p == c) && is_prefix ps cs

-- s.find(part) != npos
abbrev pub contains : List ℕ → List ℕ → Bool
contains part [] = is_prefix part []
contains part (c ∷ cs) = if is_prefix part (c ∷ cs) then true else contains part cs

-- "self."
abbrev pub self_prefix : List ℕ
self_prefix = 115 ∷ 101 ∷ 108 ∷ 102 ∷ 46 ∷ []

pub record Rrdb (W : Type 0) : Type 0 where
  pub default_policy : List PolicyElem
  pub metrics : List (List ℕ × Metric W)

module _ {W : Type 0} where
  abbrev pub lookup : List (List ℕ × Metric W) → List ℕ → Option (Metric W)
  lookup [] n = none
  lookup ((k, m) ∷ ms) n = if same_name k n then some m else lookup ms n

  -- `_metrics[n] = m`, and what a change of the object that the map points to does
  abbrev pub put : List (List ℕ × Metric W) → List ℕ → Metric W → List (List ℕ × Metric W)
  put [] n m = (n, m) ∷ []
  put ((k, x) ∷ ms) n m = if same_name k n then (k, m) ∷ ms else (k, x) ∷ put ms n m

  -- `_metrics.erase(it)`; a name has one pair at most.
  abbrev pub erase : List (List ℕ × Metric W) → List ℕ → List (List ℕ × Metric W)
  erase [] n = []
  erase ((k, x) ∷ ms) n = if same_name k n then erase ms n else (k, x) ∷ erase ms n

  -- BOOST_FOREACH with a `continue`: what on_metric is called with.
  abbrev pub walk : (List ℕ → Metric W → Bool) → List (List ℕ × Metric W) → List (List ℕ × Metric W)
  walk wanted [] = []
  walk wanted ((k, m) ∷ ms) =
      let rest = walk wanted ms in if wanted k m then (k, m) ∷ rest else rest

  pub get_metrics_num : Rrdb W → ℕ
  get_metrics_num db = length db.metrics

  unfoldable pub get_dirty_metrics : Rrdb W → List (List ℕ × Metric W)
  get_dirty_metrics db = walk (λ k m. is_dirty m) db.metrics

-- rrdb_metric::normalize_name
unfoldable pub normalize_name : (trim to_lower : List ℕ → List ℕ) → List ℕ → List ℕ
normalize_name trim to_lower str = to_lower (trim str)

module _ {W : Type 0} (trim to_lower : List ℕ → List ℕ) where
  -- A null pointer is `none`.
  unfoldable pub find_metric : Rrdb W → List ℕ → Option (Metric W)
  unfolding normalize_name
  find_metric db name = lookup db.metrics (normalize_name trim to_lower name)

  unfoldable pub get_metric : Rrdb W → List ℕ → Result (Metric W)
  unfolding find_metric
  get_metric db name = elim (find_metric db name) [ none ↦ err not_found | some m ↦ ok m ]

  pub get_metrics : Rrdb W → Option (List ℕ) → List (List ℕ × Metric W)
  unfolding normalize_name
  get_metrics db none = db.metrics
  get_metrics db (some like) =
      walk (λ k m. contains (normalize_name trim to_lower like) k) db.metrics

  pub get_status_metrics : Rrdb W → Option (List ℕ) → List (List ℕ × Metric W)
  unfolding normalize_name
  get_status_metrics db none = walk (λ k m. is_prefix self_prefix k) db.metrics
  get_status_metrics db (some like) =
      walk (λ k m. is_prefix self_prefix k && contains (normalize_name trim to_lower like) k)
        db.metrics

  pub select_from_metric :
      {S : Type 0} → ⦃v : Value W⦄ → Walker W S → Rrdb W → List ℕ → ℤ → ℤ → S → Result S
  unfolding find_metric
  select_from_metric w db name ts1 ts2 s = elim (find_metric db name) [
    | none ↦ err not_found
    | some m ↦ Select.select w m ts1 ts2 s
  ]

module _ {W : Type 0} ⦃v : Value W⦄ ⦃b : Bytes W⦄ where
  -- The insertion, and the save after it.
  unfoldable pub insert_new : Store → Rrdb W → List ℕ → Metric W → Bool → Rrdb W × Result (Metric W)
  insert_new store db n res throw_if_exists = elim (lookup db.metrics n) [
    | some m ↦ (db, if throw_if_exists then err already_exists else ok m)
    | none ↦
        let (saved, done) = save_to store res in
        (record db { metrics = put db.metrics n saved }, do done; ok saved)
  ]

module _ {W : Type 0} ⦃v : Value W⦄ where
  -- `one` and `two` are what the contexts of rrdb_metric::update hold at first.
  unfoldable pub update_found :
      UpdateCtx W
      → UpdateCtx W
      → Rrdb W × Result (Metric W)
      → List ℕ
      → ℤ
      → W
      → Rrdb W × Result (Unit {0})
  update_found one two (db, err e) n ts value = (db, err e)
  update_found one two (db, ok m) n ts value = elim (Update.update one two m ts value) [
    | err e ↦ (db, err e)
    | ok m' ↦ (record db { metrics = put db.metrics n m' }, ok tt)
  ]

module _ {W : Type 0} ⦃v : Value W⦄ (trim to_lower : List ℕ → List ℕ) where
  unfoldable pub drop_metric :
      (delete_file : Metric W → Result (Unit {0})) → Rrdb W → List ℕ → Rrdb W × Result (Unit {0})
  unfolding normalize_name
  drop_metric delete_file db name = elim (lookup db.metrics (normalize_name trim to_lower name)) [
    | none ↦ (db, err not_found)
    | some res ↦ (
      record db { metrics = erase db.metrics (normalize_name trim to_lower name) },
      delete_file res,
    )
  ]

module _ {W : Type 0} ⦃v : Value W⦄ ⦃b : Bytes W⦄ (trim to_lower : List ℕ → List ℕ)
    (check_name : List ℕ → Bool) (to_filename : List ℕ → List ℕ) (store : Store) where
  unfoldable pub create_metric :
      Rrdb W → List ℕ → List PolicyElem → Bool → Rrdb W × Result (Metric W)
  unfolding normalize_name insert_new
  create_metric db name policy throw_if_exists =
      elim (do
        validate policy
        create check_name to_filename (new_metric []) (normalize_name trim to_lower name) policy) [
          | err e ↦ (db, err e)
          | ok res ↦ insert_new store db (normalize_name trim to_lower name) res throw_if_exists
        ]

  -- find_metric, and a new metric with the default policy where there is none.
  unfoldable pub found_or_created : Rrdb W → List ℕ → Rrdb W × Result (Metric W)
  unfolding find_metric create_metric
  found_or_created db name = elim (find_metric trim to_lower db name) [
    | some m ↦ (db, ok m)
    | none ↦ create_metric db name db.default_policy false
  ]

  unfoldable pub update_metric :
      UpdateCtx W → UpdateCtx W → Rrdb W → List ℕ → ℤ → W → Rrdb W × Result (Unit {0})
  unfolding found_or_created update_found normalize_name
  update_metric one two db name ts value =
      update_found one two (found_or_created db name) (normalize_name trim to_lower name) ts value
