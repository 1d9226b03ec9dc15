-- ===== src/Tests/Maps.antt =====
-- The map of src/rrdb/rrdb.cpp with one metric.
use stats_rrdb.Prelude.{some, ℕ, ◌≡◌, ◌≢◌, refl, List, [], ◌∷◌, arith, true}
use stats_rrdb.Prelude.Int.{pos}
use stats_rrdb.Prelude.Result.{Result, ok, err, not_found, already_exists, io}
use stats_rrdb.Value.{nat_value}
use stats_rrdb.Tuple.{zero_tuple}
use stats_rrdb.Block.{UpdateCtx, stop}
use stats_rrdb.Policy.{PolicyElem}
use stats_rrdb.Policy.Laws.{validate_iff}
use stats_rrdb.Metric.{Metric}
use stats_rrdb.Metric.File.{Store}
use stats_rrdb.Metric.Create.Written.{Stores}
use stats_rrdb.Tests.Files.{nat_bytes}
use stats_rrdb.Tests.Fixtures.{cpu, metric, metric-IsMetric}
use stats_rrdb.Rrdb.{
  find_metric, Rrdb, lookup, normalize_name, get_metric, create_metric, drop_metric, update_metric,
}
use stats_rrdb.Rrdb.Failures.{create_metric_unsaved}
use stats_rrdb.Rrdb.Laws.{
  IsUsable, IsRrdb, DbCreated, DbUpdated, create_metric-DbCreated, update_metric-DbUpdated,
  drop_metric-erases,
}

abbrev pub policy : List PolicyElem
policy = record { freq = 10; duration = 60 } ∷ []

pub usable : IsUsable policy
usable = record {
  valid = (validate_iff policy).1 ((omega arith, refl), tt, tt);
  kept = (omega arith, omega arith, tt);
  some_elems = omega arith;
  few_elems = omega arith;
}

abbrev pub same : List ℕ → List ℕ
same n = n

abbrev pub store : Store
store = record { open_new = λ n. ok tt; put_bytes = λ n bytes. ok tt }

pub stores : Stores store
stores = record { opens = λ n. refl; puts = λ n bytes. refl }

abbrev pub delete : Metric ℕ → Result (Unit {0})
delete m = ok tt

abbrev pub empty_db : Rrdb ℕ
empty_db = record { default_policy = policy; metrics = [] }

pub empty_db-IsRrdb : IsRrdb empty_db
empty_db-IsRrdb = record { usable = usable; all = tt }

create_metric-DbCreated_example :
    DbCreated empty_db
      (normalize_name same same cpu)
      policy
      (create_metric same same (λ n. true) same store empty_db cpu policy true)
unfolding normalize_name
create_metric-DbCreated_example =
    create_metric-DbCreated same same (λ n. true) same store stores empty_db cpu policy true
      empty_db-IsRrdb usable refl (omega arith) refl

abbrev db : Rrdb ℕ
db = record { default_policy = policy; metrics = (cpu, metric) ∷ [] }

db-IsRrdb : IsRrdb db
db-IsRrdb = record { usable = usable; all = (metric-IsMetric, tt) }

abbrev ctx : UpdateCtx ℕ
ctx = record { state = stop; ts = pos 0; value = 0; tuple = zero_tuple }

update_metric-DbUpdated_example :
    DbUpdated db
      (normalize_name same same cpu)
      (pos 125)
      4
      (update_metric same same (λ n. true) same store ctx ctx db cpu (pos 125) 4)
unfolding normalize_name
update_metric-DbUpdated_example =
    update_metric-DbUpdated same same (λ n. true) same store stores ctx ctx db cpu (pos 125) 4
      db-IsRrdb refl (omega arith)

drop_metric-erases_example :
    (db' : Rrdb ℕ) × (drop_metric same same delete db cpu ≡ (db', delete metric))
    × IsRrdb db'
    × (get_metric same same db' cpu ≡ err not_found)
    × ((k : List ℕ) → normalize_name same same cpu ≢ k → lookup db'.metrics k ≡ lookup db.metrics k)
unfolding normalize_name
drop_metric-erases_example = drop_metric-erases same same delete db cpu metric db-IsRrdb refl

abbrev unwritable : Store
unwritable = record { open_new = λ n. err io; put_bytes = λ n bytes. err io }

create_metric_unsaved_example :
    (db' : Rrdb ℕ) × (m : Metric ℕ) × (create_metric same same
        (λ n. true)
        same
        unwritable
        empty_db
        cpu
        policy
        true
      ≡ (db', err io))
    × (find_metric same same db' cpu ≡ some m)
    × (create_metric same same (λ n. true) same unwritable db' cpu policy true
        ≡ (db', err already_exists))
unfolding normalize_name
create_metric_unsaved_example =
    create_metric_unsaved same same (λ n. true) same unwritable io (λ n. refl) empty_db cpu policy
      usable refl (omega arith) refl
