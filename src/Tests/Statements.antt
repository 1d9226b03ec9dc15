-- ===== src/Tests/Statements.antt =====
-- Statements of clients on an empty map of src/rrdb/rrdb.cpp.
use stats_rrdb.Prelude.{ℕ, ◌≡◌, inr, none, some, true, List, [], ◌∷◌, arith}
use stats_rrdb.Prelude.Int.{ℤ, pos}
use stats_rrdb.Value.{nat_value}
use stats_rrdb.Tuple.{zero_tuple}
use stats_rrdb.Block.{UpdateCtx, stop}
use stats_rrdb.Rrdb.{normalize_name}
use stats_rrdb.Rrdb.Laws.{IsRrdb}
use stats_rrdb.Statement.{Statement, create, update, drop}
use stats_rrdb.Execute.{Outside, execute_all}
use stats_rrdb.Execute.Spec.{view, spec_all}
use stats_rrdb.Execute.Refines.{execute_all-refines}
use stats_rrdb.Tests.Files.{nat_bytes}
use stats_rrdb.Tests.Maps.{policy, usable, same, store, stores, delete, empty_db, empty_db-IsRrdb}

abbrev ctx : UpdateCtx ℕ
ctx = record { state = stop; ts = pos 0; value = 0; tuple = zero_tuple }

abbrev pub outside : Outside ℕ
outside = record {
  trim = same;
  to_lower = same;
  check_name = λ n. true;
  to_filename = same;
  store = store;
  delete_file = delete;
  one = ctx;
  two = ctx;
}

abbrev statements : List (ℤ × Statement ℕ)
statements =
    (pos 1, create "cpu" (some policy))
    ∷ (pos 2, update "load" 7 none)
    ∷ (pos 3, update "cpu" 5 (some (pos 2)))
    ∷ (pos 4, drop "cpu")
    ∷ []

execute_all-refines_example :
    IsRrdb (execute_all outside statements empty_db)
    × (view (execute_all outside statements empty_db).metrics
        ≡ spec_all outside policy statements (view empty_db.metrics))
unfolding normalize_name
execute_all-refines_example =
    execute_all-refines outside stores statements empty_db empty_db-IsRrdb
      ((omega arith, inr usable), (omega arith, (omega arith, (tt, tt))))
