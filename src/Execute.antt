-- ===== src/Execute.antt =====
-- statement_execute_visitor of src/rrdb/rrdb.cpp, with the walkers of SHOW METRICS and SHOW STATUS,
-- execute_query_statement and execute_update_statement. The buffer is empty at first; `now` is the
-- time of the call.
pub mod Spec
pub mod Made
pub mod Refines
use Prim.Native.String.{String}
use stats_rrdb.Prelude.{ℕ, Bool, true, Option, none, some, List, [], ◌∷◌, ◌++◌, ltb, if◌then◌else◌}
use stats_rrdb.Prelude.Int.{ℤ, ltb_ℤ}
use stats_rrdb.Prelude.Result.{Result, ok, err, ◌>>=◌, ◌>>◌}
use stats_rrdb.Value.{Value}
use stats_rrdb.Bytes.{Bytes}
use stats_rrdb.Metric.File.{Store}
use stats_rrdb.Text.{Chunk, str, num, int, text, endl, codes}
use stats_rrdb.Tuple.Output.{write_header}
use stats_rrdb.Block.{UpdateCtx}
use stats_rrdb.Policy.{PolicyElem}
use stats_rrdb.Interval.{retention_policy_write}
use stats_rrdb.Metric.{Metric, get_policy, get_last_value}
use stats_rrdb.Rows.{RowsState, start_rows, rows_walker}
use stats_rrdb.Groups.{GroupState, start_groups, groups_walker}
use stats_rrdb.Rrdb.{
  Rrdb, get_metric, get_metrics, get_status_metrics, select_from_metric, drop_metric, create_metric,
  update_metric,
}
use stats_rrdb.Statement.{
  Statement, SelectStatement, update, create, drop, select, show_policy, show_metrics, show_status,
}

-- What the operations on the map call that is not in the repository, or is on the operating system's
-- files; `one` and `two` are what the contexts of rrdb_metric::update hold at first.
pub record Outside (W : Type 0) : Type 0 where
  pub trim : List ℕ → List ℕ
  pub to_lower : List ℕ → List ℕ
  pub check_name : List ℕ → Bool
  pub to_filename : List ℕ → List ℕ
  pub store : Store
  pub delete_file : Metric W → Result (Unit {0})
  pub one : UpdateCtx W
  pub two : UpdateCtx W

-- boost::optional<std::string>
abbrev pub like_of : Option String → Option (List ℕ)
like_of none = none
like_of (some like) = some (codes like)

module _ {W : Type 0} where
  -- metrics_walker_show_metrics::on_metric, for each metric
  pub write_names : List (List ℕ × Metric W) → List (Chunk W)
  write_names [] = []
  write_names ((name, metric) ∷ ms) = text name ∷ endl ∷ write_names ms

  -- metrics_walker_show_status::on_metric, for each metric
  pub write_status : List (List ℕ × Metric W) → List (Chunk W)
  write_status [] = []
  write_status ((name, metric) ∷ ms) =
      let (value, value_ts) = get_last_value metric in
      text name ∷ str "," ∷ int value_ts ∷ str "," ∷ num value ∷ endl ∷ write_status ms

module _ {W : Type 0} ⦃v : Value W⦄ ⦃b : Bytes W⦄ (x : Outside W) where
  -- "simple case"
  pub select_rows : Rrdb W → SelectStatement W → List (Chunk W) → Result (List (Chunk W))
  select_rows db st res = do
    s ←
        select_from_metric x.trim x.to_lower (rows_walker st.result st.ts_begin) db (codes st.name)
          st.ts_begin st.ts_end (start_rows st.ts_end res)
    ok s.out

  -- "hard case"
  pub select_groups : Rrdb W → SelectStatement W → ℕ → List (Chunk W) → Result (List (Chunk W))
  select_groups db st group_by res = do
    walker ← start_groups st.result st.ts_begin group_by st.ts_end res
    s ←
        select_from_metric x.trim x.to_lower (groups_walker st.result st.ts_begin group_by) db
          (codes st.name) st.ts_begin st.ts_end walker
    ok s.out

  -- operator()(const statement_select &)
  pub execute_select : Rrdb W → SelectStatement W → Result (List (Chunk W))
  unfolding select_rows select_groups
  execute_select db st =
      let res = write_header st.result in
      if ltb_ℤ st.ts_begin st.ts_end
      then elim st.group_by [
        | none ↦ select_rows db st res
        | some group_by ↦
            if ltb 0 group_by then select_groups db st group_by res else select_rows db st res
      ]
      else ok res

  -- boost::apply_visitor
  unfoldable pub execute : ℤ → Statement W → Rrdb W → Rrdb W × Result (List (Chunk W))
  unfolding execute_select write_names write_status
  execute now (create name (some policy)) db =
      let (db', r) =
        create_metric x.trim x.to_lower x.check_name x.to_filename x.store db (codes name) policy
          true in
      (db', do m ← r; ok [])
  execute now (create name none) db =
      let (db', r) =
        create_metric x.trim x.to_lower x.check_name x.to_filename x.store db (codes name)
          db.default_policy true in
      (db', do m ← r; ok [])
  execute now (drop name) db =
      let (db', r) = drop_metric x.trim x.to_lower x.delete_file db (codes name) in
      (db', do r; ok [])
  execute now (update name value none) db =
      let (db', r) =
        update_metric x.trim x.to_lower x.check_name x.to_filename x.store x.one x.two db
          (codes name) now value in
      (db', do r; ok [])
  execute now (update name value (some ts)) db =
      let (db', r) =
        update_metric x.trim x.to_lower x.check_name x.to_filename x.store x.one x.two db
          (codes name) ts value in
      (db', do r; ok [])
  execute now (select st) db = (db, execute_select db st)
  execute now (show_policy name) db = (
    db,
    do
      metric ← get_metric x.trim x.to_lower db (codes name)
      policy ← get_policy metric
      retention_policy_write policy,
  )
  execute now (show_metrics like) db =
      (db, ok (write_names (get_metrics x.trim x.to_lower db (like_of like))))
  execute now (show_status like) db =
      (db, ok (write_status (get_status_metrics x.trim x.to_lower db (like_of like))))

  -- execute_query_statement and execute_update_statement, which differ in the parser
  unfoldable pub execute_statement :
      (String → Result (Statement W)) → ℤ → String → Rrdb W → Rrdb W × Result (List (Chunk W))
  unfolding execute
  execute_statement parse now buffer db = elim (parse buffer) [
    | err e ↦ (db, err e)
    | ok st ↦ execute now st db
  ]

  -- The statements of the clients in the order in which they are executed, each with its time.
  pub execute_all : List (ℤ × Statement W) → Rrdb W → Rrdb W
  unfolding execute
  execute_all [] db = db
  execute_all ((now, st) ∷ sts) db = execute_all sts (execute now st db).0
