-- ===== src/Tests/Metrics.antt =====
-- The operations of src/rrdb/rrdb_metric.cpp on a metric with ten seconds for a minute and minutes
-- for an hour.
use stats_rrdb.Prelude.{ℕ, ◌≡◌, refl, List, [], ◌∷◌, none, arith, true, ◌↔◌}
use stats_rrdb.Prelude.Int.{pos}
use stats_rrdb.Prelude.Result.{ok, ◌>>=◌}
use stats_rrdb.Value.{nat_value, nat-IsOrdered}
use stats_rrdb.Tuple.{zero_tuple}
use stats_rrdb.Block.{UpdateCtx, stop}
use stats_rrdb.Policy.{PolicyElem, validate}
use stats_rrdb.Policy.Laws.{IsPolicy, validate_iff}
use stats_rrdb.Metric.{new_metric}
use stats_rrdb.Tests.Fixtures.{metric, metric-IsMetric}
use stats_rrdb.Block.{new_header}
use stats_rrdb.Tuple.Output.{Extractor, write_all}
use stats_rrdb.Rows.{start_rows, rows_walker}
use stats_rrdb.Rows.Order.{Written}
use stats_rrdb.Rows.Query.{select-Written}
use stats_rrdb.Groups.{groups_walker, start_groups}
use stats_rrdb.Groups.Query.{GroupsWritten, select-GroupsWritten}
use stats_rrdb.Metric.Select
use stats_rrdb.Metric.Create.{create}
use stats_rrdb.Metric.Create.Laws.{Created, create-Created}
use stats_rrdb.Metric.Update
use stats_rrdb.Metric.Update.{cascade}
use stats_rrdb.Metric.Update.Laws.{MetricUpdated, update-MetricUpdated, chain, cascade-chain}

abbrev policy : List PolicyElem
policy = record { freq = 10; duration = 60 } ∷ record { freq = 60; duration = 3600 } ∷ []

policy_valid : validate policy ≡ ok tt
policy_valid =
    (validate_iff policy).1
      ((omega arith, refl), tt, ((omega arith, refl), (omega arith, refl, omega arith), tt))

validate_iff_example : (validate policy ≡ ok tt) ↔ IsPolicy none policy
validate_iff_example = validate_iff policy

create-Created_example :
    Created {W = ℕ} (97 ∷ []) policy (create (λ n. true) (λ n. n) (new_metric []) (97 ∷ []) policy)
create-Created_example =
    create-Created (λ n. true) (λ n. n) [] (97 ∷ []) policy refl (omega arith) policy_valid
      (omega arith, omega arith, (omega arith, omega arith, tt)) (omega arith) (omega arith)

abbrev ctx : UpdateCtx ℕ
ctx = record { state = stop; ts = pos 0; value = 0; tuple = zero_tuple }

update-MetricUpdated_example :
    MetricUpdated metric (pos 125) 4 (Update.update ctx ctx metric (pos 125) 4)
update-MetricUpdated_example = update-MetricUpdated ctx ctx metric (pos 125) 4 metric-IsMetric

cascade-chain_example :
    (cascade 1 metric.blocks ctx ctx ≡ chain metric.blocks ctx ctx)
    × (cascade 2 metric.blocks ctx ctx ≡ chain metric.blocks ctx ctx)
cascade-chain_example = cascade-chain metric.blocks ctx ctx

abbrev exprs : List (Extractor ℕ)
exprs = write_all ∷ []

select-Written_example :
    Written exprs (pos 60) (start_rows (pos 300) []) (
      Select.select
        (rows_walker exprs (pos 60))
        metric
        (pos 60)
        (pos 300)
        (start_rows (pos 300) []))
unfolding new_header
select-Written_example =
    select-Written exprs (pos 60) metric (pos 300) (start_rows (pos 300) []) metric-IsMetric
      (omega arith, (omega arith, tt))

select-GroupsWritten_example :
    GroupsWritten ⦃o = nat-IsOrdered⦄ exprs (pos 60) 100 (omega arith) (pos 300) [] (do
      s ← start_groups exprs (pos 60) 100 (pos 300) []
      Select.select (groups_walker exprs (pos 60) 100) metric (pos 60) (pos 300) s)
unfolding new_header
select-GroupsWritten_example =
    select-GroupsWritten ⦃o = nat-IsOrdered⦄ exprs (pos 60) 100 (omega arith) metric (pos 300) []
      (omega arith) metric-IsMetric (omega arith, (omega arith, tt))
