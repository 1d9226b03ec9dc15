-- ===== src/Execute/Refines.antt =====
-- The statements of src/rrdb/rrdb.cpp do to the map of the metrics what their meaning says.
use mathlib.Core.Path.{fun_ext}
use stats_rrdb.Prelude.{
  ℕ, ◌≡◌, inl, inr, refl, sym, ap, ◌∙◌, true, false, Bool-cases, none, some, Option-cases, List, [],
  ◌∷◌,
}
use stats_rrdb.Prelude.Int.{ℤ}
use stats_rrdb.Prelude.Result.{Result, ok}
use stats_rrdb.Value.{Value}
use stats_rrdb.Bytes.{Bytes}
use stats_rrdb.Metric.Create.Written.{Stores, IsName}
use stats_rrdb.Text.{codes}
use stats_rrdb.Policy.{PolicyElem}
use stats_rrdb.Metric.{Metric, policy_of}
use stats_rrdb.Metric.Update.Laws.{update-MetricUpdated}
use stats_rrdb.Rrdb.{
  Rrdb, same_name, lookup, put, find_metric, drop_metric, update_found, found_or_created,
  update_metric,
}
use stats_rrdb.Rrdb.Lookup.{same_name_eq, put-AllMetrics, erase-AllMetrics, lookup-IsMetric}
use stats_rrdb.Rrdb.Laws.{IsRrdb}
use stats_rrdb.Statement.{
  Statement, update, create, drop, select, show_policy, show_metrics, show_status,
}
use stats_rrdb.Execute.{Outside, execute, execute_all}
use stats_rrdb.Execute.Spec.{
  view, spec_create, spec_drop, normal, spec, spec_all, FitsStatement, FitsAll,
}
use stats_rrdb.Rrdb.Laws.{update_found-ok}
use stats_rrdb.Execute.Made.{
  view-put, view-erase, Meant, unchanged, taken, Made, create_metric-Made,
}

module _ {W : Type 0} ⦃v : Value W⦄ ⦃b : Bytes W⦄ (x : Outside W) (stores : Stores x.store) where
  found_or_created-Made :
      (db : Rrdb W) (name : List ℕ)
      → IsRrdb db
      → IsName (normal x name)
      → Made x stores db
          (normal x name)
          db.default_policy
          (found_or_created x.trim x.to_lower x.check_name x.to_filename x.store db name)
  unfolding found_or_created find_metric
  found_or_created-Made db name i named = elim (Option-cases (lookup db.metrics (normal x name))) [
    | inl absent ↦
        rw (found_or_created, find_metric, absent)
          (create_metric-Made x stores db name db.default_policy false i named (inr i.usable))
    | inr (m, present) ↦ record {
      after = db;
      result = ok m;
      returns = rw (found_or_created, find_metric, present);
      meant =
          unchanged x stores db (spec_create x (normal x name) db.default_policy (view db.metrics))
            i
            (λ k.
              taken x stores (normal x name) k db.default_policy (view db.metrics)
                (policy_of m.blocks) (rw present));
      holds = inr (m, refl, present);
    }
  ]

  same_view :
      (ms : List (List ℕ × Metric W)) (n k : List ℕ) (m m' : Metric W)
      → lookup ms n ≡ some m
      → policy_of m'.blocks ≡ policy_of m.blocks
      → view (put ms n m') k ≡ view ms k
  same_view ms n k m m' found same = view-put ms n k m' ∙ elim (Bool-cases (same_name n k)) [
    | inl here ↦ rw (here, same, sym (same_name_eq n k here), found)
    | inr other ↦ rw other
  ]

  update_found-Meant :
      (db : Rrdb W) (n : List ℕ) (policy : List PolicyElem) (r : Rrdb W × Result (Metric W))
      (ts : ℤ) (value : W)
      → Made x stores db n policy r
      → Meant x stores db
          (update_found x.one x.two r n ts value).0
          (spec_create x n policy (view db.metrics))
  unfolding update_found
  update_found-Meant db n policy r ts value c = elim c.holds [
    | inl (e, failed) ↦ rw (c.returns ∙ ap (λ q. (c.after, q)) failed) c.meant
    | inr (m, made, found) ↦
        let u =
          update-MetricUpdated x.one x.two m ts value
            (lookup-IsMetric c.after.metrics n c.meant.is_rrdb.all found) in
        rw
          (update_found-ok x.one x.two n ts value {r = r} (c.returns ∙ ap (λ q. (c.after, q)) made)
            u.returns)
          (record {
            is_rrdb = record {
              usable = c.meant.is_rrdb.usable;
              all = put-AllMetrics c.after.metrics n u.metric c.meant.is_rrdb.all u.sound;
            };
            same_default = c.meant.same_default;
            means =
                λ k. same_view c.after.metrics n k m u.metric found u.same_policy ∙ c.meant.means k;
          })
  ]

  drop_metric-Meant :
      (db : Rrdb W) (name : List ℕ)
      → IsRrdb db
      → Meant x stores db
          (drop_metric x.trim x.to_lower x.delete_file db name).0
          (spec_drop x (normal x name) (view db.metrics))
  unfolding drop_metric
  drop_metric-Meant db name i = elim (Option-cases (lookup db.metrics (normal x name))) [
    | inl absent ↦
        rw (drop_metric, absent)
          (unchanged x stores db (spec_drop x (normal x name) (view db.metrics)) i (λ k.
            elim (Bool-cases (same_name (normal x name) k)) [
              | inl here ↦ rw (here, sym (same_name_eq (normal x name) k here), absent)
              | inr other ↦ rw other
            ]))
    | inr (m, present) ↦
        rw (drop_metric, present)
          (record {
            is_rrdb = record {
              usable = i.usable;
              all = erase-AllMetrics db.metrics (normal x name) i.all;
            };
            same_default = refl;
            means = λ k. view-erase db.metrics (normal x name) k;
          })
  ]

  execute-Meant :
      (now : ℤ) (st : Statement W) (db : Rrdb W)
      → IsRrdb db
      → FitsStatement x st
      → Meant x stores db (execute x now st db).0 (spec x db.default_policy st (view db.metrics))
  unfolding execute spec update_metric
  execute-Meant now (create name (some policy)) db i fits =
      let c = create_metric-Made x stores db (codes name) policy true i fits.0 fits.1 in
      rw c.returns c.meant
  execute-Meant now (create name none) db i fits =
      let c =
        create_metric-Made x stores db (codes name) db.default_policy true i fits (inr i.usable) in
      rw c.returns c.meant
  execute-Meant now (update name value none) db i fits =
      update_found-Meant db (normal x (codes name)) db.default_policy
        (found_or_created x.trim x.to_lower x.check_name x.to_filename x.store db (codes name)) now
        value (found_or_created-Made db (codes name) i fits)
  execute-Meant now (update name value (some ts)) db i fits =
      update_found-Meant db (normal x (codes name)) db.default_policy
        (found_or_created x.trim x.to_lower x.check_name x.to_filename x.store db (codes name)) ts
        value (found_or_created-Made db (codes name) i fits)
  execute-Meant now (drop name) db i fits = drop_metric-Meant db (codes name) i
  execute-Meant now (select st) db i fits = unchanged x stores db (view db.metrics) i (λ k. refl)
  execute-Meant now (show_policy name) db i fits =
      unchanged x stores db (view db.metrics) i (λ k. refl)
  execute-Meant now (show_metrics like) db i fits =
      unchanged x stores db (view db.metrics) i (λ k. refl)
  execute-Meant now (show_status like) db i fits =
      unchanged x stores db (view db.metrics) i (λ k. refl)

  -- Whatever statements the clients make, if files can be written, and each name has a length of 1
  -- to 65,527 once it is normal and each policy is refused or usable: the map stays in order, and
  -- gives each name the policy that the meanings of the statements give it, one after another, from
  -- what it gave before.
  pub execute_all-refines :
      (sts : List (ℤ × Statement W)) (db : Rrdb W)
      → IsRrdb db
      → FitsAll x sts
      → IsRrdb (execute_all x sts db)
        × (view (execute_all x sts db).metrics ≡ spec_all x db.default_policy sts (view db.metrics))
  unfolding execute_all spec_all
  execute_all-refines [] db i fits = (i, refl)
  execute_all-refines ((now, st) ∷ sts) db i fits =
      let s = execute-Meant now st db i fits.0 in
      let (j, means) = execute_all-refines sts (execute x now st db).0 s.is_rrdb fits.1 in
      (j, means ∙ rw (s.same_default, fun_ext s.means))
