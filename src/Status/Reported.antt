-- ===== src/Status/Reported.antt =====
-- After update_status of src/server/server.cpp the program's own metrics are there.
use stats_rrdb.Prelude.{
  ℕ, ◌≡◌, ◌≢◌, inl, inr, refl, ap, ◌∙◌, true, Bool-cases, some, List, [], ◌∷◌, ◌++◌,
}
use stats_rrdb.Prelude.Int.{ℤ}
use stats_rrdb.Prelude.Result.{Result, ok, err}
use stats_rrdb.Value.{Value}
use stats_rrdb.Bytes.{Bytes}
use stats_rrdb.Metric.Create.Written.{Stores, IsName}
use stats_rrdb.Text.{codes}
use stats_rrdb.Metric.{Metric}
use stats_rrdb.Rrdb.{Rrdb, same_name, lookup}
use stats_rrdb.Rrdb.Lookup.{differs, same_name_eq}
use stats_rrdb.Rrdb.Laws.{IsRrdb, DbUpdated, update_metric-DbUpdated}
use stats_rrdb.Execute.{Outside}
use stats_rrdb.Execute.Spec.{normal}
use stats_rrdb.Status.{
  Sources, Item, rrdb_items, udp_items, tcp_items, uptime_items, report, update_status,
}

abbrev pub Present : {W : Type 0} → Rrdb W → List ℕ → Type 0
Present {W} db n = (m : Metric W) × (lookup db.metrics n ≡ some m)

module _ {W : Type 0} ⦃v : Value W⦄ where
  updated_keeps :
      (db : Rrdb W) (n k : List ℕ) (ts : ℤ) (value : W) (r : Rrdb W × Result (Unit {0}))
      → (u : DbUpdated db n ts value r) → Present db k
      → Present u.db' k
  updated_keeps db n k ts value r u (m, h) = elim (Bool-cases (same_name n k)) [
    | inl here ↦ (u.metric, rw (← same_name_eq n k here) u.found)
    | inr other ↦ (m, u.others k (λ e. differs n k other e) ∙ h)
  ]

module _ {H W : Type 0} ⦃v : Value W⦄ ⦃b : Bytes W⦄ (x : Outside W) (stores : Stores x.store) where
  abbrev pub AllPresent : Rrdb W → List (Item H W) → Type 0
  AllPresent db [] = Unit
  AllPresent db (i ∷ is) = Present db (normal x (codes i.name)) × AllPresent db is

  -- The names pass the check, and have a length of 1 to 65,527.
  abbrev pub AllNames : List (Item H W) → Type 0
  AllNames [] = Unit
  AllNames (i ∷ is) =
      ((x.check_name (normal x (codes i.name)) ≡ true) × IsName (normal x (codes i.name)))
      × AllNames is

  -- No metric of the list has this name.
  abbrev pub AllDiffer : List (Item H W) → List ℕ → Type 0
  AllDiffer [] k = Unit
  AllDiffer (i ∷ is) k = (normal x (codes i.name) ≢ k) × AllDiffer is k

  pub record Reported (is : List (Item H W)) (db : Rrdb W)
      (r : Sources H W × Rrdb W × Result (Unit {0})) : Type 0 where
    pub sources : Sources H W
    pub db' : Rrdb W
    pub returns : r ≡ (sources, db', ok tt)
    pub is_rrdb : IsRrdb db'
    pub all_there : AllPresent db' is
    pub keeps : (k : List ℕ) → Present db k → Present db' k
    pub others : (k : List ℕ) → AllDiffer is k → lookup db'.metrics k ≡ lookup db.metrics k

  report-Reported :
      (is : List (Item H W)) (now : ℤ) (s : Sources H W) (db : Rrdb W)
      → IsRrdb db
      → AllNames is
      → Reported is db (report x is now s db)
  unfolding report
  report-Reported [] now s db i names = record {
    sources = s;
    db' = db;
    returns = refl;
    is_rrdb = i;
    all_there = tt;
    keeps = λ k h. h;
    others = λ k d. refl;
  }
  report-Reported (item ∷ is) now s db i names =
      let u =
        update_metric-DbUpdated x.trim x.to_lower x.check_name x.to_filename x.store stores x.one
          x.two db (codes item.name) now (item.get db s).1 i names.0.0 names.0.1 in
      let rest = report-Reported is now (item.get db s).0 u.db' u.is_rrdb names.1 in
      record {
        sources = rest.sources;
        db' = rest.db';
        returns =
            ap
              (λ q. elim q.1 as (λ z. Sources H W × Rrdb W × Result (Unit {0})) [
                | err e ↦ ((item.get db s).0, q.0, err e)
                | ok done ↦ report x is now (item.get db s).0 q.0
              ])
              u.returns
            ∙ rest.returns;
        is_rrdb = rest.is_rrdb;
        all_there = (rest.keeps (normal x (codes item.name)) (u.metric, u.found), rest.all_there);
        keeps = λ k h.
            rest.keeps k
              (updated_keeps db (normal x (codes item.name)) k now (item.get db s).1 _ u h);
        others = λ k d. rest.others k d.1 ∙ u.others k d.0;
      }

  -- Where files can be written and the names of the program's own metrics pass their check and have a
  -- length of 1 to 65,527, update_status
  -- returns on a map in order: it stays in order, has a metric under each of these names, has still one
  -- under every name that it had one under, and has under every other name what it had.
  pub update_status-Reported :
      (now : ℤ) (s : Sources H W) (db : Rrdb W)
      → IsRrdb db
      → AllNames (udp_items ++ (tcp_items ++ (rrdb_items ++ uptime_items now)))
      → Reported
          (udp_items ++ (tcp_items ++ (rrdb_items ++ uptime_items now)))
          db
          (update_status x now s db)
  unfolding update_status
  update_status-Reported now s db i names =
      report-Reported (udp_items ++ (tcp_items ++ (rrdb_items ++ uptime_items now))) now s db i
        names
