-- ===== src/Rrdb/Laws.antt =====
-- The operations of src/rrdb/rrdb.cpp on the map of the metrics.
use stats_rrdb.Prelude.{
  ℕ, ◌^◌, ◌<◌, ◌≡◌, ◌≢◌, refl, ap, ◌∙◌, arith, inl, inr, Bool, true, false, none, some,
  Option-cases, List, [], length,
}
use stats_rrdb.Prelude.Int.{ℤ, pos, ◌≤ℤ◌, ◌<ℤ◌}
use stats_rrdb.Prelude.Result.{Result, ok, err, not_found}
use stats_rrdb.Value.{Value}
use stats_rrdb.Bytes.{Bytes}
use stats_rrdb.Policy.Laws.{validate_iff}
use stats_rrdb.Metric.File.{Store}
use stats_rrdb.Metric.Create.Written.{Stores, IsName, Saves, create-Saves}
use stats_rrdb.Block.{UpdateCtx}
use stats_rrdb.Policy.{PolicyElem, validate}
use stats_rrdb.Metric.{Metric, new_metric, get_policy}
use stats_rrdb.Metric.Sound.{IsMetric}
use stats_rrdb.Metric.Create.{create}
use stats_rrdb.Metric.Create.Laws.{IsKept, Created, create-Created}
use stats_rrdb.Metric.Update
use stats_rrdb.Metric.Update.Laws.{update-MetricUpdated}
use stats_rrdb.Rrdb.{
  Rrdb, lookup, put, erase, normalize_name, find_metric, get_metric, insert_new, create_metric,
  drop_metric, update_found, found_or_created, update_metric,
}
use stats_rrdb.Rrdb.Lookup.{
  lookup-put_self, lookup-put_ne, lookup-erase_self, lookup-erase_ne, AllMetrics, put-AllMetrics,
  erase-AllMetrics, lookup-IsMetric,
}

-- A policy that a metric can be created with.
pub record IsUsable (p : List PolicyElem) : Type 0 where
  pub valid : validate p ≡ ok tt
  pub kept : IsKept p
  pub some_elems : 0 < length p
  pub few_elems : length p < 2 ^ 16

module _ {W : Type 0} ⦃v : Value W⦄ where
  pub record IsRrdb (db : Rrdb W) : Type 0 where
    pub usable : IsUsable db.default_policy
    pub all : AllMetrics db.metrics

  -- What a creation that is the first under its name leaves.
  pub record DbCreated (db : Rrdb W) (n : List ℕ) (policy : List PolicyElem)
      (r : Rrdb W × Result (Metric W)) : Type 0 where
    pub db' : Rrdb W
    pub metric : Metric W
    pub returns : r ≡ (db', ok metric)
    pub same_default : db'.default_policy ≡ db.default_policy
    pub is_rrdb : IsRrdb db'
    pub found : lookup db'.metrics n ≡ some metric
    pub sound : IsMetric metric
    pub policy_kept : get_policy metric ≡ ok policy
    pub fresh_ts : metric.last_value_ts ≡ pos 0
    pub others : (k : List ℕ) → n ≢ k → lookup db'.metrics k ≡ lookup db.metrics k

  -- What an update leaves.
  pub record DbUpdated (db : Rrdb W) (n : List ℕ) (ts : ℤ) (value : W)
      (r : Rrdb W × Result (Unit {0})) : Type 0 where
    pub db' : Rrdb W
    pub metric : Metric W
    pub returns : r ≡ (db', ok tt)
    pub is_rrdb : IsRrdb db'
    pub found : lookup db'.metrics n ≡ some metric
    pub fresh : lookup db.metrics n ≡ none → pos 0 ≤ℤ ts → metric.last_value ≡ value
    pub updated :
        (m : Metric W)
        → lookup db.metrics n ≡ some m
        → (m.last_value_ts ≤ℤ ts → metric.last_value ≡ value)
          × (ts <ℤ m.last_value_ts → metric.last_value ≡ m.last_value)
    pub others : (k : List ℕ) → n ≢ k → lookup db'.metrics k ≡ lookup db.metrics k

  pub update_found-ok :
      (one two : UpdateCtx W) (n : List ℕ) (ts : ℤ) (value : W) {r : Rrdb W × Result (Metric W)}
      {db : Rrdb W} {m m' : Metric W}
      → r ≡ (db, ok m)
      → Update.update one two m ts value ≡ ok m'
      → update_found one two r n ts value ≡ (record db { metrics = put db.metrics n m' }, ok tt)
  unfolding update_found
  update_found-ok one two n ts value {db = db} {m} {m'} er eu =
      ap (λ q. update_found one two q n ts value) er ∙ stored
    where
      stored :
          update_found one two (db, ok m) n ts value
          ≡ (record db { metrics = put db.metrics n m' }, ok tt)
      stored = rw (update_found, eu)

  -- Dropping a metric that exists removes it and no other, and keeps the rest in order; its file is
  -- deleted, and what that returns is returned.
  pub drop_metric-erases :
      (trim to_lower : List ℕ → List ℕ) (delete_file : Metric W → Result (Unit {0})) (db : Rrdb W)
      (name : List ℕ) (m : Metric W)
      → IsRrdb db
      → lookup db.metrics (normalize_name trim to_lower name) ≡ some m
      → (db' : Rrdb W) × (drop_metric trim to_lower delete_file db name ≡ (db', delete_file m))
        × IsRrdb db'
        × (get_metric trim to_lower db' name ≡ err not_found)
        × ((k : List ℕ)
            → normalize_name trim to_lower name ≢ k
            → lookup db'.metrics k ≡ lookup db.metrics k)
  unfolding drop_metric get_metric find_metric
  drop_metric-erases trim to_lower delete_file db name m i present =
      let n : List ℕ = normalize_name trim to_lower name in
      (
        record db { metrics = erase db.metrics n },
        rw (drop_metric, present),
        record { usable = i.usable; all = erase-AllMetrics db.metrics n i.all },
        rw (get_metric, find_metric, lookup-erase_self db.metrics n),
        λ k ne. lookup-erase_ne db.metrics n k ne,
      )

module _ {W : Type 0} ⦃v : Value W⦄ ⦃b : Bytes W⦄ (trim to_lower : List ℕ → List ℕ)
    (check_name : List ℕ → Bool) (to_filename : List ℕ → List ℕ) (store : Store)
    (stores : Stores store) where
  -- Where files can be written, creating a metric under a name that passes its check, has a length of 1
  -- to 65,527 and is not taken, with a usable policy, returns, save_file included: the metric is
  -- found under its name with that policy, every metric of the map stays in order, and no other name
  -- is touched.
  pub create_metric-DbCreated :
      (db : Rrdb W) (name : List ℕ) (policy : List PolicyElem) (throw_if_exists : Bool)
      → IsRrdb db
      → IsUsable policy
      → check_name (normalize_name trim to_lower name) ≡ true
      → IsName (normalize_name trim to_lower name)
      → lookup db.metrics (normalize_name trim to_lower name) ≡ none
      → DbCreated db
          (normalize_name trim to_lower name)
          policy
          (create_metric trim to_lower check_name to_filename store db name policy throw_if_exists)
  unfolding create_metric insert_new
  create_metric-DbCreated db name policy throw_if_exists i p checked named absent = record {
    db' = record db { metrics = put db.metrics n s.after };
    metric = s.after;
    returns = rw (create_metric, p.valid, made.returns, insert_new, absent, s.returns);
    same_default = refl;
    is_rrdb = record { usable = i.usable; all = put-AllMetrics db.metrics n s.after i.all s.sound };
    found = lookup-put_self db.metrics n s.after;
    sound = s.sound;
    policy_kept = s.same_policy ∙ made.policy_kept;
    fresh_ts = s.same_ts.0 ∙ made.fresh_ts;
    others = λ k ne. lookup-put_ne db.metrics n k s.after ne;
  }
    where
      n : List ℕ
      n = normalize_name trim to_lower name

      made : Created {W = W} n policy (create check_name to_filename (new_metric []) n policy)
      made =
          create-Created check_name to_filename [] n policy checked named.0 p.valid p.kept
            p.some_elems p.few_elems

      s : Saves store made.metric
      s = create-Saves store stores made named ((validate_iff policy).0 p.valid) p.kept p.few_elems

  -- Where files can be written, an update under a name that passes its check and has a length of 1 to
  -- 65,527 returns, save_file of a new metric included: the name has a metric then, whose last
  -- value is the new one unless the metric had a newer one, or was created by the update and the
  -- timestamp is negative; every metric of the map stays in order, and no other name is touched.
  pub update_metric-DbUpdated :
      (one two : UpdateCtx W) (db : Rrdb W) (name : List ℕ) (ts : ℤ) (value : W)
      → IsRrdb db
      → check_name (normalize_name trim to_lower name) ≡ true
      → IsName (normalize_name trim to_lower name)
      → DbUpdated db
          (normalize_name trim to_lower name)
          ts
          value
          (update_metric trim to_lower check_name to_filename store one two db name ts value)
  unfolding update_metric found_or_created find_metric
  update_metric-DbUpdated one two db name ts value i checked named =
      elim (Option-cases (lookup db.metrics n)) [
        | inl absent ↦
            let c =
              create_metric-DbCreated db name db.default_policy false i i.usable checked named
                absent in
            let u = update-MetricUpdated one two c.metric ts value c.sound in
            record {
              db' = record c.db' { metrics = put c.db'.metrics n u.metric };
              metric = u.metric;
              returns =
                  update_found-ok one two n ts value
                    {r = found_or_created trim to_lower check_name to_filename store db name}
                    (rw (found_or_created, find_metric, absent) c.returns) u.returns;
              is_rrdb = record {
                usable = c.is_rrdb.usable;
                all = put-AllMetrics c.db'.metrics n u.metric c.is_rrdb.all u.sound;
              };
              found = lookup-put_self c.db'.metrics n u.metric;
              fresh = λ h le. (u.newer (rw c.fresh_ts le)).1;
              updated = λ m h. absurd (none-ne-some m absent h);
              others = λ k ne. lookup-put_ne c.db'.metrics n k u.metric ne ∙ c.others k ne;
            }
        | inr (m, present) ↦
            let u =
              update-MetricUpdated one two m ts value
                (lookup-IsMetric db.metrics n i.all present) in
            record {
              db' = record db { metrics = put db.metrics n u.metric };
              metric = u.metric;
              returns =
                  update_found-ok one two n ts value
                    {r = found_or_created trim to_lower check_name to_filename store db name}
                    (rw (found_or_created, find_metric, present)) u.returns;
              is_rrdb = record {
                usable = i.usable;
                all = put-AllMetrics db.metrics n u.metric i.all u.sound;
              };
              found = lookup-put_self db.metrics n u.metric;
              fresh = λ h le. absurd (none-ne-some m h present);
              updated = λ x h.
                  let e : m ≡ x = some_inj m x present h in
                  (λ le. (u.newer (rw e le)).1, λ lt. rw (← e) (u.older (rw e lt)).1);
              others = λ k ne. lookup-put_ne db.metrics n k u.metric ne;
            }
      ]
    where
      n : List ℕ
      n = normalize_name trim to_lower name

      none-ne-some : (m : Metric W) → lookup db.metrics n ≡ none → lookup db.metrics n ≡ some m → ⊥
      none-ne-some m a b = ground arith

      some_inj :
          (m x : Metric W) → lookup db.metrics n ≡ some m → lookup db.metrics n ≡ some x → m ≡ x
      some_inj m x a b = ground arith
