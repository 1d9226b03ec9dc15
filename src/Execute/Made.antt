-- ===== src/Execute/Made.antt =====
-- create_metric of src/rrdb/rrdb.cpp does to the map of the metrics what its meaning says.
use stats_rrdb.Prelude.{
  ℕ, ◌≡◌, ◌⊎◌, inl, inr, refl, sym, ◌∙◌, Bool, true, false, ◌&&◌, Bool-cases, none, some,
  Option-cases, List, [], if◌then◌else◌, arith,
}
use stats_rrdb.Prelude.Result.{Error, Result, ok, err, bad_name, already_exists}
use stats_rrdb.Value.{Value}
use stats_rrdb.Bytes.{Bytes}
use stats_rrdb.Metric.Create.Written.{Stores, IsName}
use stats_rrdb.Policy.{PolicyElem, validate}
use stats_rrdb.Metric.{Metric, new_metric, policy_of, get_policy}
use stats_rrdb.Metric.Create
use stats_rrdb.Metric.Create.Laws.{Created, create-Created}
use stats_rrdb.Rrdb.{Rrdb, same_name, lookup, put, erase, insert_new, create_metric}
use stats_rrdb.Rrdb.Lookup.{
  differs, same_name_eq, lookup-put_self, lookup-put_ne, lookup-erase_self, lookup-erase_ne,
}
use stats_rrdb.Rrdb.Laws.{IsRrdb, create_metric-DbCreated}
use stats_rrdb.Execute.{Outside}
use stats_rrdb.Execute.Spec.{Policies, view, is_ok, spec_create, normal, FitsPolicy}

module _ {W : Type 0} where
  pub view-put :
      (ms : List (List ℕ × Metric W)) (n k : List ℕ) (m : Metric W)
      → view (put ms n m) k ≡ (if same_name n k then some (policy_of m.blocks) else view ms k)
  view-put ms n k m = elim (Bool-cases (same_name n k)) [
    | inl here ↦ rw (here, sym (same_name_eq n k here), lookup-put_self ms n m)
    | inr other ↦ rw (other, lookup-put_ne ms n k m (λ e. differs n k other e))
  ]

  pub view-erase :
      (ms : List (List ℕ × Metric W)) (n k : List ℕ)
      → view (erase ms n) k ≡ (if same_name n k then none else view ms k)
  view-erase ms n k = elim (Bool-cases (same_name n k)) [
    | inl here ↦ rw (here, sym (same_name_eq n k here), lookup-erase_self ms n)
    | inr other ↦ rw (other, lookup-erase_ne ms n k (λ e. differs n k other e))
  ]

  created_view :
      (db db' : Rrdb W) (n k : List ℕ) (policy : List PolicyElem) (m : Metric W)
      → lookup db'.metrics n ≡ some m
      → policy_of m.blocks ≡ policy
      → ((j : List ℕ) → (n ≡ j → ⊥) → lookup db'.metrics j ≡ lookup db.metrics j)
      → view db'.metrics k ≡ (if same_name n k then some policy else view db.metrics k)
  created_view db db' n k policy m found same others = elim (Bool-cases (same_name n k)) [
    | inl here ↦ rw (here, sym (same_name_eq n k here), found, same)
    | inr other ↦ rw (other, others k (differs n k other))
  ]

  policy_of_ok :
      (m : Metric W) (policy : List PolicyElem)
      → get_policy m ≡ ok policy
      → policy_of m.blocks ≡ policy
  unfolding get_policy
  policy_of_ok m policy h = ground arith

module _ {W : Type 0} ⦃v : Value W⦄ ⦃b : Bytes W⦄ (x : Outside W) (stores : Stores x.store) where
  -- The database after a step, as its meaning `f` says.
  pub record Meant (db db' : Rrdb W) (f : Policies) : Type 0 where
    pub is_rrdb : IsRrdb db'
    pub same_default : db'.default_policy ≡ db.default_policy
    pub means : (k : List ℕ) → view db'.metrics k ≡ f k

  pub unchanged :
      (db : Rrdb W) (f : Policies)
      → IsRrdb db
      → ((k : List ℕ) → view db.metrics k ≡ f k)
      → Meant db db f
  unchanged db f i e = record { is_rrdb = i; same_default = refl; means = e }

  -- What create_metric returns: the metric that is found under the name then, or an error.
  pub record Made (db : Rrdb W) (n : List ℕ) (policy : List PolicyElem)
      (r : Rrdb W × Result (Metric W)) : Type 0 where
    pub after : Rrdb W
    pub result : Result (Metric W)
    pub returns : r ≡ (after, result)
    pub meant : Meant db after (spec_create x n policy (view db.metrics))
    pub holds :
        ((e : Error) × (result ≡ err e))
        ⊎ ((m : Metric W) × (result ≡ ok m) × (lookup after.metrics n ≡ some m))

  -- A name that is taken keeps its policy.
  pub taken :
      (n k : List ℕ) (policy : List PolicyElem) (f : Policies) (old : List PolicyElem)
      → f n ≡ some old
      → f k ≡ spec_create x n policy f k
  taken n k policy f old h = rw (h, spec_create)

  refused :
      (n k : List ℕ) (policy : List PolicyElem) (f : Policies)
      → (is_ok (validate policy) && x.check_name n) ≡ false
      → f k ≡ spec_create x n policy f k
  refused n k policy f h = ground arith

  granted :
      (n k : List ℕ) (policy : List PolicyElem) (f : Policies)
      → f n ≡ none
      → validate policy ≡ ok tt
      → x.check_name n ≡ true
      → (if same_name n k then some policy else f k) ≡ spec_create x n policy f k
  granted n k policy f h valid checked = rw (spec_create, h, valid, checked)

  create_refused :
      (n : List ℕ) (policy : List PolicyElem)
      → x.check_name n ≡ false
      → Create.create {W = W} x.check_name x.to_filename (new_metric []) n policy ≡ err bad_name
  unfolding Create.create
  create_refused n policy h = rw h

  taken_holds :
      (throw_if_exists : Bool) (db : Rrdb W) (n : List ℕ) (m : Metric W)
      → lookup db.metrics n ≡ some m
      → ((e : Error) × ((if throw_if_exists then err already_exists else ok m) ≡ err e))
        ⊎ ((m' : Metric W) × ((if throw_if_exists then err already_exists else ok m) ≡ ok m')
            × (lookup db.metrics n ≡ some m'))
  taken_holds true db n m h = inl (already_exists, refl)
  taken_holds false db n m h = inr (m, refl, h)

  name_taken :
      (throw_if_exists : Bool) (db : Rrdb W) (name : List ℕ) (policy : List PolicyElem)
      (m : Metric W)
      → IsRrdb db
      → lookup db.metrics (normal x name) ≡ some m
      → create_metric x.trim x.to_lower x.check_name x.to_filename x.store db name policy
          throw_if_exists
        ≡ (db, if throw_if_exists then err already_exists else ok m)
      → Made db (normal x name) policy (
          create_metric x.trim x.to_lower x.check_name x.to_filename x.store db name policy
            throw_if_exists)
  name_taken throw_if_exists db name policy m i present returns = record {
    after = db;
    result = if throw_if_exists then err already_exists else ok m;
    returns = returns;
    meant =
        unchanged db (spec_create x (normal x name) policy (view db.metrics)) i
          (λ k. taken (normal x name) k policy (view db.metrics) (policy_of m.blocks) (rw present));
    holds = taken_holds throw_if_exists db (normal x name) m present;
  }

  pub create_metric-Made :
      (db : Rrdb W) (name : List ℕ) (policy : List PolicyElem) (throw_if_exists : Bool)
      → IsRrdb db
      → IsName (normal x name)
      → FitsPolicy x policy
      → Made db (normal x name) policy (
          create_metric x.trim x.to_lower x.check_name x.to_filename x.store db name policy
            throw_if_exists)
  unfolding create_metric insert_new
  create_metric-Made db name policy throw_if_exists i named fits =
      let n : List ℕ = normal x name in
      elim fits [
        | inl (e, invalid) ↦ record {
          after = db;
          result = err e;
          returns = rw (create_metric, invalid);
          meant =
              unchanged db (spec_create x n policy (view db.metrics)) i
                (λ k. refused n k policy (view db.metrics) (rw invalid));
          holds = inl (e, refl);
        }
        | inr u ↦ elim (Bool-cases (x.check_name n)) [
          | inr bad ↦ record {
            after = db;
            result = err bad_name;
            returns = rw (create_metric, u.valid, create_refused n policy bad);
            meant =
                unchanged db (spec_create x n policy (view db.metrics)) i
                  (λ k. refused n k policy (view db.metrics) (rw (u.valid, bad)));
            holds = inl (bad_name, refl);
          }
          | inl good ↦ elim (Option-cases (lookup db.metrics n)) [
            | inl absent ↦
                let c =
                  create_metric-DbCreated x.trim x.to_lower x.check_name x.to_filename x.store
                    stores db name policy throw_if_exists i u good named absent in
                record {
                  after = c.db';
                  result = ok c.metric;
                  returns = c.returns;
                  meant = record {
                    is_rrdb = c.is_rrdb;
                    same_default = c.same_default;
                    means = λ k.
                        created_view db c.db' n k policy c.metric c.found
                          (policy_of_ok c.metric policy c.policy_kept) c.others
                        ∙ granted n k policy (view db.metrics) (rw absent) u.valid good;
                  };
                  holds = inr (c.metric, refl, c.found);
                }
            | inr (m, present) ↦
                let made : Created {W = W} n policy
                    (Create.create x.check_name x.to_filename (new_metric []) n policy) =
                  create-Created x.check_name x.to_filename [] n policy good named.0 u.valid u.kept
                    u.some_elems u.few_elems in
                name_taken throw_if_exists db name policy m i present
                  (rw (create_metric, u.valid, made.returns, insert_new, present))
          ]
        ]
      ]
