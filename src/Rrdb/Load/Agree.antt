-- ===== src/Rrdb/Load/Agree.antt =====
-- What load_metrics of src/rrdb/rrdb_metric.cpp loads, if every file holds the metric that a map has
-- under its name.
use stats_rrdb.Prelude.{
  ℕ, ◌≡◌, ◌⊎◌, inl, inr, refl, sym, ap, ◌∙◌, false, Bool-cases, Option-cases, none, some, List, [],
  ◌∷◌,
}
use stats_rrdb.Prelude.Result.{ok}
use stats_rrdb.Value.{Value}
use stats_rrdb.Bytes.{Bytes}
use stats_rrdb.Metric.{Metric}
use stats_rrdb.Rrdb.{same_name, lookup, put}
use stats_rrdb.Rrdb.Lookup.{differs, same_name_eq, lookup-put_self, lookup-put_ne}
use stats_rrdb.Rrdb.Load.{DirEntry, get_name, put_new, is_wanted, load_entry, load_metrics}

none-ne-some : {A : Type 0} (x : A) → none ≡ some x → ⊥
none-ne-some x h = cc

module _ {W : Type 0} where
  -- What the map has is in the target.
  pub record Agrees (target metrics : List (List ℕ × Metric W)) : Type 0 where
    pub apply : (k : List ℕ) (x : Metric W) → lookup metrics k ≡ some x → lookup target k ≡ some x

  put_new-absent :
      (ms : List (List ℕ × Metric W)) (n : List ℕ) (m : Metric W)
      → lookup ms n ≡ none
      → put_new ms n m ≡ put ms n m
  put_new-absent ms n m h = rw (put_new, h) refl

  put_new-present :
      (ms : List (List ℕ × Metric W)) (n : List ℕ) (m old : Metric W)
      → lookup ms n ≡ some old
      → put_new ms n m ≡ ms
  put_new-present ms n m old h = rw (put_new, h) refl

  put_new-same :
      (ms : List (List ℕ × Metric W)) (n k : List ℕ) (m x : Metric W)
      → lookup ms k ≡ some x
      → lookup (put_new ms n m) k ≡ some x
  put_new-same ms n k m x h = elim (Option-cases (lookup ms n)) [
    | inl absent ↦ elim (Bool-cases (same_name n k)) [
      | inl here ↦ absurd (none-ne-some x (sym absent ∙ ap (lookup ms) (same_name_eq n k here) ∙ h))
      | inr other ↦
          rw (put_new-absent ms n m absent) (lookup-put_ne ms n k m (λ e. differs n k other e) ∙ h)
    ]
    | inr (old, present) ↦ rw (put_new-present ms n m old present) h
  ]

  put_new-Agrees :
      (target ms : List (List ℕ × Metric W)) (n : List ℕ) (m : Metric W)
      → Agrees target ms
      → lookup target n ≡ some m
      → Agrees target (put_new ms n m)
  put_new-Agrees target ms n m a t = elim (Option-cases (lookup ms n)) [
    | inr (old, present) ↦ rw (put_new-present ms n m old present) a
    | inl absent ↦ rw (put_new-absent ms n m absent) (record {
      apply = λ k x h. elim (Bool-cases (same_name n k)) [
        | inl here ↦
            let e : n ≡ k = same_name_eq n k here in
            sym (ap (lookup target) e)
            ∙ t
            ∙ sym (lookup-put_self ms n m)
            ∙ ap (lookup (put ms n m)) e
            ∙ h
        | inr other ↦ a.apply k x (sym (lookup-put_ne ms n k m (λ e. differs n k other e)) ∙ h)
      ];
    })
  ]

  put_new-found :
      (target ms : List (List ℕ × Metric W)) (n : List ℕ) (m : Metric W)
      → Agrees target ms
      → lookup target n ≡ some m
      → lookup (put_new ms n m) n ≡ some m
  put_new-found target ms n m a t = elim (Option-cases (lookup ms n)) [
    | inr (old, present) ↦
        rw (put_new-present ms n m old present) (present ∙ sym (a.apply n old present) ∙ t)
    | inl absent ↦ rw (put_new-absent ms n m absent) (lookup-put_self ms n m)
  ]

module _ {W : Type 0} ⦃v : Value W⦄ ⦃b : Bytes W⦄ where
  -- The metric in the file of a wanted entry is in the map under its name.
  abbrev pub Entered : List (List ℕ × Metric W) → List (List ℕ × List ℕ) → DirEntry → Type 0
  Entered metrics files e =
      (is_wanted e ≡ false)
      ⊎ ((m : Metric W) × (load_entry files e.filename ≡ ok m)
          × (lookup metrics (get_name m) ≡ some m))

  abbrev pub AllEntered : List (List ℕ × Metric W) → List (List ℕ × List ℕ) → List DirEntry → Type 0
  AllEntered metrics files [] = Unit
  AllEntered metrics files (e ∷ es) = Entered metrics files e × AllEntered metrics files es

  pub record Loaded (target metrics : List (List ℕ × Metric W)) (files : List (List ℕ × List ℕ))
      (es : List DirEntry) : Type 0 where
    pub after : List (List ℕ × Metric W)
    pub returns : load_metrics es files metrics ≡ ok after
    pub agrees : Agrees target after
    pub keeps : (k : List ℕ) (x : Metric W) → lookup metrics k ≡ some x → lookup after k ≡ some x
    pub entered : AllEntered after files es

  -- If the metric in each entry's file is in the target under its name, and so is what the map has, then
  -- the map has the metrics of all entries afterwards, and still no other than the target.
  pub load_metrics-Loaded :
      (target metrics : List (List ℕ × Metric W)) (files : List (List ℕ × List ℕ))
      (es : List DirEntry)
      → Agrees target metrics
      → AllEntered target files es
      → Loaded target metrics files es
  unfolding load_metrics
  load_metrics-Loaded target metrics files [] a all = record {
    after = metrics;
    returns = refl;
    agrees = a;
    keeps = λ k x h. h;
    entered = tt;
  }
  load_metrics-Loaded target metrics files (e ∷ es) a (inl unwanted, all) =
      let l = load_metrics-Loaded target metrics files es a all in
      record {
        after = l.after;
        returns = rw (load_metrics, unwanted) l.returns;
        agrees = l.agrees;
        keeps = l.keeps;
        entered = (inl unwanted, l.entered);
      }
  load_metrics-Loaded target metrics files (e ∷ es) a (inr (m, loads, t), all) =
      elim (Bool-cases (is_wanted e)) [
        | inr unwanted ↦
            let l = load_metrics-Loaded target metrics files es a all in
            record {
              after = l.after;
              returns = rw (load_metrics, unwanted) l.returns;
              agrees = l.agrees;
              keeps = l.keeps;
              entered = (inl unwanted, l.entered);
            }
        | inl wanted ↦
            let l =
              load_metrics-Loaded target (put_new metrics (get_name m) m) files es
                (put_new-Agrees target metrics (get_name m) m a t) all in
            record {
              after = l.after;
              returns = rw (load_metrics, wanted, loads) l.returns;
              agrees = l.agrees;
              keeps = λ k x h. l.keeps k x (put_new-same metrics (get_name m) k m x h);
              entered = (
                inr (
                  m,
                  loads,
                  l.keeps (get_name m) m (put_new-found target metrics (get_name m) m a t),
                ),
                l.entered,
              );
            }
      ]
