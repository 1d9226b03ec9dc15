-- ===== src/Rrdb/Load/Restored.antt =====
-- A flush (flush_to_disk of src/rrdb/rrdb.cpp) and a start that loads the metrics from the files.
use stats_rrdb.Prelude.{
  ℕ, ◌≡◌, ◌⊎◌, inl, inr, refl, sym, ap, ◌∙◌, true, false, Bool-cases, Option-cases, none, some,
  List, [], ◌∷◌, arith,
}
use stats_rrdb.Prelude.Result.{ok, ok_inj}
use stats_rrdb.Value.{Value}
use stats_rrdb.Bytes.{Bytes}
use stats_rrdb.Journal.{new_journal}
use stats_rrdb.Metric.{Metric, new_metric, is_dirty}
use stats_rrdb.Metric.File.{load_file, clear_dirty}
use stats_rrdb.Metric.File.Saved.{saved}
use stats_rrdb.Rrdb.{Rrdb, same_name, lookup, get_dirty_metrics}
use stats_rrdb.Rrdb.Lookup.{differs, same_name_eq}
use stats_rrdb.Rrdb.Disk.{Disk, file_at, delete_journal_file}
use stats_rrdb.Rrdb.Flush.{flush_to_disk}
use stats_rrdb.Rrdb.Flush.Loop.{
  NoName, IsDistinct, AllReady, Kept, flushed, untouched, Looped, flush_all-Looped,
}
use stats_rrdb.Rrdb.Load.{DirEntry, get_name, is_wanted, load_entry, load_metrics}
use stats_rrdb.Rrdb.Load.Agree.{AllEntered, Loaded, load_metrics-Loaded}

some-ne-none : {A : Type 0} (x : A) → some x ≡ none → ⊥
some-ne-none x h = cc

-- There is an entry of this path that load_metrics loads.
abbrev pub HasEntry : List DirEntry → List ℕ → Type 0
HasEntry [] filename = ⊥
HasEntry (e ∷ es) filename = ((is_wanted e ≡ true) × (e.filename ≡ filename)) ⊎ HasEntry es filename

module _ {W : Type 0} where
  abbrev pub AllPairs : (List ℕ → Metric W → Type 0) → List (List ℕ × Metric W) → Type 0
  AllPairs P [] = Unit
  AllPairs P ((n, m) ∷ ms) = P n m × AllPairs P ms

  lookup-AllPairs :
      (P : List ℕ → Metric W → Type 0) (ms : List (List ℕ × Metric W)) (n : List ℕ) (m : Metric W)
      → AllPairs P ms
      → lookup ms n ≡ some m
      → P n m
  lookup-AllPairs P [] n m all h = cc
  lookup-AllPairs P ((k, x) ∷ ms) n m all h = elim (Bool-cases (same_name k n)) [
    | inl here ↦ let e : x ≡ m = ground arith in rw (← e, ← same_name_eq k n here) all.0
    | inr other ↦ lookup-AllPairs P ms n m all.1 (rw other at h)
  ]

  NoName-lookup : (ms : List (List ℕ × Metric W)) (k : List ℕ) → lookup ms k ≡ none → NoName k ms
  NoName-lookup [] k h = tt
  NoName-lookup ((n, m) ∷ ms) k h = elim (Bool-cases (same_name n k)) [
    | inl here ↦ absurd (some-ne-none m (rw here at h))
    | inr other ↦ (λ e. differs n k other e, NoName-lookup ms k (rw other at h))
  ]

  -- The map's key of a metric is the metric's name.
  abbrev pub IsNamed : List ℕ → Metric W → Type 0
  IsNamed n m = n ≡ get_name m

  -- Each entry that load_metrics loads is the file of a metric.
  abbrev pub AllListed : List (List ℕ × Metric W) → List DirEntry → Type 0
  AllListed ms [] = Unit
  AllListed ms (e ∷ es) =
      ((is_wanted e ≡ false)
        ⊎ ((n : List ℕ) × (m : Metric W) × (lookup ms n ≡ some m) × (e.filename ≡ m.filename)))
      × AllListed ms es

module _ {W : Type 0} ⦃v : Value W⦄ ⦃b : Bytes W⦄ where
  -- A metric that is not dirty is the one that load_file gives from its file.
  pub data Stored (files : List (List ℕ × List ℕ)) (m : Metric W) : Type 0 where
    changed : is_dirty m ≡ true → Stored files m
    stored :
        (bytes : List ℕ)
        → file_at files m.filename ≡ some bytes
        → load_file bytes (new_metric m.filename) ≡ ok m
        → Stored files m

  file_loaded :
      (files : List (List ℕ × List ℕ)) (filename bytes : List ℕ) (x : Metric W)
      → file_at files filename ≡ some bytes
      → load_file bytes (new_metric filename) ≡ ok x
      → load_entry files filename ≡ ok x
  unfolding load_entry
  file_loaded files filename bytes x stands loads = rw (load_entry, stands) loads

  -- What a file gives after the flush is what the map has then.
  record AsFlushed (l : List (List ℕ × Metric W)) (files : List (List ℕ × List ℕ)) (n : List ℕ)
      (m : Metric W) : Type 0 where
    metric : Metric W
    loads : load_entry files m.filename ≡ ok metric
    found : lookup l n ≡ some metric
    named : n ≡ get_name metric

  Kept-AsFlushed :
      (before after : List (List ℕ × Metric W)) (files files' : List (List ℕ × List ℕ)) (n : List ℕ)
      (m : Metric W)
      → lookup before n ≡ some m
      → IsNamed n m
      → Stored files m
      → Kept before after files files' n m
      → AsFlushed after files' n m
  unfolding saved clear_dirty get_name
  Kept-AsFlushed before after files files' n m h named s (flushed d found file stands loads) =
      record {
        metric = saved m;
        loads = file_loaded files' m.filename file (saved m) stands loads;
        found = found;
        named = named;
      }
  Kept-AsFlushed before after files files' n m h named (changed d) (untouched clean found same) = cc
  Kept-AsFlushed before after files files' n m h named (stored bytes stands loads)
        (untouched clean found same) =
      record {
        metric = m;
        loads = file_loaded files' m.filename bytes m (same ∙ stands) loads;
        found = found ∙ h;
        named = named;
      }

  listed-AllEntered :
      (ms target : List (List ℕ × Metric W)) (files : List (List ℕ × List ℕ)) (es : List DirEntry)
      → ((n : List ℕ) (m : Metric W) → lookup ms n ≡ some m → AsFlushed target files n m)
      → AllListed ms es
      → AllEntered target files es
  listed-AllEntered ms target files [] f all = tt
  listed-AllEntered ms target files (e ∷ es) f (inl unwanted, all) =
      (inl unwanted, listed-AllEntered ms target files es f all)
  listed-AllEntered ms target files (e ∷ es) f (inr (n, m, h, same), all) =
      let a = f n m h in
      (
        inr (
          a.metric,
          ap (load_entry files) same ∙ a.loads,
          ap (lookup target) (sym a.named) ∙ a.found,
        ),
        listed-AllEntered ms target files es f all,
      )

  entered_found :
      (after : List (List ℕ × Metric W)) (files : List (List ℕ × List ℕ)) (es : List DirEntry)
      (n filename : List ℕ) (x : Metric W)
      → AllEntered after files es
      → HasEntry es filename
      → load_entry files filename ≡ ok x
      → n ≡ get_name x
      → lookup after n ≡ some x
  entered_found after files [] n filename x all has loads named = absurd has
  entered_found after files (e ∷ es) n filename x (entered, all) (inr has) loads named =
      entered_found after files es n filename x all has loads named
  entered_found after files (e ∷ es) n filename x (inl unwanted, all) (inl (wanted, same)) loads
        named =
      cc
  entered_found after files (e ∷ es) n filename x (inr (m, l, found), all) (inl (wanted, same))
        loads named =
      let same_metric : m ≡ x = ok_inj m x (sym l ∙ ap (load_entry files) same ∙ loads) in
      rw (named, ← same_metric) found

  -- After a flush and a start: the map of before, and the one that is loaded.
  pub record Restored (db : Rrdb W) (disk : Disk) (es : List DirEntry) : Type 0 where
    pub db' : Rrdb W
    pub disk' : Disk
    pub after : List (List ℕ × Metric W)
    pub flushes : flush_to_disk db new_journal disk ≡ (db', new_journal, disk')
    pub loads : load_metrics es disk'.files [] ≡ ok after
    pub same : (k : List ℕ) → lookup after k ≡ lookup db'.metrics k

  same_lookup :
      (db : Rrdb W) (disk : Disk) (es : List DirEntry)
      → (l : Looped db.metrics db.metrics disk)
      → ((n : List ℕ) (m : Metric W)
          → lookup db.metrics n ≡ some m
          → AsFlushed l.after l.disk'.files n m)
      → AllPairs (λ n m. HasEntry es m.filename) db.metrics
      → (d : Loaded l.after [] l.disk'.files es) → (k : List ℕ)
      → lookup d.after k ≡ lookup l.after k
  same_lookup db disk es l f has d k = elim (Option-cases (lookup db.metrics k)) [
    | inr (m, h) ↦
        let a = f k m h in
        entered_found d.after l.disk'.files es k m.filename a.metric d.entered
          (lookup-AllPairs (λ n m. HasEntry es m.filename) db.metrics k m has h) a.loads a.named
        ∙ sym a.found
    | inl absent ↦
        let gone : lookup l.after k ≡ none =
          l.other_names k (NoName-lookup db.metrics k absent) ∙ absent in
        elim (Option-cases (lookup d.after k)) [
          | inl nothing ↦ nothing ∙ sym gone
          | inr (x, found) ↦ absurd (some-ne-none x (sym (d.agrees.apply k x found) ∙ gone))
        ]
  ]

  -- Take a map in which no two metrics share a name or a file, and each has its own name as its key;
  -- every dirty metric can be flushed, and load_file gives every other one from its file. If the
  -- directory has an entry for each metric's file and, of those that load_metrics loads, no other, in
  -- any order, then after flush_to_disk load_metrics returns from the files, into an empty map, one
  -- that gives every name the metric that the flushed map has under it, or none.
  pub load_metrics-flush_to_disk :
      (db : Rrdb W) (disk : Disk) (es : List DirEntry)
      → IsDistinct db.metrics
      → AllReady db.metrics disk.files
      → AllPairs IsNamed db.metrics
      → AllPairs (λ n m. Stored disk.files m) db.metrics
      → AllPairs (λ n m. HasEntry es m.filename) db.metrics
      → AllListed db.metrics es
      → Restored db disk es
  unfolding flush_to_disk get_dirty_metrics delete_journal_file
  load_metrics-flush_to_disk db disk es distinct ready named stores has listed =
      let l = flush_all-Looped db.metrics db.metrics disk distinct ready in
      let f : (n : List ℕ) (m : Metric W)
          → lookup db.metrics n ≡ some m
          → AsFlushed l.after l.disk'.files n m =
        λ n m h.
          Kept-AsFlushed db.metrics l.after disk.files l.disk'.files n m h
            (lookup-AllPairs IsNamed db.metrics n m named h)
            (lookup-AllPairs (λ n m. Stored disk.files m) db.metrics n m stores h) (l.kept n m h) in
      let d =
        load_metrics-Loaded l.after [] l.disk'.files es
          (record { apply = λ k x h. absurd (some-ne-none x (sym h)) })
          (listed-AllEntered db.metrics l.after l.disk'.files es f listed) in
      record {
        db' = record db { metrics = l.after };
        disk' = delete_journal_file l.disk';
        after = d.after;
        flushes = rw l.returns refl;
        loads = d.returns;
        same = same_lookup db disk es l f has d;
      }
