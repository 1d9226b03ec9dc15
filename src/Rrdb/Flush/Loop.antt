-- ===== src/Rrdb/Flush/Loop.antt =====
-- The loop of flush_to_disk of src/rrdb/rrdb.cpp.
use stats_rrdb.Prelude.{
  ℕ, ◌≡◌, ◌≢◌, ◌⊎◌, inl, inr, refl, sym, ap, ◌∙◌, true, false, Bool-cases, none, some, List, [],
  ◌∷◌, arith,
}
use stats_rrdb.Prelude.Result.{ok}
use stats_rrdb.Value.{Value}
use stats_rrdb.Bytes.{Bytes}
use stats_rrdb.Journal.{new_journal}
use stats_rrdb.Metric.{Metric, new_metric, is_dirty}
use stats_rrdb.Metric.File.{load_file}
use stats_rrdb.Metric.File.Saved.{saved}
use stats_rrdb.Rrdb.{Rrdb, same_name, lookup, put, walk, get_dirty_metrics}
use stats_rrdb.Rrdb.Lookup.{
  differs, same_name_eq, same_name_refl, same_name_ne, lookup-put_self, lookup-put_ne,
}
use stats_rrdb.Rrdb.Disk.{Disk, file_at, put_file, delete_journal_file}
use stats_rrdb.Rrdb.Flush.{flush_all, flush_to_disk}
use stats_rrdb.Rrdb.Flush.One.{Flushable, is_dirty-saved, OneFlushed, flush_one-OneFlushed}

pub file_at-put_self :
    (fs : List (List ℕ × List ℕ)) (n bytes : List ℕ) → file_at (put_file fs n bytes) n ≡ some bytes
file_at-put_self [] n bytes = rw (same_name_refl n)
file_at-put_self ((k, old) ∷ fs) n bytes = ground (arith, file_at-put_self fs n bytes)

pub file_at-put_ne :
    (fs : List (List ℕ × List ℕ)) (n k bytes : List ℕ)
    → n ≢ k
    → file_at (put_file fs n bytes) k ≡ file_at fs k
file_at-put_ne [] n k bytes ne = rw (same_name_ne n k ne)
file_at-put_ne ((j, old) ∷ fs) n k bytes ne =
    ground (arith, file_at-put_ne fs n k bytes ne, same_name_eq j n, same_name_eq j k)

module _ {W : Type 0} where
  abbrev pub NoName : List ℕ → List (List ℕ × Metric W) → Type 0
  NoName k [] = Unit
  NoName k ((n, m) ∷ ms) = (n ≢ k) × NoName k ms

  abbrev pub NoFile : List ℕ → List (List ℕ × Metric W) → Type 0
  NoFile k [] = Unit
  NoFile k ((n, m) ∷ ms) = (m.filename ≢ k) × NoFile k ms

  -- No two metrics share a name or a file.
  abbrev pub IsDistinct : List (List ℕ × Metric W) → Type 0
  IsDistinct [] = Unit
  IsDistinct ((n, m) ∷ ms) = NoName n ms × NoFile m.filename ms × IsDistinct ms

  file_differs :
      (k : List ℕ) (ms : List (List ℕ × Metric W)) (n : List ℕ) (m : Metric W)
      → NoFile k ms
      → lookup ms n ≡ some m
      → m.filename ≢ k
  file_differs k [] n m apart h = cc
  file_differs k ((j, x) ∷ ms) n m apart h = elim (Bool-cases (same_name j n)) [
    | inl here ↦ let e : x ≡ m = ground arith in rw (← e) apart.0
    | inr other ↦ file_differs k ms n m apart.1 (rw other at h)
  ]

module _ {W : Type 0} ⦃v : Value W⦄ ⦃b : Bytes W⦄ where
  -- Every metric that is dirty can be flushed.
  abbrev pub AllReady : List (List ℕ × Metric W) → List (List ℕ × List ℕ) → Type 0
  AllReady [] files = Unit
  AllReady ((n, m) ∷ ms) files = ((is_dirty m ≡ false) ⊎ Flushable m files) × AllReady ms files

  moved :
      (m : Metric W) (files files' : List (List ℕ × List ℕ))
      → file_at files' m.filename ≡ file_at files m.filename
      → Flushable m files
      → Flushable m files'
  moved m files files' e f = record {
    blocks_fit = f.blocks_fit;
    sound = f.sound;
    live = f.live;
    fits = f.fits;
    savable = f.savable;
    head = f.head;
    blocks = f.blocks;
    sized = f.sized;
    held = f.held;
    stands = e ∙ f.stands;
  }

  AllReady-put :
      (ms : List (List ℕ × Metric W)) (files : List (List ℕ × List ℕ)) (n bytes : List ℕ)
      → NoFile n ms
      → AllReady ms files
      → AllReady ms (put_file files n bytes)
  AllReady-put [] files n bytes apart r = tt
  AllReady-put ((k, m) ∷ ms) files n bytes apart (inl clean, rest) =
      (inl clean, AllReady-put ms files n bytes apart.1 rest)
  AllReady-put ((k, m) ∷ ms) files n bytes apart (inr f, rest) = (
    inr (
        moved m files (put_file files n bytes)
          (file_at-put_ne files n m.filename bytes (λ e. apart.0 (sym e))) f),
    AllReady-put ms files n bytes apart.1 rest,
  )

  -- What the loop does to a metric and its file: a dirty one is as it is loaded from its file, and one
  -- that is clean is as before.
  pub data Kept (before after : List (List ℕ × Metric W)) (files files' : List (List ℕ × List ℕ))
      (n : List ℕ) (m : Metric W) : Type 0 where
    flushed :
        is_dirty m ≡ true
        → lookup after n ≡ some (saved m)
        → (file : List ℕ) → file_at files' m.filename ≡ some file
        → load_file file (new_metric m.filename) ≡ ok (saved m)
        → Kept before after files files' n m
    untouched :
        is_dirty m ≡ false
        → lookup after n ≡ lookup before n
        → file_at files' m.filename ≡ file_at files m.filename
        → Kept before after files files' n m

  -- The loop over the dirty metrics of `ms`.
  pub record Looped (ms metrics : List (List ℕ × Metric W)) (disk : Disk) : Type 0 where
    pub after : List (List ℕ × Metric W)
    pub disk' : Disk
    pub returns :
        flush_all (walk (λ k m. is_dirty m) ms) metrics new_journal disk
        ≡ (after, new_journal, disk')
    pub kept :
        (n : List ℕ) (m : Metric W)
        → lookup ms n ≡ some m
        → Kept metrics after disk.files disk'.files n m
    pub other_names : (k : List ℕ) → NoName k ms → lookup after k ≡ lookup metrics k
    pub other_files : (k : List ℕ) → NoFile k ms → file_at disk'.files k ≡ file_at disk.files k

  next_round :
      (k : List ℕ) (m : Metric W) (ms metrics : List (List ℕ × Metric W)) (disk : Disk)
      (o : OneFlushed m disk)
      → flush_all ((k, m) ∷ ms) metrics new_journal disk
        ≡ flush_all ms (put metrics k (saved m)) new_journal (record {
          files = put_file disk.files m.filename o.file;
          journal = some o.journal;
          jnl_opened = true;
        })
  unfolding flush_all
  next_round k m ms metrics disk o = ap (λ q. flush_all ms (put metrics k q.0) q.1 q.2) o.returns

  -- A dirty metric is flushed first.
  flushed_first :
      (k : List ℕ) (m : Metric W) (ms metrics : List (List ℕ × Metric W)) (disk : Disk)
      → is_dirty m ≡ true
      → NoName k ms
      → NoFile m.filename ms
      → (o : OneFlushed m disk)
      → Looped ms (put metrics k (saved m)) (record {
        files = put_file disk.files m.filename o.file;
        journal = some o.journal;
        jnl_opened = true;
      })
      → Looped ((k, m) ∷ ms) metrics disk
  flushed_first k m ms metrics disk dirty names files o rest = record {
    after = rest.after;
    disk' = rest.disk';
    returns = rw dirty (next_round k m (walk (λ k m. is_dirty m) ms) metrics disk o ∙ rest.returns);
    kept = λ n x h. elim (Bool-cases (same_name k n)) [
      | inl here ↦
          let e : m ≡ x = ground arith in
          rw (← e) (
            flushed dirty
              (rw (← same_name_eq k n here)
                (rest.other_names k names ∙ lookup-put_self metrics k (saved m)))
              o.file
              (rest.other_files m.filename files ∙ file_at-put_self disk.files m.filename o.file)
              o.loads)
      | inr other ↦ elim (rest.kept n x (rw other at h)) [
        | flushed d found file stands loads ↦ flushed d found file stands loads
        | untouched clean found same ↦
            untouched clean (found ∙ lookup-put_ne metrics k n (saved m) (λ e. differs k n other e))
              (same
                ∙ file_at-put_ne disk.files m.filename x.filename o.file
                    (λ e. file_differs m.filename ms n x files (rw other at h) (sym e)))
      ]
    ];
    other_names =
        λ n apart. rest.other_names n apart.1 ∙ lookup-put_ne metrics k n (saved m) apart.0;
    other_files = λ n apart.
        rest.other_files n apart.1 ∙ file_at-put_ne disk.files m.filename n o.file apart.0;
  }

  clean_first :
      (k : List ℕ) (m : Metric W) (ms metrics : List (List ℕ × Metric W)) (disk : Disk)
      → is_dirty m ≡ false
      → NoName k ms
      → NoFile m.filename ms
      → Looped ms metrics disk
      → Looped ((k, m) ∷ ms) metrics disk
  clean_first k m ms metrics disk clean names files rest = record {
    after = rest.after;
    disk' = rest.disk';
    returns = rw clean rest.returns;
    kept = λ n x h. elim (Bool-cases (same_name k n)) [
      | inl here ↦
          let e : m ≡ x = ground arith in
          rw (← e) (
            untouched clean (rw (← same_name_eq k n here) (rest.other_names k names))
              (rest.other_files m.filename files))
      | inr other ↦ rest.kept n x (rw other at h)
    ];
    other_names = λ n apart. rest.other_names n apart.1;
    other_files = λ n apart. rest.other_files n apart.1;
  }

  pub flush_all-Looped :
      (ms metrics : List (List ℕ × Metric W)) (disk : Disk)
      → IsDistinct ms
      → AllReady ms disk.files
      → Looped ms metrics disk
  unfolding flush_all
  flush_all-Looped [] metrics disk d r = record {
    after = metrics;
    disk' = disk;
    returns = refl;
    kept = λ n m h. cc;
    other_names = λ k apart. refl;
    other_files = λ k apart. refl;
  }
  flush_all-Looped ((k, m) ∷ ms) metrics disk d (inl clean, r) =
      clean_first k m ms metrics disk clean d.0 d.1 (flush_all-Looped ms metrics disk d.2 r)
  flush_all-Looped ((k, m) ∷ ms) metrics disk d (inr f, r) = elim (Bool-cases (is_dirty m)) [
    | inr clean ↦
        clean_first k m ms metrics disk clean d.0 d.1 (flush_all-Looped ms metrics disk d.2 r)
    | inl dirty ↦
        let o = flush_one-OneFlushed m disk f in
        flushed_first k m ms metrics disk dirty d.0 d.1 o (
          flush_all-Looped ms (put metrics k (saved m))
            (record {
              files = put_file disk.files m.filename o.file;
              journal = some o.journal;
              jnl_opened = true;
            })
            d.2 (AllReady-put ms disk.files m.filename o.file d.1 r))
  ]

  -- After a flush: what is found under a name, and that it is not dirty.
  pub record DbFlushed (db : Rrdb W) (disk : Disk) (n : List ℕ) (m : Metric W) : Type 0 where
    pub db' : Rrdb W
    pub disk' : Disk
    pub metric : Metric W
    pub returns : flush_to_disk db new_journal disk ≡ (db', new_journal, disk')
    pub journal_gone : disk'.journal ≡ none
    pub found : lookup db'.metrics n ≡ some metric
    pub clean : is_dirty metric ≡ false
    pub kept : Kept db.metrics db'.metrics disk.files disk'.files n m

  found_clean :
      (before after : List (List ℕ × Metric W)) (files files' : List (List ℕ × List ℕ)) (n : List ℕ)
      (m : Metric W)
      → lookup before n ≡ some m
      → Kept before after files files' n m
      → (m' : Metric W) × (lookup after n ≡ some m') × (is_dirty m' ≡ false)
  found_clean before after files files' n m h (flushed d found file stands loads) =
      (saved m, found, is_dirty-saved m)
  found_clean before after files files' n m h (untouched clean found same) = (m, found ∙ h, clean)

  -- If no two metrics share a name or a file, and every dirty metric can be flushed, then flush_to_disk
  -- returns, and leaves the journal empty and its file deleted. Every metric that was there is there and
  -- is not dirty: one that was dirty is the one that load_file gives from its file, and one that was
  -- not is as before, with the same file.
  pub flush_to_disk-DbFlushed :
      (db : Rrdb W) (disk : Disk) (n : List ℕ) (m : Metric W)
      → IsDistinct db.metrics
      → AllReady db.metrics disk.files
      → lookup db.metrics n ≡ some m
      → DbFlushed db disk n m
  unfolding flush_to_disk get_dirty_metrics delete_journal_file
  flush_to_disk-DbFlushed db disk n m d r h =
      let l = flush_all-Looped db.metrics db.metrics disk d r in
      let k = l.kept n m h in
      let (m', found, clean) = found_clean db.metrics l.after disk.files l.disk'.files n m h k in
      record {
        db' = record db { metrics = l.after };
        disk' = delete_journal_file l.disk';
        metric = m';
        returns = rw l.returns refl;
        journal_gone = refl;
        found = found;
        clean = clean;
        kept = k;
      }
