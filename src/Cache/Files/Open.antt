-- ===== src/Cache/Files/Open.antt =====
-- open_file of src/rrdb/rrdb_files_cache.cpp.
use stats_rrdb.Prelude.{
  ◌∙◌, ◌++◌, ℕ, suc, ◌<◌, ◌≡◌, refl, ◌⊎◌, inl, inr, Bool-cases, Option-cases, none, some, List, [],
  ◌∷◌, length, leb, arith,
}
use stats_rrdb.Prelude.Int.{ℤ}
use stats_rrdb.Prelude.Result.{Result, ok}
use stats_rrdb.Rrdb.{same_name}
use stats_rrdb.Cache.{Entry, Lru, find_key, touch, lru_insert, lru_find}
use stats_rrdb.Cache.Files.{FilesCache, insert_file}
use stats_rrdb.Cache.Files.Purge.{purge_files-PurgedFiles}
use stats_rrdb.Rrdb.Lookup.{same_name_refl}
use stats_rrdb.Cache.Files.{open_file}

module _ {H : Type 0} where
  find_key-touch :
      (es : List (Entry (List ℕ) H)) (k : List ℕ) (t : ℤ)
      → find_key same_name (touch same_name es k t) k ≡ find_key same_name es k
  find_key-touch [] k t = refl
  find_key-touch (e ∷ es) k t = ground (arith, find_key-touch es k t)

  find_present :
      (c : Lru (List ℕ) H) (k : List ℕ) (t : ℤ) (fs : H)
      → find_key same_name c.entries k ≡ some fs
      → lru_find same_name c k t
        ≡ (record c { entries = touch same_name c.entries k t; hits = suc c.hits }, some fs)
  unfolding lru_find
  find_present c k t fs present = rw (lru_find, present) refl

  find_absent :
      (c : Lru (List ℕ) H) (k : List ℕ) (t : ℤ)
      → find_key same_name c.entries k ≡ none
      → lru_find same_name c k t ≡ (record c { misses = suc c.misses }, none)
  unfolding lru_find
  find_absent c k t absent = rw (lru_find, absent) refl

module _ {H D : Type 0} (limit_of : ℕ → ℕ) (oldest : List (Entry (List ℕ) H) → ℕ)
    (in_range : (es : List (Entry (List ℕ) H)) → 0 < length es → oldest es < length es)
    (open_stream : List ℕ → D → Result (H × D)) (close_stream : H → D → Result D)
    (remove_path : List ℕ → D → Result D) where
  pub open_again :
      (c : FilesCache H) (filename : List ℕ) (ts : ℤ) (fs : H) (disk : D)
      → find_key same_name c.lru.entries filename ≡ some fs
      → open_file limit_of oldest open_stream close_stream remove_path c (some filename) ts disk
        ≡ ok (record c { lru = (lru_find same_name c.lru filename ts).0 }, fs, disk)
  unfolding open_file
  open_again c filename ts fs disk present = rw (
    open_file,
    find_present c.lru filename ts fs present,
    find_present c.lru filename ts fs present,
  )

  -- The cache after an open_file, which gives a stream and leaves a disk.
  pub record Opened (c : FilesCache H) (filename : List ℕ) (ts : ℤ) (fs : H) (disk disk' : D)
      : Type 0 where
    pub cache : FilesCache H
    pub stream : H
    pub after : D
    pub returns :
        open_file limit_of oldest open_stream close_stream remove_path c (some filename) ts disk
        ≡ ok (cache, stream, after)
    pub came :
        ((find_key same_name c.lru.entries filename ≡ some stream) × (after ≡ disk))
        ⊎ ((find_key same_name c.lru.entries filename ≡ none) × (stream ≡ fs) × (after ≡ disk'))
    pub kept : find_key same_name cache.lru.entries filename ≡ some stream

  insert_absent :
      (c : FilesCache H) (filename : List ℕ) (fs : H) (ts : ℤ)
      → find_key same_name c.lru.entries filename ≡ none
      → find_key same_name (lru_insert same_name c.lru filename fs ts).0.entries filename ≡ some fs
  unfolding lru_insert
  insert_absent c filename fs ts absent = rw (absent, lru_insert, same_name_refl filename)

  insert_file-kept :
      (c : FilesCache H) (filename : List ℕ) (fs : H) (ts : ℤ)
      → c.lru.size ≡ length c.lru.entries
      → find_key same_name c.lru.entries filename ≡ none
      → (c' : FilesCache H) × (insert_file limit_of oldest c filename fs ts ≡ ok c')
        × (find_key same_name c'.lru.entries filename ≡ some fs)
  unfolding insert_file
  insert_file-kept c filename fs ts size absent = elim (Bool-cases (leb c.max_size c.lru.size)) [
    | inl full ↦
        let p = purge_files-PurgedFiles limit_of oldest in_range c size in
        (
          record p.cache { lru = (lru_insert same_name p.cache.lru filename fs ts).0 },
          rw (full, p.returns),
          insert_absent p.cache filename fs ts (p.absent filename absent),
        )
    | inr room ↦ (
      record c { lru = (lru_insert same_name c.lru filename fs ts).0 },
      rw room,
      insert_absent c filename fs ts absent,
    )
  ]

  -- Where the file can be opened, open_file returns, and the stream is in the cache under the name. It
  -- is the one that was there, with nothing done to the disk, or a new one if there was none.
  pub open_file-Opened :
      (c : FilesCache H) (filename : List ℕ) (ts : ℤ) (fs : H) (disk disk' : D)
      → c.lru.size ≡ length c.lru.entries
      → open_stream (c.path ++ filename) disk ≡ ok (fs, disk')
      → Opened c filename ts fs disk disk'
  unfolding open_file
  open_file-Opened c filename ts fs disk disk' size opens =
      elim (Option-cases (find_key same_name c.lru.entries filename)) [
        | inl absent ↦
            let (c', e, kept) =
              insert_file-kept (record c { lru = record c.lru { misses = suc c.lru.misses } })
                filename fs ts size absent in
            record {
              cache = c';
              stream = fs;
              after = disk';
              returns = rw (
                open_file,
                find_absent c.lru filename ts absent,
                find_absent c.lru filename ts absent,
                opens,
                e,
              );
              came = inr (absent, refl, refl);
              kept = kept;
            }
        | inr (old, present) ↦ record {
          cache = record c { lru = (lru_find same_name c.lru filename ts).0 };
          stream = old;
          after = disk;
          returns = open_again c filename ts old disk present;
          came = inl (present, refl);
          kept =
              rw (find_present c.lru filename ts old present)
                (find_key-touch c.lru.entries filename ts ∙ present);
        }
      ]
