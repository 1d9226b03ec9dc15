-- ===== src/Cache/Files.antt =====
-- src/rrdb/rrdb_files_cache.cpp: the cache of the open files. A path is a list of characters. open_file
-- takes the lock twice and opens the file between: what it does under the lock are two steps, so that
-- the steps of several threads come in any order. `limit_of` is the product of the limit with the purge
-- threshold, a double, converted back; `oldest` is the index by time; a stream and the operations of the
-- file system on it are parameters.
pub mod Purge
pub mod Steps
pub mod Open
use stats_rrdb.Prelude.{
  ℕ, zero, suc, Bool, true, false, Option, none, some, List, [], ◌∷◌, ◌++◌, length, ltb, leb, ◌==◌,
  if◌then◌else◌,
}
use stats_rrdb.Prelude.Int.{ℤ}
use stats_rrdb.Prelude.Result.{Result, ok, err, check, fuel, ◌>>=◌, ◌>>◌, require}
use stats_rrdb.Rrdb.{same_name}
use stats_rrdb.Cache.{
  Entry, Lru, nth, lru_insert, lru_find, lru_erase_key, lru_erase, lru_clear, reset_cache_hits,
  reset_cache_misses,
}

pub record FilesCache (H : Type 0) : Type 0 where
  pub lru : Lru (List ℕ) H
  pub path : List ℕ
  pub max_size : ℕ

-- "if((*_path.rbegin()) != '/') _path += '/'", where '/' is 47.
abbrev pub closed_path : List ℕ → List ℕ
closed_path [] = []
closed_path (c ∷ []) = if c == 47 then c ∷ [] else c ∷ 47 ∷ []
closed_path (c ∷ d ∷ cs) = c ∷ closed_path (d ∷ cs)

-- What a thread does under the lock: the first and the last part of open_file, the erase of
-- delete_file, and the operations that are one step; a `get_` only reads, but for the counters.
pub data Step (H : Type 0) : Type 0 where
  find_stream : List ℕ → ℤ → Step H
  insert_stream : List ℕ → H → ℤ → Step H
  erase_stream : List ℕ → Step H
  set_max_size : ℕ → Step H
  set_path : List ℕ → Step H
  clear_files : Step H
  get_hits : Bool → Step H
  get_misses : Bool → Step H

module _ {H : Type 0} (limit_of : ℕ → ℕ) (oldest : List (Entry (List ℕ) H) → ℕ) where
  -- The condition of purge's loop, with the entry that its body takes.
  abbrev pub oldest_file : FilesCache H → ℕ → Option (Entry (List ℕ) H)
  oldest_file c limit =
      if leb limit c.lru.size then nth c.lru.entries (oldest c.lru.entries) else none

  -- Every round erases an entry, so that there are at most as many rounds as entries.
  pub purge_rounds : ℕ → FilesCache H → ℕ → Result (FilesCache H)
  purge_rounds zero c limit = elim (oldest_file c limit) [ none ↦ ok c | some e ↦ err fuel ]
  purge_rounds (suc f) c limit = elim (oldest_file c limit) [
    | none ↦ ok c
    | some e ↦ purge_rounds f (record c { lru = lru_erase c.lru (oldest c.lru.entries) }) limit
  ]

  pub purge_files : FilesCache H → Result (FilesCache H)
  unfolding purge_rounds
  purge_files c = purge_rounds (length c.lru.entries) c (limit_of c.max_size)

  -- The last part of open_file.
  pub insert_file : FilesCache H → List ℕ → H → ℤ → Result (FilesCache H)
  unfolding purge_files
  insert_file c filename fs ts = do
    c' ← if leb c.max_size c.lru.size then purge_files c else ok c
    ok (record c' { lru = (lru_insert same_name c'.lru filename fs ts).0 })

  -- "if(_max_size < max_size)"
  pub limit_files : FilesCache H → ℕ → Result (FilesCache H)
  unfolding purge_files
  limit_files c max_size = do
    require (ltb 0 max_size)
    if ltb c.max_size max_size
        then purge_files (record c { max_size = max_size })
        else ok (record c { max_size = max_size })

  pub step : Step H → FilesCache H → Result (FilesCache H)
  unfolding insert_file limit_files
  step (find_stream filename ts) c =
      ok (record c { lru = (lru_find same_name c.lru filename ts).0 })
  step (insert_stream filename fs ts) c = insert_file c filename fs ts
  step (erase_stream filename) c =
      ok (record c { lru = (lru_erase_key same_name c.lru filename).0 })
  step (set_max_size max_size) c = limit_files c max_size
  step (set_path path) c = do
    require (ltb 0 (length path))
    ok (record c { path = closed_path path })
  step clear_files c = ok (record c { lru = lru_clear })
  step (get_hits reset) c = ok (if reset then record c { lru = reset_cache_hits c.lru } else c)
  step (get_misses reset) c = ok (if reset then record c { lru = reset_cache_misses c.lru } else c)

  -- The steps of all threads in the order in which they take the lock. A step that throws has not
  -- changed the cache.
  pub steps : List (Step H) → FilesCache H → FilesCache H
  unfolding step
  steps [] c = c
  steps (s ∷ ss) c = elim (step s c) [ ok c' ↦ steps ss c' | err raised ↦ steps ss c ]

  module _ {D : Type 0} (open_stream : List ℕ → D → Result (H × D))
      (close_stream : H → D → Result D) (remove_path : List ℕ → D → Result D) where
    -- open_file of one thread, with no step of another one between; the null pointer is `none`.
    pub open_file : FilesCache H → Option (List ℕ) → ℤ → D → Result (FilesCache H × H × D)
    unfolding insert_file
    open_file c none ts disk = err check
    open_file c (some filename) ts disk =
        let (lru', found) = lru_find same_name c.lru filename ts in
        elim found [
          | some fs ↦ ok (record c { lru = lru' }, fs, disk)
          | none ↦ do
            (fs, disk') ← open_stream (c.path ++ filename) disk
            c' ← insert_file (record c { lru = lru' }) filename fs ts
            ok (c', fs, disk')
        ]

    -- The null pointer and the empty name are refused.
    pub delete_file : FilesCache H → Option (List ℕ) → D → Result (FilesCache H × D)
    delete_file c none disk = err check
    delete_file c (some filename) disk = do
      require (ltb 0 (length filename))
      let (lru', found) = lru_erase_key same_name c.lru filename
      disk' ← elim found [ some fs ↦ close_stream fs disk | none ↦ ok disk ]
      disk'' ← remove_path (c.path ++ filename) disk'
      ok (record c { lru = lru' }, disk'')
