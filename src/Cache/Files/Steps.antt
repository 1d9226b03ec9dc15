-- ===== src/Cache/Files/Steps.antt =====
-- The steps of src/rrdb/rrdb_files_cache.cpp, by any threads in any order, keep the open files within
-- the greatest limit.
use stats_rrdb.Prelude.{
  ℕ, zero, suc, ◌<◌, ◌≤◌, ◌≡◌, refl, inl, inr, true, false, Bool-cases, Option-cases, some, List,
  [], ◌∷◌, length, ltb, leb, lt→ltb, arith,
}
use stats_rrdb.Prelude.Int.{ℤ}
use stats_rrdb.Prelude.Result.{Result, ok, err, check}
use stats_rrdb.Rrdb.{same_name}
use stats_rrdb.Cache.{
  Entry, find_key, touch, erase_key, lru_insert, lru_find, lru_erase_key, lru_clear,
  reset_cache_hits, reset_cache_misses,
}
use stats_rrdb.Cache.Tuples.Purge.{below_limit}
use stats_rrdb.Cache.Files.{
  FilesCache, Step, find_stream, insert_stream, erase_stream, set_max_size, set_path, clear_files,
  get_hits, get_misses, closed_path, insert_file, limit_files, step, steps,
}
use stats_rrdb.Cache.Files.Purge.{purge_files-PurgedFiles}

module _ {H : Type 0} where
  length-touch :
      (es : List (Entry (List ℕ) H)) (k : List ℕ) (t : ℤ)
      → length (touch same_name es k t) ≡ length es
  length-touch [] k t = refl
  length-touch (e ∷ es) k t = ground (arith, length-touch es k t)

  length-erase_key :
      (es : List (Entry (List ℕ) H)) (k : List ℕ) (fs : H)
      → find_key same_name es k ≡ some fs
      → length es ≡ suc (length (erase_key same_name es k))
  length-erase_key [] k fs h = cc
  length-erase_key (e ∷ es) k fs h = ground (arith, length-erase_key es k fs)

  -- The size is the number of the open files, and neither it nor the limit is over `most`.
  pub record Within (most : ℕ) (c : FilesCache H) : Type 0 where
    pub size : c.lru.size ≡ length c.lru.entries
    pub files : length c.lru.entries ≤ most
    pub limit : c.max_size ≤ most
    pub some_limit : 0 < c.max_size

module _ {H : Type 0} (limit_of : ℕ → ℕ) (oldest : List (Entry (List ℕ) H) → ℕ)
    (below_max : (n : ℕ) → limit_of n ≤ n)
    (in_range : (es : List (Entry (List ℕ) H)) → 0 < length es → oldest es < length es) where
  -- A step has thrown, or it has kept the files within `most`.
  data Kept (most : ℕ) (r : Result (FilesCache H)) : Type 0 where
    throws : r ≡ err check → Kept most r
    keeps : (c : FilesCache H) → r ≡ ok c → Within most c → Kept most r

  insert-Within :
      (most : ℕ) (c : FilesCache H) (filename : List ℕ) (fs : H) (ts : ℤ)
      → c.lru.size ≡ length c.lru.entries
      → length c.lru.entries < most
      → c.max_size ≤ most
      → 0 < c.max_size
      → Within most (record c { lru = (lru_insert same_name c.lru filename fs ts).0 })
  unfolding lru_insert
  insert-Within most c filename fs ts size files limit positive =
      elim (Option-cases (find_key same_name c.lru.entries filename)) [
        | inl absent ↦
            rw (absent, lru_insert)
              (record {
                size = omega arith;
                files = omega arith;
                limit = limit;
                some_limit = positive;
              })
        | inr (old, present) ↦
            rw (present, lru_insert)
              (record { size = size; files = omega arith; limit = limit; some_limit = positive })
      ]

  insert_file-Kept :
      (most : ℕ) (c : FilesCache H) (filename : List ℕ) (fs : H) (ts : ℤ)
      → Within most c
      → Kept most (insert_file limit_of oldest c filename fs ts)
  unfolding insert_file
  insert_file-Kept most c filename fs ts w = elim (Bool-cases (leb c.max_size c.lru.size)) [
    | inl full ↦
        let p = purge_files-PurgedFiles limit_of oldest in_range c w.size in
        keeps _ (rw (full, p.returns)) (
          insert-Within most p.cache filename fs ts p.size
            (omega (arith, p.below, p.same_max, below_max c.max_size, w.limit, w.some_limit))
            (omega (arith, p.same_max, w.limit)) (omega (arith, p.same_max, w.some_limit)))
    | inr room ↦ keeps _ (rw room) (
        insert-Within most c filename fs ts w.size
          (omega (arith, below_limit c.max_size c.lru.size room, w.size, w.limit)) w.limit
          w.some_limit)
  ]

  limit_files-Kept :
      (most : ℕ) (c : FilesCache H) (max_size : ℕ)
      → Within most c
      → max_size ≤ most
      → Kept most (limit_files limit_of oldest c max_size)
  unfolding limit_files
  limit_files-Kept most c zero w fits = throws refl
  limit_files-Kept most c (suc n) w fits =
      let c' : FilesCache H = record c { max_size = suc n } in
      elim (Bool-cases (ltb c.max_size (suc n))) [
        | inl grows ↦
            let p = purge_files-PurgedFiles limit_of oldest in_range c' w.size in
            keeps p.cache (rw (lt→ltb 0 (suc n) (omega arith), grows) p.returns) (record {
              size = p.size;
              files = omega (arith, p.fewer, w.files);
              limit = omega (arith, p.same_max);
              some_limit = omega (arith, p.same_max);
            })
        | inr shrinks ↦
            keeps c' (rw (lt→ltb 0 (suc n) (omega arith), shrinks))
              (record { size = w.size; files = w.files; limit = fits; some_limit = omega arith })
      ]

  -- The limit that a step sets.
  abbrev pub LimitWithin : ℕ → Step H → Type 0
  LimitWithin most (set_max_size n) = n ≤ most
  LimitWithin most _ = Unit

  abbrev pub LimitsWithin : ℕ → List (Step H) → Type 0
  LimitsWithin most [] = Unit
  LimitsWithin most (s ∷ ss) = LimitWithin most s × LimitsWithin most ss

  find-Within :
      (most : ℕ) (c : FilesCache H) (filename : List ℕ) (ts : ℤ)
      → Within most c
      → Within most (record c { lru = (lru_find same_name c.lru filename ts).0 })
  unfolding lru_find
  find-Within most c filename ts w =
      let same = length-touch c.lru.entries filename ts in
      elim (Option-cases (find_key same_name c.lru.entries filename)) [
        | inl absent ↦
            rw (absent, lru_find)
              (record {
                size = w.size;
                files = w.files;
                limit = w.limit;
                some_limit = w.some_limit;
              })
        | inr (fs, present) ↦
            rw (present, lru_find)
              (record {
                size = omega (arith, w.size);
                files = omega (arith, w.files);
                limit = w.limit;
                some_limit = w.some_limit;
              })
      ]

  erase-Within :
      (most : ℕ) (c : FilesCache H) (filename : List ℕ)
      → Within most c
      → Within most (record c { lru = (lru_erase_key same_name c.lru filename).0 })
  unfolding lru_erase_key
  erase-Within most c filename w = elim (Option-cases (find_key same_name c.lru.entries filename)) [
    | inl absent ↦
        rw (absent, lru_erase_key)
          (record { size = w.size; files = w.files; limit = w.limit; some_limit = w.some_limit })
    | inr (fs, present) ↦
        let less = length-erase_key c.lru.entries filename fs present in
        rw (present, lru_erase_key)
          (record {
            size = omega (arith, w.size);
            files = omega (arith, w.files);
            limit = w.limit;
            some_limit = w.some_limit;
          })
  ]

  step-Kept :
      (most : ℕ) (s : Step H) (c : FilesCache H)
      → Within most c
      → LimitWithin most s
      → Kept most (step limit_of oldest s c)
  unfolding step lru_clear reset_cache_hits reset_cache_misses
  step-Kept most (find_stream filename ts) c w l = keeps _ refl (find-Within most c filename ts w)
  step-Kept most (insert_stream filename fs ts) c w l = insert_file-Kept most c filename fs ts w
  step-Kept most (erase_stream filename) c w l = keeps _ refl (erase-Within most c filename w)
  step-Kept most (set_max_size n) c w l = limit_files-Kept most c n w l
  step-Kept most (set_path []) c w l = throws refl
  step-Kept most (set_path (d ∷ ds)) c w l =
      keeps (record c { path = closed_path (d ∷ ds) })
        (rw (lt→ltb 0 (length (d ∷ ds)) (omega arith)))
        (record { size = w.size; files = w.files; limit = w.limit; some_limit = w.some_limit })
  step-Kept most clear_files c w l =
      keeps _ refl
        (record { size = refl; files = omega arith; limit = w.limit; some_limit = w.some_limit })
  step-Kept most (get_hits true) c w l =
      keeps _ refl
        (record { size = w.size; files = w.files; limit = w.limit; some_limit = w.some_limit })
  step-Kept most (get_hits false) c w l = keeps _ refl w
  step-Kept most (get_misses true) c w l =
      keeps _ refl
        (record { size = w.size; files = w.files; limit = w.limit; some_limit = w.some_limit })
  step-Kept most (get_misses false) c w l = keeps _ refl w

  -- Whatever steps the threads make on a cache within `most`, and in whatever order, if none of them
  -- sets a limit over `most`: the files held open and the limit stay within `most`, the size is the
  -- number of the files, and the limit is positive.
  pub steps-Within :
      (most : ℕ) (ss : List (Step H)) (c : FilesCache H)
      → Within most c
      → LimitsWithin most ss
      → Within most (steps limit_of oldest ss c)
  unfolding steps
  steps-Within most [] c w l = w
  steps-Within most (s ∷ ss) c w l = elim (step-Kept most s c w l.0) [
    | throws e ↦ rw (steps, e) (steps-Within most ss c w l.1)
    | keeps c' e w' ↦ rw (steps, e) (steps-Within most ss c' w' l.1)
  ]
