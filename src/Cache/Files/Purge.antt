-- ===== src/Cache/Files/Purge.antt =====
-- rrdb_files_cache::purge of src/rrdb/rrdb_files_cache.cpp ends.
use stats_rrdb.Prelude.{
  ℕ, zero, suc, ◌-◌, ◌<◌, ◌≤◌, ◌≡◌, refl, ◌⊎◌, inl, inr, Bool-cases, none, some, List, [], ◌∷◌,
  length, leb, arith,
}
use stats_rrdb.Prelude.Result.{Result, ok}
use stats_rrdb.Rrdb.{same_name}
use stats_rrdb.Cache.{Entry, nth, remove_at, find_key, lru_erase}
use stats_rrdb.Cache.Tuples.Purge.{below_limit, nth-none, none_or_some}
use stats_rrdb.Cache.Files.{FilesCache, oldest_file, purge_rounds, purge_files}

module _ {H : Type 0} where
  length-remove_at :
      (es : List (Entry (List ℕ) H)) (i : ℕ)
      → i < length es
      → (e : Entry (List ℕ) H) × (nth es i ≡ some e) × (length es ≡ suc (length (remove_at es i)))
  length-remove_at [] i h = absurd (omega arith)
  length-remove_at (e ∷ es) zero h = (e, refl, refl)
  length-remove_at (e ∷ es) (suc i) h =
      let (x, at, size) = length-remove_at es i (omega arith) in (x, at, omega arith)

  remove_at-none :
      (es : List (Entry (List ℕ) H)) (i : ℕ) (k : List ℕ)
      → find_key same_name es k ≡ none
      → find_key same_name (remove_at es i) k ≡ none
  remove_at-none [] i k h = refl
  remove_at-none (e ∷ es) zero k h = ground arith
  remove_at-none (e ∷ es) (suc i) k h = ground (arith, remove_at-none es i k)

module _ {H : Type 0} (limit_of : ℕ → ℕ) (oldest : List (Entry (List ℕ) H) → ℕ)
    (in_range : (es : List (Entry (List ℕ) H)) → 0 < length es → oldest es < length es) where
  -- What a purge leaves.
  pub record PurgedFiles (c : FilesCache H) (limit : ℕ) (r : Result (FilesCache H)) : Type 0 where
    pub cache : FilesCache H
    pub returns : r ≡ ok cache
    pub size : cache.lru.size ≡ length cache.lru.entries
    pub same_max : cache.max_size ≡ c.max_size
    pub absent :
        (k : List ℕ)
        → find_key same_name c.lru.entries k ≡ none
        → find_key same_name cache.lru.entries k ≡ none
    pub fewer : length cache.lru.entries ≤ length c.lru.entries
    pub below : (length cache.lru.entries < limit) ⊎ (length cache.lru.entries ≡ 0)

  data Round (c : FilesCache H) (limit : ℕ) : Type 0 where
    ends :
        oldest_file limit_of oldest c limit ≡ none
        → (length c.lru.entries < limit) ⊎ (length c.lru.entries ≡ 0)
        → Round c limit
    takes :
        (e : Entry (List ℕ) H)
        → oldest_file limit_of oldest c limit ≡ some e
        → lru_erase c.lru (oldest c.lru.entries) ≡ record c.lru {
          entries = remove_at c.lru.entries (oldest c.lru.entries);
          size = c.lru.size - 1;
        }
        → length c.lru.entries ≡ suc (length (remove_at c.lru.entries (oldest c.lru.entries)))
        → Round c limit

  round : (c : FilesCache H) (limit : ℕ) → c.lru.size ≡ length c.lru.entries → Round c limit
  unfolding lru_erase
  round c limit size = elim (Bool-cases (leb limit c.lru.size)) [
    | inr low ↦ ends (rw low) (inl (ground (arith, below_limit limit c.lru.size low)))
    | inl high ↦ elim (none_or_some (length c.lru.entries)) [
      | inl empty ↦
          ends (rw (high, nth-none c.lru.entries (oldest c.lru.entries) empty)) (inr empty)
      | inr some_left ↦
          let (e, at, less) =
            length-remove_at c.lru.entries (oldest c.lru.entries)
              (in_range c.lru.entries some_left) in
          takes e (rw high at) (rw (lru_erase, at)) less
    ]
  ]

  purge_rounds-PurgedFiles :
      (f : ℕ) (c : FilesCache H) (limit : ℕ)
      → c.lru.size ≡ length c.lru.entries
      → length c.lru.entries ≤ f
      → PurgedFiles c limit (purge_rounds limit_of oldest f c limit)
  unfolding purge_rounds
  purge_rounds-PurgedFiles zero c limit size enough = elim (round c limit size) [
    | ends over below ↦ record {
      cache = c;
      returns = rw (over, purge_rounds);
      size = size;
      same_max = refl;
      absent = λ k h. h;
      fewer = omega arith;
      below = below;
    }
    | takes e taken erased less ↦ absurd (omega arith)
  ]
  purge_rounds-PurgedFiles (suc f) c limit size enough = elim (round c limit size) [
    | ends over below ↦ record {
      cache = c;
      returns = rw (over, purge_rounds);
      size = size;
      same_max = refl;
      absent = λ k h. h;
      fewer = omega arith;
      below = below;
    }
    | takes e taken erased less ↦
        let c' : FilesCache H = record c {
          lru = record c.lru {
            entries = remove_at c.lru.entries (oldest c.lru.entries);
            size = c.lru.size - 1;
          };
        } in
        let rest = purge_rounds-PurgedFiles f c' limit (omega arith) (omega arith) in
        record {
          cache = rest.cache;
          returns = rw (taken, purge_rounds, erased) rest.returns;
          size = rest.size;
          same_max = rest.same_max;
          absent = λ k h. rest.absent k (remove_at-none c.lru.entries (oldest c.lru.entries) k h);
          fewer = omega (arith, rest.fewer);
          below = rest.below;
        }
  ]

  pub purge_files-PurgedFiles :
      (c : FilesCache H)
      → c.lru.size ≡ length c.lru.entries
      → PurgedFiles c (limit_of c.max_size) (purge_files limit_of oldest c)
  unfolding purge_files
  purge_files-PurgedFiles c size =
      purge_rounds-PurgedFiles (length c.lru.entries) c (limit_of c.max_size) size (omega arith)
