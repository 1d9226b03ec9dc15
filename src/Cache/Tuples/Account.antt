-- ===== src/Cache/Tuples/Account.antt =====
-- The tuples cache of src/rrdb/rrdb_metric_tuples_cache.cpp counts the memory of what it holds.
use stats_rrdb.Prelude.{ℕ, zero, suc, ◌+◌, ◌<◌, ◌≡◌, refl, some, List, [], ◌∷◌, length, ◌==◌, arith}
use stats_rrdb.Prelude.Int.{ℤ}
use stats_rrdb.Value.{Value}
use stats_rrdb.Tuple.{Tuple, get_memory_size}
use stats_rrdb.Cache.{Entry, nth, remove_at, find_key, touch, erase_key}
use stats_rrdb.Cache.Tuples.{TuplesCache, u64_mod}

module _ {W : Type 0} ⦃v : Value W⦄ where
  unfoldable pub total : List (Entry ℕ (List (Tuple W))) → ℕ
  total [] = 0
  total (e ∷ es) = get_memory_size e.value + total es

  -- The account: what is in use is what the entries take, and the size is their number.
  pub record IsAccounted (c : TuplesCache W) : Type 0 where
    pub used : c.used_memory ≡ total c.lru.entries
    pub size : c.lru.size ≡ length c.lru.entries
    pub fits : c.used_memory < u64_mod

  pub total-touch :
      (es : List (Entry ℕ (List (Tuple W)))) (k : ℕ) (t : ℤ)
      → (total (touch ◌==◌ es k t) ≡ total es) × (length (touch ◌==◌ es k t) ≡ length es)
  unfolding total
  total-touch [] k t = (refl, refl)
  total-touch (e ∷ es) k t = ground (arith, total-touch es k t)

  pub total-erase_key :
      (es : List (Entry ℕ (List (Tuple W)))) (k : ℕ) (tuples : List (Tuple W))
      → find_key ◌==◌ es k ≡ some tuples
      → (total es ≡ get_memory_size tuples + total (erase_key ◌==◌ es k))
        × (length es ≡ suc (length (erase_key ◌==◌ es k)))
  unfolding total
  total-erase_key [] k tuples h = cc
  total-erase_key (e ∷ es) k tuples h = ground (arith, total-erase_key es k tuples)

  pub total-remove_at :
      (es : List (Entry ℕ (List (Tuple W)))) (i : ℕ)
      → i < length es
      → (e : Entry ℕ (List (Tuple W))) × (nth es i ≡ some e)
        × (total es ≡ get_memory_size e.value + total (remove_at es i))
        × (length es ≡ suc (length (remove_at es i)))
  unfolding total
  total-remove_at [] i h = absurd (omega arith)
  total-remove_at (e ∷ es) zero h = (e, refl, refl, refl)
  total-remove_at (e ∷ es) (suc i) h =
      let (x, at, sum, size) = total-remove_at es i (omega arith) in
      (x, at, omega arith, omega arith)
