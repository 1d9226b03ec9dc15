-- ===== src/Cache/Tuples/Run.antt =====
-- Every operation of src/rrdb/rrdb_metric_tuples_cache.cpp keeps the account.
use stats_rrdb.Prelude.{
  ℕ, ◌+◌, ◌%◌, ◌<◌, ◌≡◌, refl, inl, inr, true, false, Bool-cases, Option-cases, List, length, ltb,
  leb, lt→ltb, ◌==◌, if◌then◌else◌, arith,
}
use stats_rrdb.Prelude.Int.{ℤ}
use stats_rrdb.Prelude.Result.{Result, ok}
use stats_rrdb.Value.{Value}
use stats_rrdb.Tuple.{Tuple, get_memory_size}
use stats_rrdb.Cache.{
  Entry, find_key, lru_insert, lru_find, lru_use, lru_erase_key, lru_clear, reset_cache_hits,
  reset_cache_misses,
}
use stats_rrdb.Cache.Tuples.{
  TuplesCache, Operation, notify_used, find, insert, erase, clear, set_max_used_memory,
  get_cache_hits, get_cache_misses, u64_mod, insert_tuples, erase_block, set_limit, run,
}
use stats_rrdb.Cache.Tuples.Account.{total, IsAccounted, total-touch, total-erase_key}
use stats_rrdb.Cache.Tuples.Purge.{purge-Purged}

module _ {W : Type 0} ⦃v : Value W⦄ (limit_of : ℕ → ℕ)
    (oldest : List (Entry ℕ (List (Tuple W))) → ℕ)
    (in_range : (es : List (Entry ℕ (List (Tuple W))))
      → 0 < length es
      → oldest es < length es) where
  insert-IsAccounted :
      (c : TuplesCache W) (block : ℕ) (tuples : List (Tuple W)) (ts : ℤ)
      → IsAccounted c
      → c.used_memory + get_memory_size tuples < u64_mod
      → (let (lru', inserted) = lru_insert ◌==◌ c.lru block tuples ts in
          IsAccounted (record c {
            lru = lru';
            used_memory =
                if inserted
                then (c.used_memory + get_memory_size tuples) % u64_mod
                else c.used_memory;
          }))
  unfolding lru_insert total
  insert-IsAccounted c block tuples ts a fits =
      elim (Option-cases (find_key ◌==◌ c.lru.entries block)) [
        | inl absent ↦
            rw (absent, lru_insert)
              (record {
                used = omega (arith, a.used);
                size = omega (arith, a.size);
                fits = omega arith;
              })
        | inr (old, present) ↦ rw (present, lru_insert) a
      ]

  find-IsAccounted :
      (c : TuplesCache W) (block : ℕ) (ts : ℤ)
      → IsAccounted c
      → IsAccounted (record c { lru = (lru_find ◌==◌ c.lru block ts).0 })
  unfolding lru_find
  find-IsAccounted c block ts a =
      let (sum, size) = total-touch c.lru.entries block ts in
      elim (Option-cases (find_key ◌==◌ c.lru.entries block)) [
        | inl absent ↦
            rw (absent, lru_find) (record { used = a.used; size = a.size; fits = a.fits })
        | inr (old, present) ↦
            rw (present, lru_find)
              (record { used = omega (arith, a.used); size = omega (arith, a.size); fits = a.fits })
      ]

  erase_block-IsAccounted :
      (c : TuplesCache W) (block : ℕ)
      → IsAccounted c
      → IsAccounted (erase_block limit_of oldest c block)
  unfolding erase_block lru_erase_key
  erase_block-IsAccounted c block a = elim (Option-cases (find_key ◌==◌ c.lru.entries block)) [
    | inl absent ↦ rw (absent, lru_erase_key) a
    | inr (old, present) ↦
        let (sum, size) = total-erase_key c.lru.entries block old present in
        rw (present, lru_erase_key)
          (record {
            used = omega (arith, a.used, a.fits);
            size = omega (arith, a.size);
            fits = omega (arith, a.used, a.fits);
          })
  ]

  -- What insert needs: an array that is not empty, and a sum that fits 64 bits.
  abbrev pub Fits : Operation W → TuplesCache W → Type 0
  Fits (insert block tuples ts) c =
      (0 < length tuples) × (c.used_memory + get_memory_size tuples < u64_mod)
  Fits _ c = Unit

  pub record Ran (r : Result (TuplesCache W)) : Type 0 where
    pub cache : TuplesCache W
    pub returns : r ≡ ok cache
    pub accounted : IsAccounted cache

  purged_insert :
      (c : TuplesCache W) (block : ℕ) (tuples : List (Tuple W)) (ts : ℤ)
      → IsAccounted c
      → 0 < length tuples
      → c.used_memory + get_memory_size tuples < u64_mod
      → Ran (insert_tuples limit_of oldest c block tuples ts)
  unfolding insert_tuples
  purged_insert c block tuples ts a nonempty fits =
      elim (Bool-cases
        (leb c.max_used_memory ((c.used_memory + get_memory_size tuples) % u64_mod))) [
          | inl full ↦
              let room = purge-Purged limit_of oldest in_range c a in
              record {
                cache = _;
                returns = rw (lt→ltb 0 (length tuples) nonempty, full, room.returns);
                accounted =
                    insert-IsAccounted room.cache block tuples ts room.accounted
                      (omega (arith, room.less));
              }
          | inr low ↦ record {
            cache = _;
            returns = rw (lt→ltb 0 (length tuples) nonempty, low);
            accounted = insert-IsAccounted c block tuples ts a fits;
          }
        ]

  set_limit-Ran :
      (c : TuplesCache W) (limit : ℕ) → IsAccounted c → Ran (set_limit limit_of oldest c limit)
  unfolding set_limit
  set_limit-Ran c limit a =
      let c' : TuplesCache W = record c { max_used_memory = limit } in
      let a' : IsAccounted c' = record { used = a.used; size = a.size; fits = a.fits } in
      elim (Bool-cases (ltb c.max_used_memory limit)) [
        | inl grows ↦
            let p = purge-Purged limit_of oldest in_range c' a' in
            record { cache = p.cache; returns = rw grows p.returns; accounted = p.accounted }
        | inr shrinks ↦ record { cache = c'; returns = rw shrinks; accounted = a' }
      ]

  -- Every operation of a cache in account that is given room returns and leaves it in account.
  pub run-Ran :
      (op : Operation W) (c : TuplesCache W)
      → IsAccounted c
      → Fits op c
      → Ran (run limit_of oldest op c)
  unfolding run lru_use lru_clear reset_cache_hits reset_cache_misses total
  run-Ran (notify_used block ts) c a room =
      let (sum, size) = total-touch c.lru.entries block ts in
      record {
        cache = _;
        returns = refl;
        accounted = record {
          used = omega (arith, a.used);
          size = omega (arith, a.size);
          fits = a.fits;
        };
      }
  run-Ran (find block ts) c a room = record {
    cache = _;
    returns = refl;
    accounted = find-IsAccounted c block ts a;
  }
  run-Ran (insert block tuples ts) c a room = purged_insert c block tuples ts a room.0 room.1
  run-Ran (erase block) c a room = record {
    cache = _;
    returns = refl;
    accounted = erase_block-IsAccounted c block a;
  }
  run-Ran clear c a room = record {
    cache = _;
    returns = refl;
    accounted = record { used = refl; size = refl; fits = omega arith };
  }
  run-Ran (set_max_used_memory limit) c a room = set_limit-Ran c limit a
  run-Ran (get_cache_hits true) c a room = record {
    cache = _;
    returns = refl;
    accounted = record { used = a.used; size = a.size; fits = a.fits };
  }
  run-Ran (get_cache_hits false) c a room = record { cache = _; returns = refl; accounted = a }
  run-Ran (get_cache_misses true) c a room = record {
    cache = _;
    returns = refl;
    accounted = record { used = a.used; size = a.size; fits = a.fits };
  }
  run-Ran (get_cache_misses false) c a room = record { cache = _; returns = refl; accounted = a }
