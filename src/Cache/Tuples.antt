-- ===== src/Cache/Tuples.antt =====
-- src/rrdb/rrdb_metric_tuples_cache.cpp: the cache of the blocks' arrays with its account of the
-- memory in use. A block is named by its address. `limit_of` is the product of the limit with the
-- purge threshold, a double, converted back; `oldest` is the index by time.
pub mod Account
pub mod Purge
pub mod Run
use stats_rrdb.Prelude.{
  ℕ, zero, suc, ◌+◌, ◌-◌, ◌%◌, ◌^◌, Bool, true, false, Option, none, some, List, [], ◌∷◌, length,
  ltb, leb, ◌==◌, if◌then◌else◌,
}
use stats_rrdb.Prelude.Int.{ℤ}
use stats_rrdb.Prelude.Result.{Result, ok, err, fuel, check, ◌>>=◌, ◌>>◌, require}
use stats_rrdb.Value.{Value}
use stats_rrdb.Tuple.{Tuple, get_memory_size}
use stats_rrdb.Cache.{
  Entry, Lru, nth, lru_insert, lru_find, lru_use, lru_erase_key, lru_erase, lru_clear,
  reset_cache_hits, reset_cache_misses,
}

abbrev pub u64_mod : ℕ
u64_mod = 2 ^ 64

pub record TuplesCache (W : Type 0) : Type 0 where
  pub lru : Lru ℕ (List (Tuple W))
  pub max_used_memory : ℕ
  pub used_memory : ℕ

-- The operations that clients call; a `get_` only reads, but for the counters that it resets.
pub data Operation (W : Type 0) : Type 0 where
  notify_used : ℕ → ℤ → Operation W
  find : ℕ → ℤ → Operation W
  insert : ℕ → List (Tuple W) → ℤ → Operation W
  erase : ℕ → Operation W
  clear : Operation W
  set_max_used_memory : ℕ → Operation W
  get_cache_hits : Bool → Operation W
  get_cache_misses : Bool → Operation W

module _ {W : Type 0} ⦃v : Value W⦄ (limit_of : ℕ → ℕ)
    (oldest : List (Entry ℕ (List (Tuple W))) → ℕ) where
  -- The condition of the while loop, with the entry that its body takes.
  abbrev pub victim : TuplesCache W → ℕ → Option (Entry ℕ (List (Tuple W)))
  victim c limit =
      if leb limit c.used_memory then nth c.lru.entries (oldest c.lru.entries) else none

  -- Every round erases an entry, so that there are at most as many rounds as entries.
  pub purge_loop : ℕ → TuplesCache W → ℕ → Result (TuplesCache W)
  purge_loop zero c limit = elim (victim c limit) [ none ↦ ok c | some e ↦ err fuel ]
  purge_loop (suc f) c limit = elim (victim c limit) [
    | none ↦ ok c
    | some e ↦ do
      let size = get_memory_size e.value
      require (leb size c.used_memory)
      purge_loop f
          (record c {
            used_memory = c.used_memory - size;
            lru = lru_erase c.lru (oldest c.lru.entries);
          })
          limit
  ]

  pub purge : TuplesCache W → Result (TuplesCache W)
  unfolding purge_loop
  purge c = purge_loop (length c.lru.entries) c (limit_of c.max_used_memory)

  -- The null pointer and the empty array are refused.
  pub insert_tuples : TuplesCache W → ℕ → List (Tuple W) → ℤ → Result (TuplesCache W)
  unfolding purge
  insert_tuples c block tuples ts = do
    require (ltb 0 (length tuples))
    let size = get_memory_size tuples
    c' ← if leb c.max_used_memory ((c.used_memory + size) % u64_mod) then purge c else ok c
    let (lru', inserted) = lru_insert ◌==◌ c'.lru block tuples ts
    ok (record c' {
      lru = lru';
      used_memory = if inserted then (c'.used_memory + size) % u64_mod else c'.used_memory;
    })

  pub erase_block : TuplesCache W → ℕ → TuplesCache W
  erase_block c block =
      let (lru', found) = lru_erase_key ◌==◌ c.lru block in
      record c {
        lru = lru';
        used_memory = elim found [
          | none ↦ c.used_memory
          | some tuples ↦ (c.used_memory + u64_mod - get_memory_size tuples) % u64_mod
        ];
      }

  -- "if(_max_used_memory < max_used_memory)"
  pub set_limit : TuplesCache W → ℕ → Result (TuplesCache W)
  unfolding purge
  set_limit c limit =
      if ltb c.max_used_memory limit
      then purge (record c { max_used_memory = limit })
      else ok (record c { max_used_memory = limit })

  pub run : Operation W → TuplesCache W → Result (TuplesCache W)
  unfolding insert_tuples erase_block set_limit
  run (notify_used block ts) c = ok (record c { lru = lru_use ◌==◌ c.lru block ts })
  run (find block ts) c = ok (record c { lru = (lru_find ◌==◌ c.lru block ts).0 })
  run (insert block tuples ts) c = insert_tuples c block tuples ts
  run (erase block) c = ok (erase_block c block)
  run clear c = ok (record c { lru = lru_clear; used_memory = 0 })
  run (set_max_used_memory limit) c = set_limit c limit
  run (get_cache_hits reset) c = ok (if reset then record c { lru = reset_cache_hits c.lru } else c)
  run (get_cache_misses reset) c =
      ok (if reset then record c { lru = reset_cache_misses c.lru } else c)
