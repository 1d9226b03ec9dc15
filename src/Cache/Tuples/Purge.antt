-- ===== src/Cache/Tuples/Purge.antt =====
-- rrdb_metric_tuples_cache::purge of src/rrdb/rrdb_metric_tuples_cache.cpp ends and keeps the account.
use stats_rrdb.Prelude.{
  ℕ, zero, suc, ◌+◌, ◌-◌, ◌<◌, ◌≤◌, ◌≡◌, refl, ◌⊎◌, inl, inr, true, false, Bool-cases, none, some,
  List, [], ◌∷◌, length, leb, arith,
}
use stats_rrdb.Prelude.Result.{Result, ok}
use stats_rrdb.Value.{Value}
use stats_rrdb.Tuple.{Tuple, get_memory_size}
use stats_rrdb.Cache.{Entry, Lru, nth, remove_at, lru_erase}
use stats_rrdb.Cache.Tuples.{TuplesCache, victim, purge_loop, purge}
use stats_rrdb.Cache.Tuples.Account.{total, IsAccounted, total-remove_at}

pub below_limit : (a b : ℕ) → leb a b ≡ false → b < a
below_limit a b h = ground arith

within : (a b : ℕ) → a ≤ b → leb a b ≡ true
within a b h = ground arith

lru_erase-eq :
    {K V : Type 0} (c : Lru K V) (i : ℕ) (e : Entry K V)
    → nth c.entries i ≡ some e
    → lru_erase c i ≡ record c { entries = remove_at c.entries i; size = c.size - 1 }
unfolding lru_erase
lru_erase-eq c i e at = rw (lru_erase, at)

pub none_or_some : (n : ℕ) → (n ≡ 0) ⊎ (0 < n)
none_or_some zero = inl refl
none_or_some (suc n) = inr (omega arith)

pub nth-none : {A : Type 0} (xs : List A) (i : ℕ) → length xs ≡ 0 → nth xs i ≡ none
nth-none [] i h = refl
nth-none (x ∷ xs) i h = absurd (omega arith)

module _ {W : Type 0} ⦃v : Value W⦄ (limit_of : ℕ → ℕ)
    (oldest : List (Entry ℕ (List (Tuple W))) → ℕ)
    (in_range : (es : List (Entry ℕ (List (Tuple W))))
      → 0 < length es
      → oldest es < length es) where
  -- What a purge leaves.
  pub record Purged (c : TuplesCache W) (limit : ℕ) (r : Result (TuplesCache W)) : Type 0 where
    pub cache : TuplesCache W
    pub returns : r ≡ ok cache
    pub accounted : IsAccounted cache
    pub same_max : cache.max_used_memory ≡ c.max_used_memory
    pub less : cache.used_memory ≤ c.used_memory
    pub below : (cache.used_memory < limit) ⊎ (length cache.lru.entries ≡ 0)

  kept_Purged :
      (c : TuplesCache W) (limit : ℕ) {r : Result (TuplesCache W)}
      → IsAccounted c
      → (c.used_memory < limit) ⊎ (length c.lru.entries ≡ 0)
      → r ≡ ok c
      → Purged c limit r
  kept_Purged c limit a below e = record {
    cache = c;
    returns = e;
    accounted = a;
    same_max = refl;
    less = omega arith;
    below = below;
  }

  -- The loop ends, or takes an entry that is in the account.
  data Turn (c : TuplesCache W) (limit : ℕ) : Type 0 where
    ends :
        victim limit_of oldest c limit ≡ none
        → (c.used_memory < limit) ⊎ (length c.lru.entries ≡ 0)
        → Turn c limit
    takes :
        (e : Entry ℕ (List (Tuple W)))
        → victim limit_of oldest c limit ≡ some e
        → nth c.lru.entries (oldest c.lru.entries) ≡ some e
        → total c.lru.entries
          ≡ get_memory_size e.value + total (remove_at c.lru.entries (oldest c.lru.entries))
        → length c.lru.entries ≡ suc (length (remove_at c.lru.entries (oldest c.lru.entries)))
        → Turn c limit

  turn : (c : TuplesCache W) (limit : ℕ) → Turn c limit
  turn c limit = elim (Bool-cases (leb limit c.used_memory)) [
    | inr low ↦ ends (rw low) (inl (below_limit limit c.used_memory low))
    | inl high ↦ elim (none_or_some (length c.lru.entries)) [
      | inl empty ↦
          ends (rw (high, nth-none c.lru.entries (oldest c.lru.entries) empty)) (inr empty)
      | inr some_left ↦
          let (e, at, sum, size) =
            total-remove_at c.lru.entries (oldest c.lru.entries)
              (in_range c.lru.entries some_left) in
          takes e (rw high at) at sum size
    ]
  ]

  purge_loop-Purged :
      (f : ℕ) (c : TuplesCache W) (limit : ℕ)
      → IsAccounted c
      → length c.lru.entries ≤ f
      → Purged c limit (purge_loop limit_of oldest f c limit)
  unfolding purge_loop lru_erase
  purge_loop-Purged zero c limit a enough = elim (turn c limit) [
    | ends over below ↦ kept_Purged c limit a below (rw (over, purge_loop))
    | takes e taken at sum size ↦ absurd (omega arith)
  ]
  purge_loop-Purged (suc f) c limit a enough = elim (turn c limit) [
    | ends over below ↦ kept_Purged c limit a below (rw (over, purge_loop))
    | takes e taken at sum size ↦
        let c' : TuplesCache W = record c {
          used_memory = c.used_memory - get_memory_size e.value;
          lru = record c.lru {
            entries = remove_at c.lru.entries (oldest c.lru.entries);
            size = c.lru.size - 1;
          };
        } in
        let rest =
          purge_loop-Purged f c' limit
            (record {
              used = omega (arith, a.used);
              size = omega (arith, a.size);
              fits = omega (arith, a.fits);
            })
            (omega arith) in
        record {
          cache = rest.cache;
          returns =
              rw
                (
                  taken,
                  purge_loop,
                  lru_erase-eq c.lru (oldest c.lru.entries) e at,
                  within (get_memory_size e.value) c.used_memory (omega (arith, a.used)),
                )
                rest.returns;
          accounted = rest.accounted;
          same_max = rest.same_max;
          less = omega (arith, rest.less);
          below = rest.below;
        }
  ]

  -- A purge of a cache in account returns: the account stays right, no memory is added, and what is
  -- used is below the threshold or the cache is empty.
  pub purge-Purged :
      (c : TuplesCache W)
      → IsAccounted c
      → Purged c (limit_of c.max_used_memory) (purge limit_of oldest c)
  unfolding purge
  purge-Purged c a =
      purge_loop-Purged (length c.lru.entries) c (limit_of c.max_used_memory) a (omega arith)
