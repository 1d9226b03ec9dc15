-- ===== src/Cache.antt =====
-- src/common/lru_cache.h. The container is a Boost.MultiIndex with an index by key and one by time:
-- a list of its entries, and a parameter `oldest` for the position of the entry that the index by
-- time begins with. A null result `V()` is `none`.
pub mod Tuples
pub mod Files
use stats_rrdb.Prelude.{
  ℕ, zero, suc, ◌+◌, ◌-◌, Bool, true, false, Option, none, some, List, [], ◌∷◌, length,
  if◌then◌else◌,
}
use stats_rrdb.Prelude.Int.{ℤ}

-- lru_cache::value_type
pub record Entry (K V : Type 0) : Type 0 where
  pub key : K
  pub value : V
  pub time : ℤ

pub record Lru (K V : Type 0) : Type 0 where
  pub entries : List (Entry K V)
  pub size : ℕ
  pub hits : ℕ
  pub misses : ℕ

abbrev pub remove_at : {A : Type 0} → List A → ℕ → List A
remove_at [] i = []
remove_at (x ∷ xs) zero = xs
remove_at (x ∷ xs) (suc i) = x ∷ remove_at xs i

abbrev pub nth : {A : Type 0} → List A → ℕ → Option A
nth [] i = none
nth (x ∷ xs) zero = some x
nth (x ∷ xs) (suc i) = nth xs i

module _ {K V : Type 0} (same : K → K → Bool) where
  -- key_index.find
  abbrev pub find_key : List (Entry K V) → K → Option V
  find_key [] k = none
  find_key (e ∷ es) k = if same e.key k then some e.value else find_key es k

  -- key_index.modify(it, change_time_type(t)), where there is such an entry
  abbrev pub touch : List (Entry K V) → K → ℤ → List (Entry K V)
  touch [] k t = []
  touch (e ∷ es) k t = if same e.key k then record e { time = t } ∷ es else e ∷ touch es k t

  -- key_index.erase(it)
  abbrev pub erase_key : List (Entry K V) → K → List (Entry K V)
  erase_key [] k = []
  erase_key (e ∷ es) k = if same e.key k then es else e ∷ erase_key es k

  unfoldable pub lru_insert : Lru K V → K → V → ℤ → Lru K V × Bool
  lru_insert c k v t = elim (find_key c.entries k) [
    | some w ↦ (c, false)
    | none ↦ (
      record c { entries = record { key = k; value = v; time = t } ∷ c.entries; size = suc c.size },
      true,
    )
  ]

  unfoldable pub lru_find : Lru K V → K → ℤ → Lru K V × Option V
  lru_find c k t = elim (find_key c.entries k) [
    | some v ↦ (record c { entries = touch c.entries k t; hits = suc c.hits }, some v)
    | none ↦ (record c { misses = suc c.misses }, none)
  ]

  unfoldable pub lru_use : Lru K V → K → ℤ → Lru K V
  lru_use c k t = record c { entries = touch c.entries k t }

  unfoldable pub lru_erase_key : Lru K V → K → Lru K V × Option V
  lru_erase_key c k = elim (find_key c.entries k) [
    | some v ↦ (record c { entries = erase_key c.entries k; size = c.size - 1 }, some v)
    | none ↦ (c, none)
  ]

module _ {K V : Type 0} where
  -- lru_erase(it) for the iterator at position i
  unfoldable pub lru_erase : Lru K V → ℕ → Lru K V
  lru_erase c i = elim (nth c.entries i) [
    | some e ↦ record c { entries = remove_at c.entries i; size = c.size - 1 }
    | none ↦ c
  ]

  unfoldable pub lru_clear : Lru K V
  lru_clear = record { entries = []; size = 0; hits = 0; misses = 0 }

  unfoldable pub reset_cache_hits : Lru K V → Lru K V
  reset_cache_hits c = record c { hits = 0 }

  unfoldable pub reset_cache_misses : Lru K V → Lru K V
  reset_cache_misses c = record c { misses = 0 }
