-- ===== src/Status.antt =====
-- update_status of src/rrdb/rrdb.cpp, src/server/server_tcp.cpp, src/server/server_udp.cpp and
-- src/server/server.cpp: the program's own metrics. Each value is read when its turn comes; an update
-- that throws ends the rest. What the updates themselves do to the caches is not modelled.
pub mod Reported
use Prim.Native.String.{String}
use stats_rrdb.Prelude.{ℕ, ◌/◌, List, [], ◌∷◌, ◌++◌}
use stats_rrdb.Prelude.Int.{ℤ, pos, pos_part, neg_part, sub_ℕ, ◌-ℤ◌}
use stats_rrdb.Prelude.Result.{Result, ok, err}
use stats_rrdb.Value.{Value}
use stats_rrdb.Bytes.{Bytes}
use stats_rrdb.Text.{codes}
use stats_rrdb.Interval.{interval_day}
use stats_rrdb.Rrdb.{Rrdb, get_metrics_num, update_metric}
use stats_rrdb.Execute.{Outside}
use stats_rrdb.Cache.{reset_cache_hits, reset_cache_misses}
use stats_rrdb.Cache.Tuples.{TuplesCache}
use stats_rrdb.Cache.Files.{FilesCache}
use stats_rrdb.Pool.{Pool}

-- What the values are read from; H is a stream.
pub record Sources (H W : Type 0) : Type 0 where
  pub files : FilesCache H
  pub tuples : TuplesCache W
  pub udp : Pool
  pub tcp : Pool
  pub start_time : ℤ

-- A metric, and how its value is read.
pub record Item (H W : Type 0) : Type 0 where
  pub name : String
  pub get : Rrdb W → Sources H W → Sources H W × W

abbrev count : {W : Type 0} → ⦃v : Value W⦄ → ℕ → W
count ⦃v⦄ n = v.of_int (pos n)

-- The division of integers goes towards zero.
abbrev pub days_of : ℤ → ℤ
days_of secs = sub_ℕ (pos_part secs / interval_day) (neg_part secs / interval_day)

module _ {H W : Type 0} ⦃v : Value W⦄ where
  abbrev pub reading : (Rrdb W → Sources H W → W) → Rrdb W → Sources H W → Sources H W × W
  reading f db s = (s, f db s)

  -- get_cache_hits(true) and get_cache_misses(true)
  pub take_file_hits : Rrdb W → Sources H W → Sources H W × W
  take_file_hits db s = (
    record s { files = record s.files { lru = reset_cache_hits s.files.lru } },
    count s.files.lru.hits,
  )

  pub take_file_misses : Rrdb W → Sources H W → Sources H W × W
  take_file_misses db s = (
    record s { files = record s.files { lru = reset_cache_misses s.files.lru } },
    count s.files.lru.misses,
  )

  pub take_block_hits : Rrdb W → Sources H W → Sources H W × W
  take_block_hits db s = (
    record s { tuples = record s.tuples { lru = reset_cache_hits s.tuples.lru } },
    count s.tuples.lru.hits,
  )

  pub take_block_misses : Rrdb W → Sources H W → Sources H W × W
  take_block_misses db s = (
    record s { tuples = record s.tuples { lru = reset_cache_misses s.tuples.lru } },
    count s.tuples.lru.misses,
  )

  -- rrdb::update_status
  abbrev pub rrdb_items : List (Item H W)
  rrdb_items =
      record { name = "self.file_cache.max_size"; get = reading (λ db s. count s.files.max_size) }
      ∷ record { name = "self.file_cache.size"; get = reading (λ db s. count s.files.lru.size) }
      ∷ record { name = "self.file_cache.hits"; get = take_file_hits }
      ∷ record { name = "self.file_cache.misses"; get = take_file_misses }
      ∷ record {
        name = "self.blocks_cache.max_used_memory";
        get = reading (λ db s. count s.tuples.max_used_memory);
      }
      ∷ record {
        name = "self.blocks_cache.used_memory";
        get = reading (λ db s. count s.tuples.used_memory);
      }
      ∷ record { name = "self.blocks_cache.size"; get = reading (λ db s. count s.tuples.lru.size) }
      ∷ record { name = "self.blocks_cache.hits"; get = take_block_hits }
      ∷ record { name = "self.blocks_cache.misses"; get = take_block_misses }
      ∷ record { name = "self.metrics.count"; get = reading (λ db s. count (get_metrics_num db)) }
      ∷ []

  -- server_udp::update_status; get_load_factor is `_used_threads / (double)_pool_size`.
  abbrev pub udp_items : List (Item H W)
  udp_items =
      record {
        name = "self.udp.load_factor";
        get = reading (λ db s. v.div (count s.udp.used_threads) (count s.udp.pool_size));
      }
      ∷ record {
        name = "self.udp.started_requests";
        get = reading (λ db s. count s.udp.started_jobs);
      }
      ∷ record {
        name = "self.udp.finished_requests";
        get = reading (λ db s. count s.udp.finished_jobs);
      }
      ∷ []

  -- server_tcp::update_status
  abbrev pub tcp_items : List (Item H W)
  tcp_items =
      record {
        name = "self.tcp.load_factor";
        get = reading (λ db s. v.div (count s.tcp.used_threads) (count s.tcp.pool_size));
      }
      ∷ record {
        name = "self.tcp.started_requests";
        get = reading (λ db s. count s.tcp.started_jobs);
      }
      ∷ record {
        name = "self.tcp.finished_requests";
        get = reading (λ db s. count s.tcp.finished_jobs);
      }
      ∷ []

  abbrev pub uptime_items : ℤ → List (Item H W)
  uptime_items now =
      record { name = "self.uptime.secs"; get = reading (λ db s. v.of_int (now -ℤ s.start_time)) }
      ∷ record {
        name = "self.uptime.days";
        get = reading (λ db s. v.of_int (days_of (now -ℤ s.start_time)));
      }
      ∷ []

module _ {H W : Type 0} ⦃v : Value W⦄ ⦃b : Bytes W⦄ (x : Outside W) where
  pub report : List (Item H W) → ℤ → Sources H W → Rrdb W → Sources H W × Rrdb W × Result (Unit {0})
  report [] now s db = (s, db, ok tt)
  report (i ∷ is) now s db =
      let (s', value) = i.get db s in
      let (db', r) =
        update_metric x.trim x.to_lower x.check_name x.to_filename x.store x.one x.two db
          (codes i.name) now value in
      elim r [ err e ↦ (s', db', err e) | ok done ↦ report is now s' db' ]

  -- server::update_status
  pub update_status : ℤ → Sources H W → Rrdb W → Sources H W × Rrdb W × Result (Unit {0})
  unfolding report
  update_status now s db =
      report (udp_items ++ (tcp_items ++ (rrdb_items ++ uptime_items now))) now s db
