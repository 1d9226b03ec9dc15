-- ===== src/Pool.antt =====
-- thread_pool of src/common/thread_pool.h and src/common/thread_pool.cpp. What a thread does at once is
-- one atomic operation: a caller of `run` counts a used thread, counts a started job and posts the
-- task; a thread of the pool takes a posted task, runs it, counts the used thread back and counts a
-- finished job. The steps of all threads come in any order. The counters do not overflow.
pub mod Counts
use stats_rrdb.Prelude.{ℕ, suc, ◌-◌, ◌≡◌}

pub record Pool : Type 0 where
  -- `_pool_size`, `_used_threads`, `_started_jobs`, `_finished_jobs`
  pub pool_size : ℕ
  pub used_threads : ℕ
  pub started_jobs : ℕ
  pub finished_jobs : ℕ
  -- Callers that have counted the thread and not the job, and callers that have not posted the task.
  pub counting : ℕ
  pub posting : ℕ
  -- The tasks in the queue of `_io_service`.
  pub queued : ℕ
  -- Threads of the pool: idle, in a task, and behind the first of the two counts.
  pub idle : ℕ
  pub running : ℕ
  pub leaving : ℕ

-- thread_pool::thread_pool
unfoldable pub new_pool : ℕ → Pool
new_pool size = record {
  pool_size = size;
  used_threads = 0;
  started_jobs = 0;
  finished_jobs = 0;
  counting = 0;
  posting = 0;
  queued = 0;
  idle = size;
  running = 0;
  leaving = 0;
}

-- run: `_used_threads.fetch_add(1)`
unfoldable pub count_thread : Pool → Pool
count_thread p = record p { used_threads = suc p.used_threads; counting = suc p.counting }

-- `_started_jobs.fetch_add(1)`
unfoldable pub count_job : Pool → Pool
count_job p = record p {
  started_jobs = suc p.started_jobs;
  counting = p.counting - 1;
  posting = suc p.posting;
}

-- `_io_service.post(...)`
unfoldable pub post_task : Pool → Pool
post_task p = record p { posting = p.posting - 1; queued = suc p.queued }

-- A thread of the pool takes a task.
unfoldable pub take_task : Pool → Pool
take_task p = record p { queued = p.queued - 1; idle = p.idle - 1; running = suc p.running }

-- wrap_task_run, once the task has returned or thrown: `_used_threads.fetch_sub(1)`
unfoldable pub count_thread_back : Pool → Pool
count_thread_back p = record p {
  used_threads = p.used_threads - 1;
  running = p.running - 1;
  leaving = suc p.leaving;
}

-- `_finished_jobs.fetch_add(1)`
unfoldable pub count_finished : Pool → Pool
count_finished p = record p {
  finished_jobs = suc p.finished_jobs;
  leaving = p.leaving - 1;
  idle = suc p.idle;
}

pub data PoolStep : Pool → Pool → Type 0 where
  enters : (p : Pool) → PoolStep p (count_thread p)
  counts : {n : ℕ} (p : Pool) → p.counting ≡ suc n → PoolStep p (count_job p)
  posts : {n : ℕ} (p : Pool) → p.posting ≡ suc n → PoolStep p (post_task p)
  takes : {n k : ℕ} (p : Pool) → p.queued ≡ suc n → p.idle ≡ suc k → PoolStep p (take_task p)
  returns : {n : ℕ} (p : Pool) → p.running ≡ suc n → PoolStep p (count_thread_back p)
  finishes : {n : ℕ} (p : Pool) → p.leaving ≡ suc n → PoolStep p (count_finished p)

pub data Reachable (size : ℕ) : Pool → Type 0 where
  created : Reachable size (new_pool size)
  stepped : {p q : Pool} → Reachable size p → PoolStep p q → Reachable size q
