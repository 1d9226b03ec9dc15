-- ===== src/Pool/Counts.antt =====
-- What the counters of src/common/thread_pool.cpp count, whatever the threads' steps.
use stats_rrdb.Prelude.{ℕ, ◌+◌, ◌≡◌, arith}
use stats_rrdb.Pool.{
  Pool, new_pool, count_thread, count_job, post_task, take_task, count_thread_back, count_finished,
  PoolStep, enters, counts, posts, takes, returns, finishes, Reachable, created, stepped,
}

-- A used thread is a job that has been counted in and not back, a started job one that is on its way,
-- and no thread is lost.
pub record IsCounted (size : ℕ) (p : Pool) : Type 0 where
  pub used : p.used_threads ≡ p.counting + p.posting + p.queued + p.running
  pub started : p.started_jobs ≡ p.finished_jobs + p.posting + p.queued + p.running + p.leaving
  pub threads : p.idle + p.running + p.leaving ≡ p.pool_size
  pub same_size : p.pool_size ≡ size

new_pool-IsCounted : (size : ℕ) → IsCounted size (new_pool size)
unfolding new_pool
new_pool-IsCounted size = omega arith

step-IsCounted : {size : ℕ} {p q : Pool} → PoolStep p q → IsCounted size p → IsCounted size q
unfolding count_thread count_job post_task take_task count_thread_back count_finished
step-IsCounted (enters p) c = record {
  used = omega (arith, c.used);
  started = c.started;
  threads = c.threads;
  same_size = c.same_size;
}
step-IsCounted (counts p h) c = record {
  used = omega (arith, c.used);
  started = omega (arith, c.started);
  threads = c.threads;
  same_size = c.same_size;
}
step-IsCounted (posts p h) c = record {
  used = omega (arith, c.used);
  started = omega (arith, c.started);
  threads = c.threads;
  same_size = c.same_size;
}
step-IsCounted (takes p h k) c = record {
  used = omega (arith, c.used);
  started = omega (arith, c.started);
  threads = omega (arith, c.threads);
  same_size = c.same_size;
}
step-IsCounted (returns p h) c = record {
  used = omega (arith, c.used);
  started = omega (arith, c.started);
  threads = omega (arith, c.threads);
  same_size = c.same_size;
}
step-IsCounted (finishes p h) c = record {
  used = c.used;
  started = omega (arith, c.started);
  threads = omega (arith, c.threads);
  same_size = c.same_size;
}

-- After any steps of any threads from a new pool: the used threads are the jobs between their two
-- counts, so that the subtraction does not wrap; the started jobs are the finished ones and those
-- between; and the threads of the pool are those that are idle or have taken a task.
pub Reachable-IsCounted : {size : ℕ} {p : Pool} → Reachable size p → IsCounted size p
Reachable-IsCounted {size} created = new_pool-IsCounted size
Reachable-IsCounted (stepped r s) = step-IsCounted s (Reachable-IsCounted r)
