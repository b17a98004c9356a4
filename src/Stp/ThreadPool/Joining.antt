-- ===== src/Stp/ThreadPool/Joining.antt =====
-- stp/RtlThreadPool.hpp: `join` and `stats`.
use rtl.Base.{
  ℕ, zero, suc, Bool, true, false, Option, none, some, List, [], ◌∷◌, length, if◌then◌else◌,
}
use rtl.Stp.ThreadPool.{
  PoolState, stopped, Worker, exited, PeriodicWorker, left, ThreadPool, ThreadPoolStats,
  shutdown_graceful,
}

-- The thread that calls `join`: one of the pool's, by its index, or another.
pub data Caller : Type 0 where
  outside : Caller
  from_worker from_periodic : ℕ → Caller

pub data JoinOutcome : Type 0 where
  joined blocks terminates : JoinOutcome

abbrev pub worker_index : Caller → Option ℕ
worker_index (from_worker i) = some i
worker_index other = none

abbrev pub periodic_index : Caller → Option ℕ
periodic_index (from_periodic i) = some i
periodic_index other = none

-- One loop of `blocking_thread_stopping`: it joins the threads in their order, unless it meets
-- the caller.
unfoldable pub join_threads {ℓ} : {W : Type ℓ} → (W → Bool) → Option ℕ → List W → JoinOutcome
join_threads gone caller [] = joined
join_threads gone none (w ∷ ws) = if gone w then join_threads gone none ws else blocks
join_threads gone (some zero) (w ∷ ws) = terminates
join_threads gone (some (suc i)) (w ∷ ws) = if gone w then join_threads gone (some i) ws else blocks

abbrev pub is_stopped : PoolState → Bool
is_stopped stopped = true
is_stopped other = false

module _ {T : Type 0} where
  abbrev pub is_exited : Worker T → Bool
  is_exited exited = true
  is_exited other = false

  abbrev pub is_left : PeriodicWorker T → Bool
  is_left left = true
  is_left other = false

  unfoldable pub blocking_thread_stopping : ThreadPool T → Caller → JoinOutcome × ThreadPool T
  unfolding join_threads
  blocking_thread_stopping p caller =
      elim (join_threads is_left (periodic_index caller) p.periodic_workers) [
        | blocks ↦ (blocks, p)
        | terminates ↦ (terminates, p)
        | joined ↦ elim (join_threads is_exited (worker_index caller) p.active_workers) [
          | blocks ↦ (blocks, p)
          | terminates ↦ (terminates, p)
          | joined ↦ (joined, record p { state = stopped })
        ]
      ]

  -- `join`, from its call or while it waits for a thread.
  unfoldable pub join : ThreadPool T → Caller → JoinOutcome × ThreadPool T
  unfolding shutdown_graceful blocking_thread_stopping
  join p caller =
      let q = shutdown_graceful p in
      if is_stopped q.state then (joined, q) else blocking_thread_stopping q caller

  unfoldable pub stats : ThreadPool T → ThreadPoolStats
  stats p = record {
    state = p.state;
    workers_count = p.opt.workers_count;
    max_workers = p.opt.max_workers;
    periodic_workers_count = p.periodic_workers_count;
    max_periodic_tasks = p.opt.max_periodic_tasks;
    queued_tasks = length p.queue.buffer;
    max_queue_size = p.opt.max_queue_size;
  }
