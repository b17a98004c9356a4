-- ===== src/Stp/ThreadPool.antt =====
-- stp/RtlThreadPool.hpp: the thread pool. A step is what one thread does between two points at which
-- it waits or calls a task. A task is what `put` and `put_periodic` build: a closure that does not
-- throw, or an empty function.
pub mod Joining
pub mod Steps
pub mod Consistent
mod Drains
mod Admission
mod Draining
mod Examples
use rtl.Base.{
  ℕ, zero, suc, ◌+◌, ◌≡◌, Bool, true, false, not, Option, none, some, List, [], ◌∷◌, ◌++◌,
  get_elem?, set, length, leb, ltb, ◌==◌, if◌then◌else◌, replicate, add64,
}
use mathlib.Core.Option
use rtl.Stp.Container.{deque_ops}
use rtl.Stp.Queue.{
  Queue, opened, Progress, done, waiting, undefined, PutResultErrorCode, TakeResult,
  TakeResultErrorCode, item, closed, put_wait, put_wait_resume, put_wait_for_resume, try_take,
  try_take_resume, close,
}
use rtl.Stp.Queue

pub data PoolState : Type 0 where
  running stopping stopped : PoolState

pub data RejectionPolicy : Type 0 where
  throw_exception block block_for caller_runs : RejectionPolicy

pub record ThreadPoolOptions : Type 0 where
  pub workers_count : ℕ
  pub max_workers : ℕ
  pub max_periodic_tasks : ℕ
  pub max_queue_size : ℕ
  pub rejection_policy : RejectionPolicy

-- The codes of stp/StpExceptions.hpp that the pool throws.
pub data ErrorCode : Type 0 where
  pool_stopped task_rejected queue_full : ErrorCode

-- A thread of `add_thread`: about to ask the queue, asleep in `tryTake`, in a task, or gone.
pub data Worker (T : Type 0) : Type 0 where
  asking sleeping : Worker T
  executing : T → Worker T
  exited broken : Worker T

-- A thread of `add_periodic_thread`: at the top of its loop, in its timed wait, in its task, or gone.
pub data PeriodicWorker (T : Type 0) : Type 0 where
  starting pausing repeating : T → PeriodicWorker T
  left : PeriodicWorker T

pub record ThreadPool (T : Type 0) : Type 0 where
  pub opt : ThreadPoolOptions
  pub state : PoolState
  pub queue : Queue (List T)
  pub active_workers : List (Worker T)
  pub periodic_workers : List (PeriodicWorker T)
  pub periodic_workers_count : ℕ

pub record ThreadPoolStats : Type 0 where
  pub state : PoolState
  pub workers_count : ℕ
  pub max_workers : ℕ
  pub periodic_workers_count : ℕ
  pub max_periodic_tasks : ℕ
  pub queued_tasks : ℕ
  pub max_queue_size : ℕ

-- How a call of `put` ends: with the future of the task, that is queued or has been run by the
-- caller; with an exception; or it sleeps in the queue.
pub data PutOutcome : Type 0 where
  queued ran_by_caller : PutOutcome
  throws : ErrorCode → PutOutcome
  sleeps broken_put : PutOutcome

abbrev pub is_running : PoolState → Bool
is_running running = true
is_running other = false

abbrev pub max : ℕ → ℕ → ℕ
max a b = if ltb a b then b else a

-- The options as `setup_threads` corrects them.
unfoldable pub corrected : ThreadPoolOptions → ThreadPoolOptions
corrected opt =
    let workers = max 1 opt.workers_count in
    record opt {
      workers_count = workers;
      max_workers = max opt.max_workers workers;
      max_periodic_tasks = max 1 opt.max_periodic_tasks;
    }

abbrev pub put_outcome : PutResultErrorCode → PutOutcome
put_outcome PutResultErrorCode.accepted = queued
put_outcome PutResultErrorCode.closed = throws pool_stopped
put_outcome PutResultErrorCode.full = throws queue_full
put_outcome PutResultErrorCode.timeout = throws task_rejected

-- `caller_runs` calls the task where the queue is full.
abbrev pub caller_runs_outcome : PutResultErrorCode → PutOutcome
caller_runs_outcome PutResultErrorCode.full = ran_by_caller
caller_runs_outcome erc = put_outcome erc

module _ {T : Type 0} where
  -- The constructor, where every thread starts.
  unfoldable pub setup_threads : ThreadPoolOptions → ThreadPool T
  unfolding corrected
  setup_threads opt = record {
    opt = corrected opt;
    state = running;
    queue = record { state = opened; max_queue_size = opt.max_queue_size; buffer = [] };
    active_workers = replicate (corrected opt).workers_count asking;
    periodic_workers = [];
    periodic_workers_count = 0;
  }

  abbrev pub answer :
      (PutResultErrorCode → PutOutcome)
      → ThreadPool T
      → Progress PutResultErrorCode × Queue (List T)
      → PutOutcome × ThreadPool T
  answer f p (done erc, q) = (f erc, record p { queue = q })
  answer f p (waiting, q) = (sleeps, record p { queue = q })
  answer f p (undefined, q) = (broken_put, record p { queue = q })

  -- `put` looks at the state of the pool first, and then turns to the queue; other threads may act
  -- between the two.
  unfoldable pub put_check : ThreadPool T → Option ErrorCode
  put_check p = if is_running p.state then none else some pool_stopped

  abbrev pub enqueue_by : RejectionPolicy → ThreadPool T → T → PutOutcome × ThreadPool T
  enqueue_by throw_exception p t = answer put_outcome p (Queue.put (deque_ops T) p.queue t)
  enqueue_by block p t = answer put_outcome p (put_wait (deque_ops T) p.queue t)
  -- Up to its wait `put_wait_for` is `put_wait`.
  enqueue_by block_for p t = answer put_outcome p (put_wait (deque_ops T) p.queue t)
  enqueue_by caller_runs p t = answer caller_runs_outcome p (Queue.put (deque_ops T) p.queue t)

  unfoldable pub put_enqueue : ThreadPool T → T → PutOutcome × ThreadPool T
  put_enqueue p t = enqueue_by p.opt.rejection_policy p t

  -- The wait of a producer that sleeps in the queue returns. The other policies never sleep.
  abbrev pub resume_by : RejectionPolicy → ThreadPool T → T → Bool → PutOutcome × ThreadPool T
  resume_by block_for p t late =
      answer put_outcome p (put_wait_for_resume (deque_ops T) p.queue t late)
  resume_by other p t late = answer put_outcome p (put_wait_resume (deque_ops T) p.queue t)

  unfoldable pub put_resume : ThreadPool T → T → Bool → PutOutcome × ThreadPool T
  put_resume p t late = resume_by p.opt.rejection_policy p t late

  module _ (callable : T → Bool) where
    abbrev pub call : Option T → Worker T
    call none = asking
    call (some t) = if callable t then executing t else asking

    abbrev pub after_take : Progress (TakeResult T) → Worker T
    after_take waiting = sleeping
    after_take undefined = broken
    after_take (done r) = elim r.erc [
      | TakeResultErrorCode.closed ↦ exited
      | TakeResultErrorCode.timeout ↦ asking
      | TakeResultErrorCode.item ↦ call r.result
    ]

    abbrev pub taken : Progress (TakeResult T) × Queue (List T) → Worker T × Queue (List T)
    taken (r, q) = (after_take r, q)

    -- The loop of `add_thread`, to its next wait, call or end.
    unfoldable pub worker_step : Worker T → Bool → Queue (List T) → Worker T × Queue (List T)
    worker_step asking late q = taken (try_take (deque_ops T) q)
    worker_step sleeping late q = taken (try_take_resume (deque_ops T) q late)
    worker_step (executing t) late q = (asking, q)
    worker_step exited late q = (exited, q)
    worker_step broken late q = (broken, q)

    -- The loop of `add_periodic_thread`, likewise; its wait returns at its time or on `stopping`.
    unfoldable pub periodic_step : PoolState → PeriodicWorker T → PeriodicWorker T
    periodic_step s (starting t) = if is_running s then pausing t else left
    periodic_step s (pausing t) =
        if is_running s then if callable t then repeating t else left else left
    periodic_step s (repeating t) = starting t
    periodic_step s left = left

    unfoldable pub add_periodic_thread : ThreadPool T → ℕ → T → Bool × ThreadPool T
    add_periodic_thread p interval t =
        if leb p.opt.max_periodic_tasks p.periodic_workers_count
        then (false, p)
        else if not (callable t)
        then (false, p)
        else if interval == 0
        then (false, p)
        else (
          true,
          record p {
            periodic_workers = p.periodic_workers ++ starting t ∷ [];
            periodic_workers_count = add64 p.periodic_workers_count 1;
          },
        )

    abbrev pub or_rejected : Bool × ThreadPool T → Option ErrorCode × ThreadPool T
    or_rejected (true, p) = (none, p)
    or_rejected (false, p) = (some task_rejected, p)

    unfoldable pub put_periodic : ThreadPool T → ℕ → T → Option ErrorCode × ThreadPool T
    unfolding add_periodic_thread
    put_periodic p interval t =
        if is_running p.state
        then or_rejected (add_periodic_thread p interval t)
        else (some pool_stopped, p)

  unfoldable pub shutdown_graceful : ThreadPool T → ThreadPool T
  shutdown_graceful p =
      if is_running p.state
      then record p { state = stopping; queue = close (deque_ops T) p.queue }
      else p
