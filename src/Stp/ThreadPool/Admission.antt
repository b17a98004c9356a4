-- ===== src/Stp/ThreadPool/Admission.antt =====
-- What the thread pool of stp/RtlThreadPool.hpp answers: after a shutdown, with a full queue, and to
-- a thread of its own that joins it.
use rtl.Base.{
  ℕ, zero, suc, ◌<◌, ◌≡◌, ◌≢◌, refl, ◌∙◌, inl, inr, Bool, true, false, some, List, [], ◌∷◌, length,
  arith, Bool-cases,
}
use rtl.Stp.Container.{deque_ops}
use rtl.Stp.Queue.{opened, closing, is_full, put, put_wait, put_wait_resume, put_wait_for_resume}
use rtl.Stp.ThreadPool.{
  PoolState, running, stopping, stopped, is_running, ThreadPool, ThreadPoolOptions, pool_stopped,
  task_rejected, queue_full, PutOutcome, queued, ran_by_caller, throws, sleeps, RejectionPolicy,
  throw_exception, block, block_for, caller_runs, put_check, put_enqueue, put_resume, put_periodic,
  setup_threads, shutdown_graceful,
}
use rtl.Stp.ThreadPool.Joining.{
  from_worker, join, is_exited, blocking_thread_stopping, join_threads, joined,
}
use rtl.Stp.ThreadPool.Steps.{PoolEvent, run}
use rtl.Stp.ThreadPool.Consistent.{IsConsistent, state_of}
use rtl.Stp.ThreadPool.Drains.{run-IsConsistent, setup_threads-IsConsistent}

-- What a call gets, at each of the points at which the pool may have been shut down in the meantime.
pub record Refuses {T : Type 0} (callable : T → Bool) (p : ThreadPool T) (t : T) : Type 0 where
  -- At the call.
  pub at_check : put_check p ≡ some pool_stopped
  -- After the check.
  pub at_queue : put_enqueue p t ≡ (throws pool_stopped, p)
  -- In the wait for room.
  pub in_wait : (late : Bool) → put_resume p t late ≡ (throws pool_stopped, p)
  pub at_periodic : (interval : ℕ) → put_periodic callable p interval t ≡ (some pool_stopped, p)

module _ {T : Type 0} (callable : T → Bool) where
  closed_queue : (p : ThreadPool T) → IsConsistent p → p.state ≢ running → p.queue.state ≡ closing
  closed_queue p c h = c.in_step ∙ not_opened p.state h
    where
      not_opened : (s : PoolState) → s ≢ running → state_of s ≡ closing
      not_opened running h = absurd (h refl)
      not_opened stopping h = refl
      not_opened stopped h = refl

  not_running : (s : PoolState) → s ≢ running → is_running s ≡ false
  not_running running h = absurd (h refl)
  not_running stopping h = refl
  not_running stopped h = refl

  closed-put_enqueue :
      (p : ThreadPool T) (t : T)
      → p.queue.state ≡ closing
      → put_enqueue p t ≡ (throws pool_stopped, p)
  unfolding put_enqueue put put_wait
  closed-put_enqueue p t h = ground arith

  closed-put_resume :
      (p : ThreadPool T) (t : T) (late : Bool)
      → p.queue.state ≡ closing
      → put_resume p t late ≡ (throws pool_stopped, p)
  unfolding put_resume put_wait_resume put_wait_for_resume
  closed-put_resume p t late h = ground arith

  closed-put_check :
      (p : ThreadPool T) → is_running p.state ≡ false → put_check p ≡ some pool_stopped
  unfolding put_check
  closed-put_check p h = rw h refl

  closed-put_periodic :
      (p : ThreadPool T) (interval : ℕ) (t : T)
      → is_running p.state ≡ false
      → put_periodic callable p interval t ≡ (some pool_stopped, p)
  unfolding put_periodic
  closed-put_periodic p interval t h = rw h refl

  -- Once a pool is shut down, over any history since its constructor: a new call of `put` or
  -- `put_periodic`, a call of `put` that had already passed the first check, and one that slept for
  -- room all throw `ThreadPoolStopped`, whatever the policy, and the pool does not change.
  pub setup_threads-run-Refuses :
      (opt : ThreadPoolOptions) (es : List (PoolEvent T)) (t : T)
      → (run callable (setup_threads opt) es).2.state ≢ running
      → Refuses callable (run callable (setup_threads opt) es).2 t
  setup_threads-run-Refuses opt es t h =
      let p = (run callable (setup_threads opt) es).2 in
      let c =
        run-IsConsistent callable (setup_threads opt) es
          (setup_threads-IsConsistent callable opt) in
      let closed = closed_queue p c h in
      let over = not_running p.state h in
      record {
        at_check = closed-put_check p over;
        at_queue = closed-put_enqueue p t closed;
        in_wait = λ late. closed-put_resume p t late closed;
        at_periodic = λ interval. closed-put_periodic p interval t over;
      }

-- The answer of each policy to a full queue, before and after the wait for room ran out.
abbrev pub at_full : RejectionPolicy → PutOutcome
at_full throw_exception = throws queue_full
at_full block = sleeps
at_full block_for = sleeps
at_full caller_runs = ran_by_caller

abbrev pub when_late : RejectionPolicy → PutOutcome
when_late block_for = throws task_rejected
when_late other = sleeps

-- A thread that the loop would have to join is not passed over.
own_join_threads :
    {W : Type 0} (gone : W → Bool) (i : ℕ) (ws : List W)
    → i < length ws
    → join_threads gone (some i) ws ≢ joined
unfolding join_threads
own_join_threads gone i [] h = absurd (omega arith)
own_join_threads gone zero (w ∷ ws) h = λ e. cc
own_join_threads gone (suc i) (w ∷ ws) h = elim (Bool-cases (gone w)) [
  | inl e ↦ rw e (own_join_threads gone i ws (omega arith))
  | inr e ↦ rw e (λ f. cc)
]

module _ {T : Type 0} where
  -- On an open queue that is full, `put` does what the policy says and the pool does not change: it
  -- throws `QueueFull`, sleeps, or has the caller run the task. A wait for room whose time is up
  -- ends with `TaskRejected` under `block_for`, and goes on under `block`.
  pub put_full :
      (p : ThreadPool T) (t : T)
      → p.queue.state ≡ opened
      → is_full (deque_ops T) p.queue ≡ true
      → (put_enqueue p t ≡ (at_full p.opt.rejection_policy, p))
        × (put_resume p t true ≡ (when_late p.opt.rejection_policy, p))
  unfolding put_enqueue put_resume put put_wait put_wait_resume put_wait_for_resume
  put_full p t h f = ground arith

  -- On an open queue with room, every policy queues the task at the end.
  pub put_room :
      (p : ThreadPool T) (t : T)
      → p.queue.state ≡ opened
      → is_full (deque_ops T) p.queue ≡ false
      → put_enqueue p t ≡ (
        queued,
        record p { queue = record p.queue { buffer = (deque_ops T).push p.queue.buffer t } },
      )
  unfolding put_enqueue put put_wait
  put_room p t h f = ground arith

  own_blocking :
      (p : ThreadPool T) (i : ℕ)
      → i < length p.active_workers
      → (blocking_thread_stopping p (from_worker i)).0 ≢ joined
  unfolding blocking_thread_stopping
  own_blocking p i h e = ground (arith, own_join_threads is_exited i p.active_workers h)

  -- `join` never returns to a worker of a pool that is not stopped: it waits for a thread before it,
  -- or terminates the program.
  pub join_own :
      (p : ThreadPool T) (i : ℕ)
      → p.state ≢ stopped
      → i < length p.active_workers
      → (join p (from_worker i)).0 ≢ joined
  unfolding join shutdown_graceful
  join_own p i h n e = ground (arith, own_blocking (shutdown_graceful p) i, own_blocking p i)
