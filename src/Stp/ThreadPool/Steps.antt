-- ===== src/Stp/ThreadPool/Steps.antt =====
-- stp/RtlThreadPool.hpp: the steps of its threads and of its callers, in any interleaving.
use mathlib.Core.Option
use rtl.Base.{ℕ, Bool, Option, none, some, List, [], ◌∷◌, ◌++◌, get_elem?, set}
use rtl.Stp.Queue.{Queue}
use rtl.Stp.ThreadPool.{
  Worker, executing, PeriodicWorker, ThreadPool, PutOutcome, queued, worker_step, periodic_step,
  put_enqueue, put_resume, put_periodic, shutdown_graceful,
}
use rtl.Stp.ThreadPool.Joining.{Caller, join}

-- A step of some thread.
pub data PoolEvent (T : Type 0) : Type 0 where
  enqueues : T → PoolEvent T
  resumes : T → Bool → PoolEvent T
  works : ℕ → Bool → PoolEvent T
  repeats : ℕ → PoolEvent T
  puts_periodic : ℕ → T → PoolEvent T
  shuts_down : PoolEvent T
  joins : Caller → PoolEvent T

module _ {T : Type 0} where
  -- The task that `put` has queued, if it has.
  abbrev pub queued_as : PutOutcome → T → List T
  queued_as queued t = t ∷ []
  queued_as other t = []

  -- The tasks that a worker started in a step.
  abbrev pub started_in : Option (Worker T) → Option (Worker T) → List T
  started_in (some (executing t)) other = []
  started_in before (some (executing t)) = t ∷ []
  started_in before other = []

  unfoldable pub queued_by : ThreadPool T → PoolEvent T → List T
  unfolding put_enqueue put_resume
  queued_by p (enqueues t) = queued_as (put_enqueue p t).0 t
  queued_by p (resumes t late) = queued_as (put_resume p t late).0 t
  queued_by p other = []

module _ {T : Type 0} (callable : T → Bool) where
  -- The worker that steps, if there is one with that index.
  abbrev pub with_worker : ThreadPool T → ℕ → Worker T × Queue (List T) → ThreadPool T
  with_worker p i (w, q) = record p { queue = q; active_workers = set p.active_workers i w }

  abbrev pub worker_event : ThreadPool T → ℕ → Bool → Option (Worker T) → ThreadPool T
  worker_event p i late none = p
  worker_event p i late (some w) = with_worker p i (worker_step callable w late p.queue)

  abbrev pub periodic_event : ThreadPool T → ℕ → Option (PeriodicWorker T) → ThreadPool T
  periodic_event p i none = p
  periodic_event p i (some w) = record p {
    periodic_workers = set p.periodic_workers i (periodic_step callable p.state w);
  }

  unfoldable pub step : ThreadPool T → PoolEvent T → ThreadPool T
  unfolding put_enqueue put_resume worker_step periodic_step put_periodic shutdown_graceful join
  step p (enqueues t) = (put_enqueue p t).1
  step p (resumes t late) = (put_resume p t late).1
  step p (works i late) = worker_event p i late (get_elem? p.active_workers i)
  step p (repeats i) = periodic_event p i (get_elem? p.periodic_workers i)
  step p (puts_periodic interval t) = (put_periodic callable p interval t).1
  step p shuts_down = shutdown_graceful p
  step p (joins caller) = (join p caller).1

  unfoldable pub started_by : ThreadPool T → PoolEvent T → List T
  unfolding worker_step
  started_by p (works i late) =
      started_in (get_elem? p.active_workers i)
        (Option.map (λ w. (worker_step callable w late p.queue).0) (get_elem? p.active_workers i))
  started_by p other = []

  -- A history: what was queued and what was started, each in its order, and the pool at the end.
  unfoldable pub run : ThreadPool T → List (PoolEvent T) → List T × List T × ThreadPool T
  run p [] = ([], [], p)
  run p (e ∷ es) =
      let (in_later, out_later, end) = run (step p e) es in
      (queued_by p e ++ in_later, started_by p e ++ out_later, end)
