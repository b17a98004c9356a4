-- ===== src/Stp/ThreadPool/Examples.antt =====
-- The thread pool on concrete inputs.
use rtl.Base.{ℕ, ◌≡◌, ◌≢◌, refl, Bool, true, false, List, [], ◌∷◌, ◌++◌, All}
use rtl.Stp.Queue.{opened, closing, put, try_take, try_take_resume, close}
use rtl.Stp.ThreadPool.{
  ThreadPool, ThreadPoolOptions, throw_exception, block_for, running, stopping, asking,
  setup_threads,
}
use rtl.Stp.ThreadPool.Joining.{outside, join, joined, is_exited}
use rtl.Stp.ThreadPool.Steps.{
  PoolEvent, enqueues, works, shuts_down, step, queued_by, started_by, run,
}
use rtl.Stp.ThreadPool.Drains.{setup_threads-run-in_order, setup_threads-run-join}
use rtl.Stp.ThreadPool.Admission.{Refuses, setup_threads-run-Refuses}
use rtl.Stp.ThreadPool.Draining.{Drained, turns, run-turns}

abbrev always : ℕ → Bool
always t = true

-- One worker and room for two tasks; the constructor corrects the number of workers.
abbrev options : ThreadPoolOptions
options = record {
  workers_count = 0;
  max_workers = 4;
  max_periodic_tasks = 1;
  max_queue_size = 2;
  rejection_policy = throw_exception;
}

-- Two tasks, the first of which starts before the shutdown; then the worker runs the other, and ends.
abbrev history : List (PoolEvent ℕ)
history =
    enqueues 8
    ∷ works 0 false
    ∷ enqueues 9
    ∷ works 0 false
    ∷ shuts_down
    ∷ enqueues 7
    ∷ works 0 false
    ∷ works 0 false
    ∷ works 0 false
    ∷ works 0 false
    ∷ []

history_test : (run always (setup_threads options) history).1 ≡ 8 ∷ 9 ∷ []
unfolding run step queued_by started_by setup_threads put try_take try_take_resume close
history_test = refl

setup_threads-run-in_order_example :
    let (queued, started, end) = run always (setup_threads options) history in
    started ++ end.queue.buffer ≡ queued
setup_threads-run-in_order_example = setup_threads-run-in_order always (λ t. refl) options history

has_joined : (join (run always (setup_threads options) history).2 outside).0 ≡ joined
unfolding run step setup_threads put try_take try_take_resume close join
has_joined = refl

setup_threads-run-join_example :
    let (queued, started, end) = run always (setup_threads options) history in
    (started ≡ queued) × (end.queue.buffer ≡ []) × All (λ w. is_exited w ≡ true) end.active_workers
setup_threads-run-join_example =
    setup_threads-run-join always (λ t. refl) options history outside has_joined

is_over : (run always (setup_threads options) history).2.state ≢ running
unfolding run step setup_threads put try_take try_take_resume close
is_over h = cc

setup_threads-run-Refuses_example : Refuses always (run always (setup_threads options) history).2 5
setup_threads-run-Refuses_example = setup_threads-run-Refuses always options history 5 is_over

-- A pool whose queue is full, under `block_for`.
abbrev full_pool : ThreadPool ℕ
full_pool = record {
  opt = record options { rejection_policy = block_for };
  state = running;
  queue = record { state = opened; max_queue_size = 2; buffer = 8 ∷ 9 ∷ [] };
  active_workers = asking ∷ [];
  periodic_workers = [];
  periodic_workers_count = 0;
}

abbrev closed_pool : ThreadPool ℕ
closed_pool = record full_pool {
  state = stopping;
  queue = record { state = closing; max_queue_size = 2; buffer = 8 ∷ 9 ∷ [] };
}

run-turns_example : Drained always (λ t. refl) closed_pool 0 (turns always (λ t. refl) 0 2)
run-turns_example = run-turns always (λ t. refl) 2 closed_pool 0 refl refl refl
