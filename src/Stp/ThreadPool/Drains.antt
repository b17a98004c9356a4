-- ===== src/Stp/ThreadPool/Drains.antt =====
-- The thread pool of stp/RtlThreadPool.hpp over any interleaving of its steps: what was queued, what
-- was started, and the return of `join`.
use rtl.Base.{
  ℕ, zero, suc, ◌<◌, ◌≡◌, refl, sym, ap, subst, ◌∙◌, inl, inr, Bool, true, List, [], ◌∷◌, ◌++◌,
  get_elem?, append-nil, append_assoc, length, All, implied, arith, Option-cases, List-cases,
  replicate, length-replicate,
}
use rtl.Base.Slices.{length-set}
use rtl.Stp.Queue.{Queue, close}
use rtl.Stp.ThreadPool.{
  stopped, Worker, ThreadPool, ThreadPoolOptions, shutdown_graceful, setup_threads, corrected,
  asking,
}
use rtl.Stp.ThreadPool.Joining.{Caller, join, is_exited, blocking_thread_stopping, joined}
use rtl.Stp.ThreadPool.Steps.{
  PoolEvent, enqueues, resumes, works, repeats, puts_periodic, shuts_down, joins, step, queued_by,
  started_by, run,
}
use rtl.Stp.ThreadPool.Consistent.{
  join-IsConsistent, IsConsistent, step-IsConsistent, worker_step-started, put_enqueue-queued,
  put_resume-queued, put_periodic-others, put_enqueue-others, put_resume-others, ExitsRight,
}

module _ {T : Type 0} (callable : T → Bool) where
  shutdown_graceful-buffer :
      (p : ThreadPool T) → (shutdown_graceful p).queue.buffer ≡ p.queue.buffer
  unfolding shutdown_graceful close
  shutdown_graceful-buffer p = ground arith

  blocking-buffer :
      (p : ThreadPool T) (caller : Caller)
      → (blocking_thread_stopping p caller).1.queue.buffer ≡ p.queue.buffer
  unfolding blocking_thread_stopping
  blocking-buffer p caller = ground arith

  join-buffer :
      (p : ThreadPool T) (caller : Caller) → (join p caller).1.queue.buffer ≡ p.queue.buffer
  unfolding join
  join-buffer p caller =
      ground (arith, shutdown_graceful-buffer p, blocking-buffer (shutdown_graceful p) caller)

  module _ (all_callable : (t : T) → callable t ≡ true) where
    step-balanced :
        (p : ThreadPool T) (e : PoolEvent T)
        → started_by callable p e ++ (step callable p e).queue.buffer
          ≡ p.queue.buffer ++ queued_by p e
    unfolding step queued_by started_by
    step-balanced p (enqueues t) = put_enqueue-queued callable p t
    step-balanced p (resumes t late) = put_resume-queued callable p t late
    step-balanced p (works i late) = elim (Option-cases (get_elem? p.active_workers i)) [
      | inl e ↦ rw e (sym (append-nil p.queue.buffer))
      | inr (w, e) ↦
          rw (e, append-nil p.queue.buffer)
            (worker_step-started callable all_callable w late p.queue)
    ]
    step-balanced p (repeats i) = elim (Option-cases (get_elem? p.periodic_workers i)) [
      | inl e ↦ rw e (sym (append-nil p.queue.buffer))
      | inr (w, e) ↦ rw e (sym (append-nil p.queue.buffer))
    ]
    step-balanced p (puts_periodic interval t) =
        ap (λ q. q.buffer) (put_periodic-others callable p interval t).2
        ∙ sym (append-nil p.queue.buffer)
    step-balanced p shuts_down = shutdown_graceful-buffer p ∙ sym (append-nil p.queue.buffer)
    step-balanced p (joins caller) = join-buffer p caller ∙ sym (append-nil p.queue.buffer)

    run-balanced :
        (p : ThreadPool T) (es : List (PoolEvent T))
        → let (queued, started, end) = run callable p es in
          started ++ end.queue.buffer ≡ p.queue.buffer ++ queued
    unfolding run
    run-balanced p [] = sym (append-nil p.queue.buffer)
    run-balanced p (e ∷ es) =
        let (in_later, out_later, end) = run callable (step callable p e) es in
        append_assoc (started_by callable p e) out_later end.queue.buffer
        ∙ ap (λ xs. started_by callable p e ++ xs) (run-balanced (step callable p e) es)
        ∙ sym (append_assoc (started_by callable p e) (step callable p e).queue.buffer in_later)
        ∙ ap (λ xs. xs ++ in_later) (step-balanced p e)
        ∙ append_assoc p.queue.buffer (queued_by p e) in_later

    -- Over any history of a pool since its constructor, whatever its threads and callers do and in
    -- whatever order: the workers have started the tasks that `put` queued in the order in which
    -- they were queued, each once, up to those that are still queued.
    pub setup_threads-run-in_order :
        (opt : ThreadPoolOptions) (es : List (PoolEvent T))
        → let (queued, started, end) = run callable (setup_threads opt) es in
          started ++ end.queue.buffer ≡ queued
    unfolding setup_threads
    setup_threads-run-in_order opt es = run-balanced (setup_threads opt) es

  pub run-IsConsistent :
      (p : ThreadPool T) (es : List (PoolEvent T))
      → IsConsistent p
      → IsConsistent (run callable p es).2
  unfolding run
  run-IsConsistent p [] c = c
  run-IsConsistent p (e ∷ es) c =
      run-IsConsistent (step callable p e) es (step-IsConsistent callable p e c)

  blocking-length :
      (p : ThreadPool T) (caller : Caller)
      → length (blocking_thread_stopping p caller).1.active_workers ≡ length p.active_workers
  unfolding blocking_thread_stopping
  blocking-length p caller = ground arith

  shutdown_graceful-length :
      (p : ThreadPool T) → length (shutdown_graceful p).active_workers ≡ length p.active_workers
  unfolding shutdown_graceful
  shutdown_graceful-length p = ground arith

  step-length :
      (p : ThreadPool T) (e : PoolEvent T)
      → length (step callable p e).active_workers ≡ length p.active_workers
  unfolding step
  step-length p (enqueues t) = ap length (put_enqueue-others p t).1
  step-length p (resumes t late) = ap length (put_resume-others p t late).1
  step-length p (works i late) = elim (Option-cases (get_elem? p.active_workers i)) [
    | inl e ↦ rw e refl
    | inr (w, e) ↦ rw e (length-set p.active_workers i _)
  ]
  step-length p (repeats i) = ground arith
  step-length p (puts_periodic interval t) = ap length (put_periodic-others callable p interval t).1
  step-length p shuts_down = shutdown_graceful-length p
  step-length p (joins caller) =
      ground (arith, shutdown_graceful-length p, blocking-length (shutdown_graceful p) caller)

  run-length :
      (p : ThreadPool T) (es : List (PoolEvent T))
      → length (run callable p es).2.active_workers ≡ length p.active_workers
  unfolding run
  run-length p [] = refl
  run-length p (e ∷ es) = run-length (step callable p e) es ∙ step-length p e

  first_exit :
      (q : Queue (List T)) (ws : List (Worker T))
      → 0 < length ws
      → All (λ w. is_exited w ≡ true) ws
      → ExitsRight q ws
      → q.buffer ≡ []
  first_exit q [] n h e = absurd (omega arith)
  first_exit q (w ∷ ws) n h e = elim (List-cases q.buffer) [
    | inl none_left ↦ none_left
    | inr (t, ts, some_left) ↦ absurd (ground (arith, implied e.0 h.0))
  ]

  blocking-stopped :
      (p : ThreadPool T) (caller : Caller)
      → (blocking_thread_stopping p caller).0 ≡ joined
      → (blocking_thread_stopping p caller).1.state ≡ stopped
  unfolding blocking_thread_stopping
  blocking-stopped p caller h = ground arith

  join-stopped :
      (p : ThreadPool T) (caller : Caller)
      → (join p caller).0 ≡ joined
      → (join p caller).1.state ≡ stopped
  unfolding join
  join-stopped p caller h = ground (arith, blocking-stopped (shutdown_graceful p) caller)

  join-workers :
      (p : ThreadPool T) (caller : Caller) → (join p caller).1.active_workers ≡ p.active_workers
  unfolding join shutdown_graceful blocking_thread_stopping
  join-workers p caller = ground arith

  replicate-ExitsRight : (q : Queue (List T)) (n : ℕ) → ExitsRight q (replicate n asking)
  replicate-ExitsRight q zero = tt
  replicate-ExitsRight q (suc n) = (refl, replicate-ExitsRight q n)

  pub setup_threads-IsConsistent :
      (opt : ThreadPoolOptions) → IsConsistent {T = T} (setup_threads opt)
  unfolding setup_threads
  setup_threads-IsConsistent opt = record {
    in_step = refl;
    exits_right = replicate-ExitsRight (setup_threads opt).queue (corrected opt).workers_count;
    all_exited = λ s. absurd (cc);
  }

  some_worker : (opt : ThreadPoolOptions) → 0 < length (setup_threads {T = T} opt).active_workers
  unfolding setup_threads corrected
  some_worker opt =
      ground (arith, length-replicate {A = Worker T} (corrected opt).workers_count asking)

  module _ (all_callable : (t : T) → callable t ≡ true) where
    -- When `join` returns to some caller, after any history of a pool since its constructor: every
    -- task that `put` has queued has been started, in its order and once, no task is left in the
    -- queue, and every worker is gone, and so has returned from its tasks.
    pub setup_threads-run-join :
        (opt : ThreadPoolOptions) (es : List (PoolEvent T)) (caller : Caller)
        → let (queued, started, end) = run callable (setup_threads opt) es in
          (join end caller).0 ≡ joined
          → (started ≡ queued)
            × (end.queue.buffer ≡ [])
            × All (λ w. is_exited w ≡ true) end.active_workers
    setup_threads-run-join opt es caller h =
        let (queued, started, end) = run callable (setup_threads opt) es in
        let c =
          join-IsConsistent callable end caller
            (run-IsConsistent (setup_threads opt) es (setup_threads-IsConsistent opt)) in
        let gone = c.all_exited (join-stopped end caller h) in
        let many : 0 < length (join end caller).1.active_workers = omega (
          arith,
          ap length (join-workers end caller),
          run-length (setup_threads opt) es,
          some_worker opt,
        ) in
        let empty =
          sym (join-buffer end caller)
          ∙ first_exit (join end caller).1.queue _ many gone c.exits_right in
        (
          sym (append-nil started)
              ∙ ap (λ b. started ++ b) (sym empty)
              ∙ setup_threads-run-in_order all_callable opt es,
          empty,
          subst (λ ws. All (λ w. is_exited w ≡ true) ws) (join-workers end caller) gone,
        )
