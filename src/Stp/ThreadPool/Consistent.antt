-- ===== src/Stp/ThreadPool/Consistent.antt =====
-- The thread pool of stp/RtlThreadPool.hpp between two steps: its state, its queue and its workers
-- agree.
use rtl.Base.{
  ℕ, zero, suc, ◌≡◌, refl, sym, ap, subst, ◌⊎◌, ◌∙◌, inl, inr, Bool, true, false, not, ◌&&◌, Option,
  none, some, List, [], ◌∷◌, ◌++◌, get_elem?, append-nil, set, All, implies, arith, List-cases,
  Bool-cases, Option-cases,
}
use rtl.Stp.Container.{deque_ops, is_empty}
use rtl.Stp.Queue.{
  Queue, ContainerState, opened, closing, is_open, put, put_wait, put_wait_resume,
  put_wait_for_resume, try_take, try_take_resume, close,
}
use rtl.Stp.ThreadPool.{
  PoolState, running, stopped, is_running, Worker, asking, sleeping, executing, exited, broken,
  ThreadPool, worker_step, put_enqueue, put_resume, put_periodic, shutdown_graceful,
}
use rtl.Stp.ThreadPool.Joining.{
  JoinOutcome, Caller, join, blocking_thread_stopping, join_threads, is_exited, joined, blocks,
  terminates, is_stopped, is_left, worker_index, periodic_index,
}
use rtl.Stp.ThreadPool.Steps.{
  queued_as, started_in, PoolEvent, enqueues, resumes, works, repeats, puts_periodic, shuts_down,
  joins, step,
}

abbrev pub state_of : PoolState → ContainerState
state_of running = opened
state_of other = closing

JoinOutcome-cases : (o : JoinOutcome) → (o ≡ joined) ⊎ ((o ≡ blocks) ⊎ (o ≡ terminates))
JoinOutcome-cases joined = inl refl
JoinOutcome-cases blocks = inr (inl refl)
JoinOutcome-cases terminates = inr (inr refl)

implies_self : (b : Bool) → implies b b ≡ true
implies_self true = refl
implies_self false = refl

module _ {T : Type 0} where
  -- Closed, and nothing left.
  abbrev pub is_done : Queue (List T) → Bool
  is_done q = not (is_open q.state) && is_empty q.buffer

  abbrev pub ExitsRight : Queue (List T) → List (Worker T) → Type 0
  ExitsRight q ws = All (λ w. implies (is_exited w) (is_done q) ≡ true) ws

  pub record IsConsistent (p : ThreadPool T) : Type 0 where
    -- The queue is closed exactly when the pool does not run.
    pub in_step : p.queue.state ≡ state_of p.state
    -- A worker that is gone has left a closed, empty queue.
    pub exits_right : ExitsRight p.queue p.active_workers
    -- A stopped pool has no worker left.
    pub all_exited : p.state ≡ stopped → All (λ w. is_exited w ≡ true) p.active_workers

  ExitsRight-done :
      (q q' : Queue (List T)) (ws : List (Worker T))
      → implies (is_done q) (is_done q') ≡ true
      → ExitsRight q ws
      → ExitsRight q' ws
  ExitsRight-done q q' [] h e = tt
  ExitsRight-done q q' (w ∷ ws) h e = (ground (arith, h, e.0), ExitsRight-done q q' ws h e.1)

  put_enqueue-queue :
      (p : ThreadPool T) (t : T)
      → (implies (is_done p.queue) (is_done (put_enqueue p t).1.queue) ≡ true)
        × ((put_enqueue p t).1.queue.state ≡ p.queue.state)
  unfolding put_enqueue put put_wait
  put_enqueue-queue p t = ground arith

  put_resume-queue :
      (p : ThreadPool T) (t : T) (late : Bool)
      → (implies (is_done p.queue) (is_done (put_resume p t late).1.queue) ≡ true)
        × ((put_resume p t late).1.queue.state ≡ p.queue.state)
  unfolding put_resume put_wait_resume put_wait_for_resume
  put_resume-queue p t late = ground arith

  pub put_enqueue-others :
      (p : ThreadPool T) (t : T)
      → ((put_enqueue p t).1.state ≡ p.state)
        × ((put_enqueue p t).1.active_workers ≡ p.active_workers)
  unfolding put_enqueue put put_wait
  put_enqueue-others p t = ground arith

  pub put_resume-others :
      (p : ThreadPool T) (t : T) (late : Bool)
      → ((put_resume p t late).1.state ≡ p.state)
        × ((put_resume p t late).1.active_workers ≡ p.active_workers)
  unfolding put_resume put_wait_resume put_wait_for_resume
  put_resume-others p t late = ground arith

  -- A pool with the same state and workers, and a queue that is no less done.
  like-IsConsistent :
      (p p' : ThreadPool T)
      → p'.state ≡ p.state
      → p'.active_workers ≡ p.active_workers
      → p'.queue.state ≡ p.queue.state
      → implies (is_done p.queue) (is_done p'.queue) ≡ true
      → IsConsistent p
      → IsConsistent p'
  like-IsConsistent p p' state workers same kept c = record {
    in_step = same ∙ c.in_step ∙ ap state_of (sym state);
    exits_right =
        subst (λ ws. ExitsRight p'.queue ws) (sym workers)
          (ExitsRight-done p.queue p'.queue p.active_workers kept c.exits_right);
    all_exited = λ s.
        subst (λ ws. All (λ w. is_exited w ≡ true) ws) (sym workers) (c.all_exited (sym state ∙ s));
  }

  module _ (callable : T → Bool) where
    pub put_periodic-others :
        (p : ThreadPool T) (interval : ℕ) (t : T)
        → ((put_periodic callable p interval t).1.state ≡ p.state)
          × ((put_periodic callable p interval t).1.active_workers ≡ p.active_workers)
          × ((put_periodic callable p interval t).1.queue ≡ p.queue)
    unfolding put_periodic
    put_periodic-others p interval t = ground arith

    worker_step-queue :
        (w : Worker T) (late : Bool) (q : Queue (List T))
        → implies (is_exited w) (is_done q) ≡ true
        → let (w', q') = worker_step callable w late q in
          (implies (is_done q) (is_done q') ≡ true)
          × (q'.state ≡ q.state)
          × (implies (is_exited w') (is_done q') ≡ true)
          × (implies (is_exited w) (is_exited w') ≡ true)
    unfolding worker_step try_take try_take_resume
    worker_step-queue asking late q h = ground arith
    worker_step-queue sleeping late q h = ground arith
    worker_step-queue (executing t) late q h = ground arith
    worker_step-queue exited late q h = ground arith
    worker_step-queue broken late q h = ground arith

    module _ (all_callable : (t : T) → callable t ≡ true) where
      pub worker_step-started :
          (w : Worker T) (late : Bool) (q : Queue (List T))
          → let (w', q') = worker_step callable w late q in
            started_in (some w) (some w') ++ q'.buffer ≡ q.buffer
      unfolding worker_step try_take try_take_resume
      worker_step-started asking late q = elim (List-cases q.buffer) [
        | inl e ↦ ground arith
        | inr (t, ts, e) ↦ ground (arith, all_callable t)
      ]
      worker_step-started sleeping late q = elim (List-cases q.buffer) [
        | inl e ↦ ground arith
        | inr (t, ts, e) ↦ ground (arith, all_callable t)
      ]
      worker_step-started (executing t) late q = refl
      worker_step-started exited late q = refl
      worker_step-started broken late q = refl

    pub put_enqueue-queued :
        (p : ThreadPool T) (t : T)
        → (put_enqueue p t).1.queue.buffer ≡ p.queue.buffer ++ queued_as (put_enqueue p t).0 t
    unfolding put_enqueue put put_wait
    put_enqueue-queued p t = ground (arith, append-nil p.queue.buffer)

    pub put_resume-queued :
        (p : ThreadPool T) (t : T) (late : Bool)
        → (put_resume p t late).1.queue.buffer
          ≡ p.queue.buffer ++ queued_as (put_resume p t late).0 t
    unfolding put_resume put_wait_resume put_wait_for_resume
    put_resume-queued p t late = ground (arith, append-nil p.queue.buffer)

    -- The pool between two steps, and a worker that is replaced by what its step made of it.
    ExitsRight-set :
        (q : Queue (List T)) (ws : List (Worker T)) (i : ℕ) (w : Worker T)
        → implies (is_exited w) (is_done q) ≡ true
        → ExitsRight q ws
        → ExitsRight q (set ws i w)
    ExitsRight-set q [] i w h e = tt
    ExitsRight-set q (v ∷ ws) zero w h e = (h, e.1)
    ExitsRight-set q (v ∷ ws) (suc i) w h e = (e.0, ExitsRight-set q ws i w h e.1)

    all_exited-set :
        (ws : List (Worker T)) (i : ℕ) (v w : Worker T)
        → get_elem? ws i ≡ some v
        → implies (is_exited v) (is_exited w) ≡ true
        → All (λ w. is_exited w ≡ true) ws
        → All (λ w. is_exited w ≡ true) (set ws i w)
    all_exited-set [] i v w g h e = tt
    all_exited-set (x ∷ ws) zero v w g h e = (ground (arith, e.0), e.1)
    all_exited-set (x ∷ ws) (suc i) v w g h e = (e.0, all_exited-set ws i v w g h e.1)

    ExitsRight-at :
        (q : Queue (List T)) (ws : List (Worker T)) (i : ℕ) (w : Worker T)
        → get_elem? ws i ≡ some w
        → ExitsRight q ws
        → implies (is_exited w) (is_done q) ≡ true
    ExitsRight-at q [] i w g e = cc
    ExitsRight-at q (v ∷ ws) zero w g e = ground (arith, e.0)
    ExitsRight-at q (v ∷ ws) (suc i) w g e = ExitsRight-at q ws i w g e.1

    join_threads-all :
        (caller : Option ℕ) (ws : List (Worker T))
        → join_threads is_exited caller ws ≡ joined
        → All (λ w. is_exited w ≡ true) ws
    unfolding join_threads
    join_threads-all caller [] h = tt
    join_threads-all none (w ∷ ws) h = elim (Bool-cases (is_exited w)) [
      | inl e ↦ (e, join_threads-all none ws (ground arith))
      | inr e ↦ absurd (ground arith)
    ]
    join_threads-all (some zero) (w ∷ ws) h = cc
    join_threads-all (some (suc i)) (w ∷ ws) h = elim (Bool-cases (is_exited w)) [
      | inl e ↦ (e, join_threads-all (some i) ws (ground arith))
      | inr e ↦ absurd (ground arith)
    ]

    shutdown_graceful-IsConsistent :
        (p : ThreadPool T) → IsConsistent p → IsConsistent (shutdown_graceful p)
    unfolding shutdown_graceful close
    shutdown_graceful-IsConsistent p c = elim (Bool-cases (is_running p.state)) [
      | inl r ↦ rw r (record {
        in_step = refl;
        exits_right =
            ExitsRight-done p.queue (close (deque_ops T) p.queue) p.active_workers (ground arith)
              c.exits_right;
        all_exited = λ e. absurd (cc);
      })
      | inr n ↦ rw n c
    ]

    shut : (p : ThreadPool T) → IsConsistent p → (shutdown_graceful p).queue.state ≡ closing
    unfolding shutdown_graceful close
    shut p c = ground (arith, c.in_step)

    blocking-IsConsistent :
        (p : ThreadPool T) (caller : Caller)
        → p.queue.state ≡ closing
        → IsConsistent p
        → IsConsistent (blocking_thread_stopping p caller).1
    unfolding blocking_thread_stopping
    blocking-IsConsistent p caller closed c =
        elim (JoinOutcome-cases (join_threads is_left (periodic_index caller) p.periodic_workers)) [
          | inl e ↦
              elim (JoinOutcome-cases
                (join_threads is_exited (worker_index caller) p.active_workers)) [
                  | inl f ↦
                      rw (e, f, blocking_thread_stopping)
                        (record {
                          in_step = closed;
                          exits_right = c.exits_right;
                          all_exited =
                              λ s. join_threads-all (worker_index caller) p.active_workers f;
                        })
                  | inr (inl f) ↦ rw (e, f, blocking_thread_stopping) c
                  | inr (inr f) ↦ rw (e, f, blocking_thread_stopping) c
                ]
          | inr (inl e) ↦ rw (e, blocking_thread_stopping) c
          | inr (inr e) ↦ rw (e, blocking_thread_stopping) c
        ]

    pub join-IsConsistent :
        (p : ThreadPool T) (caller : Caller) → IsConsistent p → IsConsistent (join p caller).1
    unfolding join
    join-IsConsistent p caller c =
        let d = shutdown_graceful-IsConsistent p c in
        elim (Bool-cases (is_stopped (shutdown_graceful p).state)) [
          | inl s ↦ rw s d
          | inr s ↦ rw s (blocking-IsConsistent (shutdown_graceful p) caller (shut p c) d)
        ]

    worker_event-IsConsistent :
        (p : ThreadPool T) (i : ℕ) (late : Bool)
        → IsConsistent p
        → IsConsistent (step callable p (works i late))
    unfolding step
    worker_event-IsConsistent p i late c = elim (Option-cases (get_elem? p.active_workers i)) [
      | inl e ↦ rw e c
      | inr (w, e) ↦
          let (kept, same, exit, gone) =
            worker_step-queue w late p.queue
              (ExitsRight-at p.queue p.active_workers i w e c.exits_right) in
          let q = (worker_step callable w late p.queue).1 in
          rw e (record {
            in_step = same ∙ c.in_step;
            exits_right =
                ExitsRight-set q p.active_workers i _ exit
                  (ExitsRight-done p.queue q p.active_workers kept c.exits_right);
            all_exited = λ s. all_exited-set p.active_workers i w _ e gone (c.all_exited s);
          })
    ]

    pub step-IsConsistent :
        (p : ThreadPool T) (e : PoolEvent T) → IsConsistent p → IsConsistent (step callable p e)
    unfolding step
    step-IsConsistent p (enqueues t) c =
        let (kept, same) = put_enqueue-queue p t in
        let (state, workers) = put_enqueue-others p t in
        like-IsConsistent p (put_enqueue p t).1 state workers same kept c
    step-IsConsistent p (resumes t late) c =
        let (kept, same) = put_resume-queue p t late in
        let (state, workers) = put_resume-others p t late in
        like-IsConsistent p (put_resume p t late).1 state workers same kept c
    step-IsConsistent p (works i late) c = worker_event-IsConsistent p i late c
    step-IsConsistent p (repeats i) c = elim (Option-cases (get_elem? p.periodic_workers i)) [
      | inl e ↦ rw e c
      | inr (w, e) ↦
          rw e
            (record { in_step = c.in_step; exits_right = c.exits_right; all_exited = c.all_exited })
    ]
    step-IsConsistent p (puts_periodic interval t) c =
        let (state, workers, queue) = put_periodic-others p interval t in
        like-IsConsistent p (put_periodic callable p interval t).1 state workers
          (ap (λ q. q.state) queue)
          (ap (λ q. implies (is_done p.queue) (is_done q)) queue ∙ implies_self (is_done p.queue)) c
    step-IsConsistent p shuts_down c = shutdown_graceful-IsConsistent p c
    step-IsConsistent p (joins caller) c = join-IsConsistent p caller c
