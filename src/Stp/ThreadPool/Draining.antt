-- ===== src/Stp/ThreadPool/Draining.antt =====
-- A worker of stp/RtlThreadPool.hpp after the shutdown.
use rtl.Base.{
  ℕ, zero, suc, ◌≡◌, refl, sym, ap, List-cases, ◌∙◌, inl, inr, Bool, true, false, some, List, [],
  ◌∷◌, ◌++◌, get_elem?, set, length, arith,
}
use rtl.Stp.Queue.{Queue, closing, try_take, try_take_resume}
use rtl.Stp.ThreadPool.{Worker, asking, sleeping, executing, exited, ThreadPool, worker_step}
use rtl.Stp.ThreadPool.Steps.{PoolEvent, works, step, started_in, started_by, run}

get_elem?-set {ℓ} :
    {A : Type ℓ} (xs : List A) (i : ℕ) (v w : A)
    → get_elem? xs i ≡ some v
    → get_elem? (set xs i w) i ≡ some w
get_elem?-set [] i v w h = cc
get_elem?-set (x ∷ xs) zero v w h = refl
get_elem?-set (x ∷ xs) (suc i) v w h = get_elem?-set xs i v w h

module _ {T : Type 0} (callable : T → Bool) (all_callable : (t : T) → callable t ≡ true) where
  -- A worker's turns for a queue of some length: to take a task and to run it, for each; and to
  -- fall asleep and wake up.
  abbrev pub turns : ℕ → ℕ → List (PoolEvent T)
  turns i zero = works i false ∷ works i false ∷ []
  turns i (suc n) = works i false ∷ works i false ∷ turns i n

  -- What a turn does, from the worker before it.
  turn :
      (p : ThreadPool T) (i : ℕ) (w w' : Worker T) (q' : Queue (List T))
      → get_elem? p.active_workers i ≡ some w
      → worker_step callable w false p.queue ≡ (w', q')
      → step callable p (works i false)
        ≡ record p { queue = q'; active_workers = set p.active_workers i w' }
  unfolding step
  turn p i w w' q' h e = rw (h, e) refl

  turn-started :
      (p : ThreadPool T) (i : ℕ) (w w' : Worker T) (q' : Queue (List T))
      → get_elem? p.active_workers i ≡ some w
      → worker_step callable w false p.queue ≡ (w', q')
      → started_by callable p (works i false) ≡ started_in (some w) (some w')
  unfolding started_by
  turn-started p i w w' q' h e = rw (h, e) refl

  -- Two turns of one worker, and what follows.
  module _ (p : ThreadPool T) (i : ℕ) (w w' w'' : Worker T) (q' q'' : Queue (List T))
      (h : get_elem? p.active_workers i ≡ some w)
      (first : worker_step callable w false p.queue ≡ (w', q'))
      (second : worker_step callable w' false q' ≡ (w'', q'')) where
    abbrev once : ThreadPool T
    once = record p { queue = q'; active_workers = set p.active_workers i w' }

    abbrev twice : ThreadPool T
    twice = record p { queue = q''; active_workers = set (set p.active_workers i w') i w'' }

    run-two :
        (es : List (PoolEvent T))
        → let (queued, started, end) = run callable p (works i false ∷ works i false ∷ es) in
          (started
            ≡ started_in (some w) (some w')
              ++ (started_in (some w') (some w'') ++ (run callable twice es).1))
          × (end ≡ (run callable twice es).2)
    unfolding run
    run-two es =
        let at = get_elem?-set p.active_workers i w w' h in
        let two =
          ap (λ x. step callable x (works i false)) (turn p i w w' q' h first)
          ∙ turn once i w' w'' q'' at second in
        (
          rw (turn-started p i w w' q' h first, two)
              (ap (λ x. started_in (some w) (some w') ++ (x ++ (run callable twice es).1))
                (ap (λ x. started_by callable x (works i false)) (turn p i w w' q' h first)
                  ∙ turn-started once i w' w'' q'' at second)),
          ap (λ x. (run callable x es).2) two,
        )

  run-nil : (p : ThreadPool T) → run callable p [] ≡ ([], [], p)
  unfolding run
  run-nil p = refl

  ask-empty :
      (q : Queue (List T)) → q.buffer ≡ [] → worker_step callable asking false q ≡ (sleeping, q)
  unfolding worker_step try_take
  ask-empty q e = ground arith

  wake-empty :
      (q : Queue (List T))
      → q.state ≡ closing
      → q.buffer ≡ []
      → worker_step callable sleeping false q ≡ (exited, q)
  unfolding worker_step try_take_resume
  wake-empty q c e = ground arith

  ask-item :
      (q : Queue (List T)) (t : T) (ts : List T)
      → q.buffer ≡ t ∷ ts
      → worker_step callable asking false q ≡ (executing t, record q { buffer = ts })
  unfolding worker_step try_take
  ask-item q t ts e = ground (arith, all_callable t)

  task_done :
      (q : Queue (List T)) (t : T) → worker_step callable (executing t) false q ≡ (asking, q)
  unfolding worker_step
  task_done q t = refl

  -- What a worker gets done alone after the shutdown.
  abbrev pub Drained : ThreadPool T → ℕ → List (PoolEvent T) → Type 0
  Drained p i es =
      let (queued, started, end) = run callable p es in
      (started ≡ p.queue.buffer)
      × (end.queue.buffer ≡ [])
      × (get_elem? end.active_workers i ≡ some exited)

  -- After the shutdown one worker that is at the top of its loop, if it gets the turns, starts every
  -- task that is left, in their order, and ends its loop: two turns for each task and two more are
  -- enough, whatever the other workers were doing.
  pub run-turns :
      (n : ℕ) (p : ThreadPool T) (i : ℕ)
      → p.queue.state ≡ closing
      → get_elem? p.active_workers i ≡ some asking
      → length p.queue.buffer ≡ n
      → Drained p i (turns i n)
  run-turns zero p i c h e = elim (List-cases p.queue.buffer) [
    | inl none_left ↦
        let (started, end) =
          run-two p i asking sleeping exited p.queue p.queue h (ask-empty p.queue none_left)
            (wake-empty p.queue c none_left) [] in
        let none_more =
          run-nil (record p { active_workers = set (set p.active_workers i sleeping) i exited }) in
        let at = get_elem?-set p.active_workers i asking sleeping h in
        (
          started ∙ ap (λ r. r.1) none_more ∙ sym none_left,
          ap (λ x. x.queue.buffer) end ∙ ap (λ r. r.2.queue.buffer) none_more ∙ none_left,
          ap (λ x. get_elem? x.active_workers i) end
              ∙ ap (λ r. get_elem? r.2.active_workers i) none_more
              ∙ get_elem?-set (set p.active_workers i sleeping) i sleeping exited at,
        )
    | inr (t, ts, some_left) ↦ absurd (omega (arith, e, ap length some_left))
  ]
  run-turns (suc n) p i c h e = elim (List-cases p.queue.buffer) [
    | inl none_left ↦ absurd (omega (arith, e, ap length none_left))
    | inr (t, ts, some_left) ↦
        let q = record p.queue { buffer = ts } in
        let (started, end) =
          run-two p i asking (executing t) asking q q h (ask-item p.queue t ts some_left)
            (task_done q t) (turns i n) in
        let at =
          get_elem?-set (set p.active_workers i (executing t)) i (executing t) asking
            (get_elem?-set p.active_workers i asking (executing t) h) in
        let (all, empty, gone) =
          run-turns n
            (record p {
              queue = q;
              active_workers = set (set p.active_workers i (executing t)) i asking;
            })
            i c at (omega (arith, e, ap length some_left)) in
        (
          started ∙ ap (λ xs. t ∷ xs) all ∙ sym some_left,
          ap (λ x. x.queue.buffer) end ∙ empty,
          ap (λ x. get_elem? x.active_workers i) end ∙ gone,
        )
  ]
