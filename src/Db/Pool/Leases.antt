-- ===== src/Db/Pool/Leases.antt =====
-- The pool counts its handles: db/pool/PoolState.hpp and PooledConnection.cpp together.
use rtl.Base.{
  ℕ, zero, suc, ◌+◌, ◌<◌, ◌≡◌, refl, ◌∙◌, inl, inr, Bool, true, false, List, [], ◌∷◌, ◌++◌, Option,
  none, some, arith, get_elem?, set, ◌==◌, Option-cases, Bool-cases, u64_mod, Outcome, returns,
  throws, sleeps, undefined,
}
use rtl.Db.Errors.{Exception}
use rtl.Db.Pool.{PoolConfig, PoolState, make_pool, shutdown}
use rtl.Db.Pool.Invariant.{
  IsValid, handed_out, make_pool-IsValid, acquire-IsValid, acquire_resume-IsValid,
  try_acquire_for-IsValid, try_acquire_for_resume-IsValid, return_connection-IsValid,
}
use rtl.Db.Pool.Handle.{
  PooledConnection, pooled, moved_out, destroy, mark_broken, System, Event, acquires,
  acquire_resumes, tries, try_resumes, moves, destroys, breaks, assigns, shuts_down, hand_out,
  move_handle, destroy_handle, break_handle, assign_handle, step, run,
}

module _ {Connection : Type 0} where
  abbrev pub live : PooledConnection Connection → ℕ
  live h = elim h.pool_state [ true ↦ 1 | false ↦ 0 ]

  -- How many handles still hold the pool.
  abbrev pub live_count : List (PooledConnection Connection) → ℕ
  live_count [] = 0
  live_count (h ∷ hs) = live h + live_count hs

  live_count-append :
      (hs gs : List (PooledConnection Connection))
      → live_count (hs ++ gs) ≡ live_count hs + live_count gs
  live_count-append [] gs = omega arith
  live_count-append (h ∷ hs) gs = omega (arith, live_count-append hs gs)

  live_count-set :
      (hs : List (PooledConnection Connection)) (i : ℕ) (h g : PooledConnection Connection)
      → get_elem? hs i ≡ some h
      → live_count (set hs i g) + live h ≡ live_count hs + live g
  live_count-set [] i h g e = cc
  live_count-set (x ∷ hs) zero h g e = ground arith
  live_count-set (x ∷ hs) (suc i) h g e = omega (arith, live_count-set hs i h g e)

  get_elem?-set_ne :
      (hs : List (PooledConnection Connection)) (i j : ℕ) (g : PooledConnection Connection)
      → (i == j) ≡ false
      → get_elem? (set hs i g) j ≡ get_elem? hs j
  get_elem?-set_ne [] i j g h = refl
  get_elem?-set_ne (x ∷ hs) zero zero g h = cc
  get_elem?-set_ne (x ∷ hs) zero (suc j) g h = refl
  get_elem?-set_ne (x ∷ hs) (suc i) zero g h = refl
  get_elem?-set_ne (x ∷ hs) (suc i) (suc j) g h = get_elem?-set_ne hs i j g (ground arith)

module _ {Connection : Type 0} (is_open : Connection → Bool) (close : Connection → Connection) where
  abbrev pub IsCounted : System Connection → Type 0
  IsCounted s = IsValid (live_count s.handles) s.pool

  hand_out-IsCounted :
      (s : System Connection) (r : Outcome Exception (Option Connection)) (p : PoolState Connection)
      → IsValid (live_count s.handles + handed_out r) p
      → IsCounted (hand_out is_open close s (r, p))
  unfolding hand_out
  hand_out-IsCounted s (returns (some c)) p v =
      omega (arith, live_count-append s.handles (pooled c ∷ []))
  hand_out-IsCounted s (returns none) p v = ground arith
  hand_out-IsCounted s (throws e) p v = ground arith
  hand_out-IsCounted s sleeps p v = ground arith
  hand_out-IsCounted s undefined p v = ground arith

  move_handle-IsCounted :
      (s : System Connection) (i : ℕ) (h : PooledConnection Connection)
      → get_elem? s.handles i ≡ some h
      → IsCounted s
      → IsCounted (move_handle is_open close s i (some h))
  unfolding move_handle
  move_handle-IsCounted s i h e v = ground (
    arith,
    live_count-set s.handles i h (moved_out h) e,
    live_count-append (set s.handles i (moved_out h))
        (record { pool_state = h.pool_state; connection = h.connection; broken = h.broken } ∷ []),
  )

  -- Destroying a handle, or assigning over it, gives up its lease.
  destroy-IsValid :
      (lent : ℕ) (p : PoolState Connection) (h : PooledConnection Connection)
      → IsValid (lent + live h) p
      → IsValid lent (destroy is_open p h)
  unfolding destroy
  destroy-IsValid lent p h v = elim (Bool-cases h.pool_state) [
    | inl e ↦ ground (arith, return_connection-IsValid is_open lent p h.connection)
    | inr e ↦ ground arith
  ]

  destroy_handle-IsCounted :
      (s : System Connection) (i : ℕ) (h : PooledConnection Connection)
      → get_elem? s.handles i ≡ some h
      → IsCounted s
      → IsCounted (destroy_handle is_open close s i (some h))
  unfolding destroy_handle
  destroy_handle-IsCounted s i h e v =
      destroy-IsValid (live_count (set s.handles i (moved_out h))) s.pool h
        (ground (arith, live_count-set s.handles i h (moved_out h) e))

  break_handle-IsCounted :
      (s : System Connection) (i : ℕ) (h : PooledConnection Connection)
      → get_elem? s.handles i ≡ some h
      → IsCounted s
      → IsCounted (break_handle is_open close s i (some h))
  unfolding break_handle
  break_handle-IsCounted s i h e v =
      ground (arith, live_count-set s.handles i h (mark_broken close h) e)

  assign_handle-IsCounted :
      (s : System Connection) (i j : ℕ) (h g : PooledConnection Connection)
      → get_elem? s.handles i ≡ some h
      → get_elem? s.handles j ≡ some g
      → IsCounted s
      → IsCounted (assign_handle is_open close s i j (some h) (some g))
  unfolding assign_handle destroy
  assign_handle-IsCounted s i j h g e f v = elim (Bool-cases (i == j)) [
    | inl same ↦ ground arith
    | inr differ ↦
        let h' : PooledConnection Connection = record {
          pool_state = g.pool_state;
          connection = g.connection;
          broken = g.broken;
        } in
        let g_stays = get_elem?-set_ne s.handles i j h' differ ∙ f in
        rw differ (
          destroy-IsValid (live_count (set (set s.handles i h') j (moved_out g))) s.pool h (
            ground (
              arith,
              live_count-set s.handles i h h' e,
              live_count-set (set s.handles i h') j g (moved_out g) g_stays,
            )))
  ]

  step-IsCounted :
      (s : System Connection) (e : Event Connection)
      → IsCounted s
      → IsCounted (step is_open close s e)
  unfolding step shutdown
  step-IsCounted s (acquires c) v = hand_out-IsCounted s _ _ (acquire-IsValid _ s.pool c v)
  step-IsCounted s (acquire_resumes c) v =
      hand_out-IsCounted s _ _ (acquire_resume-IsValid _ s.pool c v)
  step-IsCounted s (tries c) v = hand_out-IsCounted s _ _ (try_acquire_for-IsValid _ s.pool c v)
  step-IsCounted s (try_resumes c late) v =
      hand_out-IsCounted s _ _ (try_acquire_for_resume-IsValid _ s.pool c late v)
  step-IsCounted s (moves i) v = elim (Option-cases (get_elem? s.handles i)) [
    | inl e ↦ rw (e, move_handle) v
    | inr (h, e) ↦ rw e (move_handle-IsCounted s i h e v)
  ]
  step-IsCounted s (destroys i) v = elim (Option-cases (get_elem? s.handles i)) [
    | inl e ↦ rw (e, destroy_handle) v
    | inr (h, e) ↦ rw e (destroy_handle-IsCounted s i h e v)
  ]
  step-IsCounted s (breaks i) v = elim (Option-cases (get_elem? s.handles i)) [
    | inl e ↦ rw (e, break_handle) v
    | inr (h, e) ↦ rw e (break_handle-IsCounted s i h e v)
  ]
  step-IsCounted s (assigns i j) v = elim (Option-cases (get_elem? s.handles i)) [
    | inl e ↦ rw (e, assign_handle) v
    | inr (h, e) ↦ elim (Option-cases (get_elem? s.handles j)) [
      | inl f ↦ rw (e, f, assign_handle) v
      | inr (g, f) ↦ rw (e, f) (assign_handle-IsCounted s i j h g e f v)
    ]
  ]
  step-IsCounted s shuts_down v = omega arith

  run-IsCounted :
      (s : System Connection) (es : List (Event Connection))
      → IsCounted s
      → IsCounted (run is_open close s es)
  unfolding run
  run-IsCounted s [] v = v
  run-IsCounted s (e ∷ es) v = run-IsCounted (step is_open close s e) es (step-IsCounted s e v)

  -- For a pool that its constructor made, with a bound that a `size_t` holds: after any sequence of
  -- acquisitions, waits that return, moves, assignments over handles, destructions, breakages and a
  -- shutdown, on any threads, `active_count` is the number of handles that hold the pool,
  -- `idle_count` is the number of stored connections, and together they are within
  -- `max_connections`.
  pub run-make_pool-IsCounted :
      (config : PoolConfig) (p : PoolState Connection) (es : List (Event Connection))
      → config.max_connections < u64_mod
      → make_pool config ≡ returns p
      → IsCounted (run is_open close (record { pool = p; handles = [] }) es)
  run-make_pool-IsCounted config p es h e = run-IsCounted _ es (make_pool-IsValid config p h e)
