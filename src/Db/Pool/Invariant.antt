-- ===== src/Db/Pool/Invariant.antt =====
-- The counters of db/pool/PoolState.hpp against the connections that are idle and handed out.
use rtl.Base.{
  ℕ, ◌+◌, ◌≤◌, ◌<◌, ◌≡◌, inl, inr, Bool, true, [], ◌∷◌, Option, none, some, arith, length,
  length-append, pop_back, pop_back-none, length-pop_back, ap, Option-cases, u64_mod, add64-eq-add,
  sub64-eq-sub, Outcome, returns, throws, sleeps, undefined,
}
use rtl.Db.Errors.{Exception}
use rtl.Db.Pool.{
  PoolConfig, PoolState, make_pool, init_new_connection_locked, move_back, take_connection_locked,
  acquire, acquire_resume, try_acquire_for, try_acquire_for_resume, return_connection,
}

module _ {Connection : Type 0} where
  -- `lent` connections are handed out, and the bound is one that a `size_t` can hold.
  pub record IsValid (lent : ℕ) (p : PoolState Connection) : Type 0 where
    pub bound : p.config.max_connections < u64_mod
    pub idle_counted : p.idle_connections ≡ length p.connections
    pub active_counted : p.active_connections ≡ lent
    pub within : p.idle_connections + p.active_connections ≤ p.config.max_connections

  -- How many connections a call handed out.
  abbrev pub handed_out : Outcome Exception (Option Connection) → ℕ
  handed_out (returns (some c)) = 1
  handed_out (returns none) = 0
  handed_out (throws e) = 0
  handed_out sleeps = 0
  handed_out undefined = 0

  abbrev pub After : ℕ → Outcome Exception (Option Connection) × PoolState Connection → Type 0
  After lent (r, p) = IsValid (lent + handed_out r) p

  pub make_pool-IsValid :
      (config : PoolConfig) (p : PoolState Connection)
      → config.max_connections < u64_mod
      → make_pool config ≡ returns p
      → IsValid 0 p
  unfolding make_pool
  make_pool-IsValid config p h e = ground arith

  move_back-IsValid :
      (lent : ℕ) (p : PoolState Connection)
      → IsValid lent p
      → 0 < p.idle_connections
      → After lent (move_back p)
  move_back-IsValid lent p v h = elim (Option-cases (pop_back p.connections)) [
    | inl e ↦ absurd (omega (arith, v.idle_counted, ap length (pop_back-none p.connections e)))
    | inr ((c, rest), e) ↦
        rw (e, move_back)
          (omega (
            arith,
            length-pop_back p.connections c rest e,
            add64-eq-add p.active_connections 1,
            sub64-eq-sub p.idle_connections 1,
          ))
  ]

  init-IsValid :
      (lent : ℕ) (p : PoolState Connection) (connect : Outcome Exception Connection)
      → IsValid lent p
      → let (r, p') = init_new_connection_locked p connect in
        IsValid lent p' × (r ≡ returns true → 0 < p'.idle_connections)
  unfolding init_new_connection_locked
  init-IsValid lent p (returns c) v = ground (
    arith,
    length-append p.connections (c ∷ []),
    add64-eq-add p.idle_connections 1,
    add64-eq-add p.idle_connections p.active_connections,
  )
  init-IsValid lent p connect v = ground arith

  take-IsValid :
      (lent : ℕ) (p : PoolState Connection) (connect : Outcome Exception Connection)
      → IsValid lent p
      → After lent (take_connection_locked p connect)
  unfolding take_connection_locked
  take-IsValid lent p connect v = ground (
    arith,
    move_back-IsValid lent p v,
    init-IsValid lent p connect v,
    move_back-IsValid lent (init_new_connection_locked p connect).1,
  )

  pub acquire-IsValid :
      (lent : ℕ) (p : PoolState Connection) (connect : Outcome Exception Connection)
      → IsValid lent p
      → After lent (acquire p connect)
  unfolding acquire
  acquire-IsValid lent p connect v = ground (arith, take-IsValid lent p connect v)

  pub acquire_resume-IsValid :
      (lent : ℕ) (p : PoolState Connection) (connect : Outcome Exception Connection)
      → IsValid lent p
      → After lent (acquire_resume p connect)
  unfolding acquire_resume
  acquire_resume-IsValid lent p connect v = ground (arith, take-IsValid lent p connect v)

  pub try_acquire_for-IsValid :
      (lent : ℕ) (p : PoolState Connection) (connect : Outcome Exception Connection)
      → IsValid lent p
      → After lent (try_acquire_for p connect)
  unfolding try_acquire_for
  try_acquire_for-IsValid lent p connect v = ground (arith, take-IsValid lent p connect v)

  pub try_acquire_for_resume-IsValid :
      (lent : ℕ) (p : PoolState Connection) (connect : Outcome Exception Connection)
      (timed_out : Bool)
      → IsValid lent p
      → After lent (try_acquire_for_resume p connect timed_out)
  unfolding try_acquire_for_resume
  try_acquire_for_resume-IsValid lent p connect late v =
      ground (arith, take-IsValid lent p connect v)

  pub return_connection-IsValid :
      (is_open : Connection → Bool) (lent : ℕ) (p : PoolState Connection) (c : Option Connection)
      → IsValid (lent + 1) p
      → IsValid lent (return_connection is_open p c)
  unfolding return_connection
  return_connection-IsValid is_open lent p none v =
      omega (arith, sub64-eq-sub p.active_connections 1)
  return_connection-IsValid is_open lent p (some c) v = ground (
    arith,
    length-append p.connections (c ∷ []),
    add64-eq-add p.idle_connections 1,
    sub64-eq-sub p.active_connections 1,
  )
