-- ===== src/Db/Pool/Supply.antt =====
-- What a caller of db/pool/PoolState.hpp gets: a connection when there is one to give, the one last
-- returned first, and an error after a shutdown.
use rtl.Base.{
  ℕ, ◌+◌, ◌-◌, ◌≤◌, ◌<◌, ◌≡◌, refl, ap, ◌⊎◌, inl, inr, Bool, true, false, ◌||◌, List, [], ◌∷◌,
  Option, none, some, arith, length, pop_back, pop_back-none, pop_back-append, length-pop_back,
  Option-cases, Bool-cases, ltb, ltb→lt, u64_mod, add64-eq-add, sub64-eq-sub, Outcome, returns,
  throws, sleeps,
}
use rtl.Db.Errors.{Exception}
use rtl.Db.Pool.{
  PoolState, init_new_connection_locked, move_back, take_connection_locked, shutting_down,
  can_proceed, acquire, acquire_resume, try_acquire_for, try_acquire_for_resume, return_connection,
  shutdown,
}
use rtl.Db.Pool.Invariant.{IsValid}

module _ {Connection : Type 0} where
  move_back-Supplies :
      (p : PoolState Connection)
      → 0 < length p.connections
      → (d : Connection) × ((move_back p).0 ≡ returns (some d))
  move_back-Supplies p h = elim (Option-cases (pop_back p.connections)) [
    | inl e ↦ absurd (omega (arith, ap length (pop_back-none p.connections e)))
    | inr ((d, rest), e) ↦ (d, rw (e, move_back))
  ]

  take-Supplies :
      (lent : ℕ) (p : PoolState Connection) (c : Connection)
      → IsValid lent p
      → (0 < p.idle_connections)
        ⊎ (p.idle_connections + p.active_connections < p.config.max_connections)
      → (d : Connection) × ((take_connection_locked p (returns c)).0 ≡ returns (some d))
  unfolding take_connection_locked init_new_connection_locked
  take-Supplies lent p c v h = elim (Bool-cases (ltb 0 p.idle_connections)) [
    | inl e ↦ rw e (move_back-Supplies p (omega (arith, v.idle_counted, ltb→lt _ _ e)))
    | inr e ↦ (
      c,
      ground (
        arith,
        pop_back-append p.connections c,
        add64-eq-add p.idle_connections p.active_connections,
      ),
    )
  ]

  nil_of_length : (xs : List Connection) → length xs ≡ 0 → xs ≡ []
  nil_of_length [] h = refl
  nil_of_length (x ∷ xs) h = absurd (omega arith)

  -- The predicate of the sleepers finds an idle connection or room for a new one.
  room :
      (lent : ℕ) (p : PoolState Connection)
      → IsValid lent p
      → p.shut_down ≡ false
      → can_proceed p ≡ true
      → (0 < p.idle_connections)
        ⊎ (p.idle_connections + p.active_connections < p.config.max_connections)
  room lent p v up go = elim (Option-cases (pop_back p.connections)) [
    | inl e ↦ inr (
        ground (
          arith,
          pop_back-none p.connections e,
          add64-eq-add p.idle_connections p.active_connections,
        ))
    | inr ((d, rest), e) ↦
        inl (omega (arith, v.idle_counted, length-pop_back p.connections d rest e))
  ]

  acquire_of_take :
      (p : PoolState Connection) (c d : Connection)
      → p.shut_down ≡ false
      → (take_connection_locked p (returns c)).0 ≡ returns (some d)
      → (acquire p (returns c)).0 ≡ returns (some d)
  unfolding acquire
  acquire_of_take p c d up e = ground arith

  acquire_sleeps :
      (p : PoolState Connection) (c : Connection)
      → p.shut_down ≡ false
      → p.idle_connections ≡ 0
      → p.config.max_connections ≤ p.active_connections
      → p.config.max_connections < u64_mod
      → p.active_connections < u64_mod
      → (acquire p (returns c)).0 ≡ sleeps
  unfolding acquire take_connection_locked init_new_connection_locked
  acquire_sleeps p c up e f b a =
      ground (arith, add64-eq-add p.idle_connections p.active_connections)

  -- On a valid pool that is not shut down, if a new connection can be made when one is needed: a
  -- call of `acquire` or `try_acquire_for` gives a connection at once or sleeps, and sleeps only if
  -- nothing is idle and `max_connections` are handed out.
  pub acquire_supplies :
      (lent : ℕ) (p : PoolState Connection) (c : Connection)
      → IsValid lent p
      → p.shut_down ≡ false
      → (try_acquire_for p (returns c) ≡ acquire p (returns c))
        × (((d : Connection) × ((acquire p (returns c)).0 ≡ returns (some d)))
            ⊎ (((acquire p (returns c)).0 ≡ sleeps)
                × (p.connections ≡ [])
                × (lent ≡ p.config.max_connections)))
  unfolding acquire try_acquire_for
  acquire_supplies lent p c v up = (
    refl,
    elim (Bool-cases (
        ltb 0 p.idle_connections
        || ltb (p.idle_connections + p.active_connections) p.config.max_connections)) [
          | inl e ↦
              let (d, f) = take-Supplies lent p c v (ground arith) in
              inl (d, acquire_of_take p c d up f)
          | inr e ↦ inr (
            acquire_sleeps p c up (ground arith) (ground arith) v.bound (ground arith),
            nil_of_length p.connections (ground arith),
            ground arith,
          )
        ],
  )

  -- A sleeper whose wait returns on its predicate, on a valid pool that is not shut down, gets a
  -- connection if a new one can be made when one is needed: never a null pointer.
  pub acquire_resume_supplies :
      (lent : ℕ) (p : PoolState Connection) (c : Connection) (timed_out : Bool)
      → IsValid lent p
      → p.shut_down ≡ false
      → can_proceed p ≡ true
      → (try_acquire_for_resume p (returns c) timed_out ≡ acquire_resume p (returns c))
        × ((d : Connection) × ((acquire_resume p (returns c)).0 ≡ returns (some d)))
  unfolding acquire_resume try_acquire_for_resume
  acquire_resume_supplies lent p c late v up go = (
    ground arith,
    let (d, f) = take-Supplies lent p c v (room lent p v up go) in (d, ground arith),
  )

  -- On a valid pool that is not shut down and has a handle out: a connection that is returned open
  -- is the one that the next `acquire` hands out, and the pool is then as it was.
  pub acquire-return_connection :
      (is_open : Connection → Bool) (lent : ℕ) (p : PoolState Connection) (c : Connection)
      (connect : Outcome Exception Connection)
      → IsValid (lent + 1) p
      → p.shut_down ≡ false
      → is_open c ≡ true
      → acquire (return_connection is_open p (some c)) connect ≡ (returns (some c), p)
  unfolding acquire take_connection_locked return_connection
  acquire-return_connection is_open lent p c connect v up fit = ground (
    arith,
    pop_back-append p.connections c,
    add64-eq-add p.idle_connections 1,
    sub64-eq-sub p.active_connections 1,
    add64-eq-add (p.active_connections - 1) 1,
    sub64-eq-sub (p.idle_connections + 1) 1,
  )

  -- On a valid pool with a handle out: a connection that comes back null, closed, or after a
  -- shutdown is dropped; the pool stores nothing more, and only the count of active connections
  -- falls.
  pub return_connection_drops :
      (is_open : Connection → Bool) (lent : ℕ) (p : PoolState Connection) (held : Option Connection)
      → IsValid (lent + 1) p
      → (held ≡ none)
        ⊎ (p.shut_down ≡ true)
        ⊎ ((c : Connection) × (held ≡ some c) × (is_open c ≡ false))
      → return_connection is_open p held ≡ record p { active_connections = lent }
  unfolding return_connection
  return_connection_drops is_open lent p none v h =
      ground (arith, sub64-eq-sub p.active_connections 1)
  return_connection_drops is_open lent p (some c) v h =
      ground (arith, sub64-eq-sub p.active_connections 1)

  -- After `shutdown` every call, and every sleeper whose wait returns, is refused with an error,
  -- and the pool does not change.
  pub shutdown_refuses :
      (p : PoolState Connection) (connect : Outcome Exception Connection) (timed_out : Bool)
      → let q = shutdown p in
        let refused : Outcome Exception (Option Connection) × PoolState Connection =
          (throws shutting_down, q) in
        (acquire q connect ≡ refused)
        × (acquire_resume q connect ≡ refused)
        × (try_acquire_for q connect ≡ refused)
        × (try_acquire_for_resume q connect timed_out ≡ refused)
  unfolding acquire acquire_resume try_acquire_for try_acquire_for_resume shutdown
  shutdown_refuses p connect late = (refl, refl, refl, refl)
