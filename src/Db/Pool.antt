-- ===== src/Db/Pool.antt =====
-- db/pool/PoolState.hpp: the state behind a connection pool. A function is what one thread does
-- while it holds the mutex, from its call or from a return of its wait. `connect` is how the
-- constructor of a new `Connection` ends, should the pool call it.
pub mod Invariant
pub mod Handle
pub mod Leases
pub mod Supply
mod Examples
use rtl.Base.{
  ℕ, Bool, true, false, not, ◌&&◌, ◌||◌, List, [], ◌∷◌, ◌++◌, Option, none, some, length, pop_back,
  ltb, ◌==◌, if◌then◌else◌, add64, sub64, Outcome, returns, throws, sleeps, undefined,
}
use rtl.Db.Errors.{
  Exception, pool_exhausted_exception, pool_timeout_exception, configuration_exception,
}

pub record PoolConfig : Type 0 where
  pub max_connections : ℕ
  pub min_connections : ℕ
  pub connection_timeout_ms : ℕ
  pub idle_timeout_ms : ℕ

abbrev pub default_config : PoolConfig
default_config = record {
  max_connections = 10;
  min_connections = 1;
  connection_timeout_ms = 0;
  idle_timeout_ms = 0;
}

-- The back of the vector is the end of the list.
pub record PoolState (Connection : Type 0) : Type 0 where
  pub config : PoolConfig
  pub connections : List Connection
  pub active_connections : ℕ
  pub idle_connections : ℕ
  pub shut_down : Bool

abbrev pub shutting_down : Exception
shutting_down = pool_exhausted_exception "Connection pool is shutting down"

module _ {Connection : Type 0} where
  -- The constructor.
  unfoldable pub make_pool : PoolConfig → Outcome Exception (PoolState Connection)
  make_pool config =
      if config.max_connections == 0
      then throws (configuration_exception "Invalid max_connections param in config")
      else returns (record {
        config = config;
        connections = [];
        active_connections = 0;
        idle_connections = 0;
        shut_down = false;
      })

  abbrev pub can_create_connection_locked : PoolState Connection → Bool
  can_create_connection_locked p =
      ltb (add64 p.idle_connections p.active_connections) p.config.max_connections

  unfoldable pub init_new_connection_locked :
      PoolState Connection
      → Outcome Exception Connection
      → Outcome Exception Bool × PoolState Connection
  unfolding add64
  init_new_connection_locked p connect =
      if not (can_create_connection_locked p) then (returns false, p) else elim connect [
        | returns connection ↦ (
          returns true,
          record p {
            connections = p.connections ++ connection ∷ [];
            idle_connections = add64 p.idle_connections 1;
          },
        )
        | throws e ↦ (throws e, p)
        | sleeps ↦ (sleeps, p)
        | undefined ↦ (undefined, p)
      ]

  -- The back of the vector is moved out, and counted as active.
  abbrev move_back_from :
      PoolState Connection
      → Option (Connection × List Connection)
      → Outcome Exception (Option Connection) × PoolState Connection
  move_back_from p none = (undefined, p)
  move_back_from p (some (connection, rest)) = (
    returns (some connection),
    record p {
      connections = rest;
      idle_connections = sub64 p.idle_connections 1;
      active_connections = add64 p.active_connections 1;
    },
  )

  abbrev pub move_back :
      PoolState Connection → Outcome Exception (Option Connection) × PoolState Connection
  move_back p = move_back_from p (pop_back p.connections)

  abbrev after_init :
      Outcome Exception Bool × PoolState Connection
      → Outcome Exception (Option Connection) × PoolState Connection
  after_init (returns true, p) = move_back p
  after_init (returns false, p) = (returns none, p)
  after_init (throws e, p) = (throws e, p)
  after_init (sleeps, p) = (sleeps, p)
  after_init (undefined, p) = (undefined, p)

  -- `none` is a null pointer.
  unfoldable pub take_connection_locked :
      PoolState Connection
      → Outcome Exception Connection
      → Outcome Exception (Option Connection) × PoolState Connection
  take_connection_locked p connect =
      if ltb 0 p.idle_connections
      then move_back p
      else after_init (init_new_connection_locked p connect)

  abbrev or_sleep :
      Outcome Exception (Option Connection) × PoolState Connection
      → Outcome Exception (Option Connection) × PoolState Connection
  or_sleep (returns none, p) = (sleeps, p)
  or_sleep r = r

  -- Up to the wait.
  unfoldable pub acquire :
      PoolState Connection
      → Outcome Exception Connection
      → Outcome Exception (Option Connection) × PoolState Connection
  acquire p connect =
      if p.shut_down then (throws shutting_down, p) else or_sleep (take_connection_locked p connect)

  abbrev is_empty : List Connection → Bool
  is_empty [] = true
  is_empty (x ∷ xs) = false

  -- What a sleeping thread waits for.
  abbrev pub can_proceed : PoolState Connection → Bool
  can_proceed p = p.shut_down || not (is_empty p.connections) || can_create_connection_locked p

  -- The wait of `acquire` returns.
  unfoldable pub acquire_resume :
      PoolState Connection
      → Outcome Exception Connection
      → Outcome Exception (Option Connection) × PoolState Connection
  acquire_resume p connect =
      if not (can_proceed p)
      then (sleeps, p)
      else if p.shut_down
      then (throws shutting_down, p)
      else take_connection_locked p connect

  -- Up to the wait: the same text as that of `acquire`.
  unfoldable pub try_acquire_for :
      PoolState Connection
      → Outcome Exception Connection
      → Outcome Exception (Option Connection) × PoolState Connection
  try_acquire_for p connect =
      if p.shut_down then (throws shutting_down, p) else or_sleep (take_connection_locked p connect)

  -- The wait of `try_acquire_for` returns, before or at its deadline.
  unfoldable pub try_acquire_for_resume :
      PoolState Connection
      → Outcome Exception Connection
      → Bool
      → Outcome Exception (Option Connection) × PoolState Connection
  try_acquire_for_resume p connect timed_out =
      if not (can_proceed p)
      then if timed_out
        then (throws (pool_timeout_exception "Timed out waiting for a pooled connection"), p)
        else (sleeps, p)
      else if p.shut_down
      then (throws shutting_down, p)
      else take_connection_locked p connect

  unfoldable pub return_connection :
      (Connection → Bool) → PoolState Connection → Option Connection → PoolState Connection
  return_connection is_open p none = record p { active_connections = sub64 p.active_connections 1 }
  return_connection is_open p (some connection) =
      let counted = record p { active_connections = sub64 p.active_connections 1 } in
      if p.shut_down
      then counted
      else if not (is_open connection)
      then counted
      else record counted {
        connections = p.connections ++ connection ∷ [];
        idle_connections = add64 p.idle_connections 1;
      }

  abbrev pub active_count : PoolState Connection → ℕ
  active_count p = p.active_connections

  abbrev pub idle_count : PoolState Connection → ℕ
  idle_count p = p.idle_connections

  unfoldable pub shutdown : PoolState Connection → PoolState Connection
  shutdown p = record p { shut_down = true }
