-- ===== src/Db/Pool/Examples.antt =====
-- Connection pools on concrete inputs. A connection is its number, and is open if that is even.
use rtl.Base.{
  ℕ, ◌+◌, ◌%◌, ◌≡◌, refl, ◌⊎◌, Bool, false, List, [], ◌∷◌, none, some, arith, ◌==◌, returns, throws,
  sleeps,
}
use rtl.Db.Errors.{connection_exception}
use rtl.Db.Pool.{PoolConfig, PoolState, default_config, make_pool, acquire, try_acquire_for}
use rtl.Db.Pool.Invariant.{IsValid}
use rtl.Db.Pool.Handle.{
  Event, acquires, acquire_resumes, tries, moves, destroys, breaks, assigns, shuts_down, run,
}
use rtl.Db.Pool.Leases.{IsCounted, run-make_pool-IsCounted}
use rtl.Db.Pool.Supply.{acquire_supplies}

abbrev is_open : ℕ → Bool
is_open n = n % 2 == 0

abbrev close : ℕ → ℕ
close n = n + 1

abbrev pair : PoolConfig
pair = record default_config { max_connections = 2 }

abbrev pool : List ℕ → ℕ → ℕ → PoolState ℕ
pool connections active idle = record {
  config = pair;
  connections = connections;
  active_connections = active;
  idle_connections = idle;
  shut_down = false;
}

-- Two handles, one moved and one broken; a refused connect, an assignment and a shutdown.
abbrev events : List (Event ℕ)
events =
    acquires (returns 4)
    ∷ tries (returns 6)
    ∷ acquires (returns 8)
    ∷ moves 0
    ∷ breaks 1
    ∷ destroys 1
    ∷ acquire_resumes (throws (connection_exception "refused" none))
    ∷ acquire_resumes (returns 10)
    ∷ assigns 2 3
    ∷ shuts_down
    ∷ destroys 2
    ∷ []

run-make_pool-IsCounted_example :
    IsCounted is_open close (run is_open close (record { pool = pool [] 0 0; handles = [] }) events)
unfolding make_pool
run-make_pool-IsCounted_example =
    run-make_pool-IsCounted is_open close pair (pool [] 0 0) events (omega arith) refl

-- A valid pool with one handle out and one connection idle.
abbrev one_idle : IsValid 1 (pool (4 ∷ []) 1 1)
one_idle = record {
  bound = omega arith;
  idle_counted = refl;
  active_counted = refl;
  within = omega arith;
}

acquire_supplies_example :
    (try_acquire_for (pool (4 ∷ []) 1 1) (returns 6) ≡ acquire (pool (4 ∷ []) 1 1) (returns 6))
    × (((d : ℕ) × ((acquire (pool (4 ∷ []) 1 1) (returns 6)).0 ≡ returns (some d)))
        ⊎ (((acquire (pool (4 ∷ []) 1 1) (returns 6)).0 ≡ sleeps)
            × ((pool (4 ∷ []) 1 1).connections ≡ [])
            × (◌≡◌ {A = ℕ} 1 2)))
acquire_supplies_example = acquire_supplies 1 (pool (4 ∷ []) 1 1) 6 one_idle refl
