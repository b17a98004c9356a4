-- ===== src/Db/Pool/Handle.antt =====
-- db/pool/PooledConnection.cpp and ConnectionPool.cpp: the handles that own a connection of the
-- pool, and the program's threads as events on the pool and the handles.
use rtl.Base.{
  ℕ, Bool, true, false, List, [], ◌∷◌, ◌++◌, Option, none, some, get_elem?, set, has_value, ◌==◌,
  if◌then◌else◌, Outcome, returns, throws, sleeps, undefined,
}
use rtl.Db.Errors.{Exception, logic_error, pool_exhausted_exception}
use rtl.Db.Pool.{
  PoolState, acquire, acquire_resume, try_acquire_for, try_acquire_for_resume, return_connection,
  shutdown,
}

-- `pool_state` tells whether the shared pointer to the pool is set.
pub record PooledConnection (Connection : Type 0) : Type 0 where
  pub pool_state : Bool
  pub connection : Option Connection
  pub broken : Bool

module _ {Connection : Type 0} where
  abbrev pub pooled : Connection → PooledConnection Connection
  pooled c = record { pool_state = true; connection = some c; broken = false }

  -- What a move leaves behind.
  abbrev pub moved_out : PooledConnection Connection → PooledConnection Connection
  moved_out h = record { pool_state = false; connection = none; broken = h.broken }

  -- The move constructor: the new handle and the old one.
  unfoldable pub move_construct :
      PooledConnection Connection → PooledConnection Connection × PooledConnection Connection
  move_construct h = (
    record { pool_state = h.pool_state; connection = h.connection; broken = h.broken },
    moved_out h,
  )

  -- The destructor.
  unfoldable pub destroy :
      (Connection → Bool)
      → PoolState Connection
      → PooledConnection Connection
      → PoolState Connection
  destroy is_open p h = if h.pool_state then return_connection is_open p h.connection else p

  -- The move assignment of another handle: the pool, the target and the source.
  unfoldable pub move_assign :
      (Connection → Bool)
      → PoolState Connection
      → PooledConnection Connection
      → PooledConnection Connection
      → PoolState Connection × PooledConnection Connection × PooledConnection Connection
  move_assign is_open p target source = (
    if target.pool_state then return_connection is_open p target.connection else p,
    record {
      pool_state = source.pool_state;
      connection = source.connection;
      broken = source.broken;
    },
    moved_out source,
  )

  abbrev or_invalid : Option Connection → Outcome Exception Connection
  or_invalid none = throws (logic_error "Invalid pooled connection handle")
  or_invalid (some c) = returns c

  -- `get`, `operator*` and `operator->`.
  unfoldable pub get : PooledConnection Connection → Outcome Exception Connection
  get h = or_invalid h.connection

  abbrev pub valid : PooledConnection Connection → Bool
  valid h = has_value h.connection

  abbrev close_held : (Connection → Connection) → Option Connection → Option Connection
  close_held close none = none
  close_held close (some c) = some (close c)

  unfoldable pub mark_broken :
      (Connection → Connection) → PooledConnection Connection → PooledConnection Connection
  mark_broken close h = record h { broken = true; connection = close_held close h.connection }

  abbrev pub held :
      Outcome Exception (Option Connection) → Outcome Exception (PooledConnection Connection)
  held (returns (some c)) = returns (pooled c)
  held (returns none) = throws (pool_exhausted_exception "Connection ptr is nullptr")
  held (throws e) = throws e
  held sleeps = sleeps
  held undefined = undefined

-- The pool and every handle that was ever made; a destroyed one stays as it was moved out.
pub record System (Connection : Type 0) : Type 0 where
  pub pool : PoolState Connection
  pub handles : List (PooledConnection Connection)

pub data Event (Connection : Type 0) : Type 0 where
  acquires acquire_resumes tries : Outcome Exception Connection → Event Connection
  try_resumes : Outcome Exception Connection → Bool → Event Connection
  moves destroys breaks : ℕ → Event Connection
  assigns : ℕ → ℕ → Event Connection
  shuts_down : Event Connection

module _ {Connection : Type 0} (is_open : Connection → Bool) (close : Connection → Connection) where
  abbrev with_handle :
      System Connection
      → Outcome Exception (PooledConnection Connection)
      → List (PooledConnection Connection)
  with_handle s (returns h) = s.handles ++ h ∷ []
  with_handle s (throws e) = s.handles
  with_handle s sleeps = s.handles
  with_handle s undefined = s.handles

  -- `ConnectionPool::acquire` and `try_acquire_for`: what the pool hands out becomes a handle.
  unfoldable pub hand_out :
      System Connection
      → Outcome Exception (Option Connection) × PoolState Connection
      → System Connection
  hand_out s (r, p) = record { pool = p; handles = with_handle s (held r) }

  unfoldable pub move_handle :
      System Connection → ℕ → Option (PooledConnection Connection) → System Connection
  unfolding move_construct
  move_handle s i none = s
  move_handle s i (some h) =
      let (fresh, old) = move_construct h in
      record s { handles = set s.handles i old ++ fresh ∷ [] }

  unfoldable pub destroy_handle :
      System Connection → ℕ → Option (PooledConnection Connection) → System Connection
  unfolding destroy
  destroy_handle s i none = s
  destroy_handle s i (some h) = record {
    pool = destroy is_open s.pool h;
    handles = set s.handles i (moved_out h);
  }

  unfoldable pub break_handle :
      System Connection → ℕ → Option (PooledConnection Connection) → System Connection
  unfolding mark_broken
  break_handle s i none = s
  break_handle s i (some h) = record s { handles = set s.handles i (mark_broken close h) }

  -- `handles[i] = std::move(handles[j])`.
  unfoldable pub assign_handle :
      System Connection
      → ℕ
      → ℕ
      → Option (PooledConnection Connection)
      → Option (PooledConnection Connection)
      → System Connection
  unfolding move_assign
  assign_handle s i j (some target) (some source) =
      if i == j
      then s
      else let (p, target', source') = move_assign is_open s.pool target source in
        record { pool = p; handles = set (set s.handles i target') j source' }
  assign_handle s i j _ _ = s

  unfoldable pub step : System Connection → Event Connection → System Connection
  unfolding hand_out move_handle destroy_handle break_handle assign_handle
  step s (acquires connect) = hand_out s (acquire s.pool connect)
  step s (acquire_resumes connect) = hand_out s (acquire_resume s.pool connect)
  step s (tries connect) = hand_out s (try_acquire_for s.pool connect)
  step s (try_resumes connect late) = hand_out s (try_acquire_for_resume s.pool connect late)
  step s (moves i) = move_handle s i (get_elem? s.handles i)
  step s (destroys i) = destroy_handle s i (get_elem? s.handles i)
  step s (breaks i) = break_handle s i (get_elem? s.handles i)
  step s (assigns i j) = assign_handle s i j (get_elem? s.handles i) (get_elem? s.handles j)
  step s shuts_down = record s { pool = shutdown s.pool }

  unfoldable pub run : System Connection → List (Event Connection) → System Connection
  run s [] = s
  run s (e ∷ es) = run (step s e) es
