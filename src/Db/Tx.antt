-- ===== src/Db/Tx.antt =====
-- db/tx/Transaction.cpp: a transaction on a connection of the pool. `returned` lists the connections
-- that its handle has given back to the pool.
pub mod Settles
pub mod Leases
pub mod Endings
pub mod Retry
pub mod Savepoint
pub mod Pooled
pub mod Runs
mod Examples
use rtl.Base.{
  Bool, true, false, String, List, [], ◌∷◌, ◌++◌, Option, none, some, if◌then◌else◌, Outcome,
  returns, throws, sleeps, undefined, M, after,
}
use rtl.Db.Errors.{
  Exception, ErrorCode, db_error, logic_error, runtime_error, out_of_range, foreign,
}
use rtl.Db.Pqxx.{Pqxx}
use rtl.Db.Session.Connection.{ensure_open}
use rtl.Db.Session.{
  ConnectionState, Session, S, construct as begin_on_connection, finish, exec as session_exec,
  exec_params as session_exec_params, exec_prepared as session_exec_prepared,
  commit as session_commit, rollback as session_rollback,
}

pub data IsolationLevel : Type 0 where
  read_committed repeatable_read serializable : IsolationLevel

-- Whether `catch (ConnectionError &)` takes the exception.
abbrev pub is_connection_error : Exception → Bool
is_connection_error (db_error ErrorCode.connection_error message sql_state) = true
is_connection_error _ = false

module _ (pq : Pqxx) where
  open pq use {Config, Conn, Rows, Param}

  -- The pooled connection with the transaction on it.
  pub record Impl : Type 0 where
    pub session : S pq
    pub broken : Bool

  pub record Transaction : Type 0 where
    pub impl : Option Impl
    pub returned : List (ConnectionState Config Conn)

  -- `PooledConnection::mark_broken`, which closes the connection.
  abbrev pub mark_broken : Impl → Impl
  mark_broken i = record {
    session = record (i.session) { shared = record (i.session.shared) { connection = none } };
    broken = true;
  }

  -- The handler of `ConnectionError`, which throws it again.
  abbrev pub handle_lost : {A : Type 0} → Outcome Exception A → Impl → Impl
  handle_lost (throws e) i = if is_connection_error e then mark_broken i else i
  handle_lost (returns a) i = i
  handle_lost sleeps i = i
  handle_lost undefined i = i

  -- A call on the transaction of the connection, between `ensure_valid` and the handler.
  abbrev pub on_impl :
      {A : Type 0}
      → M Exception (S pq) A
      → Transaction
      → Option Impl
      → Outcome Exception A × Transaction
  on_impl call t none = (throws (logic_error "Invalid transaction handle"), t)
  on_impl call t (some i) =
      let (r, s) = call i.session in
      (r, record t { impl = some (handle_lost r (record i { session = s })) })

  unfoldable pub exec : String → M Exception Transaction Rows
  exec sql t = on_impl (session_exec pq sql) t t.impl

  unfoldable pub exec_params : String → Param → M Exception Transaction Rows
  exec_params sql params t = on_impl (session_exec_params pq sql params) t t.impl

  unfoldable pub exec_prepared : String → Param → M Exception Transaction Rows
  exec_prepared name params t = on_impl (session_exec_prepared pq name params) t t.impl

  -- Destroys the `Impl`: first the transaction, and then the pooled connection, which goes back.
  abbrev pub release_on : Transaction → Option Impl → Outcome Exception (Unit {0}) × Transaction
  release_on t none = (returns tt, t)
  release_on t (some i) =
      let (r, s) = finish pq i.session in
      (r, record { impl = none; returned = t.returned ++ s.shared ∷ [] })

  unfoldable pub release : M Exception Transaction (Unit {0})
  release t = release_on t t.impl

  unfoldable pub commit : M Exception Transaction (Unit {0})
  unfolding release
  commit t = after (λ _. release) (on_impl (session_commit pq) t t.impl)

  unfoldable pub rollback : M Exception Transaction (Unit {0})
  unfolding release
  rollback t = after (λ _. release) (on_impl (session_rollback pq) t t.impl)

  -- The constructor, on the connection that the pool gave. If it throws, the connection goes back.
  abbrev pub made : Outcome Exception (Unit {0}) × S pq → Outcome Exception (Unit {0}) × Transaction
  made (returns _, s) =
      (returns tt, record { impl = some (record { session = s; broken = false }); returned = [] })
  made (r, s) = (r, record { impl = none; returned = s.shared ∷ [] })

  abbrev pub made_open :
      Outcome Exception (Unit {0})
      → ConnectionState Config Conn
      → Outcome Exception (Unit {0}) × Transaction
  made_open (returns _) shared = made (begin_on_connection pq shared)
  made_open r shared = (r, record { impl = none; returned = shared ∷ [] })

  unfoldable pub construct :
      ConnectionState Config Conn → Outcome Exception (Unit {0}) × Transaction
  construct shared = made_open (ensure_open pq (some shared)) shared

  abbrev is_active : Option Impl → Bool
  is_active none = false
  is_active (some i) = i.session.txn.active

  unfoldable pub active : Transaction → Bool
  active t = is_active t.impl

  abbrev isolation_text : IsolationLevel → String
  isolation_text read_committed = "SET TRANSACTION ISOLATION LEVEL READ COMMITTED"
  isolation_text repeatable_read = "SET TRANSACTION ISOLATION LEVEL REPEATABLE READ"
  isolation_text serializable = "SET TRANSACTION ISOLATION LEVEL SERIALIZABLE"

  unfoldable pub set_isolation_level : IsolationLevel → M Exception Transaction Rows
  unfolding exec
  set_isolation_level level = exec (isolation_text level)

  -- The constructor with a level: if it throws after the transaction was made, its `Impl` goes, but
  -- its destructor does not run.
  abbrev or_release :
      {A : Type 0} → Outcome Exception A × Transaction → Outcome Exception (Unit {0}) × Transaction
  or_release (returns a, t) = (returns tt, t)
  or_release (throws e, t) = after (λ _ t'. (throws e, t')) (release t)
  or_release (sleeps, t) = (sleeps, t)
  or_release (undefined, t) = (undefined, t)

  unfoldable pub construct_at :
      ConnectionState Config Conn → IsolationLevel → Outcome Exception (Unit {0}) × Transaction
  unfolding construct set_isolation_level release
  construct_at shared level =
      after (λ _ t. or_release (set_isolation_level level t)) (construct shared)

  -- The destructor: it rolls an active transaction back, and its `Impl` goes with it.
  abbrev pub rolled_back : Transaction → Option Impl → Outcome Exception (Unit {0}) × Transaction
  rolled_back t none = (returns tt, t)
  rolled_back t (some i) =
      if i.session.txn.active
      then (let (r, s) = session_rollback pq i.session in
          (r, record t { impl = some (record i { session = s }) }))
      else (returns tt, t)

  -- What the destructor throws it catches.
  abbrev pub caught :
      Outcome Exception (Unit {0}) × Transaction → Outcome Exception (Unit {0}) × Transaction
  caught (throws e, t) = (returns tt, t)
  caught r = r

  -- The destructor. A transaction holds its connection up to here, so that the branch for one that
  -- holds none is not taken.
  unfoldable pub destroy : M Exception Transaction (Unit {0})
  unfolding release
  destroy t = after (λ _. release) (caught (rolled_back t t.impl))

  -- One call of the transaction's user.
  pub data Call : Type 0 where
    execs : String → Call
    execs_params execs_prepared : String → Param → Call
    sets : IsolationLevel → Call
    commits rollbacks : Call

  abbrev pub forget :
      {A : Type 0} → Outcome Exception A × Transaction → Outcome Exception (Unit {0}) × Transaction
  forget (returns a, t) = (returns tt, t)
  forget (throws e, t) = (throws e, t)
  forget (sleeps, t) = (sleeps, t)
  forget (undefined, t) = (undefined, t)

  unfoldable pub step : Transaction → Call → Outcome Exception (Unit {0}) × Transaction
  unfolding exec exec_params exec_prepared set_isolation_level commit rollback
  step t (execs sql) = forget (exec sql t)
  step t (execs_params sql params) = forget (exec_params sql params t)
  step t (execs_prepared name params) = forget (exec_prepared name params t)
  step t (sets level) = forget (set_isolation_level level t)
  step t commits = commit t
  step t rollbacks = rollback t

  -- The calls one after another; the user catches what a call throws.
  abbrev pub or_stop :
      (Transaction → Outcome Exception (Unit {0}) × Transaction)
      → Outcome Exception (Unit {0}) × Transaction
      → Outcome Exception (Unit {0}) × Transaction
  or_stop rest (undefined, t) = (undefined, t)
  or_stop rest (returns a, t) = rest t
  or_stop rest (throws e, t) = rest t
  or_stop rest (sleeps, t) = rest t

  unfoldable pub run : List Call → M Exception Transaction (Unit {0})
  run [] t = (returns tt, t)
  run (call ∷ calls) t = or_stop (run calls) (step t call)
