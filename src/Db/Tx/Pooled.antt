-- ===== src/Db/Tx/Pooled.antt =====
-- The transactions of db/tx/Transaction.cpp as what db/tx/TransactionHelper.hpp and Savepoint.cpp
-- call: the implementation of their interfaces.
use Prim.Native.String
use rtl.Base.{String, List, [], ◌++◌, Option, none, some, pop_back, Outcome, sleeps, M}
use rtl.Db.Errors.{Exception}
use rtl.Db.Pqxx.{Pqxx}
use rtl.Db.Session.{ConnectionState}
use rtl.Db.Tx.{
  IsolationLevel, Transaction, construct_at, exec, commit, rollback, active, destroy, forget,
}
use rtl.Db.Tx.Retry.{TransactionOps}
use rtl.Db.Tx.Savepoint.{Statement, savepoint, rollback_to, release_savepoint, SavepointOps}

-- The text that a savepoint sends.
abbrev pub statement_text : Statement → String
statement_text (savepoint name) = String.◌++◌ "SAVEPOINT " name
statement_text (rollback_to name) = String.◌++◌ "ROLLBACK TO SAVEPOINT " name
statement_text (release_savepoint name) = String.◌++◌ "RELEASE SAVEPOINT " name

module _ (pq : Pqxx) where
  open pq use {Config, Conn, Rows, Param}

  abbrev pub transaction_savepoints : SavepointOps (Transaction pq)
  transaction_savepoints = record {
    active = active pq;
    exec = λ st t. forget pq (exec pq (statement_text st) t);
  }

  -- The connections that are idle in the pool, and the transaction that is alive.
  pub record World : Type 0 where
    pub connections : List (ConnectionState Config Conn)
    pub transaction : Transaction pq

  abbrev pub none_alive : Transaction pq
  none_alive = record { impl = none; returned = [] }

  -- The connections that the transaction has given back go to the back of the pool.
  abbrev gave_back :
      Outcome Exception (Unit {0}) × Transaction pq
      → List (ConnectionState Config Conn)
      → Outcome Exception (Unit {0}) × World
  gave_back (r, t) connections = (
    r,
    record { connections = connections ++ t.returned; transaction = record t { returned = [] } },
  )

  abbrev lifted : {A : Type 0} → M Exception (Transaction pq) A → M Exception World A
  lifted call w = let (r, t) = call w.transaction in (r, record w { transaction = t })

  -- With no idle connection the constructor sleeps in the pool.
  abbrev construct_from :
      IsolationLevel
      → Option (ConnectionState Config Conn × List (ConnectionState Config Conn))
      → World
      → Outcome Exception (Unit {0}) × World
  construct_from level none w = (sleeps, w)
  construct_from level (some (c, cs)) w = gave_back (construct_at pq c level) cs

  abbrev pub pooled_transactions :
      {A : Type 0} → IsolationLevel → M Exception (Transaction pq) A → TransactionOps World A
  pooled_transactions level fn = record {
    construct = λ w. construct_from level (pop_back w.connections) w;
    run_fn = lifted fn;
    commit = lifted (commit pq);
    active = λ w. active pq w.transaction;
    rollback = lifted (rollback pq);
    destroy = λ w. gave_back (destroy pq w.transaction) w.connections;
  }
