-- ===== src/Db/Session.antt =====
-- db/core/ConnectionTransaction.cpp: a transaction on a connection. The state that a `Connection`
-- and its transaction share through a `shared_ptr` stands beside the transaction in one record.
pub mod Consistent
pub mod Exclusive
pub mod Connection
pub mod Autocommit
pub mod Committed
use rtl.Base.{
  List, [], ◌∷◌, Bool, true, false, not, ◌&&◌, ◌||◌, String, Option, none, some, if◌then◌else◌,
  Outcome, returns, throws, sleeps, undefined, M, pure, throw, ◌>>=◌, ◌>>◌,
}
use rtl.Db.Errors.{Exception, logic_error, connection_exception}
use rtl.Db.Pqxx.{Pqxx, PqxxException, Reply, got, failed, translate}

-- db/core/detail/ConnectionState.hpp.
pub record ConnectionState (Config Conn : Type 0) : Type 0 where
  pub connection : Option Conn
  pub cfg : Config
  pub transaction_active : Bool

-- `state` tells whether the shared pointer is set, `impl` whether a `pqxx::work` is alive.
pub record ConnectionTransaction : Type 0 where
  pub state : Bool
  pub impl : Bool
  pub active : Bool

pub record Session (Config Conn : Type 0) : Type 0 where
  pub shared : ConnectionState Config Conn
  pub txn : ConnectionTransaction

-- A handle with no state: before its constructor has run, or after a move.
abbrev pub null_transaction : ConnectionTransaction
null_transaction = record { state = false; impl = false; active = false }

-- Goes on with the answer of libpqxx, or throws its exception as the database layer's.
abbrev pub from_reply : {A : Type 0} → Reply A → Outcome Exception A
from_reply (got a) = returns a
from_reply (failed ex) = throws (translate ex)

module _ (pq : Pqxx) where
  open pq use {Config, Conn, Rows, Param}

  abbrev pub S : Type 0
  S = Session Config Conn

  -- A call on the connection that `work` refers to; a destroyed one is undefined behaviour.
  abbrev pub on_conn :
      {A : Type 0} → (Conn → Reply A × Conn) → S → Option Conn → Outcome Exception A × S
  on_conn f s none = (undefined, s)
  on_conn f s (some c) =
      let (r, c') = f c in
      (from_reply r, record s { shared = record (s.shared) { connection = some c' } })

  abbrev pub on_work : {A : Type 0} → (Conn → Reply A × Conn) → M Exception S A
  on_work f s = on_conn f s s.shared.connection

  -- `begin`, on the tests of the connection itself.
  abbrev pub begin_on : S → Option Conn → Outcome Exception (Unit {0}) × S
  begin_on s none =
      (throws (connection_exception "Connection state does not own a connection" none), s)
  begin_on s (some c) =
      if not (pq.is_open c)
      then (throws (connection_exception "Connection is not open" none), s)
      else if s.shared.transaction_active
      then (throws (logic_error "Connection already has an active transaction"), s)
      else if s.txn.active || s.txn.impl
      then (throws (logic_error "Transaction has already been started"), s)
      else let (r, c') = pq.begin_work c in
        elim r [
          | got _ ↦ (
            returns tt,
            record {
              shared = record (s.shared) { connection = some c'; transaction_active = true };
              txn = record (s.txn) { impl = true; active = true };
            },
          )
          | failed ex ↦ (
            throws (translate ex),
            record s { shared = record (s.shared) { connection = some c' } },
          )
        ]

  unfoldable pub begin : M Exception S (Unit {0})
  begin s =
      if not s.txn.state
      then (throws (logic_error "Invalid transaction handle"), s)
      else begin_on s s.shared.connection

  unfoldable pub ensure_active : M Exception S (Unit {0})
  ensure_active s =
      if not s.txn.state
      then (throws (logic_error "Invalid transaction handle"), s)
      else if not s.txn.active || not s.txn.impl
      then (throws (logic_error "Transaction is not active"), s)
      else (returns tt, s)

  -- The end of the transaction's own fields in `finish`.
  abbrev pub finished : S → S
  finished s = record {
    shared = record (s.shared) {
      transaction_active = if s.txn.state then false else s.shared.transaction_active;
    };
    txn = record (s.txn) { impl = false; active = false };
  }

  -- Destroys the `pqxx::work`, which refers to its connection.
  abbrev pub finish_on : S → Option Conn → Outcome Exception (Unit {0}) × S
  finish_on s none = if s.txn.impl then (undefined, s) else (returns tt, finished s)
  finish_on s (some c) =
      if s.txn.impl
      then (
        returns tt,
        finished (record s { shared = record (s.shared) { connection = some (pq.end_work c) } }),
      )
      else (returns tt, finished s)

  unfoldable pub finish : M Exception S (Unit {0})
  finish s = finish_on s s.shared.connection

  unfoldable pub exec : String → M Exception S Rows
  exec sql = do ensure_active; on_work (pq.exec sql)

  unfoldable pub exec_params : String → Param → M Exception S Rows
  exec_params sql params = do
    ensure_active
    if pq.no_params params then on_work (pq.exec sql) else on_work (pq.exec_with sql params)

  unfoldable pub exec_prepared : String → Param → M Exception S Rows
  exec_prepared name params = do ensure_active; on_work (pq.exec_prepped name params)

  unfoldable pub commit : M Exception S (Unit {0})
  commit = do ensure_active; on_work (pq.commit); finish

  unfoldable pub rollback : M Exception S (Unit {0})
  rollback = do ensure_active; finish

  abbrev pub active : S → Bool
  active s = s.txn.active

  -- The constructor, on the state of a connection.
  unfoldable pub construct : ConnectionState Config Conn → Outcome Exception (Unit {0}) × S
  construct shared =
      begin (record { shared = shared; txn = record null_transaction { state = true } })

  -- The move constructor: the new handle and the old one.
  unfoldable pub move_construct :
      ConnectionTransaction → ConnectionTransaction × ConnectionTransaction
  move_construct txn =
      (record { state = txn.state; impl = txn.impl; active = txn.active }, null_transaction)

  -- The move assignment to `target` of another transaction, on the same or another connection: what
  -- is left of the target's connection, the target with the source's, and the source's handle.
  abbrev pub assigned :
      Outcome Exception (Unit {0}) × S
      → S
      → Outcome Exception (Unit {0}) × ConnectionState Config Conn × S × ConnectionTransaction
  assigned (r, target) source = (
    r,
    target.shared,
    record {
      shared = source.shared;
      txn = record { state = source.txn.state; impl = source.txn.impl; active = source.txn.active };
    },
    null_transaction,
  )

  unfoldable pub move_assign :
      S → S → Outcome Exception (Unit {0}) × ConnectionState Config Conn × S × ConnectionTransaction
  move_assign target source = assigned (finish target) source

  -- One call of a transaction's user; its result is dropped.
  pub data Call : Type 0 where
    execs : String → Call
    execs_params execs_prepared : String → Param → Call
    commits rollbacks finishes : Call

  abbrev pub forget : {A : Type 0} → Outcome Exception A × S → Outcome Exception (Unit {0}) × S
  forget (returns a, s) = (returns tt, s)
  forget (throws e, s) = (throws e, s)
  forget (sleeps, s) = (sleeps, s)
  forget (undefined, s) = (undefined, s)

  unfoldable pub step : S → Call → Outcome Exception (Unit {0}) × S
  step s (execs sql) = forget (exec sql s)
  step s (execs_params sql params) = forget (exec_params sql params s)
  step s (execs_prepared name params) = forget (exec_prepared name params s)
  step s commits = commit s
  step s rollbacks = rollback s
  step s finishes = finish s

  -- The calls one after another: each caller catches what a call throws, but nothing follows a call
  -- that is undefined.
  abbrev pub or_stop :
      (S → Outcome Exception (Unit {0}) × S)
      → Outcome Exception (Unit {0}) × S
      → Outcome Exception (Unit {0}) × S
  or_stop rest (undefined, s) = (undefined, s)
  or_stop rest (returns a, s) = rest s
  or_stop rest (throws e, s) = rest s
  or_stop rest (sleeps, s) = rest s

  unfoldable pub run : List Call → S → Outcome Exception (Unit {0}) × S
  run [] s = (returns tt, s)
  run (call ∷ calls) s = or_stop (run calls) (step s call)
