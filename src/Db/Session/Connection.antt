-- ===== src/Db/Session/Connection.antt =====
-- db/core/Connection.cpp: a connection, and the calls that run in a transaction of their own. The
-- pointer to the shared state is null after a move.
use rtl.Base.{
  Bool, true, false, not, String, Option, none, some, if◌then◌else◌, Outcome, returns, throws,
  sleeps, undefined, M, pure, ◌>>=◌, ◌>>◌,
}
use rtl.Db.Errors.{Exception, logic_error, connection_exception, configuration_exception}
use rtl.Db.Pqxx.{Pqxx, got, failed, translate_connect}
use rtl.Db.Session.{
  ConnectionState, S, from_reply, construct, finish, exec as tx_exec, exec_params as tx_exec_params,
  exec_prepared as tx_exec_prepared, commit,
}

module _ (pq : Pqxx) where
  open pq use {Config, Conn, Rows, Param}

  abbrev pub Connection : Type 0
  Connection = Option (ConnectionState Config Conn)

  abbrev held_open : Option Conn → Bool
  held_open none = false
  held_open (some c) = pq.is_open c

  unfoldable pub is_open : Connection → Bool
  is_open none = false
  is_open (some shared) = held_open shared.connection

  -- Destroys the `pqxx::connection`, if there is one.
  unfoldable pub close : Connection → Bool × Connection
  close none = (true, none)
  close (some shared) = (true, some (record shared { connection = none }))

  -- The constructor, by `try_to_establish_connection`.
  unfoldable pub establish : Config → Outcome Exception Connection
  establish cfg =
      if not (pq.config_valid cfg)
      then throws (configuration_exception "Invalid connection configuration")
      else elim (pq.connect cfg) [
        | got c ↦
            returns (some (record { connection = some c; cfg = cfg; transaction_active = false }))
        | failed ex ↦ throws (translate_connect ex)
      ]

  unfoldable pub ensure_open : Connection → Outcome Exception (Unit {0})
  unfolding is_open
  ensure_open none = throws (logic_error "Invalid connection handle")
  ensure_open (some shared) =
      if not (is_open (some shared))
      then throws (connection_exception "Connection is not open" none)
      else returns tt

  -- A scope that owns a transaction: its destructor runs however the scope is left. A destructor
  -- that is undefined makes the whole undefined.
  abbrev pub destroyed :
      {A : Type 0} → Outcome Exception A → Outcome Exception (Unit {0}) → Outcome Exception A
  destroyed r undefined = undefined
  destroyed r (returns a) = r
  destroyed r (throws e) = r
  destroyed r sleeps = r

  unfoldable pub scoped : {A : Type 0} → M Exception (S pq) A → M Exception (S pq) A
  scoped body s = let (r, s') = body s in let (d, s'') = finish pq s' in (destroyed r d, s'')

  -- `begin_transaction`, and then the scope of the transaction that it gives.
  abbrev pub in_transaction_on :
      {A : Type 0}
      → M Exception (S pq) A
      → Outcome Exception (Unit {0}) × S pq
      → Outcome Exception A × Connection
  in_transaction_on body (returns _, s) = let (r, s') = scoped body s in (r, some s'.shared)
  in_transaction_on body (throws e, s) = (throws e, some s.shared)
  in_transaction_on body (sleeps, s) = (sleeps, some s.shared)
  in_transaction_on body (undefined, s) = (undefined, some s.shared)

  abbrev pub opened :
      {A : Type 0}
      → (ConnectionState Config Conn → Outcome Exception A × Connection)
      → Outcome Exception (Unit {0})
      → Connection
      → Outcome Exception A × Connection
  opened f (throws e) conn = (throws e, conn)
  opened f sleeps conn = (sleeps, conn)
  opened f undefined conn = (undefined, conn)
  opened f (returns _) none = (undefined, none)
  opened f (returns _) (some shared) = f shared

  unfoldable pub in_transaction : {A : Type 0} → M Exception (S pq) A → M Exception Connection A
  in_transaction body conn =
      opened (λ shared. in_transaction_on body (construct pq shared)) (ensure_open conn) conn

  -- A statement, and the commit of its transaction.
  abbrev pub committed : {A : Type 0} → M Exception (S pq) A → M Exception (S pq) A
  committed statement = do result ← statement; commit pq; pure result

  unfoldable pub exec : String → M Exception Connection Rows
  unfolding in_transaction
  exec sql = in_transaction (committed (tx_exec pq sql))

  unfoldable pub exec_params : String → Param → M Exception Connection Rows
  unfolding in_transaction exec
  exec_params sql params conn =
      opened
        (λ shared.
          if pq.no_params params
          then exec sql (some shared)
          else in_transaction (committed (tx_exec_params pq sql params)) (some shared))
        (ensure_open conn) conn

  unfoldable pub exec_prepared : String → Param → M Exception Connection Rows
  unfolding in_transaction
  exec_prepared name params = in_transaction (committed (tx_exec_prepared pq name params))

  abbrev prepare_on :
      String
      → String
      → ConnectionState Config Conn
      → Option Conn
      → Outcome Exception (Unit {0}) × Connection
  prepare_on name sql shared none = (undefined, some shared)
  prepare_on name sql shared (some c) =
      let (r, c') = pq.prepare name sql c in
      (from_reply r, some (record shared { connection = some c' }))

  unfoldable pub prepare : String → String → M Exception Connection (Unit {0})
  prepare name sql conn =
      opened (λ shared. prepare_on name sql shared shared.connection) (ensure_open conn) conn
