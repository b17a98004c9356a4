-- ===== src/Db/Pqxx.antt =====
-- libpqxx as db/core uses it, and db/core/detail/PqxxHelpers.hpp, which turns its exceptions into
-- those of the database layer.
use Prim.Native.String
use text.Mathlib.Text.{◌==◌}
use rtl.Base.{String, Bool, true, false, Option, none, some, if◌then◌else◌}
use rtl.Db.Errors.{
  Exception, foreign, connection_exception, query_exception, constraint_exception,
  serialization_exception, deadlock_exception, aborted_exception, mapping_exception,
}
pub mod Translation

-- The exception classes that `translate_pqxx_exceptions` names in its handlers.
pub data PqxxClass : Type 0 where
  deadlock_detected serialization_failure integrity_constraint_violation : PqxxClass
  transaction_rollback sql_error conversion_error argument_error usage_error : PqxxClass
  internal_error in_doubt_error broken_connection failure : PqxxClass

-- An exception that libpqxx throws: `is_a` tells which of the classes it is of, or derives from.
pub record PqxxException : Type 0 where
  pub what : String
  pub sqlstate : String
  pub is_a : PqxxClass → Bool

-- How a call into libpqxx ends.
pub data Reply (A : Type 0) : Type 0 where
  got : A → Reply A
  failed : PqxxException → Reply A

unfoldable pub to_sql_state : String → Option String
to_sql_state sql_state = if sql_state == "" then none else some sql_state

-- The handlers of `translate_pqxx_exceptions`, in their order: the first whose class the exception
-- is of. An exception of no such class goes on as it is.
unfoldable pub translate : PqxxException → Exception
translate ex =
    if ex.is_a deadlock_detected
    then deadlock_exception ex.what (to_sql_state ex.sqlstate)
    else if ex.is_a serialization_failure
    then serialization_exception ex.what (to_sql_state ex.sqlstate)
    else if ex.is_a integrity_constraint_violation
    then constraint_exception ex.what (to_sql_state ex.sqlstate)
    else if ex.is_a transaction_rollback
    then aborted_exception ex.what (to_sql_state ex.sqlstate)
    else if ex.is_a sql_error
    then query_exception ex.what (to_sql_state ex.sqlstate)
    else if ex.is_a conversion_error
    then mapping_exception ex.what
    else if ex.is_a argument_error
    then query_exception ex.what none
    else if ex.is_a usage_error
    then query_exception ex.what none
    else if ex.is_a internal_error
    then query_exception ex.what none
    else if ex.is_a in_doubt_error
    then aborted_exception ex.what none
    else if ex.is_a broken_connection
    then connection_exception ex.what none
    else if ex.is_a failure
    then connection_exception ex.what none
    else foreign ex.what

-- The handlers of `Connection::try_to_establish_connection`.
unfoldable pub translate_connect : PqxxException → Exception
translate_connect ex =
    if ex.is_a broken_connection
    then connection_exception ex.what none
    else if ex.is_a failure
    then connection_exception ex.what none
    else foreign ex.what

-- What the program uses of libpqxx. A `Conn` is a `pqxx::connection` with all that the server knows
-- of it; `end_work` is the destructor of `pqxx::work`.
pub record Pqxx : Type 1 where
  pub Config : Type 0
  pub Conn : Type 0
  pub Rows : Type 0
  pub Param : Type 0
  pub config_valid : Config → Bool
  pub connect : Config → Reply Conn
  pub is_open : Conn → Bool
  pub begin_work : Conn → Reply (Unit {0}) × Conn
  pub exec : String → Conn → Reply Rows × Conn
  pub exec_with : String → Param → Conn → Reply Rows × Conn
  pub exec_prepped : String → Param → Conn → Reply Rows × Conn
  pub prepare : String → String → Conn → Reply (Unit {0}) × Conn
  pub commit : Conn → Reply (Unit {0}) × Conn
  pub end_work : Conn → Conn
  pub no_params : Param → Bool
