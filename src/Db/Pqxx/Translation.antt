-- ===== src/Db/Pqxx/Translation.antt =====
-- Which errors db/core/detail/PqxxHelpers.hpp makes of those of libpqxx.
use rtl.Base.{implies, ◌&&◌, ◌||◌, ◌≡◌, ◌↔◌, true, false, Option, none, some, arith}
use rtl.Db.Errors.{
  Exception, ErrorCode, db_error, logic_error, runtime_error, out_of_range, foreign,
}
use rtl.Db.Pqxx.{
  deadlock_detected, serialization_failure, integrity_constraint_violation, transaction_rollback,
  sql_error, conversion_error, argument_error, usage_error, internal_error, in_doubt_error,
  broken_connection, failure, PqxxException, translate,
}

-- The documented class hierarchy of libpqxx, as far as the handlers name it: which class derives
-- from which, and that no exception is of two classes that do not derive from one another.
pub record IsPqxx (ex : PqxxException) : Type 0 where
  pub deadlock : implies (ex.is_a deadlock_detected) (ex.is_a transaction_rollback) ≡ true
  pub serialization : implies (ex.is_a serialization_failure) (ex.is_a transaction_rollback) ≡ true
  pub rollback : implies (ex.is_a transaction_rollback) (ex.is_a sql_error) ≡ true
  pub constraint : implies (ex.is_a integrity_constraint_violation) (ex.is_a sql_error) ≡ true
  pub sql : implies (ex.is_a sql_error) (ex.is_a failure) ≡ true
  pub in_doubt : implies (ex.is_a in_doubt_error) (ex.is_a failure) ≡ true
  pub broken : implies (ex.is_a broken_connection) (ex.is_a failure) ≡ true
  pub not_both : (ex.is_a deadlock_detected && ex.is_a serialization_failure) ≡ false
  pub broken_not_sql : (ex.is_a broken_connection && ex.is_a sql_error) ≡ false
  pub broken_not_doubt : (ex.is_a broken_connection && ex.is_a in_doubt_error) ≡ false
  pub failure_not_logic :
      (ex.is_a failure
        && (ex.is_a conversion_error
            || ex.is_a argument_error
            || ex.is_a usage_error
            || ex.is_a internal_error))
      ≡ false

abbrev pub code? : Exception → Option ErrorCode
code? (db_error code message state) = some code
code? (logic_error message) = none
code? (runtime_error message) = none
code? (out_of_range message) = none
code? (foreign message) = none

-- For an exception of libpqxx's class hierarchy: it becomes a `SerializationFailure` exactly if it
-- is a `pqxx::serialization_failure`, and a `DeadlockDetected` exactly if it is a
-- `pqxx::deadlock_detected`, though both derive from classes that have handlers of their own.
pub translate_retryable :
    (ex : PqxxException)
    → IsPqxx ex
    → ((code? (translate ex) ≡ some ErrorCode.serialization_failure)
        ↔ (ex.is_a serialization_failure ≡ true))
      × ((code? (translate ex) ≡ some ErrorCode.deadlock_detected)
          ↔ (ex.is_a deadlock_detected ≡ true))
unfolding translate
translate_retryable ex h = ground arith

-- For an exception of libpqxx's class hierarchy that is a `pqxx::broken_connection`: it becomes a
-- `ConnectionError`, past the handlers of the other classes.
pub translate_broken :
    (ex : PqxxException)
    → IsPqxx ex
    → ex.is_a broken_connection ≡ true
    → code? (translate ex) ≡ some ErrorCode.connection_error
unfolding translate
translate_broken ex h e = ground arith
