-- ===== src/Db/Errors.antt =====
-- db/core/Errors.hpp: the exceptions of the database layer, and the standard ones that it throws.
use rtl.Base.{String, Option, none}

pub data ErrorCode : Type 0 where
  unknown connection_error pool_exhausted pool_timeout query_error constraint_violation : ErrorCode
  serialization_failure deadlock_detected transaction_aborted mapping_error : ErrorCode
  configuration_error : ErrorCode

-- `DbError` with its code, message and SQL state. `foreign` is an exception of any other type, such
-- as one that a caller's function throws.
pub data Exception : Type 0 where
  db_error : ErrorCode → String → Option String → Exception
  logic_error runtime_error out_of_range foreign : String → Exception

abbrev pub connection_exception : String → Option String → Exception
connection_exception message sql_state = db_error ErrorCode.connection_error message sql_state

abbrev pub pool_exhausted_exception : String → Exception
pool_exhausted_exception message = db_error ErrorCode.pool_exhausted message none

abbrev pub pool_timeout_exception : String → Exception
pool_timeout_exception message = db_error ErrorCode.pool_timeout message none

abbrev pub query_exception : String → Option String → Exception
query_exception message sql_state = db_error ErrorCode.query_error message sql_state

abbrev pub constraint_exception : String → Option String → Exception
constraint_exception message sql_state = db_error ErrorCode.constraint_violation message sql_state

abbrev pub serialization_exception : String → Option String → Exception
serialization_exception message sql_state =
    db_error ErrorCode.serialization_failure message sql_state

abbrev pub deadlock_exception : String → Option String → Exception
deadlock_exception message sql_state = db_error ErrorCode.deadlock_detected message sql_state

abbrev pub aborted_exception : String → Option String → Exception
aborted_exception message sql_state = db_error ErrorCode.transaction_aborted message sql_state

abbrev pub mapping_exception : String → Exception
mapping_exception message = db_error ErrorCode.mapping_error message none

abbrev pub configuration_exception : String → Exception
configuration_exception message = db_error ErrorCode.configuration_error message none
