-- ===== src/Db/Examples.antt =====
-- The database layer on concrete inputs, with a small server in the place of libpqxx.
use text.Mathlib.Text.{◌==◌}
use rtl.Base.{
  ℕ, suc, ◌≡◌, ◌↔◌, refl, Bool, true, false, String, List, [], ◌∷◌, some, if◌then◌else◌, ltb,
}
use rtl.Db.Errors.{ErrorCode}
use rtl.Db.Pqxx.{
  Pqxx, PqxxClass, deadlock_detected, serialization_failure, transaction_rollback, sql_error,
  broken_connection, failure, PqxxException, Reply, got, failed, translate,
}
use rtl.Db.Pqxx.Translation.{IsPqxx, code?, translate_retryable}
use rtl.Db.Session.{
  begin, ensure_active, ConnectionState, Call, execs, execs_params, commits, finishes, construct,
  exec as tx_exec, commit, finish, run,
}
use rtl.Db.Session.Consistent.{Sound, construct-run-Sound}
use rtl.Db.Session.Connection.{
  exec, exec_params, exec_prepared, in_transaction, ensure_open, scoped,
}
use rtl.Db.Session.Autocommit.{Clean, autocommit-Clean}
use rtl.Db.Session.Committed.{Committed, exec-Committed}

abbrev is_deadlock : PqxxClass → Bool
is_deadlock deadlock_detected = true
is_deadlock transaction_rollback = true
is_deadlock sql_error = true
is_deadlock failure = true
is_deadlock _ = false

abbrev is_broken : PqxxClass → Bool
is_broken broken_connection = true
is_broken failure = true
is_broken _ = false

abbrev deadlock : PqxxException
deadlock = record { what = "deadlock detected"; sqlstate = "40P01"; is_a = is_deadlock }

abbrev lost : PqxxException
lost = record { what = "connection lost"; sqlstate = ""; is_a = is_broken }

abbrev deadlock_IsPqxx : IsPqxx deadlock
deadlock_IsPqxx = record {
  deadlock = refl;
  serialization = refl;
  rollback = refl;
  constraint = refl;
  sql = refl;
  in_doubt = refl;
  broken = refl;
  not_both = refl;
  broken_not_sql = refl;
  broken_not_doubt = refl;
  failure_not_logic = refl;
}

abbrev lost_IsPqxx : IsPqxx lost
lost_IsPqxx = record {
  deadlock = refl;
  serialization = refl;
  rollback = refl;
  constraint = refl;
  sql = refl;
  in_doubt = refl;
  broken = refl;
  not_both = refl;
  broken_not_sql = refl;
  broken_not_doubt = refl;
  failure_not_logic = refl;
}

translate_retryable_example :
    ((code? (translate deadlock) ≡ some ErrorCode.serialization_failure)
      ↔ (is_deadlock serialization_failure ≡ true))
    × ((code? (translate deadlock) ≡ some ErrorCode.deadlock_detected)
        ↔ (is_deadlock deadlock_detected ≡ true))
translate_retryable_example = translate_retryable deadlock deadlock_IsPqxx

-- A server that counts the statements it has answered, and deadlocks on "lock".
abbrev answer : {A : Type 0} → String → A → ℕ → Reply A × ℕ
answer sql a n = if sql == "lock" then (failed deadlock, n) else (got a, suc n)

abbrev server : Pqxx
server = record {
  Config = ℕ;
  Conn = ℕ;
  Rows = String;
  Param = ℕ;
  config_valid = λ cfg. ltb 0 cfg;
  connect = λ cfg. got 0;
  is_open = λ n. true;
  begin_work = λ n. (got tt, n);
  exec = λ sql n. answer sql sql n;
  exec_with = λ sql params n. answer sql sql n;
  exec_prepped = λ name params n. answer name name n;
  prepare = λ name sql n. (got tt, n);
  commit = λ n. (got tt, n);
  end_work = λ n. n;
  no_params = λ params. if ltb 0 params then false else true;
}

abbrev fresh : ConnectionState ℕ ℕ
fresh = record { connection = some 0; cfg = 1; transaction_active = false }

-- A statement, a deadlock, a commit, and a statement that is too late.
abbrev calls : List (Call server)
calls = execs "select" ∷ execs_params "lock" 1 ∷ commits ∷ execs "select" ∷ finishes ∷ []

construct-run-Sound_example :
    Sound server (construct server fresh)
    × Sound server (run server calls (construct server fresh).1)
construct-run-Sound_example = construct-run-Sound server fresh calls refl

autocommit-Clean_example :
    Clean server (exec server "lock" (some fresh))
    × Clean server (exec_params server "lock" 1 (some fresh))
    × Clean server (exec_prepared server "lock" 1 (some fresh))
autocommit-Clean_example = autocommit-Clean server "lock" 1 (some fresh) refl

exec-Committed_example :
    (c : ℕ) × (some 0 ≡ some c)
    × ((server.begin_work c).0 ≡ got tt)
    × Committed server "select" (server.begin_work c).1 "select"
unfolding exec in_transaction construct ensure_open begin scoped finish tx_exec ensure_active commit
exec-Committed_example = exec-Committed server "select" fresh "select" refl
