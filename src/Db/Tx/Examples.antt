-- ===== src/Db/Tx/Examples.antt =====
-- Transactions of a pool on concrete inputs.
use text.Mathlib.Text.{◌==◌}
use rtl.Base.{
  inl, inr, pop_back, ℕ, zero, suc, ◌+◌, ◌≡◌, ◌≢◌, refl, ◌⊎◌, Bool, true, false, String, List, [],
  ◌∷◌, none, some, if◌then◌else◌, ltb, returns, throws, undefined, M,
}
use rtl.Db.Errors.{Exception, deadlock_exception}
use rtl.Db.Pqxx.{Pqxx, PqxxClass, broken_connection, failure, Reply, got, failed}
use rtl.Db.Session.{ConnectionState}
use rtl.Db.Session.Connection.{ensure_open}
use rtl.Db.Session.{
  construct as begin_on_connection, begin, exec as session_exec, ensure_active,
  commit as session_commit, finish,
}
use rtl.Db.Tx.{
  commit, construct_at, exec, serializable, Call, execs, execs_prepared, sets, commits, rollbacks,
  construct, run, destroy,
}
use rtl.Db.Tx.Savepoint
use rtl.Db.Tx.Savepoint.{SavepointOps, recorded, rollbacks as rolls, releases}
use rtl.Db.Tx.Savepoint.Settled.{IsOver, construct-run-settled}
use rtl.Db.Tx.Pooled.{World, none_alive, pooled_transactions}
use rtl.Db.Tx.Leases.{IsReturned, IsLost}
use rtl.Db.Tx.Runs.{construct-run-destroy}
use rtl.Db.Tx.Retry.{TransactionOps, with_retry}
use rtl.Db.Tx.Retry.Outcomes.{
  Fails, FailsTimes, no_times, one_more, exhausted, retry_succeeds, retry_gives_up,
}

abbrev is_broken : PqxxClass → Bool
is_broken broken_connection = true
is_broken failure = true
is_broken _ = false

-- A server that counts its statements, and breaks the connection on "drop".
abbrev answer : {A : Type 0} → String → A → ℕ → Reply A × ℕ
answer sql a n =
    if sql == "drop"
    then (failed (record { what = "lost"; sqlstate = ""; is_a = is_broken }), n)
    else (got a, suc n)

abbrev server : Pqxx
server = record {
  Config = ℕ;
  Conn = ℕ;
  Rows = String;
  Param = ℕ;
  config_valid = λ cfg. ltb 0 cfg;
  connect = λ cfg. got 0;
  is_open = λ n. true;
  begin_work = λ n. (got tt, n);
  exec = λ sql n. answer sql sql n;
  exec_with = λ sql params n. answer sql sql n;
  exec_prepped = λ name params n. answer name name n;
  prepare = λ name sql n. (got tt, n);
  commit = λ n. (got tt, n);
  end_work = λ n. n;
  no_params = λ params. if ltb 0 params then false else true;
}

abbrev idle : ConnectionState ℕ ℕ
idle = record { connection = some 0; cfg = 1; transaction_active = false }

abbrev calls : List (Call server)
calls = sets serializable ∷ execs "select" ∷ commits ∷ execs_prepared "late" 1 ∷ rollbacks ∷ []

construct-run-destroy_example :
    let (r, t) = run server calls (construct server idle).1 in
    let (d, end) = destroy server t in
    (((construct server idle).0 ≢ undefined)
      × (r ≢ undefined)
      × (d ≡ returns tt)
      × IsReturned server end)
    ⊎ (IsLost server t × (d ≡ undefined))
construct-run-destroy_example = construct-run-destroy server idle calls refl

-- A function that deadlocks as often as the state counts, and then returns.
abbrev deadlock : Exception
deadlock = deadlock_exception "deadlock" none

abbrev tired_fn : M Exception ℕ String
tired_fn zero = (returns "done", 0)
tired_fn (suc n) = (throws deadlock, n)

abbrev tired : TransactionOps ℕ String
tired = record {
  construct = λ w. (returns tt, w);
  run_fn = tired_fn;
  commit = λ w. (returns tt, w);
  active = λ w. true;
  rollback = λ w. (returns tt, w);
  destroy = λ w. (returns tt, w);
}

abbrev tired_Fails : (n : ℕ) → Fails tired (suc n) n
tired_Fails n = record {
  begun = suc n;
  constructs = refl;
  error = deadlock;
  failed = n;
  fails = inl refl;
  conflicts = (_, _, inr refl);
  rolled = n;
  rolls_back = inl (refl, refl);
  destroys = refl;
}

tired_twice : FailsTimes tired 2 2 0
tired_twice = one_more (tired_Fails 1) (one_more (tired_Fails 0) no_times)

retry_succeeds_example : with_retry tired (2 + 8) 2 ≡ (returns "done", 0)
retry_succeeds_example = retry_succeeds tired 2 7 2 0 0 0 0 0 "done" tired_twice refl refl refl refl

retry_gives_up_example : with_retry tired (1 + 1) 2 ≡ (throws deadlock, 0)
retry_gives_up_example =
    retry_gives_up tired 1 0 2 1 0 deadlock (one_more (tired_Fails 1) no_times)
      (exhausted (tired_Fails 0))

-- A server with a transaction open that answers every statement of a savepoint.
abbrev willing : SavepointOps ℕ
willing = record { active = λ w. true; exec = λ st w. (returns tt, suc w) }

construct-run-settled_example :
    let (sp', x) =
      Savepoint.run
        (recorded willing)
        (releases ∷ rolls ∷ [])
        (some (record { savepoint_name = "tx_sp_0"; active = true }))
        (Savepoint.construct (recorded willing) "tx_sp_0" (0, [])).1 in
    IsOver willing "tx_sp_0" x.0 (Savepoint.destroy (recorded willing) sp' x).1
unfolding Savepoint.construct
construct-run-settled_example =
    construct-run-settled willing "tx_sp_0" (releases ∷ rolls ∷ []) 0
      (some (record { savepoint_name = "tx_sp_0"; active = true })) refl

-- A statement in a transaction of a pool: it is answered and committed, and the connection is back.
abbrev world : World server
world = record { connections = idle ∷ []; transaction = none_alive server }

with_retry_test :
    with_retry (pooled_transactions server serializable (exec server "select")) 3 world ≡ (
      returns "select",
      record {
        connections = record idle { connection = some 2 } ∷ [];
        transaction = none_alive server;
      },
    )
unfolding with_retry pop_back construct_at ensure_open begin_on_connection begin session_exec
    ensure_active commit session_commit finish destroy
with_retry_test = refl
