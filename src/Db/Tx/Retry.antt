-- ===== src/Db/Tx/Retry.antt =====
-- db/tx/TransactionHelper.hpp: `with_retry`, over the transactions of a pool.
pub mod Outcomes
use rtl.Base.{
  String, Option, Bool-cases, sym, ℕ, zero, suc, ◌+◌, ◌≡◌, ◌∙◌, ap, refl, Bool, true, false, arith,
  ◌==◌, if◌then◌else◌, Outcome, returns, throws, sleeps, undefined, M, after,
}
use rtl.Db.Errors.{
  Exception, ErrorCode, db_error, logic_error, runtime_error, foreign, out_of_range,
  serialization_exception, deadlock_exception,
}

-- What `with_retry` calls, on a state of the pool and of the one transaction that is alive. `run_fn`
-- is the caller's function on the transaction; `destroy` is the transaction's destructor.
pub record TransactionOps (W A : Type 0) : Type 0 where
  pub construct : M Exception W (Unit {0})
  pub run_fn : M Exception W A
  pub commit : M Exception W (Unit {0})
  pub active : W → Bool
  pub rollback : M Exception W (Unit {0})
  pub destroy : M Exception W (Unit {0})

-- `catch (SerializationFailure &)` and `catch (DeadlockDetected &)`.
abbrev pub is_retryable : Exception → Bool
is_retryable (db_error ErrorCode.serialization_failure message sql_state) = true
is_retryable (db_error ErrorCode.deadlock_detected message sql_state) = true
is_retryable _ = false

module _ {W A : Type 0} (ops : TransactionOps W A) where
  -- `fn(tx)` and the commit.
  unfoldable pub attempt : M Exception W A
  attempt w = after (λ a w'. after (λ _ w''. (returns a, w'')) (ops.commit w')) (ops.run_fn w)

  -- The transaction is destroyed as its scope is left, with this outcome.
  abbrev pub leave : Outcome Exception A → W → Outcome Exception A × W
  leave r w = after (λ _ w'. (r, w')) (ops.destroy w)

  -- The body of both handlers: roll back, and throw again after the last attempt.
  abbrev pub roll_back : M Exception W (Unit {0})
  roll_back w = if ops.active w then ops.rollback w else (returns tt, w)

  abbrev pub after_rollback :
      (W → Outcome Exception A × W)
      → Bool
      → Exception
      → Outcome Exception (Unit {0}) × W
      → Outcome Exception A × W
  after_rollback again last e (returns _, w) =
      if last then leave (throws e) w else after (λ _ w'. again w') (ops.destroy w)
  after_rollback again last e (throws f, w) = leave (throws f) w
  after_rollback again last e (sleeps, w) = (sleeps, w)
  after_rollback again last e (undefined, w) = (undefined, w)

  -- How an attempt goes on: `again` is the rest of the loop.
  abbrev pub handle :
      (W → Outcome Exception A × W) → Bool → Outcome Exception A × W → Outcome Exception A × W
  handle again last (returns a, w) = leave (returns a) w
  handle again last (throws e, w) =
      if is_retryable e then after_rollback again last e (roll_back w) else leave (throws e) w
  handle again last (sleeps, w) = (sleeps, w)
  handle again last (undefined, w) = (undefined, w)

  -- The loop with so many attempts left.
  unfoldable pub with_retry_loop : ℕ → M Exception W A
  unfolding attempt
  with_retry_loop zero w = (throws (runtime_error "Failed"), w)
  with_retry_loop (suc n) w =
      let again = with_retry_loop n in
      after (λ _ w'. handle again (n == 0) (attempt w')) (ops.construct w)

  unfoldable pub with_retry : ℕ → M Exception W A
  unfolding with_retry_loop
  with_retry max_retries w =
      if max_retries == 0
      then (throws (logic_error "Invalid number of retries"), w)
      else with_retry_loop max_retries w
