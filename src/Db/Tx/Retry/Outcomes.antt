-- ===== src/Db/Tx/Retry/Outcomes.antt =====
-- How `with_retry` of db/tx/TransactionHelper.hpp ends.
use rtl.Base.{
  String, Option, ◌⊎◌, inl, inr, Bool-cases, ℕ, suc, ◌+◌, ◌≡◌, ◌∙◌, ap, refl, Bool, true, false,
  arith, ◌==◌, if◌then◌else◌, Outcome, returns, throws, after,
}
use rtl.Db.Errors.{
  Exception, ErrorCode, db_error, logic_error, serialization_exception, deadlock_exception,
}
use rtl.Db.Tx.Retry.{
  TransactionOps, is_retryable, attempt, leave, roll_back, after_rollback, handle, with_retry_loop,
  with_retry,
}

-- A serialization failure or a deadlock.
abbrev pub IsConflict : Exception → Type 0
IsConflict error =
    (message : String) × (sql_state : Option String) × ((error
        ≡ serialization_exception message sql_state)
      ⊎ (error ≡ deadlock_exception message sql_state))

IsConflict-is_retryable : (error : Exception) → IsConflict error → is_retryable error ≡ true
IsConflict-is_retryable error (message, sql_state, inl e) = ap is_retryable e
IsConflict-is_retryable error (message, sql_state, inr e) = ap is_retryable e

is_retryable-IsConflict : (error : Exception) → is_retryable error ≡ true → IsConflict error
is_retryable-IsConflict (db_error ErrorCode.serialization_failure m st) h = (m, st, inl refl)
is_retryable-IsConflict (db_error ErrorCode.deadlock_detected m st) h = (m, st, inr refl)
is_retryable-IsConflict error h = cc

no_conflict-is_retryable : (error : Exception) → ¬ IsConflict error → is_retryable error ≡ false
no_conflict-is_retryable error h = elim (Bool-cases (is_retryable error)) [
  | inl e ↦ absurd (h (is_retryable-IsConflict error e))
  | inr e ↦ e
]

module _ {W A : Type 0} (ops : TransactionOps W A) where
  -- The transaction is rolled back if it is still active.
  abbrev pub RollsBack : W → W → Type 0
  RollsBack w w' =
      ((ops.active w ≡ true) × (ops.rollback w ≡ (returns tt, w')))
      ⊎ ((ops.active w ≡ false) × (w ≡ w'))

  -- The caller's function fails, or it returns and the commit fails.
  abbrev pub Throws : W → Exception → W → Type 0
  Throws w error w' =
      (ops.run_fn w ≡ (throws error, w'))
      ⊎ ((a : A) × (v : W) × (ops.run_fn w ≡ (returns a, v)) × (ops.commit v ≡ (throws error, w')))

  -- An attempt that begins, fails with a serialization failure or a deadlock, is rolled back if the
  -- transaction is still active, and is destroyed.
  pub record Fails (w w' : W) : Type 0 where
    pub begun : W
    pub constructs : ops.construct w ≡ (returns tt, begun)
    pub error : Exception
    pub failed : W
    pub fails : Throws begun error failed
    pub conflicts : IsConflict error
    pub rolled : W
    pub rolls_back : RollsBack failed rolled
    pub destroys : ops.destroy rolled ≡ (returns tt, w')

  -- An attempt that fails with any other error, and is destroyed.
  pub record Breaks (w w' : W) : Type 0 where
    pub begun : W
    pub constructs : ops.construct w ≡ (returns tt, begun)
    pub error : Exception
    pub failed : W
    pub fails : Throws begun error failed
    pub no_conflict : ¬ IsConflict error
    pub destroys : ops.destroy failed ≡ (returns tt, w')

  -- The last attempt, with so many left behind it: a conflict when none is left, or any other error.
  pub data Spent : ℕ → W → W → Exception → Type 0 where
    exhausted : {w w' : W} (f : Fails w w') → Spent 0 w w' f.error
    broken : {n : ℕ} {w w' : W} (b : Breaks w w') → Spent n w w' b.error

  -- So many attempts fail, one after another.
  pub data FailsTimes : ℕ → W → W → Type 0 where
    no_times : {w : W} → FailsTimes 0 w w
    one_more : {n : ℕ} {w w' w'' : W} → Fails w w' → FailsTimes n w' w'' → FailsTimes (suc n) w w''

  attempt-Throws :
      (w w' : W) (error : Exception) → Throws w error w' → attempt ops w ≡ (throws error, w')
  unfolding attempt
  attempt-Throws w w' error (inl e) =
      ap (after (λ a v. after (λ _ v'. (returns a, v')) (ops.commit v))) e
  attempt-Throws w w' error (inr (a, v, e, c)) =
      ap (after (λ a v. after (λ _ v'. (returns a, v')) (ops.commit v))) e
      ∙ ap (after (λ _ v'. (returns a, v'))) c

  attempt-returns :
      (w v w' : W) (a : A)
      → ops.run_fn w ≡ (returns a, v)
      → ops.commit v ≡ (returns tt, w')
      → attempt ops w ≡ (returns a, w')
  unfolding attempt
  attempt-returns w v w' a e c =
      ap (after (λ a v. after (λ _ v'. (returns a, v')) (ops.commit v))) e
      ∙ ap (after (λ _ v'. (returns a, v'))) c

  roll_back-RollsBack : (w w' : W) → RollsBack w w' → roll_back ops w ≡ (returns tt, w')
  roll_back-RollsBack w w' (inl (on, back)) =
      ap (λ b. if b then ops.rollback w else (returns tt, w)) on ∙ back
  roll_back-RollsBack w w' (inr (off, same)) =
      ap (λ b. if b then ops.rollback w else (returns tt, w)) off ∙ ap (λ v. (returns tt, v)) same

  -- A failed attempt comes to the end of its handler.
  fails-handle :
      (again : W → Outcome Exception A × W) (last : Bool) (w w' : W) (f : Fails w w')
      → after (λ _ v. handle ops again last (attempt ops v)) (ops.construct w)
        ≡ after_rollback ops again last f.error (returns tt, f.rolled)
  fails-handle again last w w' f =
      ap (after (λ _ v. handle ops again last (attempt ops v))) f.constructs
      ∙ ap (handle ops again last) (attempt-Throws f.begun f.failed f.error f.fails)
      ∙ ap
          (λ b.
            if b
            then after_rollback ops again last f.error (roll_back ops f.failed)
            else leave ops (throws f.error) f.failed)
          (IsConflict-is_retryable f.error f.conflicts)
      ∙ ap (after_rollback ops again last f.error)
          (roll_back-RollsBack f.failed f.rolled f.rolls_back)

  handle-again :
      (again : W → Outcome Exception A × W) (last : Bool) (w w' : W)
      → Fails w w'
      → last ≡ false
      → after (λ _ v. handle ops again last (attempt ops v)) (ops.construct w) ≡ again w'
  handle-again again last w w' f more =
      fails-handle again last w w' f
      ∙ ap
          (λ b.
            if b
            then leave ops (throws f.error) f.rolled
            else after (λ _ v. again v) (ops.destroy f.rolled))
          more
      ∙ ap (after (λ _ v. again v)) f.destroys

  handle-last :
      (again : W → Outcome Exception A × W) (last : Bool) (w w' : W) (f : Fails w w')
      → last ≡ true
      → after (λ _ v. handle ops again last (attempt ops v)) (ops.construct w)
        ≡ (throws f.error, w')
  handle-last again last w w' f over =
      fails-handle again last w w' f
      ∙ ap
          (λ b.
            if b
            then leave ops (throws f.error) f.rolled
            else after (λ _ v. again v) (ops.destroy f.rolled))
          over
      ∙ ap (after (λ _ v. (throws f.error, v))) f.destroys

  loop-fails :
      (n : ℕ) (w w' : W)
      → Fails w w'
      → (n == 0) ≡ false
      → with_retry_loop ops (suc n) w ≡ with_retry_loop ops n w'
  unfolding with_retry_loop
  loop-fails n w w' f more = handle-again (with_retry_loop ops n) (n == 0) w w' f more

  loop-FailsTimes :
      (k n : ℕ) (w w' : W)
      → FailsTimes k w w'
      → with_retry_loop ops (k + suc n) w ≡ with_retry_loop ops (suc n) w'
  loop-FailsTimes _ n w w' no_times = ap (λ x. with_retry_loop ops x w) (omega arith)
  loop-FailsTimes _ n w w' (one_more {n = k} {w' = v} f rest) =
      ap (λ x. with_retry_loop ops x w) (omega arith)
      ∙ loop-fails (k + suc n) w v f (ground arith)
      ∙ loop-FailsTimes k n v w' rest

  with_retry-loop :
      (k n : ℕ) (w : W) → with_retry ops (k + suc n) w ≡ with_retry_loop ops (k + suc n) w
  unfolding with_retry
  with_retry-loop k n w =
      let some_left : ((k + suc n) == 0) ≡ false = ground arith in
      ap
        (λ b.
          if b
          then (throws (logic_error "Invalid number of retries"), w)
          else with_retry_loop ops (k + suc n) w)
        some_left

  handle-Breaks :
      (again : W → Outcome Exception A × W) (last : Bool) (w w' : W) (b : Breaks w w')
      → after (λ _ v. handle ops again last (attempt ops v)) (ops.construct w)
        ≡ (throws b.error, w')
  handle-Breaks again last w w' b =
      ap (after (λ _ v. handle ops again last (attempt ops v))) b.constructs
      ∙ ap (handle ops again last) (attempt-Throws b.begun b.failed b.error b.fails)
      ∙ ap
          (λ c.
            if c
            then after_rollback ops again last b.error (roll_back ops b.failed)
            else leave ops (throws b.error) b.failed)
          (no_conflict-is_retryable b.error b.no_conflict)
      ∙ ap (after (λ _ v. (throws b.error, v))) b.destroys

  -- If `k` attempts fail with a serialization failure or a deadlock, each rolled back if it was
  -- still active and destroyed, and in the next one the function returns, the commit succeeds and
  -- the transaction is destroyed: with more than `k` attempts allowed, `with_retry` returns what
  -- the function returned.
  pub retry_succeeds :
      (k n : ℕ) (w w' begun done_state committed end : W) (a : A)
      → FailsTimes k w w'
      → ops.construct w' ≡ (returns tt, begun)
      → ops.run_fn begun ≡ (returns a, done_state)
      → ops.commit done_state ≡ (returns tt, committed)
      → ops.destroy committed ≡ (returns tt, end)
      → with_retry ops (k + suc n) w ≡ (returns a, end)
  unfolding with_retry_loop
  retry_succeeds k n w w' begun done_state committed end a fails made ran kept gone =
      with_retry-loop k n w
      ∙ loop-FailsTimes k n w w' fails
      ∙ ap (after (λ _ v. handle ops (with_retry_loop ops n) (n == 0) (attempt ops v))) made
      ∙ ap (handle ops (with_retry_loop ops n) (n == 0))
          (attempt-returns begun done_state committed a ran kept)
      ∙ ap (after (λ _ v. (returns a, v))) gone

  Spent-loop :
      (n : ℕ) (w w' : W) (error : Exception)
      → Spent n w w' error
      → with_retry_loop ops (suc n) w ≡ (throws error, w')
  unfolding with_retry_loop
  Spent-loop _ w w' _ (exhausted f) = handle-last (with_retry_loop ops 0) (0 == 0) w w' f refl
  Spent-loop _ w w' _ (broken {n = n} b) = handle-Breaks (with_retry_loop ops n) (n == 0) w w' b

  -- If `k` attempts fail with a serialization failure or a deadlock, each rolled back if it was
  -- still active and destroyed, and the next one fails with such an error when no attempt is left,
  -- or with any other error at any time: `with_retry` makes no further attempt and throws the error
  -- of that one.
  pub retry_gives_up :
      (k n : ℕ) (w w' end : W) (error : Exception)
      → FailsTimes k w w'
      → Spent n w' end error
      → with_retry ops (k + suc n) w ≡ (throws error, end)
  retry_gives_up k n w w' end error fails last =
      with_retry-loop k n w ∙ loop-FailsTimes k n w w' fails ∙ Spent-loop n w' end error last
