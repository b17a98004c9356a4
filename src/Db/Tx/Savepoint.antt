-- ===== src/Db/Tx/Savepoint.antt =====
-- db/tx/Savepoint.cpp: a savepoint of a transaction. The statements that it sends are recorded by the
-- server; `name` is the savepoint's name.
pub mod Settled
use rtl.Base.{
  subst, returns-inj, ℕ, suc, ◌≡◌, ◌≢◌, refl, sym, ap, ◌∙◌, ◌⊎◌, inl, inr, Bool, true, false, not,
  ◌||◌, String, List, [], ◌∷◌, ◌++◌, Option, none, some, if◌then◌else◌, Outcome, returns, throws,
  sleeps, undefined, M, after, arith, Bool-cases,
}
use rtl.Db.Errors.{Exception, logic_error}

-- What a savepoint sends.
pub data Statement : Type 0 where
  savepoint rollback_to release_savepoint : String → Statement

-- What a savepoint uses of its transaction, on a state of the transaction and the server.
pub record SavepointOps (W : Type 0) : Type 0 where
  pub active : W → Bool
  pub exec : Statement → M Exception W (Unit {0})

-- `impl` is none after a move.
pub record Impl : Type 0 where
  pub savepoint_name : String
  pub active : Bool

abbrev pub Savepoint : Type 0
Savepoint = Option Impl

module _ {W : Type 0} (ops : SavepointOps W) where
  abbrev pub made : String → Outcome Exception (Unit {0}) × W → Outcome Exception Savepoint × W
  made name (returns _, w) = (returns (some (record { savepoint_name = name; active = true })), w)
  made name (throws e, w) = (throws e, w)
  made name (sleeps, w) = (sleeps, w)
  made name (undefined, w) = (undefined, w)

  unfoldable pub construct : String → M Exception W Savepoint
  construct name w =
      if not (ops.active w)
      then (throws (logic_error "Transaction is inactive"), w)
      else made name (ops.exec (savepoint name) w)

  -- `ensure_valid`, the statement, and the flag.
  abbrev pub sent :
      Impl → Outcome Exception (Unit {0}) × W → Outcome Exception (Unit {0}) × Savepoint × W
  sent i (returns _, w) = (returns tt, some (record i { active = false }), w)
  sent i (throws e, w) = (throws e, some i, w)
  sent i (sleeps, w) = (sleeps, some i, w)
  sent i (undefined, w) = (undefined, some i, w)

  abbrev pub send :
      (String → Statement) → Savepoint → W → Outcome Exception (Unit {0}) × Savepoint × W
  send make none w = (throws (logic_error "Savepoint is not active"), none, w)
  send make (some i) w =
      if not i.active
      then (throws (logic_error "Savepoint is not active"), some i, w)
      else sent i (ops.exec (make i.savepoint_name) w)

  unfoldable pub rollback : Savepoint → W → Outcome Exception (Unit {0}) × Savepoint × W
  rollback sp w = send rollback_to sp w

  unfoldable pub release : Savepoint → W → Outcome Exception (Unit {0}) × Savepoint × W
  release sp w = send release_savepoint sp w

  abbrev pub is_active : Savepoint → Bool
  is_active none = false
  is_active (some i) = i.active

  -- What the destructor throws it catches.
  abbrev pub caught :
      Outcome Exception (Unit {0}) × Savepoint × W → Outcome Exception (Unit {0}) × W
  caught (throws e, sp, w) = (returns tt, w)
  caught (r, sp, w) = (r, w)

  unfoldable pub destroy : Savepoint → W → Outcome Exception (Unit {0}) × W
  unfolding rollback
  destroy sp w = if is_active sp then caught (rollback sp w) else (returns tt, w)

  -- The move constructor: the new savepoint and the old one.
  abbrev pub move_construct : Savepoint → Savepoint × Savepoint
  move_construct sp = (sp, none)

  -- The calls of the user: it catches what they throw.
  pub data Call : Type 0 where
    rollbacks releases : Call

  unfoldable pub step : Call → Savepoint → W → Outcome Exception (Unit {0}) × Savepoint × W
  unfolding rollback release
  step rollbacks sp w = rollback sp w
  step releases sp w = release sp w

  unfoldable pub run : List Call → Savepoint → W → Savepoint × W
  run [] sp w = (sp, w)
  run (call ∷ calls) sp w = let (r, sp', w') = step call sp w in run calls sp' w'

-- The same transaction, with a record of the statements that were answered.
abbrev pub noted :
    {W : Type 0}
    → Statement
    → List Statement
    → Outcome Exception (Unit {0}) × W
    → Outcome Exception (Unit {0}) × (W × List Statement)
noted st log (returns _, w) = (returns tt, (w, log ++ st ∷ []))
noted st log (throws e, w) = (throws e, (w, log))
noted st log (sleeps, w) = (sleeps, (w, log))
noted st log (undefined, w) = (undefined, (w, log))

abbrev pub recorded : {W : Type 0} → SavepointOps W → SavepointOps (W × List Statement)
recorded ops = record {
  active = λ x. ops.active x.0;
  exec = λ st x. noted st x.1 (ops.exec st x.0);
}
