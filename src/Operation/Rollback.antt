-- ===== src/Operation/Rollback.antt =====
-- An operation, its transitions, and its way back: operationTransition, finishRolledBack,
-- rollbackFailed, rollback and failAndRollback of engine.go.
use wiregate.Prelude.{not, List, Option, none, some, String, if◌then◌else◌}
use wiregate.Operation.State.{State, same_state, valid_operation_transition}
use wiregate.Operation.Action.{Error, Result, ok, err, Action, fail, ◌>>◌, on_error}
use wiregate.Operation.Step.{Failure, safe_failure, StepRecord, Journal, Effect}
use wiregate.Operation.Loops.{rollback_steps, Rows}

-- The fields of `Record` that a function of the engine reads or writes.
pub record Operation : Type 0 where
  pub id : String
  pub state : State
  pub steps : List StepRecord

pub record Run (W : Type 0) : Type 0 where
  pub operation : Operation
  pub world : W

module _ {W : Type 0} where
  abbrev pub set_state : State → Action (Run W) (Unit {0})
  set_state to s =
      (ok tt, record { operation = record (s.operation) { state = to }; world = s.world })

  abbrev pub call : {A : Type 0} → (W → Result A × W) → Action (Run W) A
  call f s = let (r, w) = f s.world in (r, record s { world = w })

  -- A loop over the steps, which `&record.Steps[index]` changes in place.
  abbrev pub over_steps :
      {A : Type 0} → (List StepRecord → W → Result A × Rows W) → Action (Run W) A
  over_steps f s =
      let (r, rows) = f s.operation.steps s.world in
      (r, record { operation = record (s.operation) { steps = rows.steps }; world = rows.world })

  unfoldable pub operation_transition :
      Journal W → State → State → Option Failure → Action (Run W) (Unit {0})
  unfolding valid_operation_transition
  operation_transition j from to failure s =
      if not (same_state s.operation.state from)
      then (err (Error.state_changed from s.operation.state), s)
      else if not (valid_operation_transition from to)
      then (err (Error.invalid_transition from to), s)
      else (call (j.transition_operation s.operation.id from to failure) >> set_state to) s

  unfoldable pub finish_rolled_back : Journal W → Action (Run W) (Unit {0})
  finish_rolled_back j = operation_transition j State.rolling_back State.rolled_back none

  unfoldable pub fail_rollback : Journal W → Error → Action (Run W) (Unit {0})
  fail_rollback j cause = do
    on_error
        (operation_transition j State.rolling_back State.rollback_failed
          (some (safe_failure "ROLLBACK_FAILED" cause)))
        λ e. fail (Error.join cause e)
    fail (Error.rollback_failed cause)

  unfoldable pub rollback : Journal W → List (Effect W) → Action (Run W) (Unit {0})
  rollback j effects = do
    on_error (over_steps (rollback_steps j effects)) (fail_rollback j)
    finish_rolled_back j

  -- `rollback` joins the cause to an error of its own; on success the cause alone is returned.
  unfoldable pub after_failure : Journal W → List (Effect W) → Error → Action (Run W) (Unit {0})
  after_failure j effects cause = do
    on_error (rollback j effects) λ e. fail (Error.join cause e)
    fail cause

  -- The `switch` of `failAndRollback`.
  unfoldable pub fail_from : State → Journal W → List (Effect W) → Error → Action (Run W) (Unit {0})
  fail_from State.rolling_back j effects cause = after_failure j effects cause
  fail_from State.pending j effects cause = fail cause
  fail_from State.validated j effects cause = fail cause
  fail_from State.committed j effects cause = fail cause
  fail_from State.rolled_back j effects cause = fail cause
  fail_from State.rollback_failed j effects cause = fail cause
  fail_from State.rejected j effects cause = fail cause
  fail_from State.expired j effects cause = fail cause
  fail_from state j effects cause = do
    on_error
        (operation_transition j state State.rolling_back
          (some (safe_failure "OPERATION_FAILED" cause)))
        λ e. fail (Error.join cause e)
    after_failure j effects cause

  unfoldable pub fail_and_rollback : Journal W → List (Effect W) → Error → Action (Run W) (Unit {0})
  fail_and_rollback j effects cause s = fail_from s.operation.state j effects cause s
