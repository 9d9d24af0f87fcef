-- ===== src/Operation/Engine.antt =====
-- Execute and Recover of engine.go over a whole operation.
use wiregate.Prelude.{Bool, false, not, ◌||◌, List, [], ◌∷◌, Option, none, some, if◌then◌else◌}
use wiregate.Operation.State.{State, StepState, same_state, same_step_state}
use wiregate.Operation.Action.{
  Error, ok, err, Action, return, fail, ◌>>=◌, ◌>>◌, on_error, branch, Done,
}
use wiregate.Operation.Step.{StepRecord, Journal, Effect}
use wiregate.Operation.Plan.{validate_plan}
use wiregate.Operation.Rollback.{
  fail_and_rollback, Run, call, operation_transition, over_steps, rollback, finish_rolled_back,
}
use wiregate.Operation.Loops.{recover_steps, apply_steps}

unfoldable pub any_started : List StepRecord → Bool
any_started [] = false
any_started (step ∷ steps) = not (same_step_state step.state StepState.pending) || any_started steps

module _ {W : Type 0} where
  -- `if verify != nil { … }`
  abbrev pub run_verify : Option (W → Done × W) → Action (Run W) (Unit {0})
  run_verify none = return tt
  run_verify (some verify) = call verify

  -- The statements of `Execute` whose error calls `failAndRollback`.
  unfoldable pub execute_body :
      Journal W → List (Effect W) → Option (W → Done × W) → Action (Run W) (Unit {0})
  execute_body j effects verify = do
    over_steps (apply_steps j effects)
    operation_transition j State.executing State.verifying none
    on_error (run_verify verify) λ e. fail (Error.verify_operation e)

  -- `Execute` after its two guards.
  unfoldable pub execute_steps :
      Journal W → List (Effect W) → Option (W → Done × W) → Action (Run W) (Unit {0})
  execute_steps j effects verify = do
    operation_transition j State.snapshotted State.executing none
    branch (execute_body j effects verify) (fail_and_rollback j effects)
        λ _. operation_transition j State.verifying State.committed none

  -- `recoverExecuting` after its loop.
  unfoldable pub recover_outcome :
      Journal W → List (Effect W) → Option (W → Done × W) → Option Error → Action (Run W) (Unit {0})
  recover_outcome j effects verify (some e) = fail_and_rollback j effects e
  recover_outcome j effects verify none = do
    operation_transition j State.executing State.verifying none
    branch (run_verify verify) (fail_and_rollback j effects)
        λ _. operation_transition j State.verifying State.committed none

  unfoldable pub recover_rest :
      Journal W → List (Effect W) → Option (W → Done × W) → Action (Run W) (Unit {0})
  recover_rest j effects verify = do
    outcome ← over_steps (recover_steps j effects)
    recover_outcome j effects verify outcome

  unfoldable pub recover_executing :
      Journal W → List (Effect W) → Option (W → Done × W) → Action (Run W) (Unit {0})
  recover_executing j effects verify s =
      (do
        if same_state s.operation.state State.snapshotted
            then operation_transition j State.snapshotted State.executing none
            else return tt
        recover_rest j effects verify)
        s

  -- The `switch` of `Recover`.
  unfoldable pub recover_from :
      State → Journal W → List (Effect W) → Option (W → Done × W) → Action (Run W) (Unit {0})
  recover_from State.pending j effects verify s =
      operation_transition j State.pending State.expired
        (some (record {
          code = "RECOVERY_EXPIRED";
          message = "pending preview expired during restart";
        }))
        s
  recover_from State.validated j effects verify s =
      operation_transition j State.validated State.rejected
        (some (record {
          code = "RECOVERY_REJECTED";
          message = "validated operation had no durable snapshot";
        }))
        s
  recover_from State.snapshotted j effects verify s =
      if any_started s.operation.steps
      then recover_executing j effects verify s
      else (operation_transition j State.snapshotted State.rolling_back none
            >> finish_rolled_back j)
          s
  recover_from State.executing j effects verify s = recover_executing j effects verify s
  recover_from State.verifying j effects verify s =
      branch (run_verify verify)
        (λ _. fail_and_rollback j effects Error.recovery_verification_failed)
        (λ _. operation_transition j State.verifying State.committed none) s
  recover_from State.rolling_back j effects verify s = rollback j effects s
  recover_from State.rollback_failed j effects verify s = (err Error.blocked, s)
  recover_from _ j effects verify s = (ok tt, s)

  unfoldable pub execute :
      Journal W → List (Effect W) → Option (W → Done × W) → Action (Run W) (Unit {0})
  execute j effects verify s = elim (validate_plan s.operation effects) [
    | some e ↦ (err e, s)
    | none ↦
        if same_state s.operation.state State.snapshotted
        then execute_steps j effects verify s
        else (err (Error.not_snapshotted s.operation.id), s)
  ]

  unfoldable pub recover :
      Journal W → List (Effect W) → Option (W → Done × W) → Action (Run W) (Unit {0})
  recover j effects verify s = elim (validate_plan s.operation effects) [
    | some e ↦ (err e, s)
    | none ↦ recover_from s.operation.state j effects verify s
  ]
