-- ===== src/Operation/EngineRules.antt =====
-- What the transitions of an operation, the loops over its steps and the verification preserve,
-- Execute and Recover preserve.
use wiregate.Prelude.{List, Option, none, Option-cases, Bool-cases, some, inl, inr}
use wiregate.Operation.Rollback.{
  Run, operation_transition, over_steps, rollback, fail_and_rollback, fail_from, finish_rolled_back,
  after_failure, fail_rollback,
}
use wiregate.Operation.Preserve.{
  IsPreorder, Preserves, Preserves-return, Preserves-fail, Preserves-bind, Preserves-branch,
  Preserves-on_error, Preserves-ignore, Preserves-if,
}
use wiregate.Operation.Step.{Journal, Effect, Failure}
use wiregate.Operation.Action.{Done, Error}
use wiregate.Operation.State.{State, same_state}
use wiregate.Operation.Loops.{apply_steps, recover_steps, rollback_steps}
use wiregate.Operation.Engine.{
  run_verify, execute, recover_rest, recover_executing, recover_from, recover_outcome, recover,
  execute_steps, any_started, execute_body,
}
use wiregate.Operation.Plan.{validate_plan}

module _ {W : Type 0} (R : Run W → Run W → Type 0) (o : IsPreorder R) (j : Journal W)
    (effects : List (Effect W)) (verify : Option (W → Done × W))
    (moves : (from to : State) (failure : Option Failure)
      → Preserves R (operation_transition j from to failure))
    (applies : Preserves R (over_steps (apply_steps j effects)))
    (recovers : Preserves R (over_steps (recover_steps j effects)))
    (undoes : Preserves R (over_steps (rollback_steps j effects)))
    (verifies : Preserves R (run_verify verify)) where
  ruleset rules = (
    Preserves-return, Preserves-fail, Preserves-bind, Preserves-branch, Preserves-on_error,
    Preserves-ignore, Preserves-if,
  )

  finish_rolled_back-Preserves : Preserves R (finish_rolled_back j)
  unfolding finish_rolled_back
  finish_rolled_back-Preserves = moves _ _ _

  fail_rollback-Preserves : (cause : Error) → Preserves R (fail_rollback j cause)
  unfolding fail_rollback
  fail_rollback-Preserves cause = search rules depth 9

  rollback-Preserves : Preserves R (rollback j effects)
  unfolding rollback
  rollback-Preserves = search (rules, fail_rollback-Preserves, finish_rolled_back-Preserves) depth 9

  after_failure-Preserves : (cause : Error) → Preserves R (after_failure j effects cause)
  unfolding after_failure
  after_failure-Preserves cause = search (rules, rollback-Preserves) depth 9

  fail_from-Preserves : (s : State) (cause : Error) → Preserves R (fail_from s j effects cause)
  unfolding fail_from
  fail_from-Preserves State.snapshotted cause = search (rules, after_failure-Preserves) depth 9
  fail_from-Preserves State.executing cause = search (rules, after_failure-Preserves) depth 9
  fail_from-Preserves State.verifying cause = search (rules, after_failure-Preserves) depth 9
  fail_from-Preserves State.rolling_back cause = after_failure-Preserves cause
  fail_from-Preserves _ cause = Preserves-fail R o cause

  fail_and_rollback-Preserves : (cause : Error) → Preserves R (fail_and_rollback j effects cause)
  unfolding fail_and_rollback
  fail_and_rollback-Preserves cause = record {
    at = λ s. (fail_from-Preserves s.operation.state cause).at s;
  }

  execute_steps-Preserves : Preserves R (execute_steps j effects verify)
  unfolding execute_steps execute_body
  execute_steps-Preserves = search (rules, fail_and_rollback-Preserves) depth 12

  outcome-Preserves :
      (outcome : Option Error) → Preserves R (recover_outcome j effects verify outcome)
  unfolding recover_outcome
  outcome-Preserves none = search (rules, fail_and_rollback-Preserves) depth 12
  outcome-Preserves (some e) = fail_and_rollback-Preserves e

  recover_rest-Preserves : Preserves R (recover_rest j effects verify)
  unfolding recover_rest
  recover_rest-Preserves = search (rules, outcome-Preserves) depth 9

  recover_executing-Preserves : Preserves R (recover_executing j effects verify)
  unfolding recover_executing
  recover_executing-Preserves = record {
    at = λ s. elim (Bool-cases (same_state s.operation.state State.snapshotted)) [
      | inl e ↦ rw e ((Preserves-bind R o _ _ (moves _ _ _) (λ _. recover_rest-Preserves)).at s)
      | inr e ↦ rw e (recover_rest-Preserves.at s)
    ];
  }

  recover_from-Preserves : (s : State) → Preserves R (recover_from s j effects verify)
  unfolding recover_from
  recover_from-Preserves State.pending = record { at = λ s. (moves _ _ _).at s }
  recover_from-Preserves State.validated = record { at = λ s. (moves _ _ _).at s }
  recover_from-Preserves State.snapshotted = record {
    at = λ s. elim (Bool-cases (any_started s.operation.steps)) [
      | inl e ↦ rw e (recover_executing-Preserves.at s)
      | inr e ↦
          rw e ((Preserves-bind R o _ _ (moves _ _ _) (λ _. finish_rolled_back-Preserves)).at s)
    ];
  }
  recover_from-Preserves State.executing = record { at = λ s. recover_executing-Preserves.at s }
  recover_from-Preserves State.verifying =
      Preserves-branch R o (run_verify verify) _ _ verifies (λ _. fail_and_rollback-Preserves _)
        (λ _. moves _ _ _)
  recover_from-Preserves State.rolling_back = record { at = λ s. rollback-Preserves.at s }
  recover_from-Preserves _ = record { at = o.here }

  pub execute-Preserves : Preserves R (execute j effects verify)
  unfolding execute
  execute-Preserves = record {
    at = λ s. elim (Option-cases (validate_plan s.operation effects)) [
      | inr (e, bad) ↦ rw (bad, execute) (o.here s)
      | inl good ↦ elim (Bool-cases (same_state s.operation.state State.snapshotted)) [
        | inl e ↦ rw (good, execute) (rw e (execute_steps-Preserves.at s))
        | inr e ↦ rw (good, execute) (rw e (o.here s))
      ]
    ];
  }

  pub recover-Preserves : Preserves R (recover j effects verify)
  unfolding recover
  recover-Preserves = record {
    at = λ s. elim (Option-cases (validate_plan s.operation effects)) [
      | inr (e, bad) ↦ rw (bad, recover) (o.here s)
      | inl good ↦ rw (good, recover) ((recover_from-Preserves s.operation.state).at s)
    ];
  }
