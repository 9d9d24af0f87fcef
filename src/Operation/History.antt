-- ===== src/Operation/History.antt =====
-- An operation moves only along the table of transitions, and so does each of its steps.
use wiregate.Prelude.{refl, inl, inr, Option, List, ◌≡◌, ◌∙◌, none, true, Bool-cases, some}
use wiregate.Operation.Rollback.{Operation, Run, operation_transition, call, over_steps, set_state}
use wiregate.Operation.Step.{Journal, StepRecord, Failure, Effect}
use wiregate.Operation.State.{State, valid_operation_transition, same_state, same_state-eq}
use wiregate.Operation.Preserve.{IsPreorder, Preserves}
use wiregate.Operation.Action.{Done, Result, ◌>>◌, ok, err}
use wiregate.Operation.Paths.{
  StepsFollow-refl, StepsFollow-trans, StepsFollow, apply_steps-Follow, recover_steps-Follow,
  rollback_steps-Follow,
}
use wiregate.Operation.Engine.{execute, recover, run_verify}
use wiregate.Operation.Loops.{Rows}
use wiregate.Operation.EngineRules.{execute-Preserves, recover-Preserves}

-- A chain of allowed transitions of an operation.
pub data OperationPath : State → State → Type 0 where
  here : {s : State} → OperationPath s s
  next :
      {s t u : State}
      → OperationPath s t
      → valid_operation_transition t u ≡ true
      → OperationPath s u

OperationPath-trans : {s t u : State} → OperationPath s t → OperationPath t u → OperationPath s u
OperationPath-trans p OperationPath.here = p
OperationPath-trans p (OperationPath.next q h) = OperationPath.next (OperationPath-trans p q) h

-- `b` has the identifier of `a`, a state that the table leads to from that of `a`, and the same
-- steps, of which only the states differ, each moved along the table of the steps.
pub record OperationFollows (a b : Operation) : Type 0 where
  pub same_id : b.id ≡ a.id
  pub path : OperationPath a.state b.state
  pub steps : StepsFollow a.steps b.steps

OperationFollows-refl : (a : Operation) → OperationFollows a a
OperationFollows-refl a = record {
  same_id = refl;
  path = OperationPath.here;
  steps = StepsFollow-refl a.steps;
}

module _ {W : Type 0} where
  abbrev pub RunFollows : Run W → Run W → Type 0
  RunFollows a b = OperationFollows a.operation b.operation

  RunFollows-preorder : IsPreorder RunFollows
  RunFollows-preorder = record {
    here = λ s. OperationFollows-refl s.operation;
    chain = λ p q. record {
      same_id = q.same_id ∙ p.same_id;
      path = OperationPath-trans p.path q.path;
      steps = StepsFollow-trans _ _ _ p.steps q.steps;
    };
  }

  moved-Follows :
      (a : Operation) (to : State) (c : Run W) (p : Done × W)
      → c.operation ≡ a
      → valid_operation_transition a.state to ≡ true
      → RunFollows c ((call (λ _. p) >> set_state to) c).1
  moved-Follows a to c (ok _, w) e h = rw e (record {
    same_id = refl;
    path = OperationPath.next OperationPath.here h;
    steps = StepsFollow-refl a.steps;
  })
  moved-Follows a to c (err _, w) e h = OperationFollows-refl c.operation

  transition-Follows :
      (j : Journal W) (from to : State) (failure : Option Failure)
      → Preserves RunFollows (operation_transition j from to failure)
  unfolding operation_transition
  transition-Follows j from to failure = record {
    at = λ s. elim (Bool-cases (same_state s.operation.state from)) [
      | inr differs ↦ rw differs (OperationFollows-refl s.operation)
      | inl same ↦ elim (Bool-cases (valid_operation_transition from to)) [
        | inr bad ↦ rw (same, bad) (OperationFollows-refl s.operation)
        | inl good ↦
            rw (same, good)
              (moved-Follows s.operation to s
                (j.transition_operation s.operation.id from to failure s.world) refl
                (rw (same_state-eq s.operation.state from same) good))
      ]
    ];
  }

  over_steps-Follows :
      {A : Type 0} (f : List StepRecord → W → Result A × Rows W)
      → ((steps : List StepRecord) (w : W) → StepsFollow steps (f steps w).1.steps)
      → Preserves RunFollows (over_steps f)
  over_steps-Follows f h = record {
    at = λ s. record {
      same_id = refl;
      path = OperationPath.here;
      steps = h s.operation.steps s.world;
    };
  }

  run_verify-Follows : (verify : Option (W → Done × W)) → Preserves RunFollows (run_verify verify)
  run_verify-Follows none = record { at = λ s. OperationFollows-refl s.operation }
  run_verify-Follows (some v) = record { at = λ s. OperationFollows-refl s.operation }

  -- Execute moves the operation and each of its steps only along the tables of transitions, and
  -- changes nothing else of the operation: with any journal, any effects and any verification,
  -- and whether it succeeds or fails.
  pub execute-Follows :
      (j : Journal W) (effects : List (Effect W)) (verify : Option (W → Done × W)) (s : Run W)
      → OperationFollows s.operation (execute j effects verify s).1.operation
  execute-Follows j effects verify s =
      (execute-Preserves RunFollows RunFollows-preorder j effects verify (transition-Follows j)
          (over_steps-Follows _ (apply_steps-Follow j effects))
          (over_steps-Follows _ (recover_steps-Follow j effects))
          (over_steps-Follows _ (rollback_steps-Follow j effects)) (run_verify-Follows verify)).at
        s

  -- Recover moves the operation and each of its steps only along the tables of transitions, and
  -- changes nothing else of the operation, whatever the journal, the effects and the verification
  -- answer.
  pub recover-Follows :
      (j : Journal W) (effects : List (Effect W)) (verify : Option (W → Done × W)) (s : Run W)
      → OperationFollows s.operation (recover j effects verify s).1.operation
  recover-Follows j effects verify s =
      (recover-Preserves RunFollows RunFollows-preorder j effects verify (transition-Follows j)
          (over_steps-Follows _ (apply_steps-Follow j effects))
          (over_steps-Follows _ (recover_steps-Follow j effects))
          (over_steps-Follows _ (rollback_steps-Follow j effects)) (run_verify-Follows verify)).at
        s
