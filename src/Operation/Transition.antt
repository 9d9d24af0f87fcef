-- ===== src/Operation/Transition.antt =====
-- The two ways in which a transition goes: refused before the journal is asked, or decided by it.
use wiregate.Operation.Step
use wiregate.Operation.Rollback
use wiregate.Operation.Action.{Error, Error, err, ◌>>◌}
use wiregate.Prelude.{inl, inr, Option, ◌≡◌, ◌⊎◌, true, Bool-cases}
use wiregate.Operation.Step.{Journal, step_transition, Failure, At}
use wiregate.Operation.Rollback.{operation_transition, Run}
use wiregate.Operation.State.{
  StepState, State, valid_step_transition, valid_operation_transition, same_step_state, same_state,
  same_state-eq, same_step_state-eq, eq-same_state, eq-same_step_state,
}

module _ {W : Type 0} (j : Journal W) where
  pub step_transition_cases :
      (from to : StepState) (failure : Option Failure) (c : At W)
      → ((e : Error) × (step_transition j from to failure c ≡ (err e, c)))
        ⊎ ((c.step.state ≡ from)
            × (valid_step_transition from to ≡ true)
            × (step_transition j from to failure c
                ≡ (Step.call (j.transition_step c.step.id from to failure) >> Step.set_state to) c))
  unfolding step_transition
  step_transition_cases from to failure c = elim (Bool-cases (same_step_state c.step.state from)) [
    | inr differs ↦ inl (Error.step_state_changed from c.step.state, rw differs)
    | inl same ↦ elim (Bool-cases (valid_step_transition from to)) [
      | inr bad ↦ inl (Error.invalid_step_transition from to, rw (same, bad))
      | inl good ↦ inr (same_step_state-eq _ from same, good, rw (same, good))
    ]
  ]

  pub operation_transition_cases :
      (from to : State) (failure : Option Failure) (s : Run W)
      → ((e : Error) × (operation_transition j from to failure s ≡ (err e, s)))
        ⊎ ((s.operation.state ≡ from)
            × (valid_operation_transition from to ≡ true)
            × (operation_transition j from to failure s
                ≡ (Rollback.call (j.transition_operation s.operation.id from to failure)
                      >> Rollback.set_state to)
                    s))
  unfolding operation_transition
  operation_transition_cases from to failure s =
      elim (Bool-cases (same_state s.operation.state from)) [
        | inr differs ↦ inl (Error.state_changed from s.operation.state, rw differs)
        | inl same ↦ elim (Bool-cases (valid_operation_transition from to)) [
          | inr bad ↦ inl (Error.invalid_transition from to, rw (same, bad))
          | inl good ↦ inr (same_state-eq _ from same, good, rw (same, good))
        ]
      ]

  -- From the expected state, along the table, the journal decides.
  pub operation_transition_allowed :
      (from to : State) (failure : Option Failure) (s : Run W)
      → s.operation.state ≡ from
      → valid_operation_transition from to ≡ true
      → operation_transition j from to failure s
        ≡ (Rollback.call (j.transition_operation s.operation.id from to failure)
              >> Rollback.set_state to)
            s
  unfolding operation_transition
  operation_transition_allowed from to failure s same valid = rw (eq-same_state _ _ same, valid)

  pub step_transition_allowed :
      (from to : StepState) (failure : Option Failure) (c : At W)
      → c.step.state ≡ from
      → valid_step_transition from to ≡ true
      → step_transition j from to failure c
        ≡ (Step.call (j.transition_step c.step.id from to failure) >> Step.set_state to) c
  unfolding step_transition
  step_transition_allowed from to failure c same valid = rw (eq-same_step_state _ _ same, valid)
