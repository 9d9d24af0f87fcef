-- ===== src/Operation/StepRules.antt =====
-- What the transitions and the calls of an effect preserve, every function on a step preserves.
use wiregate.Prelude.{Option, Bool, not, Bool-cases, inl, inr, true, some, none}
use wiregate.Operation.State.{StepState, same_step_state}
use wiregate.Operation.Preserve.{
  Preserves, IsPreorder, Preserves-return, Preserves-fail, Preserves-bind, Preserves-branch,
  Preserves-on_error, Preserves-ignore, Preserves-if,
}
use wiregate.Operation.Step.{
  At, Journal, Effect, Failure, step_transition, call, verify_step, verify_from, StepRecord,
  recover_by, reconcile_from, recover_step, apply_step, rollback_step, undo_from, apply_from,
  skipped, reconcile_seen,
}

module _ {W : Type 0} (R : At W → At W → Type 0) (o : IsPreorder R) (j : Journal W)
    (effect : Effect W)
    (moves : (from to : StepState) (failure : Option Failure)
      → Preserves R (step_transition j from to failure))
    (inspects : Preserves R (call effect.inspect)) (applies : Preserves R (call effect.apply))
    (undoes : Preserves R (call effect.rollback)) where
  ruleset rules = (
    Preserves-return, Preserves-fail, Preserves-bind, Preserves-branch, Preserves-on_error,
    Preserves-ignore, Preserves-if,
  )

  verify_from-Preserves : (step : StepRecord) → Preserves R (verify_from j effect step)
  unfolding verify_from
  verify_from-Preserves step = search rules depth 9

  pub verify_step-Preserves : Preserves R (verify_step j effect)
  unfolding verify_step
  verify_step-Preserves = record { at = λ c. (verify_from-Preserves c.step).at c }

  apply_from-Preserves :
      (recovery : Bool) (step : StepRecord) → Preserves R (apply_from j effect recovery step)
  unfolding apply_from
  apply_from-Preserves recovery step = search (rules, verify_step-Preserves) depth 16

  pub apply_step-Preserves : (recovery : Bool) → Preserves R (apply_step j effect recovery)
  unfolding apply_step
  apply_step-Preserves recovery = record {
    at = λ c. elim (Bool-cases (not (same_step_state c.step.state StepState.pending))) [
      | inl e ↦ rw e (o.here c)
      | inr e ↦ rw e ((apply_from-Preserves recovery c.step).at c)
    ];
  }

  undo_from-Preserves : (step : StepRecord) → Preserves R (undo_from j effect step)
  unfolding undo_from
  undo_from-Preserves step = search rules depth 9

  pub rollback_step-Preserves : Preserves R (rollback_step j effect)
  unfolding rollback_step
  rollback_step-Preserves = record {
    at = λ c. elim (Bool-cases (skipped c.step.state)) [
      | inl e ↦ rw e (o.here c)
      | inr e ↦ rw e ((undo_from-Preserves c.step).at c)
    ];
  }

  reconcile_from-Preserves : (step : StepRecord) → Preserves R (reconcile_from j effect step)
  unfolding reconcile_from reconcile_seen
  reconcile_from-Preserves step = search (rules, verify_step-Preserves) depth 9

  recover_by-Preserves : (s : StepState) → Preserves R (recover_by s j effect)
  unfolding recover_by
  recover_by-Preserves StepState.applied = record { at = o.here }
  recover_by-Preserves StepState.pending =
      Preserves-branch R o (apply_step j effect true) _ _ (apply_step-Preserves true)
        (λ e. Preserves-return R o (some e)) (λ _. Preserves-return R o none)
  recover_by-Preserves StepState.executing = record {
    at = λ c. (reconcile_from-Preserves c.step).at c;
  }
  recover_by-Preserves StepState.failed = record {
    at = λ c. (reconcile_from-Preserves c.step).at c;
  }
  recover_by-Preserves StepState.rolling_back = record { at = o.here }
  recover_by-Preserves StepState.rolled_back = record { at = o.here }

  pub recover_step-Preserves : Preserves R (recover_step j effect)
  unfolding recover_step
  recover_step-Preserves = record { at = λ c. (recover_by-Preserves c.step.state).at c }
