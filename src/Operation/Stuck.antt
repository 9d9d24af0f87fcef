-- ===== src/Operation/Stuck.antt =====
-- A failed step whose effect did take place stops every recovery: `recoverExecuting` asks for the
-- transition from failed to applied, which the table of the steps does not have, and returns its
-- error without a rollback.
use wiregate.Operation.Step
use wiregate.Operation.Rollback.{over_steps, Run}
use wiregate.Operation.Engine.{
  recover_outcome, recover, recover_executing, recover_from, recover_rest,
}
use wiregate.Operation.Guarantees.{recover-runs}
use text.Mathlib.TextPositions.{eq_refl}
use wiregate.Operation.Action.{return, branch, ok, err, Error, Done, ◌>>◌, ◌>>=◌}
use wiregate.Prelude.{refl, inl, inr, [], ◌∷◌, none, some, List, ◌≡◌, ◌⊎◌, Option, ap, ◌∙◌}
use wiregate.Operation.State.{State, StepState, eq-same_step_state, same_state}
use wiregate.Operation.Step.{
  Journal, recover_step, Effect, reconcile_from, StepRecord, reconcile_seen, step_transition,
  recover_by, At,
}
use wiregate.Operation.Loops.{recover_steps, recover_next}
use wiregate.Operation.Plan.{validate_plan}

abbrev pub stop : Error
stop = Error.invalid_step_transition StepState.failed StepState.applied

module _ {W : Type 0} where
  -- After steps that are applied comes one that is failed and shows its proposed fingerprint.
  abbrev pub TookEffect : List (Effect W) → List StepRecord → W → Type 0
  TookEffect [] steps w = ⊥
  TookEffect (effect ∷ effects) [] w = ⊥
  TookEffect (effect ∷ effects) (step ∷ steps) w =
      ((step.state ≡ StepState.applied) × TookEffect effects steps w)
      ⊎ ((step.state ≡ StepState.failed)
          × ((w' : W) × (effect.inspect w ≡ (ok step.proposed_fingerprint, w'))))

  module _ (j : Journal W) where
    refused :
        (state : StepState) (c : At W)
        → c.step.state ≡ StepState.failed
        → state ≡ StepState.failed
        → step_transition j state StepState.applied none c ≡ (err stop, c)
    unfolding step_transition
    refused state c e same = rw same (rw (eq-same_step_state _ _ e))

    refused_seen :
        (effect : Effect W) (step : StepRecord) (w : W)
        → step.state ≡ StepState.failed
        → reconcile_seen j effect step step.proposed_fingerprint (record { step = step; world = w })
          ≡ (err stop, record { step = step; world = w })
    unfolding reconcile_seen
    refused_seen effect step w failed = rw (eq_refl step.proposed_fingerprint) (
        ap (λ p. ◌>>◌ {B = Option Error} (λ _. p) (return none) (record { step = step; world = w }))
          (refused step.state (record { step = step; world = w }) failed failed))

    reconcile_stopped :
        (effect : Effect W) (step : StepRecord) (w w' : W)
        → step.state ≡ StepState.failed
        → effect.inspect w ≡ (ok step.proposed_fingerprint, w')
        → reconcile_from j effect step (record { step = step; world = w })
          ≡ (err stop, record { step = step; world = w' })
    unfolding reconcile_from
    reconcile_stopped effect step w w' failed seen =
        ap
          (λ p.
            branch (Step.call (λ _. p)) (λ e. return (some (Error.inspect_step step.name e)))
              (reconcile_seen j effect step) (record { step = step; world = w }))
          seen
        ∙ refused_seen effect step w' failed

    stopped_step :
        (effect : Effect W) (step : StepRecord) (w w' : W)
        → step.state ≡ StepState.failed
        → effect.inspect w ≡ (ok step.proposed_fingerprint, w')
        → recover_step j effect (record { step = step; world = w })
          ≡ (err stop, record { step = step; world = w' })
    unfolding recover_step
    stopped_step effect step w w' failed seen =
        ap (λ x. recover_by x j effect (record { step = step; world = w })) failed
        ∙ reconcile_stopped effect step w w' failed seen

    applied_step :
        (effect : Effect W) (step : StepRecord) (w : W)
        → step.state ≡ StepState.applied
        → recover_step j effect (record { step = step; world = w })
          ≡ (ok none, record { step = step; world = w })
    unfolding recover_step
    applied_step effect step w applied =
        ap (λ x. recover_by x j effect (record { step = step; world = w })) applied

    stopped_loop :
        (effects : List (Effect W)) (steps : List StepRecord) (w : W)
        → TookEffect effects steps w
        → (w' : W) × (recover_steps j effects steps w
            ≡ (err stop, record { steps = steps; world = w' }))
    unfolding recover_steps recover_next
    stopped_loop [] steps w h = absurd h
    stopped_loop (effect ∷ effects) [] w h = absurd h
    stopped_loop (effect ∷ effects) (step ∷ steps) w (inl (applied, later)) =
        let (w', e) = stopped_loop effects steps w later in
        (w', rw (applied_step effect step w applied, recover_next) (rw e))
    stopped_loop (effect ∷ effects) (step ∷ steps) w (inr (failed, (w', seen))) =
        (w', rw (stopped_step effect step w w' failed seen, recover_next) refl)

    recover_stopped :
        (effects : List (Effect W)) (verify : Option (W → Done × W)) (s : Run W)
        → TookEffect effects s.operation.steps s.world
        → s.operation.state ≡ State.executing
        → (w' : W) × (recover_executing j effects verify s
            ≡ (err stop, record { operation = s.operation; world = w' }))
    unfolding recover_executing recover_rest
    recover_stopped effects verify s h state =
        let (w', e) = stopped_loop effects s.operation.steps s.world h in
        (
          w',
          rw (ap (λ x. same_state x State.snapshotted) state)
              (ap (λ p. ◌>>=◌ (over_steps (λ _ _. p)) (recover_outcome j effects verify) s) e),
        )

    -- An executing operation with a valid plan whose first step that is not applied is failed, and
    -- shows its proposed fingerprint, is left by Recover as it was: the result is the error of the
    -- transition from failed to applied, and the operation is neither finished nor rolled back.
    pub recover_stuck :
        (effects : List (Effect W)) (verify : Option (W → Done × W)) (s : Run W)
        → validate_plan s.operation effects ≡ none
        → s.operation.state ≡ State.executing
        → TookEffect effects s.operation.steps s.world
        → ((recover j effects verify s).0 ≡ err stop)
          × ((recover j effects verify s).1.operation ≡ s.operation)
    unfolding recover_from
    recover_stuck effects verify s plan state h =
        let (w', e) = recover_stopped effects verify s h state in
        let runs : recover j effects verify s
            ≡ (err stop, record { operation = s.operation; world = w' }) =
          recover-runs j effects verify s plan
          ∙ (ap (λ x. recover_from x j effects verify s) state ∙ e) in
        (ap (λ p. p.0) runs, ap (λ p. p.1.operation) runs)
