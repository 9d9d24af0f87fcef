-- ===== src/Operation/Loops.antt =====
-- The loops of engine.go over the steps of an operation, each step with the effect at its index
-- (the loops of Execute, recoverExecuting and rollback).
use wiregate.Prelude.{false, List, [], ◌∷◌, Option, none, some}
use wiregate.Operation.Action.{Error, Result, ok, err, Done}
use wiregate.Operation.Step.{
  StepRecord, Journal, Effect, apply_step, rollback_step, recover_step, At,
}

-- What a loop over the steps changes.
pub record Rows (W : Type 0) : Type 0 where
  pub steps : List StepRecord
  pub world : W

module _ {W : Type 0} where
  abbrev pub with_step : StepRecord → Rows W → Rows W
  with_step step rows = record rows { steps = step ∷ rows.steps }

  -- The rest of the loop after one step, which an error leaves out.
  unfoldable pub apply_next : Done × At W → List StepRecord → (W → Done × Rows W) → Done × Rows W
  apply_next (ok _, c) steps rest = let (r, rows) = rest c.world in (r, with_step c.step rows)
  apply_next (err e, c) steps rest = (err e, record { steps = c.step ∷ steps; world = c.world })

  -- The loop of `Execute`. An effect is missing only if `validatePlan` was skipped.
  unfoldable pub apply_steps : Journal W → List (Effect W) → List StepRecord → W → Done × Rows W
  unfolding apply_next
  apply_steps j effects [] w = (ok tt, record { steps = []; world = w })
  apply_steps j [] (step ∷ steps) w =
      (err Error.index_out_of_range, record { steps = step ∷ steps; world = w })
  apply_steps j (effect ∷ effects) (step ∷ steps) w =
      apply_next (apply_step j effect false (record { step = step; world = w })) steps
        (apply_steps j effects steps)

  unfoldable pub recover_next :
      Result (Option Error) × At W
      → List StepRecord
      → (W → Result (Option Error) × Rows W)
      → Result (Option Error) × Rows W
  recover_next (ok none, c) steps rest = let (r, rows) = rest c.world in (r, with_step c.step rows)
  recover_next (ok (some e), c) steps rest =
      (ok (some e), record { steps = c.step ∷ steps; world = c.world })
  recover_next (err e, c) steps rest = (err e, record { steps = c.step ∷ steps; world = c.world })

  -- The loop of `recoverExecuting`, with the outcomes of `recover_step`.
  unfoldable pub recover_steps :
      Journal W → List (Effect W) → List StepRecord → W → Result (Option Error) × Rows W
  unfolding recover_next
  recover_steps j effects [] w = (ok none, record { steps = []; world = w })
  recover_steps j [] (step ∷ steps) w =
      (err Error.index_out_of_range, record { steps = step ∷ steps; world = w })
  recover_steps j (effect ∷ effects) (step ∷ steps) w =
      recover_next (recover_step j effect (record { step = step; world = w })) steps
        (recover_steps j effects steps)

  unfoldable pub rollback_next : Done × Rows W → StepRecord → (At W → Done × At W) → Done × Rows W
  rollback_next (ok _, rows) step undo =
      let (r, c) = undo (record { step = step; world = rows.world }) in
      (r, record { steps = c.step ∷ rows.steps; world = c.world })
  rollback_next (err e, rows) step undo = (err e, with_step step rows)

  -- The loop of `rollback`, from the last index down: the later steps come first.
  unfoldable pub rollback_steps : Journal W → List (Effect W) → List StepRecord → W → Done × Rows W
  unfolding rollback_next
  rollback_steps j effects [] w = (ok tt, record { steps = []; world = w })
  rollback_steps j [] (step ∷ steps) w =
      (err Error.index_out_of_range, record { steps = step ∷ steps; world = w })
  rollback_steps j (effect ∷ effects) (step ∷ steps) w =
      rollback_next (rollback_steps j effects steps w) step (rollback_step j effect)
