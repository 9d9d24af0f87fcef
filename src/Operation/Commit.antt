-- ===== src/Operation/Commit.antt =====
-- What success means: every step is applied and the operation committed, or every step is undone
-- and the operation rolled back.
use wiregate.Prelude.{refl, [], ◌∷◌, none, some, ◌≡◌, List, Option, All, false}
use wiregate.Operation.Action.{ok, err, Done, Result, Error}
use wiregate.Operation.Step.{
  StepRecord, Journal, Effect, At, apply_step, recover_step, rollback_step,
}
use wiregate.Operation.Loops.{
  rollback_steps, recover_next, apply_steps, apply_next, recover_steps, rollback_next, Rows,
}
use wiregate.Operation.Ends.{
  IsSettled, Ends, recover_step-Ends, rollback_step-Ends, apply_step-Ends,
}
use wiregate.Operation.State.{StepState}

abbrev pub IsApplied : StepRecord → Type 0
IsApplied step = step.state ≡ StepState.applied

abbrev pub IsUndone : StepRecord → Type 0
IsUndone step = IsSettled step.state

module _ {W : Type 0} (j : Journal W) where
  apply_next-ok :
      (p : Done × At W) (steps : List StepRecord) (rest : W → Done × Rows W)
      → (p.0 ≡ ok tt → IsApplied p.1.step)
      → ((w : W) → (rest w).0 ≡ ok tt → All IsApplied (rest w).1.steps)
      → (apply_next p steps rest).0 ≡ ok tt
      → All IsApplied (apply_next p steps rest).1.steps
  unfolding apply_next
  apply_next-ok (ok tt, c) steps rest hp hr h = (hp refl, hr c.world h)
  apply_next-ok (err e, c) steps rest hp hr h = cc

  pub apply_steps-ok :
      (effects : List (Effect W)) (steps : List StepRecord) (w : W)
      → (apply_steps j effects steps w).0 ≡ ok tt
      → All IsApplied (apply_steps j effects steps w).1.steps
  unfolding apply_steps
  apply_steps-ok effects [] w h = tt
  apply_steps-ok [] (step ∷ steps) w h = cc
  apply_steps-ok (effect ∷ effects) (step ∷ steps) w h =
      apply_next-ok (apply_step j effect false (record { step = step; world = w })) steps
        (apply_steps j effects steps) ((apply_step-Ends j effect false).at _ tt)
        (apply_steps-ok effects steps) h

  recover_next-ok :
      (p : Result (Option Error) × At W) (steps : List StepRecord)
      (rest : W → Result (Option Error) × Rows W)
      → (p.0 ≡ ok none → IsApplied p.1.step)
      → ((w : W) → (rest w).0 ≡ ok none → All IsApplied (rest w).1.steps)
      → (recover_next p steps rest).0 ≡ ok none
      → All IsApplied (recover_next p steps rest).1.steps
  unfolding recover_next
  recover_next-ok (ok none, c) steps rest hp hr h = (hp refl, hr c.world h)
  recover_next-ok (ok (some e), c) steps rest hp hr h = absurd (cc h)
  recover_next-ok (err e, c) steps rest hp hr h = cc

  pub recover_steps-ok :
      (effects : List (Effect W)) (steps : List StepRecord) (w : W)
      → (recover_steps j effects steps w).0 ≡ ok none
      → All IsApplied (recover_steps j effects steps w).1.steps
  unfolding recover_steps
  recover_steps-ok effects [] w h = tt
  recover_steps-ok [] (step ∷ steps) w h = cc
  recover_steps-ok (effect ∷ effects) (step ∷ steps) w h =
      recover_next-ok (recover_step j effect (record { step = step; world = w })) steps
        (recover_steps j effects steps) (λ e. (recover_step-Ends j effect).at _ none e refl)
        (recover_steps-ok effects steps) h

  rollback_next-ok :
      (p : Done × Rows W) (step : StepRecord) (undo : At W → Done × At W)
      → (p.0 ≡ ok tt → All IsUndone p.1.steps)
      → Ends (λ _ c. IsUndone c.step) undo
      → (rollback_next p step undo).0 ≡ ok tt
      → All IsUndone (rollback_next p step undo).1.steps
  unfolding rollback_next
  rollback_next-ok (ok tt, rows) step undo hp hu h =
      (hu.at (record { step = step; world = rows.world }) tt h, hp refl)
  rollback_next-ok (err e, rows) step undo hp hu h = cc

  pub rollback_steps-ok :
      (effects : List (Effect W)) (steps : List StepRecord) (w : W)
      → (rollback_steps j effects steps w).0 ≡ ok tt
      → All IsUndone (rollback_steps j effects steps w).1.steps
  unfolding rollback_steps
  rollback_steps-ok effects [] w h = tt
  rollback_steps-ok [] (step ∷ steps) w h = cc
  rollback_steps-ok (effect ∷ effects) (step ∷ steps) w h =
      rollback_next-ok (rollback_steps j effects steps w) step (rollback_step j effect)
        (rollback_steps-ok effects steps w) (rollback_step-Ends j effect) h
