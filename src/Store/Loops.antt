-- ===== src/Store/Loops.antt =====
-- The loops of the engine over the repository leave the table of operations alone.
use wiregate.Prelude.{
  List, ℕ, Option, String, Bool, none, some, ◌≡◌, map, refl, Fallible, success, failure, inl, inr,
  [], ◌∷◌, ◌∙◌, false,
}
use wiregate.Operation.State.{StepState}
use wiregate.Operation.Action.{Error, ok, err, Done, Result, ◌>>◌}
use wiregate.Operation.Step.{
  Journal, Effect, Failure, At, StepRecord, recover_step, apply_step, rollback_step,
}
use wiregate.Operation.Loops.{
  Rows, rollback_next, rollback_steps, recover_next, apply_next, recover_steps, apply_steps,
}
use wiregate.Operation.Preserve.{Preserves, IsPreorder}
use wiregate.Store.Tables.{Store, StoreError}
use wiregate.Store.Journal.{World, answer, journal, on_host, hosted}
use wiregate.Store.Consistent.{transition_step-operations}
use wiregate.Operation.Transition.{step_transition_cases}
use wiregate.Operation.StepRules.{
  recover_step-Preserves, rollback_step-Preserves, apply_step-Preserves,
}
use wiregate.Operation.Step
use wiregate.Store.Operations

module _ {H : Type 0} where
  -- The same operations.
  abbrev pub Keeps : World H → World H → Type 0
  Keeps w v = v.store.operations ≡ w.store.operations

  abbrev AtKeeps : At (World H) → At (World H) → Type 0
  AtKeeps c d = Keeps c.world d.world

  at_order : IsPreorder AtKeeps
  at_order = record { here = λ c. refl; chain = λ p q. q ∙ p }

  answered :
      (id : String) (from to : StepState) (failed : Option Failure) (now : ℕ) (c : At (World H))
      (r : Fallible StoreError Store)
      → Operations.transition_step id from to failed now c.world.store ≡ r
      → AtKeeps c ((Step.call (λ w. answer w r) >> Step.set_state to) c).1
  answered id from to failed now c (failure e) h = refl
  answered id from to failed now c (success u) h =
      transition_step-operations id from to failed now c.world.store u h

  step-Keeps :
      (clock : H → ℕ) (from to : StepState) (failed : Option Failure)
      → Preserves AtKeeps (Step.step_transition (journal clock) from to failed)
  unfolding journal
  step-Keeps clock from to failed = record {
    at = λ c. elim (step_transition_cases (journal clock) from to failed c) [
      | inl (e, refused) ↦ rw refused refl
      | inr (_, _, moved) ↦
          rw moved (answered c.step.id from to failed (clock c.world.host) c _ refl)
    ];
  }

  hosted-Keeps : {A : Type 0} (f : H → Result A × H) → Preserves AtKeeps (Step.call (on_host f))
  hosted-Keeps f = record { at = λ c. refl }

  module _ (clock : H → ℕ) where
    apply-Keeps :
        (e : Effect H) (recovery : Bool)
        → Preserves AtKeeps (apply_step (journal clock) (hosted e) recovery)
    unfolding hosted
    apply-Keeps e recovery =
        apply_step-Preserves AtKeeps at_order (journal clock) (hosted e) (step-Keeps clock)
          (hosted-Keeps e.inspect) (hosted-Keeps e.apply) (hosted-Keeps e.rollback) recovery

    recover-Keeps : (e : Effect H) → Preserves AtKeeps (recover_step (journal clock) (hosted e))
    unfolding hosted
    recover-Keeps e =
        recover_step-Preserves AtKeeps at_order (journal clock) (hosted e) (step-Keeps clock)
          (hosted-Keeps e.inspect) (hosted-Keeps e.apply) (hosted-Keeps e.rollback)

    undo-Keeps : (e : Effect H) → Preserves AtKeeps (rollback_step (journal clock) (hosted e))
    unfolding hosted
    undo-Keeps e =
        rollback_step-Preserves AtKeeps at_order (journal clock) (hosted e) (step-Keeps clock)
          (hosted-Keeps e.inspect) (hosted-Keeps e.apply) (hosted-Keeps e.rollback)

    apply_next-Keeps :
        (w : World H) (p : Done × At (World H)) (steps : List StepRecord)
        (rest : World H → Done × Rows (World H))
        → Keeps w p.1.world
        → ((v : World H) → Keeps v (rest v).1.world)
        → Keeps w (apply_next p steps rest).1.world
    unfolding apply_next
    apply_next-Keeps w (ok _, c) steps rest h hs = hs c.world ∙ h
    apply_next-Keeps w (err e, c) steps rest h hs = h

    pub apply_steps-Keeps :
        (effects : List (Effect H)) (steps : List StepRecord) (w : World H)
        → Keeps w (apply_steps (journal clock) (map hosted effects) steps w).1.world
    unfolding apply_steps
    apply_steps-Keeps effects [] w = refl
    apply_steps-Keeps [] (step ∷ steps) w = refl
    apply_steps-Keeps (e ∷ effects) (step ∷ steps) w =
        apply_next-Keeps w
          (apply_step (journal clock) (hosted e) false (record { step = step; world = w })) steps
          (apply_steps (journal clock) (map hosted effects) steps)
          ((apply-Keeps e false).at (record { step = step; world = w }))
          (apply_steps-Keeps effects steps)

    recover_next-Keeps :
        (w : World H) (p : Result (Option Error) × At (World H)) (steps : List StepRecord)
        (rest : World H → Result (Option Error) × Rows (World H))
        → Keeps w p.1.world
        → ((v : World H) → Keeps v (rest v).1.world)
        → Keeps w (recover_next p steps rest).1.world
    unfolding recover_next
    recover_next-Keeps w (ok none, c) steps rest h hs = hs c.world ∙ h
    recover_next-Keeps w (ok (some e), c) steps rest h hs = h
    recover_next-Keeps w (err e, c) steps rest h hs = h

    pub recover_steps-Keeps :
        (effects : List (Effect H)) (steps : List StepRecord) (w : World H)
        → Keeps w (recover_steps (journal clock) (map hosted effects) steps w).1.world
    unfolding recover_steps
    recover_steps-Keeps effects [] w = refl
    recover_steps-Keeps [] (step ∷ steps) w = refl
    recover_steps-Keeps (e ∷ effects) (step ∷ steps) w =
        recover_next-Keeps w
          (recover_step (journal clock) (hosted e) (record { step = step; world = w })) steps
          (recover_steps (journal clock) (map hosted effects) steps)
          ((recover-Keeps e).at (record { step = step; world = w }))
          (recover_steps-Keeps effects steps)

    rollback_next-Keeps :
        (w : World H) (p : Done × Rows (World H)) (step : StepRecord)
        (undo : At (World H) → Done × At (World H))
        → Keeps w p.1.world
        → Preserves AtKeeps undo
        → Keeps w (rollback_next p step undo).1.world
    unfolding rollback_next
    rollback_next-Keeps w (ok _, rows) step undo h hs =
        hs.at (record { step = step; world = rows.world }) ∙ h
    rollback_next-Keeps w (err e, rows) step undo h hs = h

    pub rollback_steps-Keeps :
        (effects : List (Effect H)) (steps : List StepRecord) (w : World H)
        → Keeps w (rollback_steps (journal clock) (map hosted effects) steps w).1.world
    unfolding rollback_steps
    rollback_steps-Keeps effects [] w = refl
    rollback_steps-Keeps [] (step ∷ steps) w = refl
    rollback_steps-Keeps (e ∷ effects) (step ∷ steps) w =
        rollback_next-Keeps w (rollback_steps (journal clock) (map hosted effects) steps w) step
          (rollback_step (journal clock) (hosted e)) (rollback_steps-Keeps effects steps w)
          (undo-Keeps e)
