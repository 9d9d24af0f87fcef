-- ===== src/Operation/Paths.antt =====
-- Steps and operations move only along the transition tables, and keep every other field.
use wiregate.Operation.State.{StepState, valid_step_transition, same_step_state, same_step_state-eq}
use wiregate.Operation.Step.{
  At, step_transition, StepRecord, Journal, call, Failure, set_state, Effect, recover_step,
  rollback_step, apply_step,
}
use wiregate.Operation.Preserve.{IsPreorder, Preserves}
use wiregate.Operation.Action.{Result, Done, ◌>>◌, ok, err, Error}
use wiregate.Prelude.{
  [], ◌∷◌, refl, Bool-cases, inl, inr, Option, ◌≡◌, ◌∙◌, true, ap, List, Bool, AllPairs-refl, ◌∷◌,
  AllPairs, false, AllPairs-trans, some, none,
}
use wiregate.Operation.Loops.{
  apply_steps, recover_next, rollback_steps, apply_next, rollback_next, recover_steps, Rows,
}
use wiregate.Operation.StepRules.{
  recover_step-Preserves, rollback_step-Preserves, apply_step-Preserves,
}

-- A chain of allowed transitions of a step.
pub data StepPath : StepState → StepState → Type 0 where
  here : {s : StepState} → StepPath s s
  next : {s t u : StepState} → StepPath s t → valid_step_transition t u ≡ true → StepPath s u

pub StepPath-trans : {s t u : StepState} → StepPath s t → StepPath t u → StepPath s u
StepPath-trans p here = p
StepPath-trans p (next q h) = next (StepPath-trans p q) h

-- Only the state differs, and it moved along the table.
pub record StepFollows (a b : StepRecord) : Type 0 where
  pub kept : b ≡ record a { state = b.state }
  pub path : StepPath a.state b.state

pub StepFollows-refl : (a : StepRecord) → StepFollows a a
StepFollows-refl a = record { kept = refl; path = StepPath.here }

pub StepFollows-trans : {a b c : StepRecord} → StepFollows a b → StepFollows b c → StepFollows a c
StepFollows-trans {a} {b} {c} p q = record {
  kept = q.kept ∙ ap (λ (x : StepRecord). record x { state = c.state }) p.kept;
  path = StepPath-trans p.path q.path;
}

module _ {W : Type 0} where
  abbrev pub AtFollows : At W → At W → Type 0
  AtFollows a b = StepFollows a.step b.step

  pub AtFollows-preorder : IsPreorder AtFollows
  AtFollows-preorder = record {
    here = λ s. StepFollows-refl s.step;
    chain = λ p q. StepFollows-trans p q;
  }

  pub call-Follows : {A : Type 0} (f : W → Result A × W) → Preserves AtFollows (call f)
  call-Follows f = record { at = λ s. StepFollows-refl s.step }

  -- The journal's answer decides between the two states.
  moved-Follows :
      (a : StepRecord) (to : StepState) (c : At W) (p : Done × W)
      → c.step ≡ a
      → valid_step_transition a.state to ≡ true
      → AtFollows c ((call (λ _. p) >> set_state to) c).1
  moved-Follows a to c (ok _, w) e h =
      rw e (record { kept = refl; path = StepPath.next StepPath.here h })
  moved-Follows a to c (err _, w) e h = StepFollows-refl c.step

  pub step_transition-Follows :
      (j : Journal W) (from to : StepState) (failure : Option Failure)
      → Preserves AtFollows (step_transition j from to failure)
  unfolding step_transition
  step_transition-Follows j from to failure = record {
    at = λ s. elim (Bool-cases (same_step_state s.step.state from)) [
      | inr differs ↦ rw differs (StepFollows-refl s.step)
      | inl same ↦ elim (Bool-cases (valid_step_transition from to)) [
        | inr bad ↦ rw (same, bad) (StepFollows-refl s.step)
        | inl good ↦
            rw (same, good)
              (moved-Follows s.step to s (j.transition_step s.step.id from to failure s.world) refl
                (rw (same_step_state-eq s.step.state from same) good))
      ]
    ];
  }

  module _ (j : Journal W) where
    apply-Follows :
        (effect : Effect W) (recovery : Bool) → Preserves AtFollows (apply_step j effect recovery)
    apply-Follows effect =
        apply_step-Preserves AtFollows AtFollows-preorder j effect (step_transition-Follows j)
          (call-Follows effect.inspect) (call-Follows effect.apply) (call-Follows effect.rollback)

    undo-Follows : (effect : Effect W) → Preserves AtFollows (rollback_step j effect)
    undo-Follows effect =
        rollback_step-Preserves AtFollows AtFollows-preorder j effect (step_transition-Follows j)
          (call-Follows effect.inspect) (call-Follows effect.apply) (call-Follows effect.rollback)

    recover-Follows : (effect : Effect W) → Preserves AtFollows (recover_step j effect)
    recover-Follows effect =
        recover_step-Preserves AtFollows AtFollows-preorder j effect (step_transition-Follows j)
          (call-Follows effect.inspect) (call-Follows effect.apply) (call-Follows effect.rollback)

abbrev pub StepsFollow : List StepRecord → List StepRecord → Type 0
StepsFollow = AllPairs StepFollows

pub StepsFollow-refl : (steps : List StepRecord) → StepsFollow steps steps
StepsFollow-refl = AllPairs-refl StepFollows StepFollows-refl

pub StepsFollow-trans :
    (a b c : List StepRecord) → StepsFollow a b → StepsFollow b c → StepsFollow a c
StepsFollow-trans = AllPairs-trans StepFollows (λ a b c p q. StepFollows-trans p q)

module _ {W : Type 0} (j : Journal W) where
  apply_next-Follow :
      (p : Done × At W) (step : StepRecord) (steps : List StepRecord) (rest : W → Done × Rows W)
      → StepFollows step p.1.step
      → ((w : W) → StepsFollow steps (rest w).1.steps)
      → StepsFollow (step ∷ steps) (apply_next p steps rest).1.steps
  unfolding apply_next
  apply_next-Follow (ok _, c) step steps rest h hs = (h, hs c.world)
  apply_next-Follow (err _, c) step steps rest h hs = (h, StepsFollow-refl steps)

  pub apply_steps-Follow :
      (effects : List (Effect W)) (steps : List StepRecord) (w : W)
      → StepsFollow steps (apply_steps j effects steps w).1.steps
  unfolding apply_steps
  apply_steps-Follow effects [] w = tt
  apply_steps-Follow [] (step ∷ steps) w = StepsFollow-refl (step ∷ steps)
  apply_steps-Follow (effect ∷ effects) (step ∷ steps) w =
      apply_next-Follow (apply_step j effect false (record { step = step; world = w })) step steps
        (apply_steps j effects steps) ((apply-Follows j effect false).at _)
        (apply_steps-Follow effects steps)

  recover_next-Follow :
      (p : Result (Option Error) × At W) (step : StepRecord) (steps : List StepRecord)
      (rest : W → Result (Option Error) × Rows W)
      → StepFollows step p.1.step
      → ((w : W) → StepsFollow steps (rest w).1.steps)
      → StepsFollow (step ∷ steps) (recover_next p steps rest).1.steps
  unfolding recover_next
  recover_next-Follow (ok none, c) step steps rest h hs = (h, hs c.world)
  recover_next-Follow (ok (some _), c) step steps rest h hs = (h, StepsFollow-refl steps)
  recover_next-Follow (err _, c) step steps rest h hs = (h, StepsFollow-refl steps)

  pub recover_steps-Follow :
      (effects : List (Effect W)) (steps : List StepRecord) (w : W)
      → StepsFollow steps (recover_steps j effects steps w).1.steps
  unfolding recover_steps
  recover_steps-Follow effects [] w = tt
  recover_steps-Follow [] (step ∷ steps) w = StepsFollow-refl (step ∷ steps)
  recover_steps-Follow (effect ∷ effects) (step ∷ steps) w =
      recover_next-Follow (recover_step j effect (record { step = step; world = w })) step steps
        (recover_steps j effects steps) ((recover-Follows j effect).at _)
        (recover_steps-Follow effects steps)

  rollback_next-Follow :
      (p : Done × Rows W) (step : StepRecord) (steps : List StepRecord) (undo : At W → Done × At W)
      → StepsFollow steps p.1.steps
      → Preserves AtFollows undo
      → StepsFollow (step ∷ steps) (rollback_next p step undo).1.steps
  unfolding rollback_next
  rollback_next-Follow (ok _, rows) step steps undo hs h =
      (h.at (record { step = step; world = rows.world }), hs)
  rollback_next-Follow (err _, rows) step steps undo hs h = (StepFollows-refl step, hs)

  pub rollback_steps-Follow :
      (effects : List (Effect W)) (steps : List StepRecord) (w : W)
      → StepsFollow steps (rollback_steps j effects steps w).1.steps
  unfolding rollback_steps
  rollback_steps-Follow effects [] w = tt
  rollback_steps-Follow [] (step ∷ steps) w = StepsFollow-refl (step ∷ steps)
  rollback_steps-Follow (effect ∷ effects) (step ∷ steps) w =
      rollback_next-Follow (rollback_steps j effects steps w) step steps (rollback_step j effect)
        (rollback_steps-Follow effects steps w) (undo-Follows j effect)
