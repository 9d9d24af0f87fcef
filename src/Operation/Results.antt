-- ===== src/Operation/Results.antt =====
-- The ends of Execute: committed with every step applied, or undone.
use wiregate.Prelude.{refl, inl, inr, none, some, List, String, Option, ◌≡◌, All, ◌⊎◌}
use wiregate.Operation.Action.{ok, err, Done, Error}
use wiregate.Operation.State.{State, StepState, valid_operation_transition}
use wiregate.Operation.Step.{Journal, Effect, Failure, StepRecord}
use wiregate.Operation.Outcomes.{
  Refusals, IsActive, Shows, Anything, Never, Ended, fail_and_rollback-Ended,
  fail_and_rollback-Never, transition, over_steps-Outcome,
}
use wiregate.Operation.Engine.{execute_steps, run_verify, execute_body}
use wiregate.Operation.Rollback.{Run, fail_and_rollback, operation_transition, call}
use wiregate.Operation.Triple.{
  Triple, Outcome, Triple-bind, Triple-weaken, Triple-branch, Triple-on_error, Triple-fail,
}
use wiregate.Operation.Commit.{IsApplied, apply_steps-ok}
use wiregate.Operation.Loops.{apply_steps}

-- The journal accepts every transition.
pub record IsReliable {W : Type 0} (j : Journal W) : Type 0 where
  pub operations :
      (id : String) (from to : State) (f : Option Failure) (w : W)
      → (j.transition_operation id from to f w).0 ≡ ok tt
  pub steps :
      (id : String) (from to : StepState) (f : Option Failure) (w : W)
      → (j.transition_step id from to f w).0 ≡ ok tt

pub IsReliable-Refusals : {W : Type 0} (j : Journal W) → IsReliable j → Refusals j ⊥
IsReliable-Refusals j r = record {
  operations = λ id from to f w e h. cc (r.operations id from to f w);
}

module _ {W : Type 0} (j : Journal W) (effects : List (Effect W))
    (verify : Option (W → Done × W)) where
  module _ (Refused : Type 0) (refusals : Refusals j Refused) where
    -- In the middle of Execute: rolling back is possible, or the journal refused.
    abbrev pub Midway : Run W → Type 0
    Midway s = IsActive s.operation.state ⊎ Refused

    pub give_up :
        (e : Error)
        → Triple Midway (fail_and_rollback j effects e) Never (λ _. Ended j Refused refusals)
    give_up e = record {
      from = λ s h. elim h [
        | inl active ↦ (fail_and_rollback-Ended j Refused refusals effects e).from s active
        | inr refused ↦
            go refused (fail_and_rollback j effects e s)
              (λ a. (fail_and_rollback-Never j effects e).at s a)
      ];
    }
      where
        go :
            Refused
            → (p : Done × Run W) → ((a : Unit {0}) → p.0 ≡ ok a → ⊥)
            → Outcome {A = Unit {0}} Never (λ _. Ended j Refused refusals) p
        go r (ok a, t) never = never a refl
        go r (err e', t) never = inr (inr r)

    pub run_verify-Shows :
        (P : List StepRecord → Type 0)
        → Triple
            (Shows State.verifying P)
            (run_verify verify)
            (λ _. Shows State.verifying P)
            (λ _. Shows State.verifying P)
    run_verify-Shows P = record { from = λ s h. go verify s h }
      where
        called :
            (s : Run W) (p : Done × W)
            → Shows State.verifying P s
            → Outcome {A = Unit {0}}
                (λ _. Shows State.verifying P)
                (λ _. Shows State.verifying P)
                (call (λ _. p) s)
        called s (ok a, w) h = record { in_state = h.in_state; with_steps = h.with_steps }
        called s (err e, w) h = record { in_state = h.in_state; with_steps = h.with_steps }

        go :
            (v : Option (W → Done × W)) (s : Run W)
            → Shows State.verifying P s
            → Outcome (λ _. Shows State.verifying P) (λ _. Shows State.verifying P) (run_verify v s)
        go none s h = h
        go (some v) s h = called s (v s.world) h

    pub to_verifying :
        Triple
          (Shows State.executing (All IsApplied))
          (operation_transition j State.executing State.verifying none)
          (λ _. Shows State.verifying (All IsApplied))
          (λ _ _. Refused)
    to_verifying =
        transition j Refused refusals State.executing State.verifying none (All IsApplied)
          (unfold valid_operation_transition in refl)

    pub to_committed :
        Triple
          (Shows State.verifying (All IsApplied))
          (operation_transition j State.verifying State.committed none)
          (λ _. Shows State.committed (All IsApplied))
          (λ _. Ended j Refused refusals)
    to_committed =
        Triple-weaken
          (transition j Refused refusals State.verifying State.committed none (All IsApplied)
            (unfold valid_operation_transition in refl))
          (λ s h. h) (λ a s h. h) (λ e s r. inr (inr r))

    body-Midway :
        Triple
          (Shows State.executing Anything)
          (execute_body j effects verify)
          (λ _. Shows State.verifying (All IsApplied))
          (λ _. Midway)
    unfolding execute_body
    body-Midway =
        Triple-bind (λ _. Shows State.executing (All IsApplied)) _ _
          (Triple-weaken
            (record {
              from = λ s h.
                  over_steps-Outcome (All IsApplied) (apply_steps j effects)
                    (λ steps w a e. apply_steps-ok j effects steps w e) s h.in_state;
            })
            (λ s h. h) (λ a s h. h) (λ e s h. inl (inl h.in_state)))
          (λ _.
            Triple-bind (λ _. Shows State.verifying (All IsApplied)) _ _
              (Triple-weaken to_verifying (λ s h. h) (λ a s h. h) (λ e s r. inr r))
              (λ _.
                Triple-on_error (λ _. Shows State.verifying (All IsApplied)) _ _
                  (run_verify-Shows (All IsApplied))
                  (λ e. Triple-fail _ (λ s h. inl (inr (inl h.in_state))))))

    pub execute_steps-Ended :
        Triple
          (Shows State.snapshotted Anything)
          (execute_steps j effects verify)
          (λ _. Shows State.committed (All IsApplied))
          (λ _. Ended j Refused refusals)
    unfolding execute_steps
    execute_steps-Ended =
        Triple-bind (λ _. Shows State.executing Anything) _ _
          (Triple-weaken
            (transition j Refused refusals State.snapshotted State.executing none Anything
              (unfold valid_operation_transition in refl))
            (λ s h. h) (λ a s h. h) (λ e s r. inr (inr r)))
          (λ _.
            Triple-branch (λ _. Shows State.verifying (All IsApplied)) (λ _. Midway)
              (execute_body j effects verify) _ _ body-Midway
              (λ e. Triple-weaken (give_up e) (λ s h. h) (λ a s h. absurd h) (λ e' s h. h))
              (λ _. to_committed))
