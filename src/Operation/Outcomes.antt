-- ===== src/Operation/Outcomes.antt =====
-- How the parts of Execute and Recover end. `Refused` is evidence that the journal refused a
-- transition: nothing holds of it for a journal that never refuses.
use wiregate.Prelude.{refl, List, String, All, Option, ◌≡◌, ◌⊎◌, true, arith, some, inr, inl, none}
use wiregate.Operation.Action.{ok, err, Error, Done, ◌>>◌, on_error, Result, fail}
use wiregate.Operation.State.{State, valid_operation_transition}
use wiregate.Operation.Rollback.{
  Run, fail_and_rollback, call, after_failure, operation_transition, set_state, fail_from,
  fail_rollback, rollback, over_steps, finish_rolled_back,
}
use wiregate.Operation.Step.{Journal, Effect, StepRecord, Failure, safe_failure}
use wiregate.Operation.Commit.{IsUndone, rollback_steps-ok}
use wiregate.Operation.Triple.{
  Outcome, Triple, Triple-bind, Triple-on_error, Triple-fail, Triple-weaken,
}
use wiregate.Operation.Ends.{Ends, Ends-fail, Ends-bind}
use wiregate.Operation.Transition.{operation_transition_allowed}
use wiregate.Operation.Loops.{Rows, rollback_steps}

abbrev pub Anything : List StepRecord → Type 0
Anything _ = Unit

-- States from which `failAndRollback` rolls back.
abbrev pub IsActive : State → Type 0
IsActive s = (s ≡ State.executing) ⊎ (s ≡ State.verifying) ⊎ (s ≡ State.rolling_back)

module _ {W : Type 0} where
  -- The operation is in a state, and its steps satisfy a predicate.
  pub record Shows (state : State) (P : List StepRecord → Type 0) (s : Run W) : Type 0 where
    pub in_state : s.operation.state ≡ state
    pub with_steps : P s.operation.steps

  abbrev pub Never : {A : Type 0} → A → Run W → Type 0
  Never _ _ = ⊥

  Shows-any :
      {state : State} {P : List StepRecord → Type 0} (s : Run W)
      → Shows state P s
      → Shows state Anything s
  Shows-any s h = record { in_state = h.in_state; with_steps = tt }

  pub over_steps-Outcome :
      {A : Type 0} {state : State} (P : List StepRecord → Type 0)
      (f : List StepRecord → W → Result A × Rows W)
      → ((steps : List StepRecord) (w : W) (a : A) → (f steps w).0 ≡ ok a → P (f steps w).1.steps)
      → (s : Run W) → s.operation.state ≡ state
      → Outcome (λ _. Shows state P) (λ _. Shows state Anything) (over_steps f s)
  over_steps-Outcome {A} {state} P f hf s h =
      go (f s.operation.steps s.world) (hf s.operation.steps s.world)
    where
      go :
          (p : Result A × Rows W)
          → ((a : A) → p.0 ≡ ok a → P p.1.steps)
          → Outcome (λ _. Shows state P) (λ _. Shows state Anything) (over_steps (λ _ _. p) s)
      go (ok a, rows) hp = record { in_state = h; with_steps = hp a refl }
      go (err e, rows) hp = record { in_state = h; with_steps = tt }

  -- `_ = m` aside, these end with `fail`.
  pub fail_and_rollback-Never :
      (j : Journal W) (effects : List (Effect W)) (e : Error)
      → Ends Never (fail_and_rollback j effects e)
  unfolding fail_and_rollback
  fail_and_rollback-Never j effects e = record { at = λ s. (go s.operation.state).at s }
    where
      after : Ends Never (after_failure j effects e)
      after = unfold after_failure in search (Ends-fail, Ends-bind)

      go : (state : State) → Ends Never (fail_from state j effects e)
      go State.snapshotted = unfold fail_from in search (Ends-bind, after)
      go State.executing = unfold fail_from in search (Ends-bind, after)
      go State.verifying = unfold fail_from in search (Ends-bind, after)
      go State.rolling_back = unfold fail_from in after
      go _ = unfold fail_from in Ends-fail _ e

  pub record Refusals (j : Journal W) (Refused : Type 0) : Type 0 where
    pub operations :
        (id : String) (from to : State) (f : Option Failure) (w : W) (e : Error)
        → (j.transition_operation id from to f w).0 ≡ err e
        → Refused

  module _ (j : Journal W) (Refused : Type 0) (refusals : Refusals j Refused) where
    -- After a failure: rolled back, with every step undone, or blocked.
    abbrev pub Ended : Run W → Type 0
    Ended s =
        Shows State.rolled_back (All IsUndone) s ⊎ Shows State.rollback_failed Anything s ⊎ Refused

    answered :
        (to : State) (P : List StepRecord → Type 0) (s : Run W) (p : Done × W)
        → ((e : Error) → p.0 ≡ err e → Refused)
        → P s.operation.steps
        → Outcome {S = Run W} {A = Unit {0}}
            (λ _. Shows to P)
            (λ _ _. Refused)
            ((call (λ _. p) >> set_state to) s)
    answered to P s (ok _, w) h steps = record { in_state = refl; with_steps = steps }
    answered to P s (err e, w) h steps = h e refl

    pub transition :
        (from to : State) (failure : Option Failure) (P : List StepRecord → Type 0)
        → valid_operation_transition from to ≡ true
        → Triple
            (Shows from P)
            (operation_transition j from to failure)
            (λ _. Shows to P)
            (λ _ _. Refused)
    transition from to failure P valid = record {
      from = λ s h. rw (operation_transition_allowed j from to failure s h.in_state valid) (
          answered to P s (j.transition_operation s.operation.id from to failure s.world)
            (refusals.operations s.operation.id from to failure s.world) h.with_steps);
    }

    module _ (effects : List (Effect W)) where
      over_rollback :
          Triple
            (Shows State.rolling_back Anything)
            (over_steps (rollback_steps j effects))
            (λ _. Shows State.rolling_back (All IsUndone))
            (λ _. Shows State.rolling_back Anything)
      over_rollback = record {
        from = λ s h.
            over_steps-Outcome (All IsUndone) (rollback_steps j effects)
              (λ steps w a e. rollback_steps-ok j effects steps w e) s h.in_state;
      }

      fail_rollback-Ended :
          (cause : Error)
          → Triple (Shows State.rolling_back Anything) (fail_rollback j cause) Never (λ _. Ended)
      unfolding fail_rollback
      fail_rollback-Ended cause =
          Triple-bind (λ _. Shows State.rollback_failed Anything) _ _
            (Triple-on_error (λ _ _. Refused) _ _
              (transition State.rolling_back State.rollback_failed _ Anything
                (unfold valid_operation_transition in refl))
              (λ e. Triple-fail _ (λ s r. inr (inr r))))
            (λ _. Triple-fail _ (λ s h. inr (inl h)))

      pub rollback-Ended :
          Triple
            (Shows State.rolling_back Anything)
            (rollback j effects)
            (λ _. Shows State.rolled_back (All IsUndone))
            (λ _. Ended)
      unfolding rollback finish_rolled_back
      rollback-Ended =
          Triple-bind (λ _. Shows State.rolling_back (All IsUndone)) _ _
            (Triple-on_error (λ _. Shows State.rolling_back Anything) _ _ over_rollback
              (λ e.
                Triple-weaken (fail_rollback-Ended e) (λ s h. h) (λ a s h. absurd h) (λ e' s h. h)))
            (λ _.
              Triple-weaken
                (transition State.rolling_back State.rolled_back none (All IsUndone)
                  (unfold valid_operation_transition in refl))
                (λ s h. h) (λ a s h. h) (λ e s r. inr (inr r)))

      after_failure-Ended :
          (e : Error)
          → Triple
              (Shows State.rolling_back Anything)
              (after_failure j effects e)
              Never
              (λ _. Ended)
      unfolding after_failure
      after_failure-Ended e =
          Triple-bind (λ _. Shows State.rolled_back (All IsUndone)) _ _
            (Triple-on_error (λ _. Ended) _ _ rollback-Ended (λ e'. Triple-fail _ (λ s h. h)))
            (λ _. Triple-fail _ (λ s h. inl h))

      fail_from-Ended :
          (state : State) (e : Error)
          → valid_operation_transition state State.rolling_back ≡ true
          → Triple
              (Shows state Anything)
              (on_error
                  (operation_transition j state State.rolling_back
                    (some (safe_failure "OPERATION_FAILED" e)))
                  (λ e'. fail (Error.join e e'))
                >> after_failure j effects e)
              Never
              (λ _. Ended)
      fail_from-Ended state e valid =
          Triple-bind (λ _. Shows State.rolling_back Anything) _ _
            (Triple-on_error (λ _ _. Refused) _ _
              (transition state State.rolling_back _ Anything valid)
              (λ e'. Triple-fail _ (λ s r. inr (inr r))))
            (λ _. after_failure-Ended e)

      active :
          (state : State) (e : Error)
          → IsActive state
          → Triple (Shows state Anything) (fail_from state j effects e) Never (λ _. Ended)
      unfolding fail_from
      active State.executing e h =
          fail_from-Ended State.executing e (unfold valid_operation_transition in refl)
      active State.verifying e h =
          fail_from-Ended State.verifying e (unfold valid_operation_transition in refl)
      active State.rolling_back e h = after_failure-Ended e
      active _ e h = ground arith

      pub fail_and_rollback-Ended :
          (e : Error)
          → Triple
              (λ s. IsActive s.operation.state)
              (fail_and_rollback j effects e)
              Never
              (λ _. Ended)
      unfolding fail_and_rollback
      fail_and_rollback-Ended e = record {
        from = λ s h.
            (active s.operation.state e h).from s (record { in_state = refl; with_steps = tt });
      }
