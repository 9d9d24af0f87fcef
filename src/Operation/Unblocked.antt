-- ===== src/Operation/Unblocked.antt =====
-- Recovery's loop never stops on an error of its own when no step is failed and the journal
-- accepts every transition.
use wiregate.Prelude.{
  refl, [], ◌∷◌, none, some, List, ◌≢◌, ◌≡◌, All, length, ◌≤◌, Option, Bool, true, if◌then◌else◌,
  arith, false, String,
}
use wiregate.Operation.Action.{ok, err, Action, Result, Done, ◌>>◌, return, Error}
use wiregate.Operation.State.{StepState, valid_step_transition}
use wiregate.Operation.Step.{
  Journal, StepRecord, Effect, At, or_roll_back, step_transition, call, reconcile_from, set_state,
  recover_by, recover_step, reconcile_seen, apply_step,
}
use wiregate.Operation.Results.{IsReliable}
use wiregate.Operation.Triple.{Outcome, Triple-branch, Triple, Triple-bind}
use wiregate.Operation.Loops.{recover_steps, recover_next, Rows}
use wiregate.Operation.Transition.{step_transition_allowed}

abbrev pub IsNotFailed : StepRecord → Type 0
IsNotFailed step = step.state ≢ StepState.failed

-- No step is failed, and no effect is missing.
pub record IsRecoverable {W : Type 0} (effects : List (Effect W)) (steps : List StepRecord)
    : Type 0 where
  pub not_failed : All IsNotFailed steps
  pub covered : length steps ≤ length effects

module _ {W : Type 0} where
  abbrev InState : StepState → At W → Type 0
  InState state c = c.step.state ≡ state

  -- From a step in a state, no error.
  abbrev NoError : {A : Type 0} → StepState → Action (At W) A → Type 0
  NoError state m = Triple (InState state) m (λ _ _. Unit) (λ _ _. ⊥)

  or_roll_back-NoError :
      (P : At W → Type 0) (m : Action (At W) (Unit {0}))
      → Triple P (or_roll_back m) (λ _ _. Unit) (λ _ _. ⊥)
  or_roll_back-NoError P m = record { from = λ c _. go (m c) c }
    where
      go :
          (p : Done × At W) (c : At W)
          → Outcome {S = At W} (λ _ _. Unit) (λ _ _. ⊥) (or_roll_back (λ _. p) c)
      go (ok _, t) c = tt
      go (err _, t) c = tt

  call-InState :
      {A : Type 0} (state : StepState) (f : W → Result A × W)
      → Triple (InState state) (call f) (λ _. InState state) (λ _. InState state)
  call-InState {A} state f = record { from = λ c h. go c (f c.world) h }
    where
      go :
          (c : At W) (p : Result A × W)
          → InState state c
          → Outcome (λ _. InState state) (λ _. InState state) (call (λ _. p) c)
      go c (ok _, w) h = h
      go c (err _, w) h = h

  module _ (j : Journal W) (reliable : IsReliable j) where
    move-NoError :
        (from to : StepState)
        → valid_step_transition from to ≡ true
        → NoError from (step_transition j from to none)
    move-NoError from to valid = record {
      from = λ c h.
          rw (step_transition_allowed j from to none c h valid)
            (go c (j.transition_step c.step.id from to none c.world) (reliable.steps _ _ _ _ _));
    }
      where
        go :
            (c : At W) (p : Done × W)
            → p.0 ≡ ok tt
            → Outcome {S = At W} {A = Unit {0}}
                (λ _ _. Unit)
                (λ _ _. ⊥)
                ((call (λ _. p) >> set_state to) c)
        go c (ok _, w) h = tt
        go c (err _, w) h = cc

    if-NoError :
        {A : Type 0} (b : Bool) (m k : Action (At W) A)
        → NoError StepState.executing m
        → NoError StepState.executing k
        → NoError StepState.executing (if b then m else k)
    if-NoError true m k hm hk = hm
    if-NoError false m k hm hk = hk

    applied_none : NoError StepState.executing (
        step_transition j StepState.executing StepState.applied none
        >> return {A = Option Error} none)
    applied_none =
        Triple-bind (λ _ _. Unit) (step_transition j StepState.executing StepState.applied none)
          (λ _. return none)
          (move-NoError StepState.executing StepState.applied
            (unfold valid_step_transition in refl))
          (λ _. record { from = λ s h. tt })

    return-NoError : {A : Type 0} (a : A) → NoError StepState.executing (return a)
    return-NoError a = record { from = λ s h. tt }

    retry :
        (m : Action (At W) (Unit {0}))
        → NoError StepState.executing (return {A = Unit {0}} tt >> or_roll_back m)
    retry m = record { from = λ s h. (or_roll_back-NoError (λ _. Unit) m).from s tt }

    seen-NoError :
        (effect : Effect W) (step : StepRecord) (fingerprint : String)
        → step.state ≡ StepState.executing
        → NoError StepState.executing (reconcile_seen j effect step fingerprint)
    unfolding reconcile_seen
    seen-NoError effect step fingerprint e =
        rw e (search (if-NoError, applied_none, retry, return-NoError))

    reconcile-NoError :
        (effect : Effect W) (step : StepRecord)
        → step.state ≡ StepState.executing
        → NoError StepState.executing (reconcile_from j effect step)
    unfolding reconcile_from
    reconcile-NoError effect step e =
        Triple-branch (λ _. InState StepState.executing) (λ _. InState StepState.executing)
          (call effect.inspect) (λ e'. return (some (Error.inspect_step step.name e')))
          (reconcile_seen j effect step) (call-InState StepState.executing effect.inspect)
          (λ e'. return-NoError (some (Error.inspect_step step.name e')))
          (λ fingerprint. seen-NoError effect step fingerprint e)

    recover_by-NoError :
        (state : StepState) (effect : Effect W) (c : At W)
        → c.step.state ≡ state
        → state ≢ StepState.failed
        → Outcome {S = At W} (λ _ _. Unit) (λ _ _. ⊥) (recover_by state j effect c)
    unfolding recover_by
    recover_by-NoError StepState.pending effect c e n =
        (or_roll_back-NoError (λ _. Unit) (apply_step j effect true)).from c tt
    recover_by-NoError StepState.executing effect c e n =
        (reconcile-NoError effect c.step e).from c e
    recover_by-NoError StepState.failed effect c e n = absurd (n refl)
    recover_by-NoError StepState.applied effect c e n = tt
    recover_by-NoError StepState.rolling_back effect c e n = tt
    recover_by-NoError StepState.rolled_back effect c e n = tt

    next-no_err :
        (p : Result (Option Error) × At W) (steps : List StepRecord)
        (rest : W → Result (Option Error) × Rows W) (e : Error)
        → Outcome {S = At W} (λ _ _. Unit) (λ _ _. ⊥) p
        → ((w : W) → (rest w).0 ≢ err e)
        → (recover_next p steps rest).0 ≢ err e
    unfolding recover_next
    next-no_err (ok none, c) steps rest e hp hr h = hr c.world h
    next-no_err (ok (some x), c) steps rest e hp hr h = cc
    next-no_err (err x, c) steps rest e hp hr h = hp

    -- The loop reaches its end, or asks for a rollback.
    pub recover_steps-no_err :
        (effects : List (Effect W)) (steps : List StepRecord) (w : W) (e : Error)
        → All IsNotFailed steps
        → length steps ≤ length effects
        → (recover_steps j effects steps w).0 ≢ err e
    unfolding recover_steps recover_step
    recover_steps-no_err effects [] w e hs hl h = cc
    recover_steps-no_err [] (step ∷ steps) w e hs hl h = absurd (omega arith)
    recover_steps-no_err (effect ∷ effects) (step ∷ steps) w e hs hl h =
        next-no_err (recover_step j effect (record { step = step; world = w })) steps
          (recover_steps j effects steps) e
          (recover_by-NoError step.state effect (record { step = step; world = w }) refl hs.0)
          (λ w'. recover_steps-no_err effects steps w' e hs.1 (omega arith)) h
