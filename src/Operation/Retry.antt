-- ===== src/Operation/Retry.antt =====
-- Recovery never applies an effect that is not idempotent: what Apply would do has no influence.
use wiregate.Prelude.{
  refl, [], ◌∷◌, none, some, ap, ◌≡◌, true, false, String, List, Bool-cases, ℕ, All, map, str_eq,
  inl, ap₂, ◌+◌, Option, inr, length-map, if◌then◌else◌,
}
use mathlib.Core.Path.{fun_ext}
use wiregate.Operation.State.{State, StepState, same_state}
use wiregate.Operation.Action.{Done, branch, return, Error, ◌>>=◌, on_error, ◌>>◌, err}
use wiregate.Operation.Step.{
  Effect, Journal, apply_from, apply_step, reconcile_seen, StepRecord, reconcile_from,
  rollback_step, recover_step, recover_by, undo_from, At, call, or_roll_back,
}
use wiregate.Operation.Plan.{check_steps, validate_plan}
use wiregate.Operation.Loops.{rollback_steps, recover_steps, recover_next, rollback_next}
use wiregate.Operation.Engine.{
  recover_executing, recover_outcome, recover_rest, recover_from, recover,
}
use wiregate.Operation.Rollback.{
  fail_and_rollback, fail_from, after_failure, rollback, Operation, over_steps, Run, fail_rollback,
  finish_rolled_back, operation_transition,
}

module _ {W : Type 0} (f : W → Done × W) where
  -- The same effect, with another Apply.
  abbrev pub with_apply : Effect W → Effect W
  with_apply effect = record effect { apply = f }

  abbrev pub IsOnce : Effect W → Type 0
  IsOnce effect = effect.idempotent ≡ false

  module _ (j : Journal W) where
    apply_from-same :
        (effect : Effect W) (step : StepRecord)
        → IsOnce effect
        → apply_from j (with_apply effect) true step ≡ apply_from j effect true step
    unfolding apply_from
    apply_from-same effect step h = rw h

    apply_step-same :
        (effect : Effect W)
        → IsOnce effect
        → apply_step j (with_apply effect) true ≡ apply_step j effect true
    unfolding apply_step
    apply_step-same effect h = fun_ext λ c. rw (apply_from-same effect c.step h)

    seen-same :
        (effect : Effect W) (step : StepRecord) (fingerprint : String)
        → IsOnce effect
        → reconcile_seen j (with_apply effect) step fingerprint
          ≡ reconcile_seen j effect step fingerprint
    unfolding reconcile_seen
    seen-same effect step fingerprint h =
        rw h (elim (Bool-cases (str_eq fingerprint step.original_fingerprint)) [
          | inl e ↦ rw e
          | inr e ↦ rw e
        ])

    reconcile-same :
        (effect : Effect W) (step : StepRecord)
        → IsOnce effect
        → reconcile_from j (with_apply effect) step ≡ reconcile_from j effect step
    unfolding reconcile_from
    reconcile-same effect step h =
        ap (branch (call effect.inspect) (λ e. return (some (Error.inspect_step step.name e))))
          (fun_ext λ fingerprint. seen-same effect step fingerprint h)

    recover_by-same :
        (state : StepState) (effect : Effect W) (c : At W)
        → IsOnce effect
        → recover_by state j (with_apply effect) c ≡ recover_by state j effect c
    unfolding recover_by
    recover_by-same StepState.pending effect c h =
        ap (λ m. or_roll_back m c) (apply_step-same effect h)
    recover_by-same StepState.executing effect c h = ap (λ m. m c) (reconcile-same effect c.step h)
    recover_by-same StepState.failed effect c h = ap (λ m. m c) (reconcile-same effect c.step h)
    recover_by-same _ effect c h = refl

    recover_step-same :
        (effect : Effect W) (c : At W)
        → IsOnce effect
        → recover_step j (with_apply effect) c ≡ recover_step j effect c
    unfolding recover_step
    recover_step-same effect c h = recover_by-same c.step.state effect c h

    rollback_step-same :
        (effect : Effect W) → rollback_step j (with_apply effect) ≡ rollback_step j effect
    unfolding rollback_step undo_from
    rollback_step-same effect = refl

    recover_steps-same :
        (effects : List (Effect W)) (steps : List StepRecord) (w : W)
        → All IsOnce effects
        → recover_steps j (map with_apply effects) steps w ≡ recover_steps j effects steps w
    unfolding recover_steps
    recover_steps-same [] [] w h = refl
    recover_steps-same [] (step ∷ steps) w h = refl
    recover_steps-same (effect ∷ effects) [] w h = refl
    recover_steps-same (effect ∷ effects) (step ∷ steps) w h =
        ap₂ (λ p rest. recover_next p steps rest)
          (recover_step-same effect (record { step = step; world = w }) h.0)
          (fun_ext λ w'. recover_steps-same effects steps w' h.1)

    rollback_steps-same :
        (effects : List (Effect W)) (steps : List StepRecord) (w : W)
        → rollback_steps j (map with_apply effects) steps w ≡ rollback_steps j effects steps w
    unfolding rollback_steps
    rollback_steps-same [] [] w = refl
    rollback_steps-same [] (step ∷ steps) w = refl
    rollback_steps-same (effect ∷ effects) [] w = refl
    rollback_steps-same (effect ∷ effects) (step ∷ steps) w =
        ap₂ (λ p undo. rollback_next p step undo) (rollback_steps-same effects steps w)
          (rollback_step-same effect)

    check_steps-same :
        (i : ℕ) (steps : List StepRecord) (effects : List (Effect W))
        → check_steps i steps (map with_apply effects) ≡ check_steps i steps effects
    unfolding check_steps
    check_steps-same i [] effects = refl
    check_steps-same i (step ∷ steps) [] = refl
    check_steps-same i (step ∷ steps) (effect ∷ effects) =
        rw (check_steps-same (i + 1) steps effects)

    module _ (effects : List (Effect W)) (once : All IsOnce effects)
        (verify : Option (W → Done × W)) where
      rollback-same : rollback j (map with_apply effects) ≡ rollback j effects
      unfolding rollback
      rollback-same =
          ap (λ g. on_error (over_steps g) (fail_rollback j) >> finish_rolled_back j)
            (λ i steps w. rollback_steps-same effects steps w i)

      after-same :
          (e : Error) → after_failure j (map with_apply effects) e ≡ after_failure j effects e
      unfolding after_failure
      after-same e = rw rollback-same

      fail_from-same :
          (state : State) (e : Error)
          → fail_from state j (map with_apply effects) e ≡ fail_from state j effects e
      unfolding fail_from
      fail_from-same State.snapshotted e = rw (after-same e)
      fail_from-same State.executing e = rw (after-same e)
      fail_from-same State.verifying e = rw (after-same e)
      fail_from-same State.rolling_back e = after-same e
      fail_from-same _ e = refl

      fail-same : fail_and_rollback j (map with_apply effects) ≡ fail_and_rollback j effects
      unfolding fail_and_rollback
      fail-same = λ i e s. fail_from-same s.operation.state e i s

      outcome-same :
          (outcome : Option Error)
          → recover_outcome j (map with_apply effects) verify outcome
            ≡ recover_outcome j effects verify outcome
      unfolding recover_outcome
      outcome-same none = rw fail-same
      outcome-same (some e) = ap (λ g. g e) fail-same

      rest-same : recover_rest j (map with_apply effects) verify ≡ recover_rest j effects verify
      unfolding recover_rest
      rest-same = λ i.
          over_steps (λ steps w. recover_steps-same effects steps w once i) >>= λ outcome.
          outcome-same outcome i

      executing-same :
          recover_executing j (map with_apply effects) verify ≡ recover_executing j effects verify
      unfolding recover_executing
      executing-same = λ i s.
          ((if same_state s.operation.state State.snapshotted
                then operation_transition j State.snapshotted State.executing none
                else return tt)
              >> rest-same i)
            s

      recover_from-same :
          (state : State) (s : Run W)
          → recover_from state j (map with_apply effects) verify s
            ≡ recover_from state j effects verify s
      unfolding recover_from
      recover_from-same State.snapshotted s = rw executing-same
      recover_from-same State.executing s = ap (λ g. g s) executing-same
      recover_from-same State.verifying s = rw fail-same
      recover_from-same State.rolling_back s = ap (λ g. g s) rollback-same
      recover_from-same _ s = refl

      plan-same :
          (operation : Operation)
          → validate_plan operation (map with_apply effects) ≡ validate_plan operation effects
      unfolding validate_plan
      plan-same operation =
          rw (length-map effects with_apply, check_steps-same 0 operation.steps effects)

      -- Whatever another Apply of effects that are all not idempotent would do, Recover gives the
      -- same result, the same operation and the same world: it applies none of them.
      pub recover-ignores-apply :
          (s : Run W) → recover j (map with_apply effects) verify s ≡ recover j effects verify s
      unfolding recover
      recover-ignores-apply s = λ i. elim (plan-same s.operation i) [
        | some e ↦ (err e, s)
        | none ↦ recover_from-same s.operation.state s i
      ]
