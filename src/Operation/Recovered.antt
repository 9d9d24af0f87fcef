-- ===== src/Operation/Recovered.antt =====
-- The ends of Recover, from every state that a restart can find.
use wiregate.Prelude.{
  refl, inl, inr, [], ◌∷◌, none, some, List, ◌≡◌, All, Option, false, arith, ◌⊎◌, ap, true, ◌≢◌,
  Bool-cases,
}
use wiregate.Operation.Action.{ok, err, Done, Error, Result, branch, Action, ◌>>◌}
use wiregate.Operation.State.{
  State, StepState, same_step_state-eq, valid_operation_transition, same_state,
}
use wiregate.Operation.Rollback.{
  Operation, Run, over_steps, fail_and_rollback, operation_transition, finish_rolled_back,
}
use wiregate.Operation.Engine.{
  any_started, recover_outcome, recover_executing, recover_rest, recover_from, run_verify,
}
use wiregate.Operation.Step.{Journal, StepRecord, Effect, Failure}
use wiregate.Operation.Outcomes.{Shows, Refusals, Anything, Ended, transition, rollback-Ended}
use wiregate.Operation.Commit.{IsApplied, IsUndone, recover_steps-ok}
use wiregate.Operation.Loops.{recover_steps, Rows}
use wiregate.Operation.Triple.{Triple, Triple-weaken, Triple-bind, Triple-branch, Outcome}
use wiregate.Operation.Results.{Midway, to_verifying, give_up, run_verify-Shows, to_committed}

-- A finished operation shows in its steps what its state says.
pub data IsFinished {W : Type 0} (s : Run W) : Type 0 where
  committed : Shows State.committed (All IsApplied) s → IsFinished s
  rolled_back : Shows State.rolled_back (All IsUndone) s → IsFinished s
  rejected : Shows State.rejected Anything s → IsFinished s
  expired : Shows State.expired Anything s → IsFinished s

-- What the engine leaves behind at any point: an operation is verified only with all its steps
-- applied, and finished only as `IsFinished` has it.
pub record IsCoherent (operation : Operation) : Type 0 where
  pub verified : operation.state ≡ State.verifying → All IsApplied operation.steps
  pub applied : operation.state ≡ State.committed → All IsApplied operation.steps
  pub undone : operation.state ≡ State.rolled_back → All IsUndone operation.steps

not_started-IsUndone : (steps : List StepRecord) → any_started steps ≡ false → All IsUndone steps
unfolding any_started
not_started-IsUndone [] h = tt
not_started-IsUndone (step ∷ steps) h = (
  inl (same_step_state-eq step.state StepState.pending (ground arith)),
  not_started-IsUndone steps (ground arith),
)

module _ {W : Type 0} (j : Journal W) (effects : List (Effect W)) (verify : Option (W → Done × W))
    (Refused : Type 0) (refusals : Refusals j Refused) (Stopped : Type 0)
    (P : List StepRecord → Type 0)
    (stops : (steps : List StepRecord) (w : W) (e : Error)
      → P steps
      → (recover_steps j effects steps w).0 ≡ err e
      → Stopped) where
  -- How Recover ends with an error.
  abbrev pub Failed : Run W → Type 0
  Failed s = Ended j Refused refusals s ⊎ Stopped

  -- What the loop leaves, by its outcome.
  abbrev Looped : Option Error → Run W → Type 0
  Looped none s = Shows State.executing (All IsApplied) s
  Looped (some _) s = Shows State.executing Anything s

  loop-Looped :
      Triple
        (Shows State.executing P)
        (over_steps (recover_steps j effects))
        Looped
        (λ _ _. Stopped)
  loop-Looped = record {
    from = λ s h.
        go s (recover_steps j effects s.operation.steps s.world) h.in_state
          (recover_steps-ok j effects s.operation.steps s.world)
          (λ e. stops s.operation.steps s.world e h.with_steps);
  }
    where
      go :
          (s : Run W) (p : Result (Option Error) × Rows W)
          → s.operation.state ≡ State.executing
          → (p.0 ≡ ok none → All IsApplied p.1.steps)
          → ((e : Error) → p.0 ≡ err e → Stopped)
          → Outcome Looped (λ _ _. Stopped) (over_steps (λ _ _. p) s)
      go s (ok none, rows) h ha hs = record { in_state = h; with_steps = ha refl }
      go s (ok (some e), rows) h ha hs = record { in_state = h; with_steps = tt }
      go s (err e, rows) h ha hs = hs e refl

  give_up_after :
      (e : Error)
      → Triple
          (Midway j effects verify Refused refusals)
          (fail_and_rollback j effects e)
          (λ _. Shows State.committed (All IsApplied))
          (λ _. Failed)
  give_up_after e =
      Triple-weaken (give_up j effects verify Refused refusals e) (λ s h. h) (λ a s h. absurd h)
        (λ e' s h. inl h)

  outcome-Failed :
      (outcome : Option Error)
      → Triple
          (Looped outcome)
          (recover_outcome j effects verify outcome)
          (λ _. Shows State.committed (All IsApplied))
          (λ _. Failed)
  unfolding recover_outcome
  outcome-Failed (some e) =
      Triple-weaken (give_up_after e) (λ s h. inl (inl h.in_state)) (λ a s h. h) (λ e' s h. h)
  outcome-Failed none =
      Triple-bind (λ _. Shows State.verifying (All IsApplied)) _ _
        (Triple-weaken (to_verifying j effects verify Refused refusals) (λ s h. h) (λ a s h. h)
          (λ e s r. inl (inr (inr r))))
        (λ _.
          Triple-branch (λ _. Shows State.verifying (All IsApplied))
            (λ _. Shows State.verifying (All IsApplied)) _ _ _
            (run_verify-Shows j effects verify Refused refusals (All IsApplied))
            (λ e.
              Triple-weaken (give_up_after e) (λ s h. inl (inr (inl h.in_state))) (λ a s h. h)
                (λ e' s h. h))
            (λ _.
              Triple-weaken (to_committed j effects verify Refused refusals) (λ s h. h) (λ a s h. h)
                (λ e s h. inl h)))

  rest-Failed :
      Triple
        (Shows State.executing P)
        (recover_rest j effects verify)
        (λ _. Shows State.committed (All IsApplied))
        (λ _. Failed)
  unfolding recover_rest
  rest-Failed =
      Triple-bind Looped _ _ (Triple-weaken loop-Looped (λ s h. h) (λ a s h. h) (λ e s h. inr h))
        outcome-Failed

  pub executing-Failed :
      Triple
        (Shows State.executing P)
        (recover_executing j effects verify)
        (λ _. Shows State.committed (All IsApplied))
        (λ _. Failed)
  unfolding recover_executing
  executing-Failed = record {
    from = λ s h. rw (ap (λ x. same_state x State.snapshotted) h.in_state) (rest-Failed.from s h);
  }

  from_snapshotted :
      Triple
        (Shows State.snapshotted P)
        (operation_transition j State.snapshotted State.executing none
          >> recover_rest j effects verify)
        (λ _. Shows State.committed (All IsApplied))
        (λ _. Failed)
  from_snapshotted =
      Triple-bind (λ _. Shows State.executing P) _ _
        (Triple-weaken
          (transition j Refused refusals State.snapshotted State.executing none P
            (unfold valid_operation_transition in refl))
          (λ s h. h) (λ a s h. h) (λ e s r. inl (inr (inr r))))
        (λ _. rest-Failed)

  pub snapshotted-Failed :
      Triple
        (Shows State.snapshotted P)
        (recover_executing j effects verify)
        (λ _. Shows State.committed (All IsApplied))
        (λ _. Failed)
  unfolding recover_executing
  snapshotted-Failed = record {
    from =
        λ s h. rw (ap (λ x. same_state x State.snapshotted) h.in_state) (from_snapshotted.from s h);
  }

  -- One transition to an end.
  to_end :
      (from to : State) (failure : Option Failure)
      → valid_operation_transition from to ≡ true
      → ((s : Run W) → Shows to Anything s → IsFinished s)
      → Triple
          (Shows from Anything)
          (operation_transition j from to failure)
          (λ _. IsFinished)
          (λ _. Failed)
  to_end from to failure valid h =
      Triple-weaken (transition j Refused refusals from to failure Anything valid) (λ s h. h)
        (λ a s. h s) (λ e s r. inl (inr (inr r)))

  -- No step was started, so nothing is to be undone.
  abandon-Failed :
      Triple
        (Shows State.snapshotted (All IsUndone))
        (operation_transition j State.snapshotted State.rolling_back none >> finish_rolled_back j)
        (λ _. IsFinished)
        (λ _. Failed)
  unfolding finish_rolled_back
  abandon-Failed =
      Triple-bind (λ _. Shows State.rolling_back (All IsUndone)) _ _
        (Triple-weaken
          (transition j Refused refusals State.snapshotted State.rolling_back none (All IsUndone)
            (unfold valid_operation_transition in refl))
          (λ s h. h) (λ a s h. h) (λ e s r. inl (inr (inr r))))
        (λ _.
          Triple-weaken
            (transition j Refused refusals State.rolling_back State.rolled_back none (All IsUndone)
              (unfold valid_operation_transition in refl))
            (λ s h. h) (λ a s h. IsFinished.rolled_back h) (λ e s r. inl (inr (inr r))))

  verifying-Failed :
      Triple
        (Shows State.verifying (All IsApplied))
        (branch
          (run_verify verify)
          (λ _. fail_and_rollback j effects Error.recovery_verification_failed)
          (λ _. operation_transition j State.verifying State.committed none))
        (λ _. Shows State.committed (All IsApplied))
        (λ _. Failed)
  verifying-Failed =
      Triple-branch (λ _. Shows State.verifying (All IsApplied))
        (λ _. Shows State.verifying (All IsApplied)) _ _ _
        (run_verify-Shows j effects verify Refused refusals (All IsApplied))
        (λ e.
          Triple-weaken (give_up_after Error.recovery_verification_failed)
            (λ s h. inl (inr (inl h.in_state))) (λ a s h. h) (λ e' s h. h))
        (λ _.
          Triple-weaken (to_committed j effects verify Refused refusals) (λ s h. h) (λ a s h. h)
            (λ e s h. inl h))

  finish :
      {m : Action (Run W) (Unit {0})} {Q : Run W → Type 0}
      → Triple Q m (λ _. Shows State.committed (All IsApplied)) (λ _. Failed)
      → Triple Q m (λ _. IsFinished) (λ _. Failed)
  finish h = Triple-weaken h (λ s h. h) (λ a s h. IsFinished.committed h) (λ e s h. h)

  -- From every state but `rollback_failed`.
  pub recover_from-Failed :
      (state : State) (s : Run W)
      → s.operation.state ≡ state
      → IsCoherent s.operation
      → P s.operation.steps
      → state ≢ State.rollback_failed
      → Outcome (λ _. IsFinished) (λ _. Failed) (recover_from state j effects verify s)
  unfolding recover_from
  recover_from-Failed State.pending s e c p n =
      (to_end State.pending State.expired _ (unfold valid_operation_transition in refl)
          (λ _. IsFinished.expired)).from
        s (record { in_state = e; with_steps = tt })
  recover_from-Failed State.validated s e c p n =
      (to_end State.validated State.rejected _ (unfold valid_operation_transition in refl)
          (λ _. IsFinished.rejected)).from
        s (record { in_state = e; with_steps = tt })
  recover_from-Failed State.snapshotted s e c p n =
      elim (Bool-cases (any_started s.operation.steps)) [
        | inl started ↦
            rw started
              ((finish snapshotted-Failed).from s (record { in_state = e; with_steps = p }))
        | inr fresh ↦ rw fresh (
            abandon-Failed.from s
              (record { in_state = e; with_steps = not_started-IsUndone _ fresh }))
      ]
  recover_from-Failed State.executing s e c p n =
      (finish executing-Failed).from s (record { in_state = e; with_steps = p })
  recover_from-Failed State.verifying s e c p n =
      (finish verifying-Failed).from s (record { in_state = e; with_steps = c.verified e })
  recover_from-Failed State.rolling_back s e c p n =
      (Triple-weaken (rollback-Ended j Refused refusals effects) (λ s h. h)
          (λ a s h. IsFinished.rolled_back h) (λ e s h. inl h)).from
        s (record { in_state = e; with_steps = tt })
  recover_from-Failed State.rollback_failed s e c p n = absurd (n refl)
  recover_from-Failed State.committed s e c p n =
      IsFinished.committed (record { in_state = e; with_steps = c.applied e })
  recover_from-Failed State.rolled_back s e c p n =
      IsFinished.rolled_back (record { in_state = e; with_steps = c.undone e })
  recover_from-Failed State.rejected s e c p n =
      IsFinished.rejected (record { in_state = e; with_steps = tt })
  recover_from-Failed State.expired s e c p n =
      IsFinished.expired (record { in_state = e; with_steps = tt })
