-- ===== src/Operation/Guarantees.antt =====
-- What a caller of the engine may rely on.
use wiregate.Prelude.{
  refl, inl, inr, none, List, ◌≡◌, length, Option, ◌⊎◌, All, arith, Option-cases, Bool-cases, ◌≢◌,
  ◌≤◌,
}
use wiregate.Operation.Action.{ok, err, Done, Error}
use wiregate.Operation.State.{State, eq-same_state, same_state, same_state-eq}
use wiregate.Operation.Step.{Journal, Effect}
use wiregate.Operation.Plan.{validate_plan}
use wiregate.Operation.Outcomes.{Refusals, Ended, Shows, Anything}
use wiregate.Operation.Triple.{Outcome, Triple-weaken}
use wiregate.Operation.Rollback.{Operation, Run}
use wiregate.Operation.Recovered.{IsFinished, IsCoherent, recover_from-Failed}
use wiregate.Operation.Results.{IsReliable, IsReliable-Refusals, execute_steps-Ended}
use wiregate.Operation.Engine.{execute, execute_steps, recover, recover_from}
use wiregate.Operation.Commit.{IsApplied, IsUndone}
use wiregate.Operation.Unblocked.{IsNotFailed, recover_steps-no_err}

-- The ends of an operation that was recovered.
pub data Ending {W : Type 0} (p : Done × Run W) : Type 0 where
  finished : p.0 ≡ ok tt → IsFinished p.1 → Ending p
  undone : {e : Error} → p.0 ≡ err e → Shows State.rolled_back (All IsUndone) p.1 → Ending p
  blocked : {e : Error} → p.0 ≡ err e → p.1.operation.state ≡ State.rollback_failed → Ending p

-- The three ends of an operation that was executed.
pub data Completion {W : Type 0} (p : Done × Run W) : Type 0 where
  completed : p.0 ≡ ok tt → Shows State.committed (All IsApplied) p.1 → Completion p
  reverted : {e : Error} → p.0 ≡ err e → Shows State.rolled_back (All IsUndone) p.1 → Completion p
  stuck : {e : Error} → p.0 ≡ err e → p.1.operation.state ≡ State.rollback_failed → Completion p

Completion-of :
    {W : Type 0} (j : Journal W) (refusals : Refusals j ⊥) (p : Done × Run W)
    → Outcome (λ _. Shows State.committed (All IsApplied)) (λ _. Ended j ⊥ refusals) p
    → Completion p
Completion-of j refusals (ok tt, s) h = Completion.completed refl h
Completion-of j refusals (err e, s) (inl h) = Completion.reverted refl h
Completion-of j refusals (err e, s) (inr (inl h)) = Completion.stuck refl h.in_state
Completion-of j refusals (err e, s) (inr (inr h)) = absurd h

Ending-of :
    {W : Type 0} (j : Journal W) (refusals : Refusals j ⊥) (Stopped : Type 0) (p : Done × Run W)
    → ¬ Stopped
    → Outcome (λ _. IsFinished) (λ _ s. Ended j ⊥ refusals s ⊎ Stopped) p
    → Ending p
Ending-of j refusals Stopped (ok tt, s) n h = Ending.finished refl h
Ending-of j refusals Stopped (err e, s) n (inl (inl h)) = Ending.undone refl h
Ending-of j refusals Stopped (err e, s) n (inl (inr (inl h))) = Ending.blocked refl h.in_state
Ending-of j refusals Stopped (err e, s) n (inl (inr (inr h))) = absurd h
Ending-of j refusals Stopped (err e, s) n (inr h) = absurd (n h)

any_refusal : {W : Type 0} (j : Journal W) → Refusals j (Unit {0})
any_refusal j = record { operations = λ id from to f w e h. tt }

on_success :
    {S : Type 0} (Q : S → Type 0) (E : Error → S → Type 0) (p : Done × S)
    → Outcome (λ _. Q) E p
    → p.0 ≡ ok tt
    → Q p.1
on_success Q E (ok _, s) q h = q
on_success Q E (err _, s) q h = cc

drop_error :
    {S : Type 0} (Q E : S → Type 0) (p : Done × S)
    → Outcome (λ _. Q) (λ _. E) p
    → Outcome (λ _. Q) (λ _ _. Unit {0}) p
drop_error Q E (ok a, s) h = h
drop_error Q E (err e, s) h = tt

valid_plan-covered :
    {W : Type 0} (operation : Operation) (effects : List (Effect W))
    → validate_plan operation effects ≡ none
    → length operation.steps ≡ length effects
unfolding validate_plan
valid_plan-covered operation effects h = ground arith

module _ {W : Type 0} (j : Journal W) (effects : List (Effect W))
    (verify : Option (W → Done × W)) where
  execute-runs :
      (s : Run W)
      → validate_plan s.operation effects ≡ none
      → s.operation.state ≡ State.snapshotted
      → execute j effects verify s ≡ execute_steps j effects verify s
  unfolding execute
  execute-runs s plan state = rw (plan, execute) (rw (eq-same_state _ _ state))

  abbrev Committed : Run W → Type 0
  Committed = Shows State.committed (All IsApplied)

  execute-Committed :
      (s : Run W) → Outcome (λ _. Committed) (λ _ _. Unit {0}) (execute j effects verify s)
  unfolding execute
  execute-Committed s = elim (Option-cases (validate_plan s.operation effects)) [
    | inr (e, bad) ↦ rw (bad, execute) tt
    | inl good ↦ elim (Bool-cases (same_state s.operation.state State.snapshotted)) [
      | inr e ↦ rw (good, execute) (rw e tt)
      | inl e ↦
          rw (good, execute)
            (rw e (
              (Triple-weaken (execute_steps-Ended j effects verify (Unit {0}) (any_refusal j))
                  (λ t x. x) (λ a t x. x) (λ e' t x. tt)).from
                s (record { in_state = same_state-eq _ _ e; with_steps = tt })))
    ]
  ]

  -- When Execute reports success, the operation is committed and every one of its steps is
  -- applied, whatever the journal, the effects and the verification answer.
  pub execute_commits :
      (s : Run W)
      → (execute j effects verify s).0 ≡ ok tt
      → ((execute j effects verify s).1.operation.state ≡ State.committed)
        × All IsApplied (execute j effects verify s).1.operation.steps
  execute_commits s h =
      let c : Committed (execute j effects verify s).1 =
        on_success Committed (λ _ _. Unit {0}) (execute j effects verify s) (execute-Committed s)
          h in
      (c.in_state, c.with_steps)

  -- With a journal that accepts every transition, a valid plan and a snapshotted operation, Execute
  -- comes to one of three ends: without an error, committed and with every step applied; with an
  -- error, rolled back and with every step undone; or with an error, blocked in `rollback_failed`.
  pub execute-Completion :
      (s : Run W)
      → IsReliable j
      → validate_plan s.operation effects ≡ none
      → s.operation.state ≡ State.snapshotted
      → Completion (execute j effects verify s)
  execute-Completion s reliable plan state =
      Completion-of j (IsReliable-Refusals j reliable) (execute j effects verify s) (
        rw (execute-runs s plan state) (
          (execute_steps-Ended j effects verify ⊥ (IsReliable-Refusals j reliable)).from s
            (record { in_state = state; with_steps = tt })))

  pub recover-runs :
      (s : Run W)
      → validate_plan s.operation effects ≡ none
      → recover j effects verify s ≡ recover_from s.operation.state j effects verify s
  unfolding recover
  recover-runs s plan = rw (plan, recover)

  recover_from-any :
      (state : State) (s : Run W)
      → s.operation.state ≡ state
      → IsCoherent s.operation
      → Outcome (λ _. IsFinished) (λ _ _. Unit {0}) (recover_from state j effects verify s)
  unfolding recover_from
  recover_from-any State.rollback_failed s e c = tt
  recover_from-any state s e c =
      drop_error IsFinished (λ t. Ended j (Unit {0}) (any_refusal j) t ⊎ Unit {0})
        (recover_from state j effects verify s)
        (recover_from-Failed j effects verify (Unit {0}) (any_refusal j) (Unit {0}) Anything
          (λ steps w e' p h. tt) state s e c tt (λ h. cc))

  recover-Finished :
      (s : Run W)
      → IsCoherent s.operation
      → Outcome (λ _. IsFinished) (λ _ _. Unit {0}) (recover j effects verify s)
  unfolding recover
  recover-Finished s c = elim (Option-cases (validate_plan s.operation effects)) [
    | inr (e, bad) ↦ rw (bad, recover) tt
    | inl good ↦ rw (good, recover) (recover_from-any s.operation.state s refl c)
  ]

  -- When Recover reports success on an operation that the engine left behind, the operation has
  -- come to an end: committed with every step applied, rolled back with every step undone,
  -- rejected, or expired. This holds whatever the journal, the effects and the verification answer.
  pub recover-IsFinished :
      (s : Run W)
      → IsCoherent s.operation
      → (recover j effects verify s).0 ≡ ok tt
      → IsFinished (recover j effects verify s).1
  recover-IsFinished s c h =
      on_success IsFinished (λ _ _. Unit {0}) (recover j effects verify s) (recover-Finished s c) h

  -- With a journal that accepts every transition, a valid plan, and no step that is failed,
  -- Recover takes every operation that the engine left behind to an end, unless it was blocked in
  -- `rollback_failed` before: finished without error, or with an error and rolled back with every
  -- step undone, or with an error and blocked in `rollback_failed`.
  pub recover-Ending :
      (s : Run W)
      → IsReliable j
      → validate_plan s.operation effects ≡ none
      → IsCoherent s.operation
      → All IsNotFailed s.operation.steps
      → s.operation.state ≢ State.rollback_failed
      → Ending (recover j effects verify s)
  recover-Ending s reliable plan c n b =
      Ending-of j (IsReliable-Refusals j reliable) ⊥ (recover j effects verify s) (λ x. x)
        (rw (recover-runs s plan) (
          recover_from-Failed j effects verify ⊥ (IsReliable-Refusals j reliable) ⊥
            (λ steps. All IsNotFailed steps × (length steps ≤ length effects))
            (λ steps w e p h. recover_steps-no_err j reliable effects steps w e p.0 p.1 h)
            s.operation.state s refl c
            (n, omega (arith, valid_plan-covered s.operation effects plan)) b))
