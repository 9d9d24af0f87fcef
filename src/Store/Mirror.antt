-- ===== src/Store/Mirror.antt =====
-- The engine over the repository: what a run reports is what the table holds.
use wiregate.Prelude.{
  List, ℕ, Option, none, some, ◌≡◌, map, refl, Fallible, success, failure, inl, inr, true, subst,
  sym, ap, ◌∙◌,
}
use wiregate.Operation.State.{State, valid_operation_transition}
use wiregate.Operation.Action.{Done, Result, ◌>>◌}
use wiregate.Operation.Step.{Effect, Failure, StepRecord}
use wiregate.Operation.Rollback.{Run}
use wiregate.Operation.Loops.{Rows}
use wiregate.Operation.Preserve.{Preserves, IsPreorder}
use wiregate.Store.Tables.{Store, StoreError}
use wiregate.Store.Journal.{World, journal, hosted, hosted_verify, answer}
use wiregate.Store.Loops.{Keeps, apply_steps-Keeps, recover_steps-Keeps, rollback_steps-Keeps}
use wiregate.Operation.Engine.{run_verify, recover, execute}
use wiregate.Store.Consistent.{Consistent, transition_operation-Consistent}
use wiregate.Operation.Transition.{operation_transition_cases}
use wiregate.Store.View.{state_of, transition_operation-Sets}
use wiregate.Operation.EngineRules.{recover-Preserves, execute-Preserves}
use wiregate.Operation.Rollback
use wiregate.Store.Operations

-- The table keeps its constraints, and its row of the operation has the state of the record.
pub record Mirrors {H : Type 0} (s : Run (World H)) : Type 0 where
  pub consistent : Consistent s.world.store.operations
  pub same_state : state_of s.operation.id s.world.store.operations ≡ some s.operation.state

module _ {H : Type 0} where
  abbrev KeepsMirror : Run (World H) → Run (World H) → Type 0
  KeepsMirror s t = Mirrors s → Mirrors t

  mirror_order : IsPreorder KeepsMirror
  mirror_order = record { here = λ s m. m; chain = λ p q m. q (p m) }

  answered :
      (from to : State) (failed : Option Failure) (now : ℕ) (s : Run (World H))
      (r : Fallible StoreError Store)
      → valid_operation_transition from to ≡ true
      → Operations.transition_operation s.operation.id from to failed now s.world.store ≡ r
      → KeepsMirror s ((Rollback.call (λ w. answer w r) >> Rollback.set_state to) s).1
  answered from to failed now s (failure e) v h m = m
  answered from to failed now s (success u) v h m = record {
    consistent =
        transition_operation-Consistent s.operation.id from to failed now s.world.store u v h
          m.consistent;
    same_state =
        (transition_operation-Sets s.operation.id from to failed now s.world.store u
          m.consistent.unique h).0.is_now;
  }

  transition-KeepsMirror :
      (clock : H → ℕ) (from to : State) (failed : Option Failure)
      → Preserves KeepsMirror (Rollback.operation_transition (journal clock) from to failed)
  unfolding journal
  transition-KeepsMirror clock from to failed = record {
    at = λ s. elim (operation_transition_cases (journal clock) from to failed s) [
      | inl (e, refused) ↦ rw refused (λ m. m)
      | inr (_, valid, moved) ↦
          rw moved (answered from to failed (clock s.world.host) s _ valid refl)
    ];
  }

  over_steps-KeepsMirror :
      {A : Type 0} (f : List StepRecord → World H → Result A × Rows (World H))
      → ((steps : List StepRecord) (w : World H) → Keeps w (f steps w).1.world)
      → Preserves KeepsMirror (Rollback.over_steps f)
  over_steps-KeepsMirror f h = record {
    at = λ s m.
        let same = h s.operation.steps s.world in
        record {
          consistent = subst Consistent (sym same) m.consistent;
          same_state = ap (state_of s.operation.id) same ∙ m.same_state;
        };
  }

  verify-KeepsMirror :
      (verify : Option (H → Done × H)) → Preserves KeepsMirror (run_verify (hosted_verify verify))
  verify-KeepsMirror none = record { at = λ s m. m }
  verify-KeepsMirror (some v) = record {
    at = λ s m. record { consistent = m.consistent; same_state = m.same_state };
  }

  module _ (clock : H → ℕ) (effects : List (Effect H)) (verify : Option (H → Done × H)) where
    -- With the repository as its journal, and effects and a verification that act on the host alone,
    -- Execute leaves the record and the table in agreement, whatever they answer: if the row of the
    -- operation had the state of the record before, it has it at the end too, and the table keeps
    -- its constraints.
    pub execute-Mirrors :
        (s : Run (World H))
        → Mirrors s
        → Mirrors (execute (journal clock) (map hosted effects) (hosted_verify verify) s).1
    execute-Mirrors s =
        (execute-Preserves KeepsMirror mirror_order (journal clock) (map hosted effects)
            (hosted_verify verify) (transition-KeepsMirror clock)
            (over_steps-KeepsMirror _ (apply_steps-Keeps clock effects))
            (over_steps-KeepsMirror _ (recover_steps-Keeps clock effects))
            (over_steps-KeepsMirror _ (rollback_steps-Keeps clock effects))
            (verify-KeepsMirror verify)).at
          s

    -- With the repository as its journal, and effects and a verification that act on the host alone,
    -- Recover leaves the record and the table in agreement, whatever they answer: if the row of the
    -- operation had the state of the record before, it has it at the end too, and the table keeps
    -- its constraints.
    pub recover-Mirrors :
        (s : Run (World H))
        → Mirrors s
        → Mirrors (recover (journal clock) (map hosted effects) (hosted_verify verify) s).1
    recover-Mirrors s =
        (recover-Preserves KeepsMirror mirror_order (journal clock) (map hosted effects)
            (hosted_verify verify) (transition-KeepsMirror clock)
            (over_steps-KeepsMirror _ (apply_steps-Keeps clock effects))
            (over_steps-KeepsMirror _ (recover_steps-Keeps clock effects))
            (over_steps-KeepsMirror _ (rollback_steps-Keeps clock effects))
            (verify-KeepsMirror verify)).at
          s
