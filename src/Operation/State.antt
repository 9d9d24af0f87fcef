-- ===== src/Operation/State.antt =====
-- The states of an operation and of its steps, with the tables of allowed transitions
-- (src/internal/agent/operation/engine.go, lines 19-42, 371-392 and 408-411).
use wiregate.Prelude.{
  ℕ, ◌≡◌, refl, Bool, true, false, ◌||◌, List, [], ◌∷◌, arith, ◌==◌, contains_by, ◌↔◌,
}

pub data State : Type 0 where
  pending validated snapshotted executing verifying committed : State
  rolling_back rolled_back rollback_failed rejected expired : State

pub data StepState : Type 0 where
  pending executing applied failed rolling_back rolled_back : StepState

-- The constants are distinct strings, which are told apart here by their position.
abbrev state_index : State → ℕ
state_index State.pending = 0
state_index State.validated = 1
state_index State.snapshotted = 2
state_index State.executing = 3
state_index State.verifying = 4
state_index State.committed = 5
state_index State.rolling_back = 6
state_index State.rolled_back = 7
state_index State.rollback_failed = 8
state_index State.rejected = 9
state_index State.expired = 10

abbrev step_state_index : StepState → ℕ
step_state_index StepState.pending = 0
step_state_index StepState.executing = 1
step_state_index StepState.applied = 2
step_state_index StepState.failed = 3
step_state_index StepState.rolling_back = 4
step_state_index StepState.rolled_back = 5

abbrev pub same_state : State → State → Bool
same_state a b = state_index a == state_index b

abbrev pub same_step_state : StepState → StepState → Bool
same_step_state a b = step_state_index a == step_state_index b

-- The map `allowed` of `validOperationTransition`; a missing key has the nil slice.
abbrev allowed_operation : State → List State
allowed_operation State.pending = State.validated ∷ State.rejected ∷ State.expired ∷ []
allowed_operation State.validated = State.snapshotted ∷ State.rejected ∷ []
allowed_operation State.snapshotted = State.executing ∷ State.rolling_back ∷ []
allowed_operation State.executing = State.verifying ∷ State.rolling_back ∷ []
allowed_operation State.verifying = State.committed ∷ State.rolling_back ∷ []
allowed_operation State.rolling_back = State.rolled_back ∷ State.rollback_failed ∷ []
allowed_operation _ = []

-- The map `allowed` of `validStepTransition`.
abbrev allowed_step : StepState → List StepState
allowed_step StepState.pending = StepState.executing ∷ []
allowed_step StepState.executing =
    StepState.applied ∷ StepState.failed ∷ StepState.rolling_back ∷ []
allowed_step StepState.failed = StepState.executing ∷ StepState.rolling_back ∷ []
allowed_step StepState.applied = StepState.rolling_back ∷ []
allowed_step StepState.rolling_back = StepState.rolled_back ∷ []
allowed_step _ = []

unfoldable pub valid_operation_transition : State → State → Bool
valid_operation_transition from to = contains_by same_state (allowed_operation from) to

unfoldable pub valid_step_transition : StepState → StepState → Bool
valid_step_transition from to = contains_by same_step_state (allowed_step from) to

unfoldable pub is_terminal : State → Bool
is_terminal state =
    same_state state State.committed
    || same_state state State.rolled_back
    || same_state state State.rollback_failed
    || same_state state State.rejected
    || same_state state State.expired

pub same_state-eq : (a b : State) → same_state a b ≡ true → a ≡ b
same_state-eq a b h = ground arith

pub same_step_state-eq : (a b : StepState) → same_step_state a b ≡ true → a ≡ b
same_step_state-eq a b h = ground arith

-- A state is terminal exactly when the table allows no transition out of it.
pub terminal_iff :
    (from : State)
    → (is_terminal from ≡ true) ↔ ((to : State) → valid_operation_transition from to ≡ false)
unfolding is_terminal valid_operation_transition
terminal_iff State.pending = ((λ h. cc), λ h. cc (h State.expired))
terminal_iff State.validated = ((λ h. cc), λ h. cc (h State.rejected))
terminal_iff State.snapshotted = ((λ h. cc), λ h. cc (h State.executing))
terminal_iff State.executing = ((λ h. cc), λ h. cc (h State.verifying))
terminal_iff State.verifying = ((λ h. cc), λ h. cc (h State.committed))
terminal_iff State.rolling_back = ((λ h. cc), λ h. cc (h State.rolled_back))
terminal_iff _ = ((λ h to. refl), λ h. refl)

pub eq-same_state : (a b : State) → a ≡ b → same_state a b ≡ true
eq-same_state a b h = ground arith

pub eq-same_step_state : (a b : StepState) → a ≡ b → same_step_state a b ≡ true
eq-same_step_state a b h = ground arith
