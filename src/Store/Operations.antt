-- ===== src/Store/Operations.antt =====
-- TransitionOperation and TransitionStep of src/internal/agent/repository/operation_store.go. A
-- statement that fails changes nothing, and the time is an argument.
use wiregate.Prelude.{
  List, ℕ, Option, String, Bool, str_eq, none, some, false, Fallible, success, ◌>>=◌, reject, not,
  if◌then◌else◌, ◌||◌, ◌&&◌, ◌==◌,
}
use wiregate.Operation.State.{State, StepState, is_terminal, same_state, same_step_state}
use wiregate.Operation.Step.{Failure}
use wiregate.Store.Tables.{OperationRow, StepRow, Store, StoreError, is_active, text_of, is_on}
use wiregate.Stdlib.Rows.{any_row, select_row, update_rows, count_rows}

-- `id = ? AND state = ?`
unfoldable pub is_in : String → State → OperationRow → Bool
is_in id from r = str_eq r.id id && same_state r.state from

abbrev pub code_of : Option Failure → Option String
code_of none = none
code_of (some f) = some f.code

abbrev pub message_of : Option Failure → Option String
message_of none = none
message_of (some f) = some f.message

unfoldable pub move_row : State → Option Failure → ℕ → OperationRow → OperationRow
unfolding is_terminal
move_row to failed now r = record r {
  state = to;
  error_code = code_of failed;
  error_message = message_of failed;
  updated_at_ms = now;
  finished_at_ms = if is_terminal to then some now else r.finished_at_ms;
}

-- The row's interface has another active operation.
unfoldable pub is_rival : OperationRow → OperationRow → Bool
unfolding is_active
is_rival r other = elim r.interface_id [
  | none ↦ false
  | some i ↦ not (str_eq other.id r.id) && is_on i other && is_active other.state
]

-- The index of active operations refuses the update.
unfoldable pub breaks_index : String → State → List OperationRow → Bool
unfolding is_rival is_active
breaks_index id to rows = elim (select_row (λ r. str_eq r.id id) rows) [
  | none ↦ false
  | some r ↦ is_active to && any_row (is_rival r) rows
]

unfoldable pub transition_operation :
    String → State → State → Option Failure → ℕ → Store → Fallible StoreError Store
unfolding is_in move_row breaks_index
transition_operation id from to failed now s = do
  _ ←
      reject (any_row (is_in id from) s.operations && breaks_index id to s.operations)
        StoreError.constraint_failed
  _ ← reject (not (count_rows (is_in id from) s.operations == 1)) (StoreError.state_conflict from)
  success
      (record s { operations = update_rows (is_in id from) (move_row to failed now) s.operations })

unfoldable pub is_step_in : String → StepState → StepRow → Bool
is_step_in id from r = str_eq r.step.id id && same_step_state r.step.state from

-- `COALESCE(a, b)` on two columns.
abbrev pub coalesce : Option ℕ → Option ℕ → Option ℕ
coalesce none b = b
coalesce (some a) b = some a

-- A first start stays; a later end replaces an earlier one.
unfoldable pub move_step : StepState → Option Failure → ℕ → StepRow → StepRow
move_step to failed now r = record r {
  step = record (r.step) { state = to; error_redacted = text_of (message_of failed) };
  started_at_ms = coalesce r.started_at_ms (
      if same_step_state to StepState.executing || same_step_state to StepState.rolling_back
      then some now
      else none);
  step_finished_ms =
      coalesce
        (if same_step_state to StepState.applied
            || same_step_state to StepState.failed
            || same_step_state to StepState.rolled_back
          then some now
          else none)
        r.step_finished_ms;
}

unfoldable pub transition_step :
    String → StepState → StepState → Option Failure → ℕ → Store → Fallible StoreError Store
unfolding is_step_in move_step
transition_step id from to failed now s = do
  _ ← reject (not (count_rows (is_step_in id from) s.steps == 1)) (StoreError.step_conflict from)
  success (record s { steps = update_rows (is_step_in id from) (move_step to failed now) s.steps })
