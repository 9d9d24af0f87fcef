-- ===== src/Store/Tables.antt =====
-- The tables of the agent's database that hold operations (src/migrations/agent) and what
-- src/internal/agent/repository/operation_store.go takes and returns. Times are in milliseconds; a
-- NULL is none. Of the table of interfaces only the keys count here.
use wiregate.Prelude.{List, ℕ, Option, String, Bool, str_eq, none, some, false, if◌then◌else◌, true}
use wiregate.Operation.State.{State, StepState}
use wiregate.Operation.Step.{StepRecord}

pub record OperationRow : Type 0 where
  pub id : String
  pub interface_id : Option String
  pub type : String
  pub state : State
  pub intent_json : String
  pub idempotency_key : String
  pub actor_id : String
  pub actor_role : String
  pub request_id : String
  pub reason : Option String
  pub expected_revision : Option ℕ
  pub original_file_hash : Option String
  pub proposed_file_hash : Option String
  pub original_runtime_hash : Option String
  pub proposed_diff_json : Option String
  pub error_code : Option String
  pub error_message : Option String
  pub expires_at_ms : Option ℕ
  pub created_at_ms : ℕ
  pub updated_at_ms : ℕ
  pub finished_at_ms : Option ℕ

pub record StepRow : Type 0 where
  pub step : StepRecord
  pub operation_id : String
  pub started_at_ms : Option ℕ
  pub step_finished_ms : Option ℕ

pub record Store : Type 0 where
  pub operations : List OperationRow
  pub steps : List StepRow
  pub interfaces : List String

-- `constraint_failed` is the database's error for a constraint of a table.
pub data StoreError : Type 0 where
  no_rows fields_required key_reused in_progress constraint_failed : StoreError
  state_conflict : State → StoreError
  step_conflict : StepState → StoreError
  incomplete_step : ℕ → StoreError
  invalid_page cursor_without_id : StoreError

-- `COALESCE(column, '')`
abbrev pub text_of : Option String → String
text_of none = ""
text_of (some s) = s

-- `nullable`
unfoldable pub nullable : String → Option String
nullable s = if str_eq s "" then none else some s

-- The states of which an interface has one operation at most: the list of the query in
-- CreateOperation and of the index operations_one_active_interface_idx.
unfoldable pub is_active : State → Bool
is_active State.pending = true
is_active State.validated = true
is_active State.snapshotted = true
is_active State.executing = true
is_active State.verifying = true
is_active State.rolling_back = true
is_active State.rollback_failed = true
is_active _ = false

-- `interface_id = ?`, which no NULL fulfils.
abbrev pub is_on : String → OperationRow → Bool
is_on interface r = elim r.interface_id [ none ↦ false | some i ↦ str_eq i interface ]
