-- ===== src/Store/Reads.antt =====
-- The reads of the operations (GetOperation, operationSteps, ListOperations, GetOperationMetadata
-- and RecoverableOperations of src/internal/agent/repository/operation_store.go).
use wiregate.Prelude.{
  List, ℕ, Option, String, Bool, str_eq, none, some, false, true, Fallible, success, failure, ◌>>=◌,
  reject, ◌||◌, ◌&&◌, ltb, ◌==◌, map, take,
}
use wiregate.Operation.State.{State, same_state}
use wiregate.Operation.Step.{StepRecord}
use wiregate.Store.Tables.{OperationRow, StepRow, Store, StoreError, is_active, text_of, is_on}
use wiregate.Stdlib.Rows.{select_row, rows_where}
use wiregate.Stdlib.Sort.{sort_by}
use wiregate.Stdlib.Texts.{text_before}

-- `operation.Record` as the repository fills it.
pub record StoredRecord : Type 0 where
  pub row : OperationRow
  pub record_steps : List StepRecord

abbrev pub is_empty : String → Bool
is_empty s = str_eq s ""

-- The rows of an operation by their order.
unfoldable pub operation_steps : String → List StepRow → List StepRecord
unfolding sort_by
operation_steps id rows =
    map (λ r. r.step)
      (sort_by (λ a b. ltb a.step.order b.step.order)
        (rows_where (λ r. str_eq r.operation_id id) rows))

unfoldable pub get_operation : String → Store → Fallible StoreError StoredRecord
unfolding operation_steps
get_operation id s = elim (select_row (λ r. str_eq r.id id) s.operations) [
  | none ↦ failure StoreError.no_rows
  | some r ↦ success (record { row = r; record_steps = operation_steps id s.steps })
]

abbrev pub earlier : OperationRow → OperationRow → Bool
earlier a b = ltb a.created_at_ms b.created_at_ms

-- The operations that a start of the agent takes up, oldest first.
unfoldable pub recoverable_operations : Store → List StoredRecord
unfolding operation_steps sort_by is_active
recoverable_operations s =
    map (λ r. record { row = r; record_steps = operation_steps r.id s.steps })
      (sort_by earlier (rows_where (λ r. is_active r.state) s.operations))

-- What a page is asked for; an empty text or no time leaves its condition out.
pub record Page : Type 0 where
  pub on_interface : String
  pub in_state : Option State
  pub page_size : ℕ
  pub before_ms : Option ℕ
  pub before_id : String

unfoldable pub is_listed : Page → OperationRow → Bool
unfolding text_before
is_listed p r =
    (is_empty p.on_interface || is_on p.on_interface r)
    && (elim p.in_state [ none ↦ true | some st ↦ same_state r.state st ])
    && (elim p.before_ms [
      | none ↦ true
      | some ms ↦
          ms == 0
          || ltb r.created_at_ms ms
          || (r.created_at_ms == ms && text_before r.id p.before_id)
    ])

-- Newest first, and by identifier where the times are equal.
unfoldable pub newer : OperationRow → OperationRow → Bool
unfolding text_before
newer a b =
    ltb b.created_at_ms a.created_at_ms
    || (a.created_at_ms == b.created_at_ms && text_before b.id a.id)

unfoldable pub needs_id : Page → Bool
needs_id p = elim p.before_ms [ none ↦ false | some ms ↦ is_empty p.before_id ]

unfoldable pub list_operations : Page → Store → Fallible StoreError (List StoredRecord)
unfolding is_listed newer needs_id sort_by operation_steps
list_operations p s = do
  _ ← reject (ltb p.page_size 1 || ltb 201 p.page_size) StoreError.invalid_page
  _ ← reject (needs_id p) StoreError.cursor_without_id
  success (
      map (λ r. record { row = r; record_steps = operation_steps r.id s.steps })
        (take p.page_size (sort_by newer (rows_where (is_listed p) s.operations))))

pub record OperationMetadata : Type 0 where
  pub metadata_id : String
  pub on : String
  pub metadata_kind : String
  pub metadata_state : State
  pub asked_by : String
  pub asked_as : String
  pub in_request : String
  pub because : String
  pub intent : String
  pub proposed_file : String
  pub revision : Option ℕ
  pub original_file : String
  pub original_runtime : String
  pub expires : Option ℕ

unfoldable pub get_operation_metadata : String → Store → Fallible StoreError OperationMetadata
get_operation_metadata id s = elim (select_row (λ r. str_eq r.id id) s.operations) [
  | none ↦ failure StoreError.no_rows
  | some r ↦ success (record {
    metadata_id = r.id;
    on = text_of r.interface_id;
    metadata_kind = r.type;
    metadata_state = r.state;
    asked_by = r.actor_id;
    asked_as = r.actor_role;
    in_request = r.request_id;
    because = text_of r.reason;
    intent = r.intent_json;
    proposed_file = text_of r.proposed_file_hash;
    revision = r.expected_revision;
    original_file = text_of r.original_file_hash;
    original_runtime = text_of r.original_runtime_hash;
    expires = r.expires_at_ms;
  })
]
