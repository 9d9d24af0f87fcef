-- ===== src/Store/Creation.antt =====
-- CreateOperation of src/internal/agent/repository/operation_store.go. Identifiers that the source
-- draws and the time are arguments. A transaction that fails changes nothing; other errors of the
-- database, which do not either, are left out. A table has no order: a new row comes first.
use wiregate.Prelude.{
  List, ℕ, Option, String, Bool, str_eq, none, some, [], ◌∷◌, suc, Fallible, success, failure,
  ◌>>=◌, reject, not, if◌then◌else◌, ◌||◌, ◌&&◌, contains_by, ◌+◌,
}
use wiregate.Operation.State.{State, StepState, same_state}
use wiregate.Operation.Step.{StepRecord}
use wiregate.Store.Tables.{OperationRow, StepRow, Store, StoreError, is_active, is_on, nullable}
use wiregate.Store.Reads.{StoredRecord, is_empty, get_operation}
use wiregate.Stdlib.Rows.{any_row, select_row, update_rows}

pub record CreateInput : Type 0 where
  pub interface : String
  pub kind : String
  pub intent : String
  pub key : String
  pub actor : String
  pub role : String
  pub request : String
  pub why : String
  pub revision : Option ℕ
  pub original_file : String
  pub proposed_file : String
  pub original_runtime : String
  pub proposed_diff : String
  pub expires : Option ℕ
  pub planned : List StepRecord

-- The constraint on the column type.
known_type : String → Bool
known_type = contains_by str_eq (
    "adopt_interface" ∷ "resolve_drift" ∷ "create_interface" ∷ "set_interface_state" ∷ "create_peer"
    ∷ "update_peer" ∷ "disable_peer" ∷ "enable_peer" ∷ "revoke_peer" ∷ "reenroll_peer"
    ∷ "rollback_operation" ∷ [])

-- The constraint on the column effect_kind.
known_kind : String → Bool
known_kind =
    contains_by str_eq
      ("database" ∷ "file" ∷ "wgctrl" ∷ "netlink" ∷ "nftables" ∷ "systemd" ∷ "sysctl" ∷ [])

-- `actor_id = ? AND type = ? AND idempotency_key = ?`
unfoldable pub is_replay : CreateInput → OperationRow → Bool
is_replay i r = str_eq r.actor_id i.actor && str_eq r.type i.kind && str_eq r.idempotency_key i.key

-- `interface_id = ? AND actor_id = ? AND type = ? AND state = 'pending'`
unfoldable pub is_superseded : CreateInput → OperationRow → Bool
is_superseded i r =
    is_on i.interface r
    && str_eq r.actor_id i.actor
    && str_eq r.type i.kind
    && same_state r.state State.pending

abbrev pub expire : ℕ → OperationRow → OperationRow
expire now r = record r {
  state = State.expired;
  error_code = some "PREVIEW_SUPERSEDED";
  error_message = some "superseded by a newer preview";
  updated_at_ms = now;
  finished_at_ms = some now;
}

-- The previews that the new one replaces expire.
unfoldable pub supersede : CreateInput → ℕ → List OperationRow → List OperationRow
unfolding is_superseded
supersede i now rows =
    if is_empty i.interface then rows else update_rows (is_superseded i) (expire now) rows

unfoldable pub is_busy : String → OperationRow → Bool
unfolding is_active
is_busy interface r = is_on interface r && is_active r.state

abbrev pub new_row : CreateInput → ℕ → String → OperationRow
unfolding nullable
new_row i now id = record {
  id = id;
  interface_id = nullable i.interface;
  type = i.kind;
  state = State.pending;
  intent_json = i.intent;
  idempotency_key = i.key;
  actor_id = i.actor;
  actor_role = i.role;
  request_id = i.request;
  reason = nullable i.why;
  expected_revision = i.revision;
  original_file_hash = nullable i.original_file;
  proposed_file_hash = nullable i.proposed_file;
  original_runtime_hash = nullable i.original_runtime;
  proposed_diff_json = nullable i.proposed_diff;
  error_code = none;
  error_message = none;
  expires_at_ms = i.expires;
  created_at_ms = now;
  updated_at_ms = now;
  finished_at_ms = none;
}

-- The record that is returned has the identifier, interface, type, state and steps; the other fields
-- of the source's record are left at their zero values, and those that it does not have are empty.
abbrev pub returned_row : CreateInput → String → OperationRow
unfolding nullable
returned_row i id = record {
  id = id;
  interface_id = nullable i.interface;
  type = i.kind;
  state = State.pending;
  intent_json = "";
  idempotency_key = "";
  actor_id = "";
  actor_role = "";
  request_id = "";
  reason = none;
  expected_revision = none;
  original_file_hash = none;
  proposed_file_hash = none;
  original_runtime_hash = none;
  proposed_diff_json = none;
  error_code = none;
  error_message = none;
  expires_at_ms = none;
  created_at_ms = 0;
  updated_at_ms = 0;
  finished_at_ms = none;
}

-- The constraints on a new operation that the code has not checked before.
unfoldable pub insertable : CreateInput → String → Store → Bool
unfolding known_type
insertable i id s =
    not (any_row (λ r. str_eq r.id id) s.operations)
    && known_type i.kind
    && (is_empty i.interface || contains_by str_eq s.interfaces i.interface)

-- A step at a position of the plan, with a drawn identifier if it has none.
unfoldable pub planned_step : String → ℕ → StepRecord → StepRecord
planned_step drawn index step = record step {
  id = if is_empty step.id then drawn else step.id;
  order = index + 1;
  state = StepState.pending;
}

incomplete : StepRecord → Bool
incomplete step =
    is_empty step.kind
    || is_empty step.name
    || is_empty step.original_fingerprint
    || is_empty step.proposed_fingerprint

-- The loop over the plan: the steps, and the table with their rows.
unfoldable pub insert_steps :
    (ℕ → String)
    → String
    → ℕ
    → List StepRecord
    → List StepRow
    → Fallible StoreError (List StepRecord × List StepRow)
unfolding planned_step incomplete known_kind
insert_steps draw operation index [] rows = success ([], rows)
insert_steps draw operation index (step ∷ plan) rows = do
  let planned = planned_step (draw index) index step
  _ ← reject (incomplete planned) (StoreError.incomplete_step (index + 1))
  _ ←
      reject (any_row (λ r. str_eq r.step.id planned.id) rows || not (known_kind planned.kind))
        StoreError.constraint_failed
  (steps, rows) ← insert_steps draw operation (suc index) plan (
      (record {
        step = record planned { error_redacted = "" };
        operation_id = operation;
        started_at_ms = none;
        step_finished_ms = none;
      })
      ∷ rows)
  success (planned ∷ steps, rows)

-- The operation is new: earlier previews expire, and nothing else may be active.
unfoldable pub insert_operation :
    CreateInput → ℕ → String → (ℕ → String) → Store → Fallible StoreError (StoredRecord × Store)
unfolding supersede is_busy insertable insert_steps
insert_operation i now id draw s = do
  let rows = supersede i now s.operations
  _ ←
      reject (not (is_empty i.interface) && any_row (is_busy i.interface) rows)
        StoreError.in_progress
  _ ← reject (not (insertable i id s)) StoreError.constraint_failed
  (steps, step_rows) ← insert_steps draw id 0 i.planned s.steps
  success (
    record { row = returned_row i id; record_steps = steps },
    record s { operations = new_row i now id ∷ rows; steps = step_rows },
  )

-- The same key with the same intent gives back the operation that it made.
unfoldable pub replay :
    CreateInput → OperationRow → Store → Fallible StoreError (StoredRecord × Store)
unfolding get_operation
replay i r s = do
  _ ← reject (not (str_eq r.intent_json i.intent)) StoreError.key_reused
  found ← get_operation r.id s
  success (found, s)

unfoldable pub create_operation :
    CreateInput → ℕ → String → (ℕ → String) → Store → Fallible StoreError (StoredRecord × Store)
unfolding is_replay replay insert_operation
create_operation i now id draw s =
    if is_empty i.kind
      || is_empty i.intent
      || is_empty i.key
      || is_empty i.actor
      || is_empty i.role
      || is_empty i.request
    then failure StoreError.fields_required
    else (elim (select_row (is_replay i) s.operations) [
      | some r ↦ replay i r s
      | none ↦ insert_operation i now id draw s
    ])
