-- ===== src/Store/Tests.antt =====
-- Runs of the theorems on a small table of operations.
use wiregate.Prelude.{All, [], ◌∷◌, ◌≡◌, success, ℕ, some, none, refl, true, String}
use wiregate.Operation.State.{State, StepState, valid_operation_transition}
use wiregate.Operation.Step.{StepRecord, Effect}
use wiregate.Operation.Action.{ok}
use wiregate.Operation.Rollback.{Run}
use wiregate.Operation.Engine.{execute, recover}
use wiregate.Store.Tables.{Store, OperationRow, nullable}
use wiregate.Store.Operations.{transition_operation}
use wiregate.Store.Creation.{returned_row, CreateInput, create_operation, is_replay, new_row}
use wiregate.Store.Reads.{operation_steps, Page, list_operations, StoredRecord}
use wiregate.Store.Pages.{IsPage, list_operations-IsPage}
use wiregate.Store.View.{UniqueIds, Sets, state_of, transition_operation-Sets}
use wiregate.Store.Active.{OneActive}
use wiregate.Store.Consistent.{Consistent, History-Consistent, start, then_change, creates, moves}
use wiregate.Store.Acceptance.{transition_operation_succeeds}
use wiregate.Store.Journal.{World, journal, hosted}
use wiregate.Store.Mirror.{Mirrors, execute-Mirrors, recover-Mirrors}
use wiregate.Store.Replay.{SameRequest, create_operation_replays}
use wiregate.Stdlib.Rows.{select_row}

abbrev write : StepRecord
write = record {
  id = "";
  order = 0;
  name = "write";
  kind = "file";
  state = StepState.pending;
  original_fingerprint = "old";
  proposed_fingerprint = "new";
  error_redacted = "";
}

abbrev preview : CreateInput
preview = record {
  interface = "wg0";
  kind = "create_peer";
  intent = "{}";
  key = "k";
  actor = "u1";
  role = "admin";
  request = "r1";
  why = "";
  revision = none;
  original_file = "";
  proposed_file = "";
  original_runtime = "";
  proposed_diff = "";
  expires = none;
  planned = write ∷ [];
}

abbrev drawn : ℕ → String
drawn n = "s1"

abbrev nothing : Store
nothing = record { operations = []; steps = []; interfaces = "wg0" ∷ [] }

abbrev planned : StepRecord
planned = record write { id = "s1"; order = 1 }

abbrev row : State → OperationRow
unfolding nullable
row state = record (new_row preview 100 "o1") { state = state }

abbrev holding : State → Store
unfolding nullable
holding state = record nothing {
  operations = row state ∷ [];
  steps =
      record { step = planned; operation_id = "o1"; started_at_ms = none; step_finished_ms = none }
      ∷ [];
}

abbrev made : StoredRecord
unfolding nullable
made = record { row = returned_row preview "o1"; record_steps = planned ∷ [] }

created : create_operation preview 100 "o1" drawn nothing ≡ success (made, holding State.pending)
unfolding create_operation nullable
created = refl

abbrev validated : Store
unfolding nullable
validated = record (holding State.pending) {
  operations = record (row State.validated) { updated_at_ms = 200 } ∷ [];
}

moved :
    transition_operation "o1" State.pending State.validated none 200 (holding State.pending)
    ≡ success validated
unfolding transition_operation nullable
moved = refl

unique : (state : State) → UniqueIds (row state ∷ [])
unfolding UniqueIds nullable
unique state = (tt, tt)

one : (state : State) → OneActive (row state ∷ [])
unfolding OneActive nullable
one state = (λ a. tt, tt)

consistent : (state : State) → Consistent (row state ∷ [])
unfolding nullable
consistent state = record { one_active = one state; unique = unique state }

transition_operation-Sets_example :
    Sets "o1" State.pending State.validated (row State.pending ∷ []) validated.operations
    × (validated.steps ≡ (holding State.pending).steps)
unfolding nullable
transition_operation-Sets_example =
    transition_operation-Sets "o1" State.pending State.validated none 200 (holding State.pending)
      validated (unique State.pending) moved

empty-Consistent : Consistent []
unfolding OneActive UniqueIds
empty-Consistent = record { one_active = tt; unique = tt }

valid : valid_operation_transition State.pending State.validated ≡ true
unfolding valid_operation_transition
valid = refl

History-Consistent_example : Consistent validated.operations
unfolding nullable
History-Consistent_example =
    History-Consistent nothing validated
      (then_change (holding State.pending) validated
        (then_change nothing (holding State.pending) start
          (creates preview 100 "o1" drawn made created))
        (moves "o1" State.pending State.validated none 200 valid moved))
      empty-Consistent

in_state : (state : State) → state_of "o1" (row state ∷ []) ≡ some state
unfolding state_of nullable
in_state state = refl

transition_operation_succeeds_example :
    (u : Store) × (transition_operation "o1" State.pending State.validated none 200
        (holding State.pending)
      ≡ success u)
unfolding nullable
transition_operation_succeeds_example =
    transition_operation_succeeds "o1" State.pending State.validated none 200
      (holding State.pending) (consistent State.pending) valid (in_state State.pending)

abbrev writer : Effect String
writer = record {
  name = "write";
  inspect = λ w. (ok w, w);
  apply = λ w. (ok tt, "new");
  rollback = λ w. (ok tt, "old");
  idempotent = true;
}

abbrev started : State → Run (World String)
unfolding nullable
started state = record {
  operation = record { id = "o1"; state = state; steps = planned ∷ [] };
  world = record { store = holding state; host = "old" };
}

started-Mirrors : (state : State) → Mirrors (started state)
unfolding nullable
started-Mirrors state = record { consistent = consistent state; same_state = in_state state }

abbrev clock : String → ℕ
clock host = 300

execute-Mirrors_example :
    Mirrors (execute (journal clock) (hosted writer ∷ []) none (started State.snapshotted)).1
unfolding nullable
execute-Mirrors_example =
    execute-Mirrors clock (writer ∷ []) none (started State.snapshotted)
      (started-Mirrors State.snapshotted)

recover-Mirrors_example :
    Mirrors (recover (journal clock) (hosted writer ∷ []) none (started State.executing)).1
unfolding nullable
recover-Mirrors_example =
    recover-Mirrors clock (writer ∷ []) none (started State.executing)
      (started-Mirrors State.executing)

unused : select_row (is_replay preview) nothing.operations ≡ none
unused = refl

abbrev retried : CreateInput
retried = record preview { role = "operator"; request = "r2"; why = "again" }

same : SameRequest preview retried
same = record {
  same_actor = refl;
  same_kind = refl;
  same_key = refl;
  same_intent = refl;
  has_role = refl;
  has_request = refl;
}

create_operation_replays_example :
    (q : StoredRecord) × (create_operation retried 900 "o2" drawn (holding State.pending)
      ≡ success (q, holding State.pending))
    × (q.row.id ≡ "o1")
unfolding nullable
create_operation_replays_example =
    create_operation_replays preview retried 100 900 "o1" "o2" drawn drawn nothing made
      (holding State.pending) unused created same

abbrev page : Page
page = record {
  on_interface = "wg0";
  in_state = some State.pending;
  page_size = 10;
  before_ms = some 200;
  before_id = "o9";
}

abbrev shown : StoredRecord
unfolding nullable
shown = record { row = row State.pending; record_steps = planned ∷ [] }

listed_page : list_operations page (holding State.pending) ≡ success (shown ∷ [])
unfolding list_operations nullable
listed_page = refl

list_operations-IsPage_example :
    IsPage page (holding State.pending) (shown.row ∷ [])
    × All
        (λ q. q.record_steps ≡ operation_steps q.row.id (holding State.pending).steps)
        (shown ∷ [])
unfolding nullable
list_operations-IsPage_example =
    list_operations-IsPage page (holding State.pending) (shown ∷ []) listed_page
