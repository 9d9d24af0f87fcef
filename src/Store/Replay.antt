-- ===== src/Store/Replay.antt =====
-- Creating an operation twice with one key (CreateOperation of
-- src/internal/agent/repository/operation_store.go).
use wiregate.Prelude.{
  List, ℕ, String, Bool, none, some, ◌≡◌, refl, success, inl, inr, ◌∷◌, true, false, Bool-cases,
  ◌||◌, str_eq, subst, sym, bind-success, reject, not, ◌&&◌, arith,
}
use wiregate.Store.Tables.{Store, StoreError, OperationRow, nullable}
use wiregate.Store.Creation.{
  CreateInput, is_replay, create_operation, insert_operation, replay, new_row, supersede, is_busy,
  insertable, insert_steps,
}
use wiregate.Store.Reads.{StoredRecord, is_empty, get_operation, operation_steps}
use wiregate.Stdlib.Rows.{select_row, any_row}
use wiregate.Store.Consistent.{fallible_pair, created_eq}
use wiregate.Store.View.{str_eq_refl}

-- A second request agrees with the first in the fields that a replay compares. Its role and its
-- request identifier are its own, and not empty.
pub record SameRequest (i j : CreateInput) : Type 0 where
  pub same_actor : j.actor ≡ i.actor
  pub same_kind : j.kind ≡ i.kind
  pub same_key : j.key ≡ i.key
  pub same_intent : j.intent ≡ i.intent
  pub has_role : is_empty j.role ≡ false
  pub has_request : is_empty j.request ≡ false

-- The table after an insertion.
inserted-operations :
    (i : CreateInput) (now : ℕ) (id : String) (draw : ℕ → String) (s : Store) (r : StoredRecord)
    (u : Store)
    → insert_operation i now id draw s ≡ success (r, u)
    → u.operations ≡ new_row i now id ∷ supersede i now s.operations
unfolding insert_operation nullable
inserted-operations i now id draw s r u h =
    let rows = supersede i now s.operations in
    let (_, _, h1) =
      bind-success
        (reject (not (is_empty i.interface) && any_row (is_busy i.interface) rows)
          StoreError.in_progress)
        _ (r, u) h in
    let (_, _, h2) =
      bind-success (reject (not (insertable i id s)) StoreError.constraint_failed) _ (r, u) h1 in
    let (made, _, h3) = bind-success (insert_steps draw id 0 i.planned s.steps) _ (r, u) h2 in
    subst (λ v. v.operations ≡ new_row i now id ∷ rows) (created_eq _ r _ u h3) refl

is_replay-new :
    (i j : CreateInput) (now : ℕ) (id : String)
    → SameRequest i j
    → is_replay j (new_row i now id) ≡ true
unfolding is_replay nullable
is_replay-new i j now id e =
    rw
      (
        subst (λ x. str_eq i.actor x ≡ true) (sym e.same_actor) (str_eq_refl i.actor),
        subst (λ x. str_eq i.kind x ≡ true) (sym e.same_kind) (str_eq_refl i.kind),
        subst (λ x. str_eq i.key x ≡ true) (sym e.same_key) (str_eq_refl i.key),
      )
      refl

-- A replay of the first row of the table.
replay-first :
    (j : CreateInput) (row : OperationRow) (rows : List OperationRow) (u : Store)
    → u.operations ≡ row ∷ rows
    → str_eq row.intent_json j.intent ≡ true
    → replay j row u
      ≡ success (record { row = row; record_steps = operation_steps row.id u.steps }, u)
unfolding replay get_operation
replay-first j row rows u e f =
    rw f (rw (e, get_operation) (rw (str_eq_refl row.id, get_operation) refl))

fields_missing : CreateInput → Bool
fields_missing i =
    is_empty i.kind
    || is_empty i.intent
    || is_empty i.key
    || is_empty i.actor
    || is_empty i.role
    || is_empty i.request

last_two :
    (a b c d e f g h : Bool)
    → a || b || c || d || e || f ≡ false
    → g ≡ false
    → h ≡ false
    → a || b || c || d || g || h ≡ false
last_two a b c d e f g h k l m = ground arith

fields-same :
    (i j : CreateInput) → SameRequest i j → fields_missing i ≡ false → fields_missing j ≡ false
unfolding fields_missing
fields-same i j e h =
    rw (e.same_kind, e.same_intent, e.same_key, e.same_actor)
      (last_two (is_empty i.kind) (is_empty i.intent) (is_empty i.key) (is_empty i.actor)
        (is_empty i.role) (is_empty i.request) (is_empty j.role) (is_empty j.request) h e.has_role
        e.has_request)

-- After an operation was created for a key that was not used, a second request of the actor with the
-- same type, key and intent gives back the identifier of the first, and changes nothing, whatever
-- its role and request identifier are, as long as they are not empty.
pub create_operation_replays :
    (i j : CreateInput) (now later : ℕ) (id other : String) (draw again : ℕ → String) (s : Store)
    (r : StoredRecord) (u : Store)
    → select_row (is_replay i) s.operations ≡ none
    → create_operation i now id draw s ≡ success (r, u)
    → SameRequest i j
    → (q : StoredRecord) × (create_operation j later other again u ≡ success (q, u))
      × (q.row.id ≡ id)
unfolding create_operation fields_missing nullable
create_operation_replays i j now later id other draw again s r u new h same =
    elim (Bool-cases (fields_missing i)) [
      | inl e ↦ absurd (fallible_pair (rw e at h))
      | inr e ↦
          let rows = supersede i now s.operations in
          let made : u.operations ≡ new_row i now id ∷ rows =
            inserted-operations i now id draw s r u (rw (new, create_operation) at (rw e at h)) in
          let given : fields_missing j ≡ false = fields-same i j same e in
          let hit : select_row (is_replay j) u.operations ≡ some (new_row i now id) =
            rw made (rw (is_replay-new i j now id same) refl) in
          (
            record { row = new_row i now id; record_steps = operation_steps id u.steps },
            rw given (
                rw (hit, create_operation)
                  (replay-first j (new_row i now id) rows u made (
                    subst (λ x. str_eq i.intent x ≡ true) (sym same.same_intent)
                      (str_eq_refl i.intent)))),
            refl,
          )
    ]
