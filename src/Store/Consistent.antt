-- ===== src/Store/Consistent.antt =====
-- What every history of the table of operations keeps
-- (src/internal/agent/repository/operation_store.go).
use wiregate.Prelude.{
  List, ℕ, Option, String, Bool, str_eq, false, true, [], ◌∷◌, success, ◌≡◌, All, refl, inl, inr,
  Fallible, failure, not, ◌&&◌, if_both, arith, bind-success, Bool-cases, reject, subst,
  reject-success, ◌||◌, sym, Option-cases, ◌==◌,
}
use wiregate.Operation.State.{
  State, StepState, valid_operation_transition, same_state-eq, same_state,
}
use wiregate.Operation.Step.{Failure}
use wiregate.Store.Tables.{OperationRow, Store, StoreError, nullable, is_active}
use wiregate.Store.Operations.{
  transition_operation, transition_step, move_row, is_in, breaks_index, is_step_in,
}
use wiregate.Store.Creation.{
  CreateInput, create_operation, supersede, insert_operation, expire, insertable, is_busy,
  is_superseded, insert_steps, replay, is_replay,
}
use wiregate.Store.Reads.{StoredRecord, is_empty, get_operation}
use wiregate.Store.View.{UniqueIds, store_eq}
use wiregate.Store.Active.{
  OneActive, Calms, clash_with, clash, update_rows-OneActive, transition_activates_none,
}
use wiregate.Stdlib.Rows.{
  update_rows, any_row, update_rows-All, any_row-All, count_rows, select_row,
}

-- One active operation at most on an interface, and one row at most for an identifier.
pub record Consistent (rows : List OperationRow) : Type 0 where
  pub one_active : OneActive rows
  pub unique : UniqueIds rows

-- A call of the repository, with the tables before and after it.
pub data Change (s u : Store) : Type 0 where
  creates :
      (i : CreateInput) (now : ℕ) (id : String) (draw : ℕ → String) (r : StoredRecord)
      → create_operation i now id draw s ≡ success (r, u)
      → Change s u
  moves :
      (id : String) (from to : State) (failed : Option Failure) (now : ℕ)
      → valid_operation_transition from to ≡ true
      → transition_operation id from to failed now s ≡ success u
      → Change s u
  moves_step :
      (id : String) (from to : StepState) (failed : Option Failure) (now : ℕ)
      → transition_step id from to failed now s ≡ success u
      → Change s u

pub data History (s : Store) : Store → Type 0 where
  start : History s s
  then_change : (u v : Store) → History s u → Change u v → History s v

absent-update :
    (id : String) (p : OperationRow → Bool) (f : OperationRow → OperationRow)
    (rs : List OperationRow)
    → ((r : OperationRow) → (f r).id ≡ r.id)
    → All (λ s. str_eq s.id id ≡ false) rs
    → All (λ s. str_eq s.id id ≡ false) (update_rows p f rs)
absent-update id p f rs same all =
    update_rows-All p f (λ s. str_eq s.id id ≡ false) rs (λ r h q. rw (same r) q) all

update_rows-UniqueIds :
    (p : OperationRow → Bool) (f : OperationRow → OperationRow) (rs : List OperationRow)
    → ((r : OperationRow) → (f r).id ≡ r.id)
    → UniqueIds rs
    → UniqueIds (update_rows p f rs)
unfolding UniqueIds
update_rows-UniqueIds p f [] same h = tt
update_rows-UniqueIds p f (r ∷ rs) same h = (
  if_both (λ row. All (λ s. str_eq s.id row.id ≡ false) (update_rows p f rs)) (p r) (f r) r
      (rw (same r) (absent-update r.id p f rs same h.0)) (absent-update r.id p f rs same h.0),
  update_rows-UniqueIds p f rs same h.1,
)

expire-Calms : (now : ℕ) (r : OperationRow) → Calms r (expire now r)
unfolding is_active
expire-Calms now r = record { same_interface = refl; not_activated = λ h. cc }

supersede-Consistent :
    (i : CreateInput) (now : ℕ) (rows : List OperationRow)
    → Consistent rows
    → Consistent (supersede i now rows)
unfolding supersede
supersede-Consistent i now rows c = if_both Consistent (is_empty i.interface) rows _ c (record {
  one_active =
      update_rows-OneActive (is_superseded i) (expire now) rows (λ r h. expire-Calms now r)
        c.one_active;
  unique = update_rows-UniqueIds (is_superseded i) (expire now) rows (λ r. refl) c.unique;
})

supersede-absent :
    (i : CreateInput) (now : ℕ) (id : String) (rows : List OperationRow)
    → any_row (λ r. str_eq r.id id) rows ≡ false
    → All (λ s. str_eq s.id id ≡ false) (supersede i now rows)
unfolding supersede
supersede-absent i now id rows h =
    if_both (All (λ s. str_eq s.id id ≡ false)) (is_empty i.interface) rows _
      (any_row-All (λ r. str_eq r.id id) rows h)
      (absent-update id (is_superseded i) (expire now) rows (λ r. refl)
        (any_row-All (λ r. str_eq r.id id) rows h))

All-true : (rows : List OperationRow) → All (λ s. ◌≡◌ {A = Bool} false false) rows
All-true [] = tt
All-true (r ∷ rows) = (refl, All-true rows)

first_false : (a b c : Bool) → not (not a && b && c) ≡ false → a ≡ false
first_false a b c h = ground arith

pub created_eq :
    (q r : StoredRecord) (t u : Store)
    → ◌≡◌ {A = Fallible StoreError (StoredRecord × Store)} (success (q, t)) (success (r, u))
    → t ≡ u
created_eq q r t u h = cc

-- No row clashes with a new one on an interface that is not busy.
not_busy-clash :
    (interface : String) (rows : List OperationRow)
    → not (is_empty interface) && any_row (is_busy interface) rows ≡ false
    → All (λ s. clash_with (nullable interface) s ≡ false) rows
unfolding nullable clash_with
not_busy-clash interface rows h = elim (Bool-cases (is_empty interface)) [
  | inl e ↦ rw e (All-true rows)
  | inr e ↦ rw e (any_row-All (is_busy interface) rows (ground arith))
]

inserted-Consistent :
    (i : CreateInput) (now : ℕ) (id : String) (draw : ℕ → String) (s : Store) (r : StoredRecord)
    (u : Store)
    → insert_operation i now id draw s ≡ success (r, u)
    → Consistent s.operations
    → Consistent u.operations
unfolding insert_operation OneActive UniqueIds clash insertable nullable
inserted-Consistent i now id draw s r u h c =
    let rows = supersede i now s.operations in
    let (_, free, h1) =
      bind-success
        (reject (not (is_empty i.interface) && any_row (is_busy i.interface) rows)
          StoreError.in_progress)
        _ (r, u) h in
    let (_, fits, h2) =
      bind-success (reject (not (insertable i id s)) StoreError.constraint_failed) _ (r, u) h1 in
    let (made, _, h3) = bind-success (insert_steps draw id 0 i.planned s.steps) _ (r, u) h2 in
    let before : Consistent rows = supersede-Consistent i now s.operations c in
    subst (λ v. Consistent v.operations) (created_eq _ r _ u h3)
      (record {
        one_active =
            (λ a. not_busy-clash i.interface rows (reject-success _ _ free), before.one_active);
        unique = (
          supersede-absent i now id s.operations (
              first_false (any_row (λ x. str_eq x.id id) s.operations) _ _
                (reject-success _ _ fits)),
          before.unique,
        );
      })

pub fallible_pair : {q : StoredRecord × Store} {e : StoreError} → failure e ≡ success q → ⊥
fallible_pair h = cc

replay-same :
    (i : CreateInput) (row : OperationRow) (s : Store) (r : StoredRecord) (u : Store)
    → replay i row s ≡ success (r, u)
    → s ≡ u
unfolding replay
replay-same i row s r u h =
    let (_, _, h1) =
      bind-success (reject (not (str_eq row.intent_json i.intent)) StoreError.key_reused) _ (r, u)
        h in
    let (found, _, h2) = bind-success (get_operation row.id s) _ (r, u) h1 in
    created_eq found r s u h2

create_operation-Consistent :
    (i : CreateInput) (now : ℕ) (id : String) (draw : ℕ → String) (s : Store) (r : StoredRecord)
    (u : Store)
    → create_operation i now id draw s ≡ success (r, u)
    → Consistent s.operations
    → Consistent u.operations
unfolding create_operation
create_operation-Consistent i now id draw s r u h c =
    elim (Bool-cases (
      is_empty i.kind
      || is_empty i.intent
      || is_empty i.key
      || is_empty i.actor
      || is_empty i.role
      || is_empty i.request)) [
        | inl e ↦ absurd (fallible_pair (rw e at h))
        | inr e ↦ elim (Option-cases (select_row (is_replay i) s.operations)) [
          | inl f ↦
              inserted-Consistent i now id draw s r u (rw (f, create_operation) at (rw e at h)) c
          | inr (row, f) ↦
              subst (λ v. Consistent v.operations)
                (replay-same i row s r u (rw (f, create_operation) at (rw e at h))) c
        ]
      ]

and_then : (a b : Bool) → a && b ≡ true → b ≡ true
and_then a b h = ground arith

move_row-id :
    (to : State) (failed : Option Failure) (now : ℕ) (r : OperationRow)
    → (move_row to failed now r).id ≡ r.id
unfolding move_row
move_row-id to failed now r = refl

move_row-Calms :
    (id : String) (from to : State) (failed : Option Failure) (now : ℕ)
    → valid_operation_transition from to ≡ true
    → (r : OperationRow) → is_in id from r ≡ true
    → Calms r (move_row to failed now r)
unfolding is_in move_row
move_row-Calms id from to failed now v r h = record {
  same_interface = refl;
  not_activated = λ a.
      subst (λ x. is_active x ≡ true)
        (sym (same_state-eq r.state from (and_then (str_eq r.id id) (same_state r.state from) h)))
        (transition_activates_none from to v a);
}

pub transition_operation-Consistent :
    (id : String) (from to : State) (failed : Option Failure) (now : ℕ) (s u : Store)
    → valid_operation_transition from to ≡ true
    → transition_operation id from to failed now s ≡ success u
    → Consistent s.operations
    → Consistent u.operations
unfolding transition_operation
transition_operation-Consistent id from to failed now s u v h c =
    let (_, _, h1) =
      bind-success
        (reject (any_row (is_in id from) s.operations && breaks_index id to s.operations)
          StoreError.constraint_failed)
        _ u h in
    let (_, _, h2) =
      bind-success
        (reject (not (count_rows (is_in id from) s.operations == 1))
          (StoreError.state_conflict from))
        _ u h1 in
    subst (λ x. Consistent x.operations) (store_eq _ u h2)
      (record {
        one_active =
            update_rows-OneActive (is_in id from) (move_row to failed now) s.operations
              (move_row-Calms id from to failed now v) c.one_active;
        unique =
            update_rows-UniqueIds (is_in id from) (move_row to failed now) s.operations
              (λ r. move_row-id to failed now r) c.unique;
      })

pub transition_step-operations :
    (id : String) (from to : StepState) (failed : Option Failure) (now : ℕ) (s u : Store)
    → transition_step id from to failed now s ≡ success u
    → u.operations ≡ s.operations
unfolding transition_step
transition_step-operations id from to failed now s u h =
    let (_, _, h1) =
      bind-success
        (reject (not (count_rows (is_step_in id from) s.steps == 1))
          (StoreError.step_conflict from))
        _ u h in
    subst (λ x. x.operations ≡ s.operations) (store_eq _ u h1) refl

-- Whatever operations are created and moved along the table of transitions, in whatever order, an
-- interface never has two active operations, and an identifier never two rows.
pub History-Consistent :
    (s u : Store) → History s u → Consistent s.operations → Consistent u.operations
History-Consistent s u start c = c
History-Consistent s u (then_change v w past (creates i now id draw r h)) c =
    create_operation-Consistent i now id draw v r u h (History-Consistent s v past c)
History-Consistent s u (then_change v w past (moves id from to failed now ok h)) c =
    transition_operation-Consistent id from to failed now v u ok h (History-Consistent s v past c)
History-Consistent s u (then_change v w past (moves_step id from to failed now h)) c =
    subst Consistent (sym (transition_step-operations id from to failed now v u h))
      (History-Consistent s v past c)
