-- ===== src/Store/View.antt =====
-- The abstract view of the table of operations: the state that each identifier has. TransitionOperation
-- is a compare-and-set on it (src/internal/agent/repository/operation_store.go).
use wiregate.Prelude.{
  List, ℕ, Option, String, str_eq, none, some, false, true, [], ◌∷◌, success, ◌≡◌, All, refl, inl,
  inr, ◌≢◌, eq_iff, suc, if◌then◌else◌, arith, Bool-cases, subst, ap, sym, Fallible, not,
  bind-success, if_both, ◌==◌, reject, ◌&&◌, reject-success,
}
use wiregate.Operation.State.{State, eq-same_state, same_state, same_state-eq}
use wiregate.Operation.Step.{Failure}
use wiregate.Store.Tables.{OperationRow, Store, StoreError}
use wiregate.Store.Operations.{is_in, move_row, transition_operation, breaks_index}
use wiregate.Stdlib.Rows.{count_rows, update_rows, some_eq, any_row}

unfoldable pub state_of : String → List OperationRow → Option State
state_of id [] = none
state_of id (r ∷ rs) = let rest = state_of id rs in if str_eq r.id id then some r.state else rest

-- The key of the table: no two rows have one identifier.
unfoldable pub UniqueIds : List OperationRow → Type 0
UniqueIds [] = Unit
UniqueIds (r ∷ rs) = All (λ s. str_eq s.id r.id ≡ false) rs × UniqueIds rs

pub str_eq-eq : (s t : String) → str_eq s t ≡ true → s ≡ t
str_eq-eq s t h = (eq_iff s t).0 h

pub str_eq_refl : (s : String) → str_eq s s ≡ true
str_eq_refl s = (eq_iff s s).1 refl

count-absent :
    (id : String) (from : State) (rs : List OperationRow)
    → All (λ s. str_eq s.id id ≡ false) rs
    → count_rows (is_in id from) rs ≡ 0
unfolding is_in
count-absent id from [] all = refl
count-absent id from (r ∷ rs) all = rw all.0 (count-absent id from rs all.1)

-- One row that fits the update is the row of the identifier.
counted-state :
    (id : String) (from : State) (rs : List OperationRow)
    → UniqueIds rs
    → count_rows (is_in id from) rs ≡ 1
    → state_of id rs ≡ some from
unfolding is_in state_of UniqueIds
counted-state id from [] u h = absurd (omega arith)
counted-state id from (r ∷ rs) u h = elim (Bool-cases (str_eq r.id id)) [
  | inr e ↦ rw e (counted-state id from rs u.1 (rw e at h))
  | inl e ↦ elim (Bool-cases (same_state r.state from)) [
    | inl f ↦ rw e (ap some (same_state-eq r.state from f))
    | inr f ↦
        let gone : All (λ s. str_eq s.id id ≡ false) rs =
          subst (λ x. All (λ s. str_eq s.id x ≡ false) rs) (str_eq-eq r.id id e) u.0 in
        absurd (omega (arith, count-absent id from rs gone, rw f at (rw e at h)))
  ]
]

pub state-counted :
    (id : String) (from : State) (rs : List OperationRow)
    → UniqueIds rs
    → state_of id rs ≡ some from
    → count_rows (is_in id from) rs ≡ 1
unfolding is_in state_of UniqueIds
state-counted id from [] u h = cc
state-counted id from (r ∷ rs) u h = elim (Bool-cases (str_eq r.id id)) [
  | inr e ↦ rw e (state-counted id from rs u.1 (rw e at h))
  | inl e ↦
      let gone : All (λ s. str_eq s.id id ≡ false) rs =
        subst (λ x. All (λ s. str_eq s.id x ≡ false) rs) (str_eq-eq r.id id e) u.0 in
      rw e (
        rw (eq-same_state r.state from (some_eq r.state from (rw e at h)))
          (ap suc (count-absent id from rs gone)))
]

moved-state :
    (id : String) (from to : State) (failed : Option Failure) (now : ℕ) (rs : List OperationRow)
    → state_of id rs ≡ some from
    → state_of id (update_rows (is_in id from) (move_row to failed now) rs) ≡ some to
unfolding is_in state_of move_row
moved-state id from to failed now [] h = cc
moved-state id from to failed now (r ∷ rs) h = elim (Bool-cases (str_eq r.id id)) [
  | inr e ↦ rw e (rw e (moved-state id from to failed now rs (rw e at h)))
  | inl e ↦ rw (e, eq-same_state r.state from (some_eq r.state from (rw e at h))) (rw e refl)
]

other-state :
    (id other : String) (from to : State) (failed : Option Failure) (now : ℕ)
    (rs : List OperationRow)
    → str_eq id other ≡ false
    → state_of other (update_rows (is_in id from) (move_row to failed now) rs) ≡ state_of other rs
unfolding is_in state_of move_row
other-state id other from to failed now [] h = refl
other-state id other from to failed now (r ∷ rs) h = elim (Bool-cases (str_eq r.id id)) [
  | inr e ↦ rw e (
      ap (λ x. if str_eq r.id other then some r.state else x)
        (other-state id other from to failed now rs h))
  | inl e ↦
      let differs : str_eq r.id other ≡ false =
        subst (λ x. str_eq x other ≡ false) (sym (str_eq-eq r.id id e)) h in
      if_both
        (λ row.
          state_of other (row ∷ update_rows (is_in id from) (move_row to failed now) rs)
          ≡ state_of other (r ∷ rs))
        (is_in id from r) (move_row to failed now r) r
        (rw differs (other-state id other from to failed now rs h))
        (rw differs (other-state id other from to failed now rs h))
]

-- What a compare-and-set from a state to another does to the view.
pub record Sets (id : String) (from to : State) (before after : List OperationRow) : Type 0 where
  pub was : state_of id before ≡ some from
  pub is_now : state_of id after ≡ some to
  pub others : (other : String) → id ≢ other → state_of other after ≡ state_of other before

str_eq-ne : (s t : String) → s ≢ t → str_eq s t ≡ false
str_eq-ne s t h = elim (Bool-cases (str_eq s t)) [
  | inl e ↦ absurd (h (str_eq-eq s t e))
  | inr e ↦ e
]

one_of : (n : ℕ) → not (n == 1) ≡ false → n ≡ 1
one_of n h = ground arith

pub store_eq : (t u : Store) → ◌≡◌ {A = Fallible StoreError Store} (success t) (success u) → t ≡ u
store_eq t u h = cc

-- A transition of an operation that succeeds is a compare-and-set: its operation had the state it
-- comes from and has the state it goes to, every other operation has the state it had, and the
-- steps are as they were. Identifiers are a key.
pub transition_operation-Sets :
    (id : String) (from to : State) (failed : Option Failure) (now : ℕ) (s u : Store)
    → UniqueIds s.operations
    → transition_operation id from to failed now s ≡ success u
    → Sets id from to s.operations u.operations × (u.steps ≡ s.steps)
unfolding transition_operation
transition_operation-Sets id from to failed now s u unique h =
    let (_, _, h1) =
      bind-success
        (reject (any_row (is_in id from) s.operations && breaks_index id to s.operations)
          StoreError.constraint_failed)
        _ u h in
    let (_, counted, h2) =
      bind-success
        (reject (not (count_rows (is_in id from) s.operations == 1))
          (StoreError.state_conflict from))
        _ u h1 in
    let was : state_of id s.operations ≡ some from =
      counted-state id from s.operations unique (one_of _ (reject-success _ _ counted)) in
    subst (λ v. Sets id from to s.operations v.operations × (v.steps ≡ s.steps)) (store_eq _ u h2)
      (
        record {
          was = was;
          is_now = moved-state id from to failed now s.operations was;
          others = λ other ne.
              other-state id other from to failed now s.operations (str_eq-ne id other ne);
        },
        refl,
      )
