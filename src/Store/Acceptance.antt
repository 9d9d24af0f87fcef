-- ===== src/Store/Acceptance.antt =====
-- A transition of the table is never refused for an operation that has the state it comes from
-- (TransitionOperation of src/internal/agent/repository/operation_store.go).
use wiregate.Prelude.{
  List, ℕ, Option, String, Bool, str_eq, none, some, false, true, [], ◌∷◌, success, ◌≡◌, All, refl,
  inl, inr, ◌&&◌, not, Bool-cases, arith, ◌∙◌, sym, subst, ap,
}
use wiregate.Operation.State.{State, valid_operation_transition}
use wiregate.Operation.Step.{Failure}
use wiregate.Store.Tables.{OperationRow, Store, is_on, is_active}
use wiregate.Store.Consistent.{Consistent}
use wiregate.Store.Operations.{
  transition_operation, is_rival, breaks_index, transition_operation, is_in, move_row,
}
use wiregate.Store.Creation.{is_busy}
use wiregate.Store.Active.{clash_with, OneActive, clash, transition_activates_none}
use wiregate.Store.View.{state_of, str_eq_refl, str_eq-eq, state-counted}
use wiregate.Stdlib.Rows.{select_row, All-any_row, update_rows, some_eq, select_row-All, any_row}

third_false : (a b c : Bool) → b && c ≡ false → a && b && c ≡ false
third_false a b c h = ground arith

-- `is_rival` by the interface of the first row.
rival_on : Option String → OperationRow → OperationRow → Bool
rival_on none r s = false
rival_on (some i) r s = not (str_eq s.id r.id) && is_on i s && is_active s.state

is_rival-rival_on :
    (o : Option String) (r s : OperationRow) → r.interface_id ≡ o → is_rival r s ≡ rival_on o r s
unfolding is_rival rival_on
is_rival-rival_on none r s e = rw (e, is_rival) refl
is_rival-rival_on (some i) r s e = rw (e, is_rival) refl

rival_on-false :
    (o : Option String) (r s : OperationRow) → clash_with o s ≡ false → rival_on o r s ≡ false
unfolding clash_with rival_on is_busy
rival_on-false none r s h = refl
rival_on-false (some i) r s h =
    third_false (not (str_eq s.id r.id)) (is_on i s) (is_active s.state) h

rival_parts : (r s : OperationRow) → clash r s ≡ false → is_rival r s ≡ false
unfolding clash
rival_parts r s h = is_rival-rival_on r.interface_id r s refl ∙ rival_on-false r.interface_id r s h

rivals-after :
    (r : OperationRow) (rs : List OperationRow)
    → All (λ s. clash r s ≡ false) rs
    → All (λ s. is_rival r s ≡ false) rs
rivals-after r [] all = tt
rivals-after r (s ∷ rs) all = (rival_parts r s all.0, rivals-after r rs all.1)

-- An earlier row is no rival of an active row on its interface.
mirrored : (a b c d : Bool) → d ≡ true → (c ≡ true → b && d ≡ false) → a && b && c ≡ false
mirrored a b true d e h = ground (arith, h refl)
mirrored a b false d e h = ground arith

str_eq_comm : (s t : String) → str_eq s t ≡ str_eq t s
str_eq_comm s t = elim (Bool-cases (str_eq s t)) [
  | inl e ↦ e ∙ sym (subst (λ x. str_eq x s ≡ true) (str_eq-eq s t e) (str_eq_refl s))
  | inr e ↦ elim (Bool-cases (str_eq t s)) [
    | inl f ↦ subst (λ x. str_eq x t ≡ str_eq t x) (str_eq-eq t s f) refl
    | inr f ↦ e ∙ sym f
  ]
]

flipped : (k i : String) (r : OperationRow) → r.interface_id ≡ some i → is_on k r ≡ str_eq k i
flipped k i r e = rw e (str_eq_comm i k)

rival_on-before :
    (o p : Option String) (x r : OperationRow)
    → r.interface_id ≡ o
    → x.interface_id ≡ p
    → is_active r.state ≡ true
    → (is_active x.state ≡ true → clash_with p r ≡ false)
    → rival_on o r x ≡ false
unfolding rival_on clash_with is_busy
rival_on-before none p x r e f a h = refl
rival_on-before (some i) none x r e f a h = rw f (ground arith)
rival_on-before (some i) (some k) x r e f a h = rw f (
    mirrored (not (str_eq x.id r.id)) (str_eq k i) (is_active x.state) (is_active r.state) a
      (λ b. sym (ap (λ c. c && is_active r.state) (flipped k i r e)) ∙ h b))

rival-before :
    (x r : OperationRow)
    → is_active r.state ≡ true
    → (is_active x.state ≡ true → clash x r ≡ false)
    → is_rival r x ≡ false
unfolding clash
rival-before x r a h =
    is_rival-rival_on r.interface_id r x refl
    ∙ rival_on-before r.interface_id x.interface_id x r refl refl a h

self_rival_on : (o : Option String) (x : OperationRow) → rival_on o x x ≡ false
unfolding rival_on
self_rival_on none x = refl
self_rival_on (some i) x = rw (str_eq_refl x.id) refl

self_rival : (x : OperationRow) → is_rival x x ≡ false
self_rival x = is_rival-rival_on x.interface_id x x refl ∙ self_rival_on x.interface_id x

no_rival :
    (id : String) (rows : List OperationRow) (r : OperationRow)
    → OneActive rows
    → select_row (λ x. str_eq x.id id) rows ≡ some r
    → is_active r.state ≡ true
    → All (λ s. is_rival r s ≡ false) rows
unfolding OneActive
no_rival id [] r one h a = tt
no_rival id (x ∷ rows) r one h a = elim (Bool-cases (str_eq x.id id)) [
  | inl e ↦
      let same_row : x ≡ r = some_eq x r (rw e at h) in
      subst (λ y. All (λ s. is_rival y s ≡ false) (x ∷ rows)) same_row
        (
          self_rival x,
          rivals-after x rows (one.0 (subst (λ y. is_active y.state ≡ true) (sym same_row) a)),
        )
  | inr e ↦
      let later : select_row (λ y. str_eq y.id id) rows ≡ some r = rw e at h in
      (
        rival-before x r a (λ b.
            (select_row-All (λ y. str_eq y.id id) (λ y. clash x y ≡ false) rows r (one.0 b)
              later).1),
        no_rival id rows r one.1 later a,
      )
]

no_state : {x : State} → none ≡ some x → ⊥
no_state h = cc

row-of_state :
    (id : String) (from : State) (rows : List OperationRow)
    → state_of id rows ≡ some from
    → (r : OperationRow) × (select_row (λ x. str_eq x.id id) rows ≡ some r) × (r.state ≡ from)
unfolding state_of
row-of_state id from [] h = absurd (no_state h)
row-of_state id from (x ∷ rows) h = elim (Bool-cases (str_eq x.id id)) [
  | inl e ↦ (x, rw e refl, some_eq x.state from (rw e at h))
  | inr e ↦ let (r, f, g) = row-of_state id from rows (rw e at h) in (r, rw e f, g)
]

index-kept :
    (id : String) (from to : State) (rows : List OperationRow)
    → Consistent rows
    → valid_operation_transition from to ≡ true
    → state_of id rows ≡ some from
    → breaks_index id to rows ≡ false
unfolding breaks_index
index-kept id from to rows c v h =
    let (r, found, in_state) = row-of_state id from rows h in
    rw (found, breaks_index)
      (elim (Bool-cases (is_active to)) [
        | inr e ↦ rw e refl
        | inl e ↦ rw e (
            All-any_row (is_rival r) rows (
              no_rival id rows r c.one_active found (
                subst (λ x. is_active x ≡ true) (sym in_state)
                  (transition_activates_none from to v e))))
      ])

and_false : (a b : Bool) → b ≡ false → a && b ≡ false
and_false a b h = ground arith

-- In a table that keeps its constraints, a transition that the table of the engine has, from the
-- state that the operation has, succeeds: neither the compare-and-set nor the index of active
-- operations refuses it.
pub transition_operation_succeeds :
    (id : String) (from to : State) (failed : Option Failure) (now : ℕ) (s : Store)
    → Consistent s.operations
    → valid_operation_transition from to ≡ true
    → state_of id s.operations ≡ some from
    → (u : Store) × (transition_operation id from to failed now s ≡ success u)
unfolding transition_operation
transition_operation_succeeds id from to failed now s c v h =
    let kept : any_row (is_in id from) s.operations && breaks_index id to s.operations ≡ false =
      and_false _ _ (index-kept id from to s.operations c v h) in
    (
      record s { operations = update_rows (is_in id from) (move_row to failed now) s.operations },
      rw (kept, state-counted id from s.operations c.unique h) refl,
    )
