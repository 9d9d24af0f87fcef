-- ===== src/Store/Active.antt =====
-- An interface has one active operation at most (CreateOperation and TransitionOperation of
-- src/internal/agent/repository/operation_store.go).
use wiregate.Prelude.{
  List, Option, String, Bool, str_eq, none, some, false, true, [], ◌∷◌, ◌≡◌, All, refl, inl, inr,
  if◌then◌else◌, Bool-cases, sym, ◌&&◌, ap, ◌∙◌,
}
use wiregate.Operation.State.{State, valid_operation_transition}
use wiregate.Store.Tables.{OperationRow, is_active, is_on}
use wiregate.Store.Creation.{is_busy}
use wiregate.Stdlib.Rows.{update_rows}

unfoldable pub clash_with : Option String → OperationRow → Bool
clash_with none s = false
clash_with (some i) s = is_busy i s

-- The second operation is active, on the interface of the first.
unfoldable pub clash : OperationRow → OperationRow → Bool
unfolding clash_with
clash r s = clash_with r.interface_id s

unfoldable pub OneActive : List OperationRow → Type 0
OneActive [] = Unit
OneActive (r ∷ rs) = (is_active r.state ≡ true → All (λ s. clash r s ≡ false) rs) × OneActive rs

-- An update that keeps the interface of a row and activates none.
pub record Calms (r r' : OperationRow) : Type 0 where
  pub same_interface : r'.interface_id ≡ r.interface_id
  pub not_activated : is_active r'.state ≡ true → is_active r.state ≡ true

Calms-refl : (r : OperationRow) → Calms r r
Calms-refl r = record { same_interface = refl; not_activated = λ h. h }

fewer : (a b c : Bool) → (c ≡ true → b ≡ true) → a && b ≡ false → a && c ≡ false
fewer false b c h e = refl
fewer true true c h e = cc
fewer true false true h e = cc (h refl)
fewer true false false h e = refl

is_on-Calms : (i : String) (s s' : OperationRow) → Calms s s' → is_on i s' ≡ is_on i s
is_on-Calms i s s' c = ap (λ o. elim o [ none ↦ false | some j ↦ str_eq j i ]) c.same_interface

busy-Calms :
    (o : Option String) (s s' : OperationRow)
    → Calms s s'
    → clash_with o s ≡ false
    → clash_with o s' ≡ false
unfolding clash_with is_busy
busy-Calms none s s' c h = refl
busy-Calms (some i) s s' c h =
    ap (λ b. b && is_active s'.state) (is_on-Calms i s s' c)
    ∙ fewer (is_on i s) (is_active s.state) (is_active s'.state) c.not_activated h

Calms-clash :
    (r r' s s' : OperationRow) → Calms r r' → Calms s s' → clash r s ≡ false → clash r' s' ≡ false
unfolding clash
Calms-clash r r' s s' p q h =
    sym (ap (λ o. clash_with o s') (sym p.same_interface)) ∙ busy-Calms r.interface_id s s' q h

updated-Calms :
    (p : OperationRow → Bool) (f : OperationRow → OperationRow) (r : OperationRow)
    → ((x : OperationRow) → p x ≡ true → Calms x (f x))
    → Calms r (if p r then f r else r)
updated-Calms p f r keep = elim (Bool-cases (p r)) [
  | inl e ↦ rw e (keep r e)
  | inr e ↦ rw e (Calms-refl r)
]

clash-update :
    (p : OperationRow → Bool) (f : OperationRow → OperationRow) (r r' : OperationRow)
    (rs : List OperationRow)
    → ((x : OperationRow) → p x ≡ true → Calms x (f x))
    → Calms r r'
    → All (λ s. clash r s ≡ false) rs
    → All (λ s. clash r' s ≡ false) (update_rows p f rs)
clash-update p f r r' [] keep c all = tt
clash-update p f r r' (s ∷ rs) keep c all =
    (Calms-clash r r' s _ c (updated-Calms p f s keep) all.0, clash-update p f r r' rs keep c all.1)

pub update_rows-OneActive :
    (p : OperationRow → Bool) (f : OperationRow → OperationRow) (rs : List OperationRow)
    → ((x : OperationRow) → p x ≡ true → Calms x (f x))
    → OneActive rs
    → OneActive (update_rows p f rs)
unfolding OneActive
update_rows-OneActive p f [] keep h = tt
update_rows-OneActive p f (r ∷ rs) keep h =
    let c = updated-Calms p f r keep in
    (
      λ a. clash-update p f r _ rs keep c (h.0 (c.not_activated a)),
      update_rows-OneActive p f rs keep h.1,
    )

-- The table of transitions activates no operation that was not active.
pub transition_activates_none :
    (from to : State)
    → valid_operation_transition from to ≡ true
    → is_active to ≡ true
    → is_active from ≡ true
unfolding valid_operation_transition is_active
transition_activates_none State.committed to v a = cc
transition_activates_none State.rolled_back to v a = cc
transition_activates_none State.rejected to v a = cc
transition_activates_none State.expired to v a = cc
transition_activates_none State.pending to v a = refl
transition_activates_none State.validated to v a = refl
transition_activates_none State.snapshotted to v a = refl
transition_activates_none State.executing to v a = refl
transition_activates_none State.verifying to v a = refl
transition_activates_none State.rolling_back to v a = refl
transition_activates_none State.rollback_failed to v a = refl
