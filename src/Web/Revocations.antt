-- ===== src/Web/Revocations.antt =====
-- A change of a password ends the other sessions (ChangePassword of
-- src/internal/web/repository/auth.go).
use wiregate.Prelude.{
  ◌≡◌, success, ℕ, refl, true, false, Bool, inl, inr, ◌⊎◌, ◌&&◌, if◌then◌else◌, All, not, arith,
  bind-success, reject, subst, ◌==◌, sym, ◌∙◌, ap, Bool-cases,
}
use wiregate.Stdlib.Bytes.{Bytes, same}
use wiregate.Web.Tables.{SessionRow, Tables, WebError}
use wiregate.Web.Sessions.{Session, is_null, get_session, is_live, is_open}
use wiregate.Web.Accounts.{is_other_open, change_password, revoke, is_active_id}
use wiregate.Web.Lookup.{get_session-Found}
use wiregate.Stdlib.Rows.{
  select_row-All, count_rows, update_rows-All, update_rows, update_rows-every,
}
use wiregate.Stdlib.Same.{same_refl, same-eq}
use wiregate.Web.Grants.{live_parts, owner_parts, select_row-true}
use wiregate.Web.Moves.{success_eq}

-- A session of the user that is not the current one is revoked.
IsOnlyOpen : Bytes → Bytes → SessionRow → Type 0
IsOnlyOpen user current s =
    s.user_id ≡ user → same s.id_hash current ≡ false → is_null s.revoked_at_ms ≡ false

other : (a b c : Bool) → a ≡ true → b ≡ false → a && not b && c ≡ false → c ≡ false
other a b c p q h = ground arith

both : (b : Bool) → b ≡ true → b ≡ false → ⊥
both b p q = cc

only_open :
    (user current : Bytes) (s : SessionRow)
    → IsOnlyOpen user current s
    → s.user_id ≡ user
    → same s.id_hash current ≡ false
    → is_null s.revoked_at_ms ≡ false
unfolding IsOnlyOpen
only_open user current s h = h

revoke-IsOnlyOpen :
    (user current : Bytes) (now : ℕ) (s : SessionRow)
    → (is_other_open user current s ≡ true) ⊎ (is_other_open user current s ≡ false)
    → IsOnlyOpen user current (if is_other_open user current s then revoke now s else s)
unfolding is_other_open IsOnlyOpen
revoke-IsOnlyOpen user current now s (inl e) = rw e (λ h k. refl)
revoke-IsOnlyOpen user current now s (inr e) = rw e (λ h k.
    other (same s.user_id user) (same s.id_hash current) (is_null s.revoked_at_ms)
      (subst (λ x. same s.user_id x ≡ true) h (same_refl s.user_id)) k e)

changed_sessions :
    (user current hash : Bytes) (now : ℕ) (t u : Tables)
    → change_password user current hash now t ≡ success u
    → All (IsOnlyOpen user current) u.sessions
unfolding change_password IsOnlyOpen
changed_sessions user current hash now t u h =
    let (_, _, h1) =
      bind-success
        (reject (not (count_rows (is_active_id user) t.users == 1)) WebError.user_unavailable) _ u
        h in
    subst (λ v. All (IsOnlyOpen user current) v.sessions) (success_eq _ u h1)
      (update_rows-All (is_open current) _ (IsOnlyOpen user current)
        (update_rows (is_other_open user current) (revoke now) t.sessions) (λ s o q. q)
        (update_rows-every (is_other_open user current) (revoke now) (IsOnlyOpen user current)
          t.sessions
          (λ s. revoke-IsOnlyOpen user current now s (Bool-cases (is_other_open user current s)))))

-- After a change of a user's password, the only session of that user that a lookup finds is the one
-- that made the change.
pub change_password_revokes :
    (user current hash : Bytes) (now : ℕ) (t u : Tables) (other : Bytes) (later : ℕ) (x : Session)
    (v : Tables)
    → change_password user current hash now t ≡ success u
    → get_session other later u ≡ success (x, v)
    → x.user.id ≡ user
    → other ≡ current
change_password_revokes user current hash now t u other later x v h g e =
    let f = get_session-Found other later u x v g in
    let (live, only) =
      select_row-All (is_live other later) (IsOnlyOpen user current) u.sessions f.row
        (changed_sessions user current hash now t u h) f.row_found in
    let (is_other, open_row, _, _) = live_parts other later f.row live in
    let (owned, _) = owner_parts f.row f.owner (select_row-true _ u.users f.owner f.owner_found) in
    let of_user : f.row.user_id ≡ user =
      sym owned ∙ (sym (ap (λ (y : Session). y.user.id) f.seen) ∙ e) in
    elim (Bool-cases (same f.row.id_hash current)) [
      | inl eq ↦ sym is_other ∙ same-eq f.row.id_hash current eq
      | inr ne ↦ absurd (
          both (is_null f.row.revoked_at_ms) open_row
            (only_open user current f.row only of_user ne))
    ]
