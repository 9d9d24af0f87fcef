-- ===== src/Web/AccountMoves.antt =====
-- How the operations on accounts change the web database (src/internal/web/repository/auth.go).
use wiregate.Prelude.{
  [], ◌∷◌, refl, ℕ, Bool, Option, ◌≡◌, true, false, success, inl, inr, not, length, Fallible,
  bind-success, ◌==◌, arith, Bool-cases, reject, ◌++◌, Option-cases, ap, ◌||◌, ltb, reject-success,
  subst,
}
use wiregate.Stdlib.Bytes.{Bytes, same, trim_space}
use wiregate.Web.Tables.{UserRow, Tables, WebError}
use wiregate.Web.Evolution.{changes, stays}
use wiregate.Web.Accounts.{
  reset_admin_password, insert_login_event, record_login_success, reset_user, record_login_failure,
  with_user, set_bootstrap_token, bootstrap_admin, accepts_token, is_open_of, clear_failures,
  is_named, is_admin_id, is_named_admin, count_failure, recover_account,
}
use wiregate.Web.Moves.{
  Moves, Moves-trans, same-Moves, length-update_rows, length-append, success_eq, revoke-Change,
  and_right,
}
use wiregate.Stdlib.Rows.{any_row, select_row, count_rows}
use wiregate.Web.Sessions.{is_null}

pub insert_login_event-Moves :
    (id : Bytes) (user : Option Bytes) (name result ip request : Bytes) (now : ℕ) (t u : Tables)
    → insert_login_event id user name result ip request now t ≡ success u
    → Moves t u
unfolding insert_login_event
insert_login_event-Moves id user name result ip request now t u h =
    let (_, _, h1) =
      bind-success
        (reject (any_row (λ e. same e.event_id id) t.login_events) WebError.constraint_failed) _ u
        h in
    subst (Moves t) (success_eq _ u h1) (same-Moves t _ refl (omega arith))

with_user-Moves : (id : Bytes) (f : UserRow → UserRow) (t : Tables) → Moves t (with_user id f t)
unfolding with_user
with_user-Moves id f t =
    same-Moves t _ refl
      (omega (arith, length-update_rows (λ (w : UserRow). same w.id id) f t.users))

pub record_login_failure-Moves :
    (name request ip : Bytes) (now : ℕ) (event : Bytes) (t u : Tables)
    → record_login_failure name request ip now event t ≡ success u
    → Moves t u
unfolding record_login_failure
record_login_failure-Moves name request ip now event t u h =
    elim (Option-cases (select_row (is_named name) t.users)) [
      | inl e ↦ insert_login_event-Moves _ _ _ _ _ _ _ t u (rw (e, record_login_failure) at h)
      | inr (w, e) ↦
          Moves-trans t (with_user w.id (count_failure now) t) u
            (with_user-Moves w.id (count_failure now) t)
            (insert_login_event-Moves _ _ _ _ _ _ _ _ u (rw (e, record_login_failure) at h))
    ]

pub record_login_success-Moves :
    (user name request ip : Bytes) (now : ℕ) (event : Bytes) (t u : Tables)
    → record_login_success user name request ip now event t ≡ success u
    → Moves t u
unfolding record_login_success
record_login_success-Moves user name request ip now event t u h =
    Moves-trans t (with_user user (clear_failures now) t) u
      (with_user-Moves user (clear_failures now) t) (insert_login_event-Moves _ _ _ _ _ _ _ _ u h)

pub set_bootstrap_token-Moves :
    (token : Bytes) (expires now : ℕ) (t u : Tables)
    → set_bootstrap_token token expires now t ≡ success u
    → Moves t u
unfolding set_bootstrap_token
set_bootstrap_token-Moves token expires now t u h =
    let (_, _, h1) =
      bind-success
        (reject (not (length token == 32) || not (ltb now expires))
          WebError.invalid_bootstrap_token)
        _ u h in
    let (_, _, h2) =
      bind-success (reject (not (length t.users == 0)) WebError.bootstrap_closed) _ u h1 in
    subst (Moves t) (success_eq _ u h2) (same-Moves t _ refl (omega arith))

zero_of : (n : ℕ) → not (n == 0) ≡ false → n ≡ 0
zero_of n h = ground arith

pub accepted_of : (b : Bool) → not b ≡ false → b ≡ true
accepted_of b h = ground arith

-- A bootstrap that succeeds found no user, and a token that it accepts.
pub record Bootstrapped (token : Bytes) (now : ℕ) (t : Tables) (admin : UserRow) (u : Tables)
    : Type 0 where
  pub none_before : length t.users ≡ 0
  pub token_accepted : accepts_token token now t.bootstrap_state ≡ true
  pub admin_added : u.users ≡ t.users ++ admin ∷ []
  pub sessions_same : u.sessions ≡ t.sessions

pub pair_eq :
    {A : Type 0} (a b : A) (t u : Tables)
    → ◌≡◌ {A = Fallible WebError (A × Tables)} (success (a, t)) (success (b, u))
    → (a ≡ b) × (t ≡ u)
pair_eq a b t u h = (cc, cc)

pub bootstrap_admin-Bootstrapped :
    (token name display hash request : Bytes) (now : ℕ) (id audit : Bytes) (t : Tables)
    (admin : UserRow) (u : Tables)
    → bootstrap_admin token name display hash request now id audit t ≡ success (admin, u)
    → Bootstrapped token now t admin u
unfolding bootstrap_admin
bootstrap_admin-Bootstrapped token name display hash request now id audit t admin u h =
    let (_, _, h1) =
      bind-success
        (reject (same name [] || same display [] || same hash []) WebError.user_fields_required) _
        (admin, u) h in
    let (_, empty, h2) =
      bind-success (reject (not (length t.users == 0)) WebError.bootstrap_closed) _ (admin, u) h1 in
    let (_, accepted, h3) =
      bind-success
        (reject (not (accepts_token token now t.bootstrap_state)) WebError.invalid_bootstrap_token)
        _ (admin, u) h2 in
    let (_, _, h4) =
      bind-success
        (reject (any_row (λ e. same e.audit_id audit) t.audit_events) WebError.constraint_failed) _
        (admin, u) h3 in
    let (e, f) = pair_eq _ admin _ u h4 in
    record {
      none_before = zero_of (length t.users) (reject-success _ _ empty);
      token_accepted =
          accepted_of (accepts_token token now t.bootstrap_state) (reject-success _ _ accepted);
      admin_added = subst (λ v. v.users ≡ t.users ++ admin ∷ []) f (ap (λ a. t.users ++ a ∷ []) e);
      sessions_same = subst (λ v. v.sessions ≡ t.sessions) f refl;
    }

pub Bootstrapped-Moves :
    (token : Bytes) (now : ℕ) (t : Tables) (admin : UserRow) (u : Tables)
    → Bootstrapped token now t admin u
    → Moves t u
Bootstrapped-Moves token now t admin u b =
    same-Moves t u b.sessions_same
      (omega (arith, ap (length {A = UserRow}) b.admin_added, length-append t.users (admin ∷ [])))

reset_user-Moves :
    (hash : Bytes) (now : ℕ) (audit : Bytes) (admin : UserRow) (t : Tables) (name : Bytes)
    (u : Tables)
    → reset_user hash now audit admin t ≡ success (name, u)
    → Moves t u
unfolding reset_user is_open_of
reset_user-Moves hash now audit admin t name u h =
    let (_, _, h1) =
      bind-success
        (reject (not (count_rows (is_admin_id admin.id) t.users == 1)) WebError.admin_unavailable) _
        (name, u) h in
    let (_, _, h2) =
      bind-success
        (reject (any_row (λ e. same e.audit_id audit) t.audit_events) WebError.constraint_failed) _
        (name, u) h1 in
    subst (Moves t) (pair_eq _ name _ u h2).1 (record {
      sessions_evolve = changes t.sessions _ _ stays (λ s o.
          revoke-Change now s (and_right (same s.user_id admin.id) (is_null s.revoked_at_ms) o));
      users_stay =
          omega
            (arith, length-update_rows (is_admin_id admin.id) (recover_account hash now) t.users);
    })

pub reset_admin_password-Moves :
    (name hash : Bytes) (now : ℕ) (audit : Bytes) (t : Tables) (stored : Bytes) (u : Tables)
    → reset_admin_password name hash now audit t ≡ success (stored, u)
    → Moves t u
unfolding reset_admin_password
reset_admin_password-Moves name hash now audit t stored u h =
    elim (Bool-cases (same (trim_space name) [] || same hash [])) [
      | inl e ↦ cc (rw e at h)
      | inr e ↦ elim (Option-cases (select_row (is_named_admin (trim_space name)) t.users)) [
        | inl f ↦ cc (rw (f, reset_admin_password) at (rw e at h))
        | inr (w, f) ↦
            reset_user-Moves hash now audit w t stored u
              (rw (f, reset_admin_password) at (rw e at h))
      ]
    ]
