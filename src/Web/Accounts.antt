-- ===== src/Web/Accounts.antt =====
-- The accounts of the web repository (src/internal/web/repository/auth.go): the bootstrap of the
-- first administrator, login events with their lock, and the changes of a password. Identifiers
-- that the source draws are arguments. Each function is one transaction, which an error undoes.
use wiregate.Prelude.{
  none, some, ℕ, Bool, Option, Fallible, success, failure, ◌>>=◌, reject, [], ◌∷◌, false, not, ◌+◌,
  length, if◌then◌else◌, leb, ◌==◌, ◌||◌, ◌&&◌, ltb, ◌++◌,
}
use wiregate.Stdlib.Bytes.{Bytes, codes, trim_space, same, to_lower}
use wiregate.Web.Tables.{UserRow, SessionRow, BootstrapRow, Tables, WebError, active, is_active}
use wiregate.Web.Sessions.{is_open, is_null}
use wiregate.Stdlib.Rows.{select_row, update_rows, count_rows, any_row}

unfoldable pub bootstrap_required : Tables → Bool
bootstrap_required t = length t.users == 0

unfoldable pub set_bootstrap_token : Bytes → ℕ → ℕ → Tables → Fallible WebError Tables
set_bootstrap_token token expires_at now t = do
  _ ← reject (not (length token == 32) || not (ltb now expires_at)) WebError.invalid_bootstrap_token
  _ ← reject (not (length t.users == 0)) WebError.bootstrap_closed
  success (record t {
    bootstrap_state = some (record {
      token_hash = token;
      token_expires_ms = expires_at;
      consumed_at_ms = none;
      token_created_ms = now;
    });
  })

-- The row's token is not consumed, not expired, and the one presented.
unfoldable pub accepts_token : Bytes → ℕ → Option BootstrapRow → Bool
unfolding same
accepts_token token now none = false
accepts_token token now (some b) =
    is_null b.consumed_at_ms && ltb now b.token_expires_ms && same b.token_hash token

abbrev consume : ℕ → Option BootstrapRow → Option BootstrapRow
consume now none = none
consume now (some b) =
    some (if is_null b.consumed_at_ms then record b { consumed_at_ms = some now } else b)

abbrev new_admin : Bytes → Bytes → Bytes → Bytes → ℕ → UserRow
new_admin id username display_name password_hash now = record {
  id = id;
  username = username;
  display_name = display_name;
  password_hash = password_hash;
  role = codes "admin";
  status = active;
  failed_login_count = 0;
  locked_until_ms = none;
  password_changed_ms = now;
  user_created_ms = now;
  updated_at_ms = now;
}

unfoldable pub bootstrap_admin :
    Bytes
    → Bytes
    → Bytes
    → Bytes
    → Bytes
    → ℕ
    → Bytes
    → Bytes
    → Tables
    → Fallible WebError (UserRow × Tables)
unfolding same accepts_token
bootstrap_admin token username display_name password_hash request now id audit t = do
  _ ←
      reject (same username [] || same display_name [] || same password_hash [])
        WebError.user_fields_required
  _ ← reject (not (length t.users == 0)) WebError.bootstrap_closed
  _ ← reject (not (accepts_token token now t.bootstrap_state)) WebError.invalid_bootstrap_token
  _ ← reject (any_row (λ e. same e.audit_id audit) t.audit_events) WebError.constraint_failed
  success (
    new_admin id username display_name password_hash now,
    record t {
      users = t.users ++ (new_admin id username display_name password_hash now ∷ []);
      bootstrap_state = consume now t.bootstrap_state;
      audit_events =
          t.audit_events
          ++ ((record {
            audit_id = audit;
            actor_user_id = some id;
            action = codes "bootstrap_admin";
            target_id = id;
            request_id = request;
            details = none;
            audit_ms = now;
          })
              ∷ []);
    },
  )

-- `username = ? COLLATE NOCASE`
unfoldable pub is_named : Bytes → UserRow → Bool
unfolding same to_lower
is_named username u = same (to_lower u.username) (to_lower username)

unfoldable pub find_user : Bytes → Tables → Option UserRow
unfolding is_named trim_space
find_user username t = select_row (is_named (trim_space username)) t.users

unfoldable pub insert_login_event :
    Bytes → Option Bytes → Bytes → Bytes → Bytes → Bytes → ℕ → Tables → Fallible WebError Tables
unfolding same to_lower
insert_login_event id user username result ip request now t = do
  _ ← reject (any_row (λ e. same e.event_id id) t.login_events) WebError.constraint_failed
  success (record t {
    login_events =
        t.login_events
        ++ ((record {
          event_id = id;
          event_user = user;
          username_normalized = to_lower username;
          result = result;
          source_ip = if same ip [] then none else some ip;
          event_request = request;
          event_ms = now;
        })
            ∷ []);
  })

-- The fifth failure in a row locks the account for fifteen minutes.
unfoldable pub count_failure : ℕ → UserRow → UserRow
count_failure now u = record u {
  failed_login_count = u.failed_login_count + 1;
  locked_until_ms =
      if leb 5 (u.failed_login_count + 1) then some (now + 900000) else u.locked_until_ms;
  updated_at_ms = now;
}

unfoldable pub clear_failures : ℕ → UserRow → UserRow
clear_failures now u = record u {
  failed_login_count = 0;
  locked_until_ms = none;
  updated_at_ms = now;
}

-- Change the user of an id.
unfoldable pub with_user : Bytes → (UserRow → UserRow) → Tables → Tables
unfolding same
with_user id f t = record t { users = update_rows (λ u. same u.id id) f t.users }

unfoldable pub record_login_failure :
    Bytes → Bytes → Bytes → ℕ → Bytes → Tables → Fallible WebError Tables
unfolding is_named insert_login_event count_failure with_user
record_login_failure username request ip now event t =
    elim (select_row (is_named username) t.users) [
      | none ↦ insert_login_event event none username (codes "failure") ip request now t
      | some u ↦
          insert_login_event event (some u.id) username (codes "failure") ip request now
            (with_user u.id (count_failure now) t)
    ]

unfoldable pub record_login_success :
    Bytes → Bytes → Bytes → Bytes → ℕ → Bytes → Tables → Fallible WebError Tables
unfolding insert_login_event clear_failures with_user
record_login_success user_id username request ip now event t =
    insert_login_event event (some user_id) username (codes "success") ip request now
      (with_user user_id (clear_failures now) t)

-- `id = ? AND status = 'active'`
unfoldable pub is_active_id : Bytes → UserRow → Bool
unfolding same is_active
is_active_id id u = same u.id id && is_active u

-- `user_id = ? AND id_hash <> ? AND revoked_at_ms IS NULL`
unfoldable pub is_other_open : Bytes → Bytes → SessionRow → Bool
unfolding same
is_other_open user_id current s =
    same s.user_id user_id && not (same s.id_hash current) && is_null s.revoked_at_ms

abbrev pub revoke : ℕ → SessionRow → SessionRow
revoke now s = record s { revoked_at_ms = some now }

-- The current session counts as recently authenticated for five minutes.
unfoldable pub change_password : Bytes → Bytes → Bytes → ℕ → Tables → Fallible WebError Tables
unfolding is_active_id is_other_open is_open
change_password user_id current hash now t = do
  _ ← reject (not (count_rows (is_active_id user_id) t.users == 1)) WebError.user_unavailable
  success (record t {
    users =
        update_rows (is_active_id user_id)
          (λ u. record u { password_hash = hash; password_changed_ms = now; updated_at_ms = now })
          t.users;
    sessions =
        update_rows (is_open current) (λ s. record s { reauth_until_ms = some (now + 300000) })
          (update_rows (is_other_open user_id current) (revoke now) t.sessions);
  })

unfoldable pub is_named_admin : Bytes → UserRow → Bool
unfolding is_named same
is_named_admin username u = is_named username u && same u.role (codes "admin")

unfoldable pub is_admin_id : Bytes → UserRow → Bool
unfolding same
is_admin_id id u = same u.id id && same u.role (codes "admin")

abbrev pub recover_account : Bytes → ℕ → UserRow → UserRow
recover_account hash now u = record u {
  password_hash = hash;
  status = active;
  failed_login_count = 0;
  locked_until_ms = none;
  password_changed_ms = now;
  updated_at_ms = now;
}

-- `user_id = ? AND revoked_at_ms IS NULL`
unfoldable pub is_open_of : Bytes → SessionRow → Bool
unfolding same
is_open_of user_id s = same s.user_id user_id && is_null s.revoked_at_ms

unfoldable pub reset_user :
    Bytes → ℕ → Bytes → UserRow → Tables → Fallible WebError (Bytes × Tables)
unfolding is_admin_id is_open_of same
reset_user hash now audit admin t = do
  _ ← reject (not (count_rows (is_admin_id admin.id) t.users == 1)) WebError.admin_unavailable
  _ ← reject (any_row (λ e. same e.audit_id audit) t.audit_events) WebError.constraint_failed
  success (
    admin.username,
    record t {
      users = update_rows (is_admin_id admin.id) (recover_account hash now) t.users;
      sessions = update_rows (is_open_of admin.id) (revoke now) t.sessions;
      audit_events =
          t.audit_events
          ++ ((record {
            audit_id = audit;
            actor_user_id = none;
            action = codes "reset_admin_password_cli";
            target_id = admin.id;
            request_id = codes "cli-" ++ audit;
            details = some (codes "physical host recovery");
            audit_ms = now;
          })
              ∷ []);
    },
  )

unfoldable pub reset_admin_password :
    Bytes → Bytes → ℕ → Bytes → Tables → Fallible WebError (Bytes × Tables)
unfolding trim_space same is_named_admin reset_user
reset_admin_password username hash now audit t =
    if same (trim_space username) [] || same hash []
    then failure WebError.admin_fields_required
    else (elim (select_row (is_named_admin (trim_space username)) t.users) [
      | none ↦ failure WebError.admin_not_found
      | some admin ↦ reset_user hash now audit admin t
    ])
