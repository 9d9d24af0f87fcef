-- ===== src/Web/Sessions.antt =====
-- The sessions of the web repository (src/internal/web/repository/auth.go): CreateSession,
-- GetSession, MarkReauthenticated, RevokeSession. A statement that fails leaves its table as it was;
-- so do errors of the database itself, which are left out.
use Prim.Native.Nat.{min}
use wiregate.Prelude.{
  none, some, ℕ, Bool, Option, Fallible, success, failure, ◌>>=◌, reject, true, false, ◌&&◌, ltb,
  not, ◌++◌, ◌==◌, ◌∷◌, [], ◌+◌,
}
use wiregate.Stdlib.Bytes.{Bytes, same}
use wiregate.Web.Tables.{UserRow, SessionRow, Tables, WebError, is_active}
use wiregate.Stdlib.Rows.{select_row, update_rows, count_rows, any_row}

-- `Session` with its `User`.
pub record Session : Type 0 where
  pub user : UserRow
  pub session_csrf : Bytes
  pub reauth_until : Option ℕ

-- `revoked_at_ms IS NULL`
abbrev pub is_null : Option ℕ → Bool
is_null none = true
is_null (some n) = false

-- `30 * time.Minute`
abbrev pub idle_ms : ℕ
idle_ms = 1800000

unfoldable pub create_session :
    Bytes → Bytes → Bytes → ℕ → ℕ → ℕ → Tables → Fallible WebError Tables
unfolding same
create_session user_id id_hash csrf_hash expires_at idle_expires_at now t = do
  _ ← reject (any_row (λ s. same s.id_hash id_hash) t.sessions) WebError.constraint_failed
  _ ← reject (not (any_row (λ u. same u.id user_id) t.users)) WebError.constraint_failed
  success (record t {
    sessions =
        t.sessions
        ++ ((record {
          id_hash = id_hash;
          user_id = user_id;
          csrf_hash = csrf_hash;
          reauth_until_ms = none;
          expires_at_ms = expires_at;
          idle_expires_at_ms = idle_expires_at;
          last_seen_at_ms = now;
          created_at_ms = now;
          revoked_at_ms = none;
        })
            ∷ []);
  })

-- The condition on the session of GetSession's query.
unfoldable pub is_live : Bytes → ℕ → SessionRow → Bool
unfolding same
is_live id_hash now s =
    same s.id_hash id_hash
    && is_null s.revoked_at_ms
    && ltb now s.expires_at_ms
    && ltb now s.idle_expires_at_ms

-- The condition on the user that it joins.
unfoldable pub is_owner : SessionRow → UserRow → Bool
unfolding same is_active
is_owner s u = same u.id s.user_id && is_active u

-- `locked.Valid && locked.Int64 > now`
abbrev pub is_locked : Option ℕ → ℕ → Bool
is_locked none now = false
is_locked (some until) now = ltb now until

-- A session in use stays for thirty minutes more, within its end.
unfoldable pub touch : Bytes → ℕ → Tables → Tables
unfolding same
touch id_hash now t = record t {
  sessions =
      update_rows (λ s. same s.id_hash id_hash)
        (λ s. record s {
          last_seen_at_ms = now;
          idle_expires_at_ms = min s.expires_at_ms (now + idle_ms);
        })
        t.sessions;
}

unfoldable pub found :
    Bytes → ℕ → SessionRow → UserRow → Tables → Fallible WebError (Session × Tables)
unfolding touch
found id_hash now s u t = do
  _ ← reject (is_locked u.locked_until_ms now) WebError.user_locked
  success (
    record { user = u; session_csrf = s.csrf_hash; reauth_until = s.reauth_until_ms },
    touch id_hash now t,
  )

-- The hash is the key of its table, so at most one session meets the condition.
unfoldable pub get_session : Bytes → ℕ → Tables → Fallible WebError (Session × Tables)
unfolding is_live is_owner found
get_session id_hash now t = elim (select_row (is_live id_hash now) t.sessions) [
  | none ↦ failure WebError.no_rows
  | some s ↦ elim (select_row (is_owner s) t.users) [
    | none ↦ failure WebError.no_rows
    | some u ↦ found id_hash now s u t
  ]
]

-- The condition of the two updates below.
unfoldable pub is_open : Bytes → SessionRow → Bool
unfolding same
is_open id_hash s = same s.id_hash id_hash && is_null s.revoked_at_ms

unfoldable pub mark_reauthenticated : Bytes → ℕ → Tables → Fallible WebError Tables
unfolding is_open
mark_reauthenticated id_hash until t = do
  _ ← reject (not (count_rows (is_open id_hash) t.sessions == 1)) WebError.session_unavailable
  success (record t {
    sessions =
        update_rows (is_open id_hash) (λ s. record s { reauth_until_ms = some until }) t.sessions;
  })

unfoldable pub revoke_session : Bytes → ℕ → Tables → Tables
unfolding is_open
revoke_session id_hash now t = record t {
  sessions = update_rows (is_open id_hash) (λ s. record s { revoked_at_ms = some now }) t.sessions;
}
