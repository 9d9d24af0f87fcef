-- ===== src/Web/Tables.antt =====
-- The tables of the web database (src/migrations/web/001_initial.sql) and what its repository
-- returns (src/internal/web/repository/auth.go). Times are in milliseconds; a NULL is none.
use wiregate.Prelude.{List, ℕ, Option, Bool}
use wiregate.Stdlib.Bytes.{Bytes, codes, same}

pub record UserRow : Type 0 where
  pub id : Bytes
  pub username : Bytes
  pub display_name : Bytes
  pub password_hash : Bytes
  pub role : Bytes
  pub status : Bytes
  pub failed_login_count : ℕ
  pub locked_until_ms : Option ℕ
  pub password_changed_ms : ℕ
  pub user_created_ms : ℕ
  pub updated_at_ms : ℕ

pub record SessionRow : Type 0 where
  pub id_hash : Bytes
  pub user_id : Bytes
  pub csrf_hash : Bytes
  pub reauth_until_ms : Option ℕ
  pub expires_at_ms : ℕ
  pub idle_expires_at_ms : ℕ
  pub last_seen_at_ms : ℕ
  pub created_at_ms : ℕ
  pub revoked_at_ms : Option ℕ

pub record BootstrapRow : Type 0 where
  pub token_hash : Bytes
  pub token_expires_ms : ℕ
  pub consumed_at_ms : Option ℕ
  pub token_created_ms : ℕ

pub record LoginEvent : Type 0 where
  pub event_id : Bytes
  pub event_user : Option Bytes
  pub username_normalized : Bytes
  pub result : Bytes
  pub source_ip : Option Bytes
  pub event_request : Bytes
  pub event_ms : ℕ

pub record AuditEvent : Type 0 where
  pub audit_id : Bytes
  pub actor_user_id : Option Bytes
  pub action : Bytes
  pub target_id : Bytes
  pub request_id : Bytes
  pub details : Option Bytes
  pub audit_ms : ℕ

pub record Tables : Type 0 where
  pub users : List UserRow
  pub sessions : List SessionRow
  pub bootstrap_state : Option BootstrapRow
  pub login_events : List LoginEvent
  pub audit_events : List AuditEvent

-- `constraint_failed` is the database's error for a key that is taken or a row that is not there.
pub data WebError : Type 0 where
  no_rows constraint_failed invalid_bootstrap_token bootstrap_closed user_fields_required : WebError
  user_locked session_unavailable user_unavailable admin_not_found admin_unavailable : WebError
  admin_fields_required unauthenticated forbidden invalid_login invalid_profile : WebError
  weak_password no_entropy : WebError

abbrev pub active : Bytes
active = codes "active"

-- `status = 'active'`
unfoldable pub is_active : UserRow → Bool
unfolding same
is_active u = same u.status active
