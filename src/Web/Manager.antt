-- ===== src/Web/Manager.antt =====
-- The manager of authentication (src/internal/web/auth/manager.go). The tables come back beside an
-- error too: a refused login is recorded. The hash of a token and the key derivation are
-- parameters, and random tokens, salts and identifiers are arguments.
use wiregate.Prelude.{
  none, some, ℕ, Bool, Option, Fallible, success, failure, ◌>>=◌, reject, [], ◌∷◌, true, false, leb,
  not, ◌||◌, ◌&&◌, ◌==◌, if◌then◌else◌, length, ◌++◌, ◌+◌, ltb,
}
use wiregate.Stdlib.Bytes.{Bytes, codes, same, trim_space}
use wiregate.Web.Tables.{UserRow, Tables, WebError, is_active}
use wiregate.Web.Sessions.{
  Session, get_session, create_session, revoke_session, is_locked, mark_reauthenticated, idle_ms,
}
use wiregate.Web.Passwords.{Kdf, verify_password, hash_password}
use wiregate.Web.Accounts.{
  record_login_failure, find_user, record_login_success, change_password, bootstrap_admin,
}
use wiregate.Web.Roles.{allowed}

pub record Crypto : Type 0 where
  pub hash_token : Bytes → Bytes
  pub kdf : Kdf

pub record Principal : Type 0 where
  pub principal_user : UserRow
  pub session_hash : Bytes
  pub csrf : Bytes
  pub reauth : Option ℕ

-- What the manager reads of an HTTP request; a missing header or cookie is empty.
pub record Request : Type 0 where
  pub cookie : Bytes
  pub csrf_token : Bytes
  pub origin : Bytes
  pub tls : Bool
  pub host : Bytes

is_alphanumeric : ℕ → Bool
is_alphanumeric c = (leb 65 c && leb c 90) || (leb 97 c && leb c 122) || (leb 48 c && leb c 57)

all_name_characters : Bytes → Bool
unfolding is_alphanumeric
all_name_characters [] = true
all_name_characters (c ∷ s) =
    (is_alphanumeric c || c == 95 || c == 46 || c == 45) && all_name_characters s

-- `^[A-Za-z0-9][A-Za-z0-9_.-]{2,63}$`
unfoldable pub is_username : Bytes → Bool
unfolding is_alphanumeric all_name_characters
is_username [] = false
is_username (c ∷ s) =
    is_alphanumeric c && leb 2 (length s) && leb (length s) 63 && all_name_characters s

unfoldable pub same_origin : Request → Bool
unfolding same
same_origin r =
    not (same r.origin [])
    && same r.origin ((if r.tls then codes "https" else codes "http") ++ (codes "://" ++ r.host))

unfoldable pub bootstrap :
    Crypto
    → Bytes
    → Bytes
    → Bytes
    → Bytes
    → Bytes
    → ℕ
    → Bytes
    → Bytes
    → Bytes
    → Tables
    → Fallible WebError (UserRow × Tables)
unfolding same trim_space is_username hash_password bootstrap_admin
bootstrap c token username display_name password request now salt id audit t = do
  _ ← reject (same (trim_space token) [] || same request []) WebError.forbidden
  _ ←
      reject
        (not (is_username (trim_space username))
          || same (trim_space display_name) []
          || ltb 128 (length (trim_space display_name)))
        WebError.invalid_profile
  hash ← hash_password c.kdf salt password
  bootstrap_admin (c.hash_token token) (trim_space username) (trim_space display_name) hash request
      now id audit t

-- What a login draws at random, and when it happens.
pub record Draws : Type 0 where
  pub session_token : Bytes
  pub csrf_draw : Bytes
  pub draw_event : Bytes

-- `12 * time.Hour`
abbrev pub session_ms : ℕ
session_ms = 43200000

-- The user of a login; a name that is too long has none.
unfoldable pub login_user : Bytes → Tables → Option UserRow
unfolding find_user
login_user username t = if ltb 128 (length username) then none else find_user username t

-- Without a user the source compares a dummy hash, and then refuses too.
unfoldable pub credentials_valid : Crypto → Option UserRow → Bytes → ℕ → Bool
unfolding verify_password is_active
credentials_valid c none password now = false
credentials_valid c (some u) password now =
    verify_password c.kdf u.password_hash password
    && is_active u
    && not (is_locked u.locked_until_ms now)

-- An error of the record is ignored, and the tables then stay as they were.
abbrev pub ignore : Tables → Fallible WebError Tables → Tables
ignore t (failure e) = t
ignore t (success u) = u

abbrev pub with_tables :
    {A : Type 0} → Tables → Fallible WebError (A × Tables) → Fallible WebError A × Tables
with_tables t (failure e) = (failure e, t)
with_tables t (success (a, u)) = (success a, u)

unfoldable pub open_session :
    Crypto → UserRow → Bytes → Bytes → ℕ → Draws → Tables → Fallible WebError (UserRow × Tables)
unfolding create_session record_login_success
open_session c u request ip now d t = do
  t ←
      create_session u.id (c.hash_token d.session_token) (c.hash_token d.csrf_draw)
        (now + session_ms) (now + idle_ms) now t
  success (u, ignore t (record_login_success u.id u.username request ip now d.draw_event t))

unfoldable pub login_as :
    Crypto
    → Option UserRow
    → Bytes
    → Bytes
    → Bytes
    → Bytes
    → ℕ
    → Draws
    → Tables
    → Fallible WebError UserRow × Tables
unfolding credentials_valid record_login_failure trim_space open_session
login_as c none username password request ip now d t = (
  failure WebError.invalid_login,
  ignore t (record_login_failure (trim_space username) request ip now d.draw_event t),
)
login_as c (some u) username password request ip now d t =
    if credentials_valid c (some u) password now
    then with_tables t (open_session c u request ip now d t)
    else (
      failure WebError.invalid_login,
      ignore t (record_login_failure (trim_space username) request ip now d.draw_event t),
    )

unfoldable pub login :
    Crypto → Bytes → Bytes → Bytes → Bytes → ℕ → Draws → Tables → Fallible WebError UserRow × Tables
unfolding login_user login_as
login c username password request ip now d t =
    login_as c (login_user username t) username password request ip now d t

unfoldable pub principal_of : Bytes → Session → Principal
principal_of hash s = record {
  principal_user = s.user;
  session_hash = hash;
  csrf = s.session_csrf;
  reauth = s.reauth_until;
}

-- Any error of the repository becomes the one that authentication is required.
abbrev pub as_principal :
    Bytes → Fallible WebError (Session × Tables) → Fallible WebError (Principal × Tables)
unfolding principal_of
as_principal hash (failure e) = failure WebError.unauthenticated
as_principal hash (success (s, t)) = success (principal_of hash s, t)

unfoldable pub authenticate : Crypto → Request → ℕ → Tables → Fallible WebError (Principal × Tables)
unfolding same get_session principal_of
authenticate c r now t = do
  _ ← reject (same r.cookie []) WebError.unauthenticated
  as_principal (c.hash_token r.cookie) (get_session (c.hash_token r.cookie) now t)

-- The checks of a request that changes something: its token and its origin.
unfoldable pub check_mutation : Crypto → Request → Principal → Fallible WebError Unit
unfolding same same_origin
check_mutation c r p = do
  _ ←
      reject (same r.csrf_token [] || not (same (c.hash_token r.csrf_token) p.csrf))
        WebError.forbidden
  reject (not (same_origin r)) WebError.forbidden

-- A refusal after the session was found leaves it touched.
unfoldable pub authorize : Crypto → Request → Bytes → Bool → Principal → Fallible WebError Principal
unfolding allowed check_mutation
authorize c r permission mutation p = do
  _ ← reject (not (allowed p.principal_user.role permission)) WebError.forbidden
  _ ← if mutation then check_mutation c r p else success tt
  success p

unfoldable pub require_found :
    Crypto
    → Request
    → Bytes
    → Bool
    → Tables
    → Fallible WebError (Principal × Tables)
    → Fallible WebError Principal × Tables
unfolding authorize
require_found c r permission mutation t (failure e) = (failure e, t)
require_found c r permission mutation t (success (p, u)) = (authorize c r permission mutation p, u)

unfoldable pub require :
    Crypto → Request → Bytes → Bool → ℕ → Tables → Fallible WebError Principal × Tables
unfolding authenticate require_found
require c r permission mutation now t =
    require_found c r permission mutation t (authenticate c r now t)

-- The session must still be there, and the password must be its user's.
unfoldable pub confirm :
    Crypto → Principal → Bytes → Fallible WebError (Session × Tables) → Fallible WebError Tables
unfolding verify_password
confirm c p password (failure e) = failure WebError.invalid_login
confirm c p password (success (s, t)) = do
  _ ← reject (not (verify_password c.kdf s.user.password_hash password)) WebError.invalid_login
  success t

-- The tables that a lookup of the session leaves, whatever comes after it.
abbrev pub looked_up : Tables → Fallible WebError (Session × Tables) → Tables
looked_up t (failure e) = t
looked_up t (success (s, u)) = u

abbrev pub settle :
    {A : Type 0} → A → Tables → Fallible WebError Tables → Fallible WebError A × Tables
settle a t (failure e) = (failure e, t)
settle a t (success u) = (success a, u)

unfoldable pub reauthenticate :
    Crypto → Principal → Bytes → ℕ → Tables → Fallible WebError ℕ × Tables
unfolding get_session confirm mark_reauthenticated
reauthenticate c p password now t =
    let session = get_session p.session_hash now t in
    settle (now + 300000) (looked_up t session)
      (do u ← confirm c p password session; mark_reauthenticated p.session_hash (now + 300000) u)

unfoldable pub require_recent_reauth : Principal → ℕ → Fallible WebError Unit
require_recent_reauth p now = reject (not (is_locked p.reauth now)) WebError.forbidden

unfoldable pub change_own_password :
    Crypto → Principal → Bytes → Bytes → Bytes → ℕ → Tables → Fallible WebError Unit × Tables
unfolding get_session confirm hash_password change_password
change_own_password c p current new salt now t =
    let session = get_session p.session_hash now t in
    settle tt (looked_up t session) (do
      u ← confirm c p current session
      hash ← hash_password c.kdf salt new
      change_password p.principal_user.id p.session_hash hash now u)

unfoldable pub logout : Principal → ℕ → Tables → Tables
unfolding revoke_session
logout p now t = revoke_session p.session_hash now t
