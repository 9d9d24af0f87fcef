-- ===== src/Web/Runs.antt =====
-- The runs of the web server's authentication (src/internal/web/auth/manager.go): what each request
-- does to the database, in any order and with any arguments.
use wiregate.Prelude.{
  [], none, some, refl, ℕ, Bool, Option, ◌≡◌, success, failure, inl, inr, Fallible, ◌>>=◌, ◌+◌,
  subst, bind-success, reject, ◌||◌, not, Bool-cases, ltb, length, arith,
}
use wiregate.Stdlib.Bytes.{Bytes, same, trim_space}
use wiregate.Web.Tables.{UserRow, Tables, WebError}
use wiregate.Web.Sessions.{Session, get_session, create_session, idle_ms, mark_reauthenticated}
use wiregate.Web.Manager.{
  Crypto, Request, Principal, Draws, login, open_session, change_own_password, authenticate,
  login_as, require, with_tables, bootstrap, require_found, reauthenticate, confirm, ignore, settle,
  as_principal, looked_up, logout, login_user, session_ms, is_username, credentials_valid,
  principal_of,
}
use wiregate.Web.Moves.{
  Moves, Moves-refl, Moves-trans, mark_reauthenticated-Moves, get_session-Moves,
  change_password-Moves, revoke_session-Moves, success_eq, create_session-Moves,
}
use wiregate.Web.Accounts.{
  set_bootstrap_token, record_login_failure, reset_admin_password, record_login_success,
  change_password,
}
use wiregate.Web.AccountMoves.{
  pair_eq, set_bootstrap_token-Moves, record_login_failure-Moves, reset_admin_password-Moves,
  bootstrap_admin-Bootstrapped, record_login_success-Moves, Bootstrapped, Bootstrapped-Moves,
}
use wiregate.Web.Passwords.{hash_password, verify_password}

-- One request, with the tables before and after it.
pub data Step (c : Crypto) (t u : Tables) : Type 0 where
  issues_token :
      (token : Bytes) (expires now : ℕ)
      → set_bootstrap_token token expires now t ≡ success u
      → Step c t u
  bootstraps :
      (token name display password request : Bytes) (now : ℕ) (salt id audit : Bytes)
      (admin : UserRow)
      → bootstrap c token name display password request now salt id audit t ≡ success (admin, u)
      → Step c t u
  logs_in :
      (name password request ip : Bytes) (now : ℕ) (d : Draws)
      → (login c name password request ip now d t).1 ≡ u
      → Step c t u
  requires :
      (r : Request) (permission : Bytes) (mutation : Bool) (now : ℕ)
      → (require c r permission mutation now t).1 ≡ u
      → Step c t u
  reauthenticates :
      (p : Principal) (password : Bytes) (now : ℕ)
      → (reauthenticate c p password now t).1 ≡ u
      → Step c t u
  changes_password :
      (p : Principal) (current new salt : Bytes) (now : ℕ)
      → (change_own_password c p current new salt now t).1 ≡ u
      → Step c t u
  logs_out : (p : Principal) (now : ℕ) → logout p now t ≡ u → Step c t u
  resets_admin :
      (name hash : Bytes) (now : ℕ) (audit stored : Bytes)
      → reset_admin_password name hash now audit t ≡ success (stored, u)
      → Step c t u

pub data Run (c : Crypto) (t : Tables) : Tables → Type 0 where
  start : Run c t t
  then_step : (u v : Tables) → Run c t u → Step c u v → Run c t v

ignore-Moves :
    (t : Tables) (m : Fallible WebError Tables)
    → ((u : Tables) → m ≡ success u → Moves t u)
    → Moves t (ignore t m)
ignore-Moves t (failure e) h = Moves-refl t
ignore-Moves t (success u) h = h u refl

with_tables-Moves :
    {A : Type 0} (t : Tables) (m : Fallible WebError (A × Tables))
    → ((a : A) (u : Tables) → m ≡ success (a, u) → Moves t u)
    → Moves t (with_tables t m).1
with_tables-Moves t (failure e) h = Moves-refl t
with_tables-Moves t (success (a, u)) h = h a u refl

settle-Moves :
    {A : Type 0} (a : A) (s t : Tables) (m : Fallible WebError Tables)
    → Moves s t
    → ((u : Tables) → m ≡ success u → Moves s u)
    → Moves s (settle a t m).1
settle-Moves a s t (failure e) before h = before
settle-Moves a s t (success u) before h = h u refl

open_session-Moves :
    (c : Crypto) (w : UserRow) (request ip : Bytes) (now : ℕ) (d : Draws) (t : Tables) (v : UserRow)
    (u : Tables)
    → open_session c w request ip now d t ≡ success (v, u)
    → Moves t u
unfolding open_session
open_session-Moves c w request ip now d t v u h =
    let (s, made, h1) =
      bind-success
        (create_session w.id (c.hash_token d.session_token) (c.hash_token d.csrf_draw)
          (now + session_ms) (now + idle_ms) now t)
        _ (v, u) h in
    Moves-trans t s u
      (create_session-Moves w.id (c.hash_token d.session_token) (c.hash_token d.csrf_draw)
        (now + session_ms) (now + idle_ms) now t s (omega arith) made)
      (subst (Moves s) (pair_eq w v _ u h1).1 (
        ignore-Moves s (record_login_success w.id w.username request ip now d.draw_event s)
          (λ x. record_login_success-Moves w.id w.username request ip now d.draw_event s x)))

refused-Moves :
    (name request ip : Bytes) (now : ℕ) (d : Draws) (t : Tables)
    → Moves t (ignore t (record_login_failure name request ip now d.draw_event t))
refused-Moves name request ip now d t =
    ignore-Moves t (record_login_failure name request ip now d.draw_event t)
      (λ u. record_login_failure-Moves name request ip now d.draw_event t u)

login_as-Moves :
    (c : Crypto) (w : Option UserRow) (name password request ip : Bytes) (now : ℕ) (d : Draws)
    (t : Tables)
    → Moves t (login_as c w name password request ip now d t).1
unfolding login_as
login_as-Moves c none name password request ip now d t =
    refused-Moves (trim_space name) request ip now d t
login_as-Moves c (some w) name password request ip now d t =
    elim (Bool-cases (credentials_valid c (some w) password now)) [
      | inl e ↦ rw e (
          with_tables-Moves t (open_session c w request ip now d t)
            (open_session-Moves c w request ip now d t))
      | inr e ↦ rw e (refused-Moves (trim_space name) request ip now d t)
    ]

no_principal : {x : Principal × Tables} {e : WebError} → failure e ≡ success x → ⊥
no_principal h = cc

principal-Moves :
    (t : Tables) (hash : Bytes) (m : Fallible WebError (Session × Tables)) (p : Principal)
    (u : Tables)
    → as_principal hash m ≡ success (p, u)
    → ((x : Session) (v : Tables) → m ≡ success (x, v) → Moves t v)
    → Moves t u
unfolding principal_of
principal-Moves t hash (failure e) p u h f = absurd (no_principal h)
principal-Moves t hash (success (x, v)) p u h f = subst (Moves t) (pair_eq _ p v u h).1 (f x v refl)

require_found-Moves :
    (c : Crypto) (r : Request) (permission : Bytes) (mutation : Bool) (t : Tables)
    (m : Fallible WebError (Principal × Tables))
    → ((p : Principal) (u : Tables) → m ≡ success (p, u) → Moves t u)
    → Moves t (require_found c r permission mutation t m).1
unfolding require_found
require_found-Moves c r permission mutation t (failure e) h = Moves-refl t
require_found-Moves c r permission mutation t (success (p, u)) h = h p u refl

authenticate-Moves :
    (c : Crypto) (r : Request) (now : ℕ) (t : Tables) (p : Principal) (u : Tables)
    → authenticate c r now t ≡ success (p, u)
    → Moves t u
unfolding authenticate
authenticate-Moves c r now t p u h =
    let (_, _, h1) = bind-success (reject (same r.cookie []) WebError.unauthenticated) _ (p, u) h in
    principal-Moves t (c.hash_token r.cookie) (get_session (c.hash_token r.cookie) now t) p u h1
      (λ x v. get_session-Moves (c.hash_token r.cookie) now t x v)

require-Moves :
    (c : Crypto) (r : Request) (permission : Bytes) (mutation : Bool) (now : ℕ) (t : Tables)
    → Moves t (require c r permission mutation now t).1
unfolding require
require-Moves c r permission mutation now t =
    require_found-Moves c r permission mutation t (authenticate c r now t)
      (λ p u. authenticate-Moves c r now t p u)

looked_up-Moves :
    (hash : Bytes) (now : ℕ) (t : Tables) (m : Fallible WebError (Session × Tables))
    → get_session hash now t ≡ m
    → Moves t (looked_up t m)
looked_up-Moves hash now t (failure e) h = Moves-refl t
looked_up-Moves hash now t (success (x, u)) h = get_session-Moves hash now t x u h

confirm-Moves :
    (c : Crypto) (p : Principal) (password hash : Bytes) (now : ℕ) (t : Tables)
    (m : Fallible WebError (Session × Tables)) (u : Tables)
    → get_session hash now t ≡ m
    → confirm c p password m ≡ success u
    → Moves t u
unfolding confirm
confirm-Moves c p password hash now t (failure e) u g h = cc
confirm-Moves c p password hash now t (success (x, v)) u g h =
    let (_, _, h1) =
      bind-success
        (reject (not (verify_password c.kdf x.user.password_hash password)) WebError.invalid_login)
        _ u h in
    subst (Moves t) (success_eq v u h1) (get_session-Moves hash now t x v g)

reauthenticate-Moves :
    (c : Crypto) (p : Principal) (password : Bytes) (now : ℕ) (t : Tables)
    → Moves t (reauthenticate c p password now t).1
unfolding reauthenticate
reauthenticate-Moves c p password now t =
    let session = get_session p.session_hash now t in
    let mark : Tables → Fallible WebError Tables =
      mark_reauthenticated p.session_hash (now + 300000) in
    settle-Moves (now + 300000) t (looked_up t session) (confirm c p password session >>= mark)
      (looked_up-Moves p.session_hash now t session refl)
      (λ u h.
        let (s, confirmed, h1) = bind-success (confirm c p password session) mark u h in
        Moves-trans t s u (confirm-Moves c p password p.session_hash now t session s refl confirmed)
          (mark_reauthenticated-Moves p.session_hash (now + 300000) s u h1))

change_own_password-Moves :
    (c : Crypto) (p : Principal) (current new salt : Bytes) (now : ℕ) (t : Tables)
    → Moves t (change_own_password c p current new salt now t).1
unfolding change_own_password
change_own_password-Moves c p current new salt now t =
    let session = get_session p.session_hash now t in
    let change : Tables → Bytes → Fallible WebError Tables =
      λ s hash. change_password p.principal_user.id p.session_hash hash now s in
    let rest : Tables → Fallible WebError Tables = λ s. hash_password c.kdf salt new >>= change s in
    settle-Moves tt t (looked_up t session) (confirm c p current session >>= rest)
      (looked_up-Moves p.session_hash now t session refl)
      (λ u h.
        let (s, confirmed, h1) = bind-success (confirm c p current session) rest u h in
        let (hash, _, h2) = bind-success (hash_password c.kdf salt new) (change s) u h1 in
        Moves-trans t s u (confirm-Moves c p current p.session_hash now t session s refl confirmed)
          (change_password-Moves p.principal_user.id p.session_hash hash now s u h2))

pub bootstrap-Bootstrapped :
    (c : Crypto) (token name display password request : Bytes) (now : ℕ) (salt id audit : Bytes)
    (t : Tables) (admin : UserRow) (u : Tables)
    → bootstrap c token name display password request now salt id audit t ≡ success (admin, u)
    → Bootstrapped (c.hash_token token) now t admin u
unfolding bootstrap
bootstrap-Bootstrapped c token name display password request now salt id audit t admin u h =
    let (_, _, h1) =
      bind-success (reject (same (trim_space token) [] || same request []) WebError.forbidden) _
        (admin, u) h in
    let (_, _, h2) =
      bind-success
        (reject
          (not (is_username (trim_space name))
            || same (trim_space display) []
            || ltb 128 (length (trim_space display)))
          WebError.invalid_profile)
        _ (admin, u) h1 in
    let (hash, _, h3) = bind-success (hash_password c.kdf salt password) _ (admin, u) h2 in
    bootstrap_admin-Bootstrapped (c.hash_token token) (trim_space name) (trim_space display) hash
      request now id audit t admin u h3

pub Step-Moves : (c : Crypto) (t u : Tables) → Step c t u → Moves t u
unfolding login logout
Step-Moves c t u (issues_token token expires now h) =
    set_bootstrap_token-Moves token expires now t u h
Step-Moves c t u (bootstraps token name display password request now salt id audit admin h) =
    Bootstrapped-Moves (c.hash_token token) now t admin u
      (bootstrap-Bootstrapped c token name display password request now salt id audit t admin u h)
Step-Moves c t u (logs_in name password request ip now d h) =
    subst (Moves t) h (login_as-Moves c (login_user name t) name password request ip now d t)
Step-Moves c t u (requires r permission mutation now h) =
    subst (Moves t) h (require-Moves c r permission mutation now t)
Step-Moves c t u (reauthenticates p password now h) =
    subst (Moves t) h (reauthenticate-Moves c p password now t)
Step-Moves c t u (changes_password p current new salt now h) =
    subst (Moves t) h (change_own_password-Moves c p current new salt now t)
Step-Moves c t u (logs_out p now h) = subst (Moves t) h (revoke_session-Moves p.session_hash now t)
Step-Moves c t u (resets_admin name hash now audit stored h) =
    reset_admin_password-Moves name hash now audit t stored u h

pub Run-Moves : (c : Crypto) (t u : Tables) → Run c t u → Moves t u
Run-Moves c t u start = Moves-refl t
Run-Moves c t u (then_step v w r s) = Moves-trans t v u (Run-Moves c t v r) (Step-Moves c v u s)
