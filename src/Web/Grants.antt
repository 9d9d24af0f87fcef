-- ===== src/Web/Grants.antt =====
-- What a request must carry to pass (Require of src/internal/web/auth/manager.go).
use wiregate.Prelude.{
  [], ◌∷◌, some, refl, List, ℕ, Bool, All, ◌≡◌, true, false, ◌<◌, success, failure, inl, inr,
  Fallible, ◌⊎◌, if◌then◌else◌, ◌||◌, subst, not, bind-success, arith, Bool-cases, reject,
  reject-success,
}
use wiregate.Stdlib.Bytes.{Bytes, same}
use wiregate.Web.Tables.{UserRow, SessionRow, Tables, WebError, is_active}
use wiregate.Web.Sessions.{Session, is_live, is_owner, is_null, get_session, is_locked}
use wiregate.Web.Manager.{
  Crypto, Request, Principal, principal_of, check_mutation, authorize, require, require_found,
  authenticate, same_origin, as_principal,
}
use wiregate.Web.Lookup.{Found, get_session-Found}
use wiregate.Stdlib.Rows.{select_row, select_row-All}
use wiregate.Web.Roles.{allowed}
use wiregate.Stdlib.Same.{same-eq}
use wiregate.Web.AccountMoves.{accepted_of}

-- What a request that Require lets through had: a session of its cookie's hash that is not revoked
-- and neither expired nor idle for too long, whose user is active, not locked, and of a role with
-- the permission; and, for a change, the session's token and the origin of the server.
pub record Granted (c : Crypto) (r : Request) (permission : Bytes) (mutation : Bool) (now : ℕ)
    (t : Tables) : Type 0 where
  pub row : SessionRow
  pub owner : UserRow
  pub in_sessions : select_row (is_live (c.hash_token r.cookie) now) t.sessions ≡ some row
  pub in_users : select_row (is_owner row) t.users ≡ some owner
  pub of_cookie : row.id_hash ≡ c.hash_token r.cookie
  pub not_revoked : is_null row.revoked_at_ms ≡ true
  pub not_expired : now < row.expires_at_ms
  pub not_idle : now < row.idle_expires_at_ms
  pub owned : owner.id ≡ row.user_id
  pub user_active : is_active owner ≡ true
  pub user_unlocked : is_locked owner.locked_until_ms now ≡ false
  pub permitted : allowed owner.role permission ≡ true
  pub protected :
      (mutation ≡ false) ⊎ ((c.hash_token r.csrf_token ≡ row.csrf_hash) × (same_origin r ≡ true))

All-any : {A : Type 0} (xs : List A) → All (λ (x : A). Unit {0}) xs
All-any [] = tt
All-any (x ∷ xs) = (tt, All-any xs)

pub select_row-true :
    {A : Type 0} (p : A → Bool) (xs : List A) (x : A) → select_row p xs ≡ some x → p x ≡ true
select_row-true p xs x h = (select_row-All p (λ y. Unit {0}) xs x (All-any xs) h).0

pub live_parts :
    (hash : Bytes) (now : ℕ) (s : SessionRow)
    → is_live hash now s ≡ true
    → (s.id_hash ≡ hash)
      × (is_null s.revoked_at_ms ≡ true)
      × (now < s.expires_at_ms)
      × (now < s.idle_expires_at_ms)
unfolding is_live
live_parts hash now s h =
    (same-eq s.id_hash hash (ground arith), ground arith, ground arith, ground arith)

pub owner_parts :
    (s : SessionRow) (u : UserRow) → is_owner s u ≡ true → (u.id ≡ s.user_id) × (is_active u ≡ true)
unfolding is_owner
owner_parts s u h = (same-eq u.id s.user_id (ground arith), ground arith)

second_holds : (a b : Bool) → a || not b ≡ false → b ≡ true
second_holds a b h = ground arith

check_parts :
    (c : Crypto) (r : Request) (p : Principal)
    → check_mutation c r p ≡ success tt
    → (c.hash_token r.csrf_token ≡ p.csrf) × (same_origin r ≡ true)
unfolding check_mutation
check_parts c r p h =
    let (_, token, h1) =
      bind-success
        (reject (same r.csrf_token [] || not (same (c.hash_token r.csrf_token) p.csrf))
          WebError.forbidden)
        _ tt h in
    (
      same-eq (c.hash_token r.csrf_token) p.csrf (
          second_holds (same r.csrf_token []) (same (c.hash_token r.csrf_token) p.csrf)
            (reject-success _ _ token)),
      accepted_of (same_origin r) (reject-success _ _ h1),
    )

mutation_parts :
    (c : Crypto) (r : Request) (p : Principal) (mutation : Bool)
    → (if mutation then check_mutation c r p else success tt) ≡ success tt
    → (mutation ≡ false) ⊎ ((c.hash_token r.csrf_token ≡ p.csrf) × (same_origin r ≡ true))
mutation_parts c r p true h = inr (check_parts c r p h)
mutation_parts c r p false h = inl refl

authorize_parts :
    (c : Crypto) (r : Request) (permission : Bytes) (mutation : Bool) (p q : Principal)
    → authorize c r permission mutation p ≡ success q
    → (allowed p.principal_user.role permission ≡ true)
      × ((mutation ≡ false) ⊎ ((c.hash_token r.csrf_token ≡ p.csrf) × (same_origin r ≡ true)))
unfolding authorize
authorize_parts c r permission mutation p q h =
    let (_, permitted, h1) =
      bind-success (reject (not (allowed p.principal_user.role permission)) WebError.forbidden) _ q
        h in
    let (_, checked, h2) =
      bind-success (if mutation then check_mutation c r p else success tt) (λ _. success p) q h1 in
    (
      accepted_of (allowed p.principal_user.role permission) (reject-success _ _ permitted),
      mutation_parts c r p mutation checked,
    )

Found-Granted :
    (c : Crypto) (r : Request) (permission : Bytes) (mutation : Bool) (now : ℕ) (t : Tables)
    (x : Session) (u : Tables) (q : Principal)
    → Found (c.hash_token r.cookie) now t x u
    → authorize c r permission mutation (principal_of (c.hash_token r.cookie) x) ≡ success q
    → Granted c r permission mutation now t
unfolding principal_of
Found-Granted c r permission mutation now t x u q f h =
    let (of_cookie, open_row, unexpired, busy) =
      live_parts (c.hash_token r.cookie) now f.row
        (select_row-true _ t.sessions f.row f.row_found) in
    let (owned, live_user) =
      owner_parts f.row f.owner (select_row-true _ t.users f.owner f.owner_found) in
    let seen : Session = record {
      user = f.owner;
      session_csrf = f.row.csrf_hash;
      reauth_until = f.row.reauth_until_ms;
    } in
    let (permitted, protected) =
      authorize_parts c r permission mutation (principal_of (c.hash_token r.cookie) seen) q (
        subst
          (λ y.
            authorize c r permission mutation (principal_of (c.hash_token r.cookie) y) ≡ success q)
          f.seen h) in
    record {
      row = f.row;
      owner = f.owner;
      in_sessions = f.row_found;
      in_users = f.owner_found;
      of_cookie = of_cookie;
      not_revoked = open_row;
      not_expired = unexpired;
      not_idle = busy;
      owned = owned;
      user_active = live_user;
      user_unlocked = f.unlocked;
      permitted = permitted;
      protected = protected;
    }

no_grant :
    {q : Principal} {e : WebError}
    → ◌≡◌ {A = Fallible WebError Principal} (failure e) (success q)
    → ⊥
no_grant h = cc

no_cookie :
    (c : Crypto) (r : Request) (permission : Bytes) (mutation : Bool) (t : Tables) (q : Principal)
    → (require_found c r permission mutation t (failure WebError.unauthenticated)).0 ≡ success q
    → ⊥
unfolding require_found
no_cookie c r permission mutation t q h = no_grant h

Granted-from :
    (c : Crypto) (r : Request) (permission : Bytes) (mutation : Bool) (now : ℕ) (t : Tables)
    (m : Fallible WebError (Session × Tables)) (q : Principal)
    → get_session (c.hash_token r.cookie) now t ≡ m
    → (require_found c r permission mutation t (as_principal (c.hash_token r.cookie) m)).0
      ≡ success q
    → Granted c r permission mutation now t
unfolding require_found principal_of
Granted-from c r permission mutation now t (failure e) q g h = absurd (no_grant h)
Granted-from c r permission mutation now t (success (x, u)) q g h =
    Found-Granted c r permission mutation now t x u q
      (get_session-Found (c.hash_token r.cookie) now t x u g) h

-- A request that Require lets through carried the cookie of a session in the table that is not
-- revoked, not expired and not idle for too long, whose user is in the table, active, not locked and
-- of a role with the permission; a change carried the session's token too and came from the server's
-- own origin.
pub require-Granted :
    (c : Crypto) (r : Request) (permission : Bytes) (mutation : Bool) (now : ℕ) (t : Tables)
    (q : Principal)
    → (require c r permission mutation now t).0 ≡ success q
    → Granted c r permission mutation now t
unfolding require authenticate
require-Granted c r permission mutation now t q h = elim (Bool-cases (same r.cookie [])) [
  | inl e ↦ absurd (no_cookie c r permission mutation t q (rw e at h))
  | inr e ↦
      Granted-from c r permission mutation now t (get_session (c.hash_token r.cookie) now t) q refl
        (rw e at h)
]
