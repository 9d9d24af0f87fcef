-- ===== src/Web/Lookup.antt =====
-- What a session that GetSession found fulfils, and how the repository's functions change the table
-- of sessions (src/internal/web/repository/auth.go).
use wiregate.Prelude.{
  some, ℕ, ◌≡◌, false, success, failure, bind-success, reject-success, inl, inr, Option-cases,
  reject,
}
use wiregate.Stdlib.Bytes.{Bytes}
use wiregate.Web.Tables.{SessionRow, UserRow, Tables, WebError}
use wiregate.Web.Sessions.{Session, get_session, found, is_live, is_owner, is_locked, touch}
use wiregate.Stdlib.Rows.{select_row}

-- The two rows that a lookup joins, and what it makes of them.
pub record Found (hash : Bytes) (now : ℕ) (t : Tables) (x : Session) (u : Tables) : Type 0 where
  pub row : SessionRow
  pub owner : UserRow
  pub row_found : select_row (is_live hash now) t.sessions ≡ some row
  pub owner_found : select_row (is_owner row) t.users ≡ some owner
  pub unlocked : is_locked owner.locked_until_ms now ≡ false
  pub seen :
      x
      ≡ (record { user = owner; session_csrf = row.csrf_hash; reauth_until = row.reauth_until_ms })
  pub touched : u ≡ touch hash now t

found-Found :
    (hash : Bytes) (now : ℕ) (t : Tables) (x : Session) (u : Tables) (row : SessionRow)
    (owner : UserRow)
    → select_row (is_live hash now) t.sessions ≡ some row
    → select_row (is_owner row) t.users ≡ some owner
    → found hash now row owner t ≡ success (x, u)
    → Found hash now t x u
unfolding found
found-Found hash now t x u row owner p q h =
    let (_, free, done) =
      bind-success (reject (is_locked owner.locked_until_ms now) WebError.user_locked) _ (x, u) h in
    record {
      row = row;
      owner = owner;
      row_found = p;
      owner_found = q;
      unlocked = reject-success _ _ free;
      seen = cc;
      touched = cc;
    }

no_success : {x : Session × Tables} {e : WebError} → failure e ≡ success x → ⊥
no_success h = cc

pub get_session-Found :
    (hash : Bytes) (now : ℕ) (t : Tables) (x : Session) (u : Tables)
    → get_session hash now t ≡ success (x, u)
    → Found hash now t x u
unfolding get_session
get_session-Found hash now t x u h =
    elim (Option-cases (select_row (is_live hash now) t.sessions)) [
      | inl e ↦ absurd (no_success (rw (e, get_session) at h))
      | inr (row, e) ↦ elim (Option-cases (select_row (is_owner row) t.users)) [
        | inl f ↦ absurd (no_success (rw (f, get_session) at (rw (e, get_session) at h)))
        | inr (owner, f) ↦
            found-Found hash now t x u row owner e f
              (rw (f, get_session) at (rw (e, get_session) at h))
      ]
    ]
