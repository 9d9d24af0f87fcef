-- ===== src/Web/Access.antt =====
-- What holds of sessions and access (src/internal/web/auth/manager.go and
-- src/internal/web/repository/auth.go).
use wiregate.Prelude.{
  [], ◌∷◌, refl, List, ℕ, Bool, All, ◌≡◌, true, false, failure, inl, inr, ◌⊎◌, Bool-cases, subst,
  ap, sym, if◌then◌else◌, ◌&&◌, ◌∙◌, arith,
}
use wiregate.Stdlib.Bytes.{Bytes, same}
use wiregate.Web.Tables.{SessionRow, Tables, WebError}
use wiregate.Web.Sessions.{get_session, is_open, is_live, revoke_session, is_null}
use wiregate.Web.Manager.{
  Crypto, Request, Principal, authenticate, logout, principal_of, as_principal,
}
use wiregate.Web.Evolution.{
  IsBounded, Revoked, IsRevokedAt, Evolves-IsBounded, Evolves-Revoked, any_row-update,
}
use wiregate.Web.Runs.{Run, Run-Moves}
use wiregate.Stdlib.Rows.{select_row-none, any_row, update_rows, update_rows-every}
use wiregate.Web.Accounts.{revoke}

-- Whatever requests are answered in whatever order, no session is ever idle past its end.
pub Run-IsBounded :
    (c : Crypto) (t u : Tables) → Run c t u → All IsBounded t.sessions → All IsBounded u.sessions
Run-IsBounded c t u r all =
    Evolves-IsBounded t.sessions u.sessions (Run-Moves c t u r).sessions_evolve all

not_live :
    (hash : Bytes) (now : ℕ) (s : SessionRow) → IsRevokedAt hash s → is_live hash now s ≡ false
unfolding is_live
not_live hash now s r = elim (Bool-cases (same s.id_hash hash)) [
  | inl e ↦ rw e (rw (r e))
  | inr e ↦ rw e
]

All-not_live :
    (hash : Bytes) (now : ℕ) (xs : List SessionRow)
    → All (IsRevokedAt hash) xs
    → All (λ s. is_live hash now s ≡ false) xs
All-not_live hash now [] all = tt
All-not_live hash now (s ∷ xs) all = (not_live hash now s all.0, All-not_live hash now xs all.1)

Revoked-get_session :
    (hash : Bytes) (now : ℕ) (t : Tables)
    → Revoked hash t.sessions
    → get_session hash now t ≡ failure WebError.no_rows
unfolding get_session
Revoked-get_session hash now t r =
    rw
      (
        select_row-none (is_live hash now) t.sessions (All-not_live hash now t.sessions r.closed),
        get_session,
      )
      refl

refused :
    (c : Crypto) (r : Request) (now : ℕ) (t : Tables)
    → Revoked (c.hash_token r.cookie) t.sessions
    → authenticate c r now t ≡ failure WebError.unauthenticated
unfolding authenticate principal_of
refused c r now t revoked = elim (Bool-cases (same r.cookie [])) [
  | inl e ↦ rw e refl
  | inr e ↦ rw e (
      ap (as_principal (c.hash_token r.cookie))
        (Revoked-get_session (c.hash_token r.cookie) now t revoked))
]

shut : (a b : Bool) → a ≡ true → a && b ≡ false → b ≡ false
shut a b h e = ground arith

closes :
    (hash : Bytes) (now : ℕ) (s : SessionRow)
    → (is_open hash s ≡ true) ⊎ (is_open hash s ≡ false)
    → IsRevokedAt hash (if is_open hash s then revoke now s else s)
unfolding is_open
closes hash now s (inl e) = rw e (λ h. refl)
closes hash now s (inr e) = rw e (λ h. shut (same s.id_hash hash) (is_null s.revoked_at_ms) h e)

logout-Revoked :
    (hash : Bytes) (now : ℕ) (xs : List SessionRow)
    → any_row (λ s. same s.id_hash hash) xs ≡ true
    → Revoked hash (update_rows (is_open hash) (revoke now) xs)
unfolding is_open
logout-Revoked hash now xs h = record {
  present =
      any_row-update (λ s. same s.id_hash hash) (is_open hash) (revoke now) xs (λ s o. refl) ∙ h;
  closed =
      update_rows-every (is_open hash) (revoke now) (IsRevokedAt hash) xs
        (λ s. closes hash now s (Bool-cases (is_open hash s)));
}

-- After a logout, whatever requests follow, no request is authenticated by the token of the session
-- that logged out, which was in the table.
pub logout_final :
    (c : Crypto) (p : Principal) (now later : ℕ) (t u : Tables) (r : Request)
    → any_row (λ s. same s.id_hash p.session_hash) t.sessions ≡ true
    → Run c (logout p now t) u
    → c.hash_token r.cookie ≡ p.session_hash
    → authenticate c r later u ≡ failure WebError.unauthenticated
unfolding logout revoke_session
logout_final c p now later t u r h run e = refused c r later u (
    subst (λ x. Revoked x u.sessions) (sym e)
      (Evolves-Revoked p.session_hash (logout p now t).sessions u.sessions
        (Run-Moves c (logout p now t) u run).sessions_evolve
        (logout-Revoked p.session_hash now t.sessions h)))
