-- ===== src/Web/Moves.antt =====
-- How each operation on the web database changes it: sessions are opened and changed, never deleted,
-- and no user is deleted (src/internal/web/repository/auth.go, src/internal/web/auth/manager.go).
use wiregate.Prelude.{
  [], ◌∷◌, refl, List, ℕ, Bool, ◌≡◌, true, ◌≤◌, ◌++◌, success, bind-success, reject-success,
  Fallible, ◌&&◌, length, arith, ◌+◌, subst, reject, sym, ap, not, suc, ◌==◌,
}
use wiregate.Stdlib.Bytes.{Bytes, same}
use wiregate.Web.Tables.{SessionRow, UserRow, Tables, WebError}
use wiregate.Web.Sessions.{
  Session, get_session, is_null, mark_reauthenticated, revoke_session, touch, create_session,
  is_open,
}
use wiregate.Web.Evolution.{Evolves, Change, stays, changes, opens, Evolves-trans}
use wiregate.Web.Accounts.{change_password, is_other_open, revoke, is_active_id}
use wiregate.Stdlib.Rows.{update_rows, any_row, count_rows}
use wiregate.Web.Lookup.{get_session-Found}

pub record Moves (t u : Tables) : Type 0 where
  pub sessions_evolve : Evolves t.sessions u.sessions
  pub users_stay : length t.users ≤ length u.users

pub Moves-refl : (t : Tables) → Moves t t
Moves-refl t = record { sessions_evolve = stays; users_stay = omega arith }

pub Moves-trans : (t u v : Tables) → Moves t u → Moves u v → Moves t v
Moves-trans t u v p q = record {
  sessions_evolve =
      Evolves-trans t.sessions u.sessions v.sessions p.sessions_evolve q.sessions_evolve;
  users_stay = omega arith;
}

-- Tables of which sessions and users are the same.
pub same-Moves :
    (t u : Tables) → u.sessions ≡ t.sessions → length t.users ≤ length u.users → Moves t u
same-Moves t u e h = record {
  sessions_evolve = subst (Evolves t.sessions) (sym e) stays;
  users_stay = h;
}

pub length-update_rows :
    {A : Type 0} (p : A → Bool) (f : A → A) (xs : List A) → length (update_rows p f xs) ≡ length xs
length-update_rows p f [] = refl
length-update_rows p f (x ∷ xs) = ap suc (length-update_rows p f xs)

pub length-append : {A : Type 0} (xs ys : List A) → length (xs ++ ys) ≡ length xs + length ys
length-append [] ys = omega arith
length-append (x ∷ xs) ys = omega (arith, length-append xs ys)

pub success_eq : (t u : Tables) → ◌≡◌ {A = Fallible WebError Tables} (success t) (success u) → t ≡ u
success_eq t u h = cc

pub touch-Moves : (hash : Bytes) (now : ℕ) (t : Tables) → Moves t (touch hash now t)
unfolding touch
touch-Moves hash now t = record {
  sessions_evolve = changes t.sessions _ _ stays (λ s h. record {
    same_hash = refl;
    same_user = refl;
    same_csrf = refl;
    same_expiry = refl;
    bounded = λ b. ground arith;
    stays_revoked = λ r. refl;
  });
  users_stay = omega arith;
}

pub get_session-Moves :
    (hash : Bytes) (now : ℕ) (t : Tables) (x : Session) (u : Tables)
    → get_session hash now t ≡ success (x, u)
    → Moves t u
get_session-Moves hash now t x u h =
    subst (Moves t) (sym (get_session-Found hash now t x u h).touched) (touch-Moves hash now t)

pub create_session-Moves :
    (user id csrf : Bytes) (expires idle now : ℕ) (t u : Tables)
    → idle ≤ expires
    → create_session user id csrf expires idle now t ≡ success u
    → Moves t u
unfolding create_session
create_session-Moves user id csrf expires idle now t u b h =
    let (_, fresh, h1) =
      bind-success (reject (any_row (λ s. same s.id_hash id) t.sessions) WebError.constraint_failed)
        _ u h in
    let (_, _, h2) =
      bind-success (reject (not (any_row (λ w. same w.id user) t.users)) WebError.constraint_failed)
        _ u h1 in
    subst (Moves t) (success_eq _ u h2) (record {
      sessions_evolve = opens t.sessions _ stays (reject-success _ _ fresh) b;
      users_stay = omega arith;
    })

pub mark_reauthenticated-Moves :
    (id : Bytes) (until : ℕ) (t u : Tables)
    → mark_reauthenticated id until t ≡ success u
    → Moves t u
unfolding mark_reauthenticated
mark_reauthenticated-Moves id until t u h =
    let (_, _, h1) =
      bind-success
        (reject (not (count_rows (is_open id) t.sessions == 1)) WebError.session_unavailable) _ u
        h in
    subst (Moves t) (success_eq _ u h1) (record {
      sessions_evolve = changes t.sessions _ _ stays (λ s o. record {
        same_hash = refl;
        same_user = refl;
        same_csrf = refl;
        same_expiry = refl;
        bounded = λ x. x;
        stays_revoked = λ r. refl;
      });
      users_stay = omega arith;
    })

-- A revocation of open sessions only.
pub revoke-Change :
    (now : ℕ) (s : SessionRow) → is_null s.revoked_at_ms ≡ true → Change s (revoke now s)
revoke-Change now s open_row = record {
  same_hash = refl;
  same_user = refl;
  same_csrf = refl;
  same_expiry = refl;
  bounded = λ x. x;
  stays_revoked = λ r. cc;
}

pub and_right : (a b : Bool) → a && b ≡ true → b ≡ true
and_right a b h = ground arith

pub revoke_session-Moves : (id : Bytes) (now : ℕ) (t : Tables) → Moves t (revoke_session id now t)
unfolding revoke_session is_open
revoke_session-Moves id now t = record {
  sessions_evolve =
      changes t.sessions _ _ stays
        (λ s o. revoke-Change now s (and_right (same s.id_hash id) (is_null s.revoked_at_ms) o));
  users_stay = omega arith;
}

pub change_password-Moves :
    (user current hash : Bytes) (now : ℕ) (t u : Tables)
    → change_password user current hash now t ≡ success u
    → Moves t u
unfolding change_password is_other_open
change_password-Moves user current hash now t u h =
    let (_, _, h1) =
      bind-success
        (reject (not (count_rows (is_active_id user) t.users == 1)) WebError.user_unavailable) _ u
        h in
    subst (Moves t) (success_eq _ u h1) (record {
      sessions_evolve =
          changes (update_rows (is_other_open user current) (revoke now) t.sessions) _ _
            (changes t.sessions _ _ stays (λ s o. revoke-Change now s (
              and_right (same s.user_id user && not (same s.id_hash current))
                (is_null s.revoked_at_ms) o)))
            (λ s o. record {
              same_hash = refl;
              same_user = refl;
              same_csrf = refl;
              same_expiry = refl;
              bounded = λ x. x;
              stays_revoked = λ r. refl;
            });
      users_stay = omega (
        arith,
        length-update_rows (is_active_id user)
            (λ (w : UserRow). record w {
              password_hash = hash;
              password_changed_ms = now;
              updated_at_ms = now;
            })
            t.users,
      );
    })
