-- ===== src/Web/Locks.antt =====
-- Failed logins lock an account (Login of src/internal/web/auth/manager.go, RecordLoginFailure of
-- src/internal/web/repository/auth.go).
use wiregate.Prelude.{
  All, Fallible, Option-cases, [], ◌∷◌, ◌≡◌, failure, ℕ, some, none, refl, true, false, List, Bool,
  ◌≤◌, Bool-cases, inl, ◌<◌, ◌+◌, subst, sym, ap, inr, if_both, ◌&&◌, le→leb, not, arith, ltb,
  lt→ltb, length,
}
use wiregate.Stdlib.Bytes.{Bytes, same, trim_space}
use wiregate.Web.Tables.{UserRow, Tables, WebError, is_active}
use wiregate.Web.Manager.{Crypto, Draws, credentials_valid, ignore, login, login_user, login_as}
use wiregate.Web.Accounts.{
  record_login_failure, count_failure, insert_login_event, with_user, is_named, find_user,
}
use wiregate.Stdlib.Rows.{select_row, update_rows, some_eq, any_row}
use wiregate.Stdlib.Same.{same_refl}
use wiregate.Web.Passwords.{verify_password}
use wiregate.Web.Sessions.{is_locked}

select_row-update :
    (p q : UserRow → Bool) (f : UserRow → UserRow) (xs : List UserRow) (w : UserRow)
    → ((x : UserRow) → p (f x) ≡ p x)
    → select_row p xs ≡ some w
    → q w ≡ true
    → select_row p (update_rows q f xs) ≡ some (f w)
select_row-update p q f [] w keep h e = cc
select_row-update p q f (x ∷ xs) w keep h e = elim (Bool-cases (p x)) [
  | inl a ↦
      let same_row : x ≡ w = some_eq x w (rw a at h) in
      let held : q x ≡ true = subst (λ y. q y ≡ true) (sym same_row) e in
      rw held (rw (keep x) (rw a (ap (λ y. some (f y)) same_row)))
  | inr a ↦
      if_both (λ y. select_row p (y ∷ update_rows q f xs) ≡ some (f w)) (q x) (f x) x
        (rw (keep x) (rw a (select_row-update p q f xs w keep (rw a at h) e)))
        (rw a (select_row-update p q f xs w keep (rw a at h) e))
]

-- A failure is counted for the user of the name.
counted :
    (name request ip : Bytes) (now : ℕ) (event : Bytes) (t : Tables) (w : UserRow)
    → select_row (is_named name) t.users ≡ some w
    → any_row (λ e. same e.event_id event) t.login_events ≡ false
    → select_row (is_named name) (ignore t (record_login_failure name request ip now event t)).users
      ≡ some (count_failure now w)
unfolding record_login_failure insert_login_event with_user is_named count_failure
counted name request ip now event t w h fresh =
    rw (h, record_login_failure)
      (rw (fresh, insert_login_event)
        (select_row-update (is_named name) (λ x. same x.id w.id) (count_failure now) t.users w
          (λ x. refl) h (same_refl w.id)))

not_locked : (a b c : Bool) → c ≡ true → a && b && not c ≡ false
not_locked a b c h = ground arith

refused_for :
    (c : Crypto) (name password request ip : Bytes) (now : ℕ) (d : Draws) (t : Tables) (w : UserRow)
    → login_user name t ≡ some w
    → credentials_valid c (some w) password now ≡ false
    → login c name password request ip now d t ≡ (
      failure WebError.invalid_login,
      ignore t (record_login_failure (trim_space name) request ip now d.draw_event t),
    )
unfolding login login_as
refused_for c name password request ip now d t w h e = rw (h, login) (rw (e, login_as) refl)

none-some : {w : UserRow} → none ≡ some w → ⊥
none-some h = cc

login_user-counted :
    (name request ip : Bytes) (now : ℕ) (event : Bytes) (t : Tables) (w : UserRow)
    → login_user name t ≡ some w
    → any_row (λ e. same e.event_id event) t.login_events ≡ false
    → login_user name (ignore t (record_login_failure (trim_space name) request ip now event t))
      ≡ some (count_failure now w)
unfolding login_user find_user
login_user-counted name request ip now event t w h fresh =
    elim (Bool-cases (ltb 128 (length name))) [
      | inl e ↦ absurd (none-some (rw e at h))
      | inr e ↦ rw e (counted (trim_space name) request ip now event t w (rw e at h) fresh)
    ]

-- An account that is locked up to a time.
record IsLockedFor (name : Bytes) (end : ℕ) (t : Tables) : Type 0 where
  user : UserRow
  found : login_user name t ≡ some user
  failures : 4 ≤ user.failed_login_count
  until : ℕ
  set : user.locked_until_ms ≡ some until
  long_enough : end ≤ until

counted-IsLockedFor :
    (name request ip : Bytes) (now : ℕ) (event : Bytes) (end : ℕ) (t : Tables) (w : UserRow)
    → login_user name t ≡ some w
    → 4 ≤ w.failed_login_count
    → any_row (λ e. same e.event_id event) t.login_events ≡ false
    → end ≤ now + 900000
    → IsLockedFor name end
        (ignore t (record_login_failure (trim_space name) request ip now event t))
unfolding count_failure
counted-IsLockedFor name request ip now event end t w user many fresh h = record {
  user = count_failure now w;
  found = login_user-counted name request ip now event t w user fresh;
  failures = omega (arith, many);
  until = now + 900000;
  set = rw (le→leb 5 (w.failed_login_count + 1) (omega arith)) refl;
  long_enough = h;
}

-- A failure whose event cannot be recorded changes nothing.
taken_event :
    (name request ip : Bytes) (now : ℕ) (event : Bytes) (t : Tables)
    → any_row (λ e. same e.event_id event) t.login_events ≡ true
    → ignore t (record_login_failure name request ip now event t) ≡ t
unfolding record_login_failure insert_login_event with_user
taken_event name request ip now event t taken =
    elim (Option-cases (select_row (is_named name) t.users)) [
      | inl e ↦ rw (e, record_login_failure) (rw (taken, insert_login_event) refl)
      | inr (w, e) ↦ rw (e, record_login_failure) (rw (taken, insert_login_event) refl)
    ]

recorded-IsLockedFor :
    (name request ip : Bytes) (now : ℕ) (event : Bytes) (end : ℕ) (t : Tables)
    → IsLockedFor name end t
    → end ≤ now + 900000
    → IsLockedFor name end
        (ignore t (record_login_failure (trim_space name) request ip now event t))
recorded-IsLockedFor name request ip now event end t k h =
    elim (Bool-cases (any_row (λ e. same e.event_id event) t.login_events)) [
      | inl taken ↦
          subst (IsLockedFor name end)
            (sym (taken_event (trim_space name) request ip now event t taken)) k
      | inr fresh ↦
          counted-IsLockedFor name request ip now event end t k.user k.found k.failures fresh h
    ]

shut :
    (c : Crypto) (w : UserRow) (password : Bytes) (until now : ℕ)
    → w.locked_until_ms ≡ some until
    → now < until
    → credentials_valid c (some w) password now ≡ false
unfolding credentials_valid
shut c w password until now e h =
    not_locked (verify_password c.kdf w.password_hash password) (is_active w)
      (is_locked w.locked_until_ms now) (rw e (lt→ltb now until h))

-- One login under the name.
pub record Attempt : Type 0 where
  pub password : Bytes
  pub request : Bytes
  pub ip : Bytes
  pub at : ℕ
  pub draws : Draws

abbrev pub attempted : Crypto → Bytes → Attempt → Tables → Fallible WebError UserRow × Tables
attempted c name a t = login c name a.password a.request a.ip a.at a.draws t

-- Every login of a series is refused, each on the tables that the one before leaves.
unfoldable pub AllRefused : Crypto → Bytes → List Attempt → Tables → Type 0
AllRefused c name [] t = Unit
AllRefused c name (a ∷ attempts) t =
    ((attempted c name a t).0 ≡ failure WebError.invalid_login)
    × AllRefused c name attempts (attempted c name a t).1

-- The times of a series lie in a span.
abbrev pub Within : ℕ → ℕ → Attempt → Type 0
Within start end a = (start ≤ a.at) × (a.at < end)

locked-AllRefused :
    (c : Crypto) (name : Bytes) (now : ℕ) (attempts : List Attempt) (t : Tables)
    → IsLockedFor name (now + 900000) t
    → All (Within now (now + 900000)) attempts
    → AllRefused c name attempts t
unfolding AllRefused
locked-AllRefused c name now [] t k all = tt
locked-AllRefused c name now (a ∷ attempts) t k all =
    let refused =
      refused_for c name a.password a.request a.ip a.at a.draws t k.user k.found
        (shut c k.user a.password k.until a.at k.set (omega (arith, k.long_enough, all.0.1))) in
    rw refused (
      refl,
      locked-AllRefused c name now attempts
          (ignore t
            (record_login_failure (trim_space name) a.request a.ip a.at a.draws.draw_event t))
          (recorded-IsLockedFor name a.request a.ip a.at a.draws.draw_event (now + 900000) t k
            (omega (arith, all.0.0)))
          all.1,
    )

-- After a fifth failed login in a row, all logins of a series under the name are refused, also with
-- the right password, if their times are within the fifteen minutes after it and no other request
-- comes in between. The identifier drawn for the event of the fifth is new.
pub fifth_failure_locks :
    (c : Crypto) (name password request ip : Bytes) (now : ℕ) (d : Draws) (t : Tables) (w : UserRow)
    → login_user name t ≡ some w
    → 4 ≤ w.failed_login_count
    → credentials_valid c (some w) password now ≡ false
    → any_row (λ e. same e.event_id d.draw_event) t.login_events ≡ false
    → (attempts : List Attempt) → All (Within now (now + 900000)) attempts
    → AllRefused c name attempts (login c name password request ip now d t).1
fifth_failure_locks c name password request ip now d t w user many wrong fresh attempts within =
    rw (refused_for c name password request ip now d t w user wrong) (
      locked-AllRefused c name now attempts
        (ignore t (record_login_failure (trim_space name) request ip now d.draw_event t))
        (counted-IsLockedFor name request ip now d.draw_event (now + 900000) t w user many fresh
          (omega arith))
        within)
