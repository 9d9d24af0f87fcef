-- ===== src/Web/Tests.antt =====
-- Runs of the theorems on a small database.
use wiregate.Prelude.{
  [], ◌∷◌, ◌≡◌, ◌≢◌, success, failure, ℕ, some, none, refl, true, false, All, arith,
}
use wiregate.Stdlib.Bytes.{split, Bytes, same, codes}
use wiregate.Web.Tables.{UserRow, SessionRow, Tables, WebError}
use wiregate.Web.Manager.{
  Crypto, Request, Principal, Draws, require, login, credentials_valid, login_user, bootstrap,
  authenticate, logout,
}
use wiregate.Web.Sessions.{Session, get_session}
use wiregate.Stdlib.Rows.{any_row}
use wiregate.Web.Grants.{Granted, require-Granted}
use wiregate.Web.Revocations.{change_password_revokes}
use wiregate.Web.Accounts.{change_password}
use wiregate.Web.PasswordLaws.{Verified, verify_password-Verified}
use wiregate.Web.Roles.{allowed, member}
use wiregate.Web.Evolution.{IsBounded}
use wiregate.Web.Passwords.{verify_password}
use wiregate.Web.Bootstrap.{bootstrap_once}
use wiregate.Web.Locks.{Attempt, AllRefused, fifth_failure_locks}
use wiregate.Web.RoleLaws.{role_order, interface_changes-admin}
use wiregate.Web.Access.{Run-IsBounded, logout_final}
use wiregate.Web.Runs.{start, then_step, logs_in}

-- A derivation that gives back the password, and tokens that are their own hashes.
abbrev plain : Crypto
plain = record { hash_token = λ s. s; kdf = λ password salt t m p n. password }

abbrev secret : Bytes
secret = codes "abcdefghijklmnop"

abbrev stored : Bytes
stored = codes "$argon2id$v=19$m=19456,t=2,p=1$MDEyMzQ1Njc4OWFiY2RlZg$YWJjZGVmZ2hpamtsbW5vcA"

abbrev alice : UserRow
alice = record {
  id = codes "u1";
  username = codes "Alice";
  display_name = codes "Alice";
  password_hash = stored;
  role = codes "admin";
  status = codes "active";
  failed_login_count = 4;
  locked_until_ms = none;
  password_changed_ms = 1;
  user_created_ms = 1;
  updated_at_ms = 1;
}

abbrev laptop : SessionRow
laptop = record {
  id_hash = codes "s1";
  user_id = codes "u1";
  csrf_hash = codes "x1";
  reauth_until_ms = none;
  expires_at_ms = 5000;
  idle_expires_at_ms = 2000;
  last_seen_at_ms = 200;
  created_at_ms = 100;
  revoked_at_ms = none;
}

abbrev phone : SessionRow
phone = record laptop { id_hash = codes "s2" }

abbrev office : Tables
office = record {
  users = alice ∷ [];
  sessions = laptop ∷ phone ∷ [];
  bootstrap_state = none;
  login_events = [];
  audit_events = [];
}

abbrev fresh : Tables
fresh = record {
  users = [];
  sessions = [];
  bootstrap_state = some (record {
    token_hash = codes "t";
    token_expires_ms = 900;
    consumed_at_ms = none;
    token_created_ms = 1;
  });
  login_events = [];
  audit_events = [];
}

abbrev draws : Draws
draws = record { session_token = codes "s3"; csrf_draw = codes "x3"; draw_event = codes "e1" }

Run-IsBounded_example :
    All IsBounded
      (login plain (codes "alice") secret (codes "r") (codes "ip") 300 draws office).1.sessions
Run-IsBounded_example =
    Run-IsBounded plain office
      (login plain (codes "alice") secret (codes "r") (codes "ip") 300 draws office).1
      (then_step office _ start
        (logs_in (codes "alice") secret (codes "r") (codes "ip") 300 draws refl))
      (omega arith)

abbrev page : Request
page = record {
  cookie = codes "s1";
  csrf_token = codes "x1";
  origin = codes "https://gate";
  tls = true;
  host = codes "gate";
}

abbrev alice_here : Principal
alice_here = record {
  principal_user = alice;
  session_hash = codes "s1";
  csrf = codes "x1";
  reauth = none;
}

laptop_known :
    any_row (λ (s : SessionRow). same s.id_hash alice_here.session_hash) office.sessions ≡ true
unfolding same
laptop_known = refl

logout_final_example :
    authenticate plain page 400 (logout alice_here 300 office) ≡ failure WebError.unauthenticated
logout_final_example =
    logout_final plain alice_here 300 400 office (logout alice_here 300 office) page laptop_known
      start refl

page_passes : (require plain page (codes "interface:manage") true 300 office).0 ≡ success alice_here
unfolding require
page_passes = refl

require-Granted_example : Granted plain page (codes "interface:manage") true 300 office
require-Granted_example =
    require-Granted plain page (codes "interface:manage") true 300 office alice_here page_passes

abbrev first_admin : UserRow
first_admin = record alice {
  id = codes "u9";
  username = codes "root";
  display_name = codes "Root";
  failed_login_count = 0;
  password_changed_ms = 500;
  user_created_ms = 500;
  updated_at_ms = 500;
}

abbrev first_tables : Tables
first_tables = record fresh {
  users = first_admin ∷ [];
  bootstrap_state = some (record {
    token_hash = codes "t";
    token_expires_ms = 900;
    consumed_at_ms = some 500;
    token_created_ms = 1;
  });
  audit_events =
      (record {
        audit_id = codes "a1";
        actor_user_id = some (codes "u9");
        action = codes "bootstrap_admin";
        target_id = codes "u9";
        request_id = codes "r";
        details = none;
        audit_ms = 500;
      })
      ∷ [];
}

bootstrapped :
    bootstrap plain
      (codes "t")
      (codes " root")
      (codes "Root")
      secret
      (codes "r")
      500
      (codes "0123456789abcdef")
      (codes "u9")
      (codes "a1")
      fresh
    ≡ success (first_admin, first_tables)
unfolding bootstrap
bootstrapped = refl

bootstrap_once_example :
    (fresh.users ≡ [])
    × ((token' name' display' password' request' : Bytes) (now' : ℕ) (salt' id' audit' : Bytes)
          (other : UserRow) (w : Tables)
        → bootstrap plain token' name' display' password' request' now' salt' id' audit'
            first_tables
          ≢ success (other, w))
bootstrap_once_example =
    bootstrap_once plain (codes "t") (codes " root") (codes "Root") secret (codes "r") 500
      (codes "0123456789abcdef") (codes "u9") (codes "a1") fresh first_admin first_tables
      bootstrapped first_tables start

alice_found : login_user (codes " ALICE") office ≡ some alice
unfolding login_user
alice_found = refl

wrong_password : credentials_valid plain (some alice) (codes "guess") 300 ≡ false
unfolding credentials_valid
wrong_password = refl

abbrev attempt : ℕ → Attempt
attempt at = record {
  password = secret;
  request = codes "r2";
  ip = codes "ip";
  at = at;
  draws = draws;
}

fifth_failure_locks_example :
    AllRefused plain
      (codes " ALICE")
      (attempt 400 ∷ attempt 900299 ∷ [])
      (login plain (codes " ALICE") (codes "guess") (codes "r") (codes "ip") 300 draws office).1
fifth_failure_locks_example =
    fifth_failure_locks plain (codes " ALICE") (codes "guess") (codes "r") (codes "ip") 300 draws
      office alice alice_found (omega arith) wrong_password refl (attempt 400 ∷ attempt 900299 ∷ [])
      ((omega arith, omega arith), ((omega arith, omega arith), tt))

abbrev changed : Tables
changed = record office {
  users =
      record alice { password_hash = codes "new"; password_changed_ms = 300; updated_at_ms = 300 }
      ∷ [];
  sessions =
      record laptop { reauth_until_ms = some 300300 }
      ∷ record phone { revoked_at_ms = some 300 }
      ∷ [];
}

abbrev touched : Tables
touched = record changed {
  sessions =
      record laptop {
        reauth_until_ms = some 300300;
        last_seen_at_ms = 400;
        idle_expires_at_ms = 5000;
      }
      ∷ record phone { revoked_at_ms = some 300 }
      ∷ [];
}

abbrev current : Session
current = record {
  user = record alice {
    password_hash = codes "new";
    password_changed_ms = 300;
    updated_at_ms = 300;
  };
  session_csrf = codes "x1";
  reauth_until = some 300300;
}

password_changed :
    change_password (codes "u1") (codes "s1") (codes "new") 300 office ≡ success changed
unfolding change_password
password_changed = refl

laptop_stays : get_session (codes "s1") 400 changed ≡ success (current, touched)
unfolding get_session
laptop_stays = refl

change_password_revokes_example : codes "s1" ≡ codes "s1"
change_password_revokes_example =
    change_password_revokes (codes "u1") (codes "s1") (codes "new") 300 office changed (codes "s1")
      400 current touched password_changed laptop_stays refl

role_order_example :
    (allowed (codes "viewer") (codes "client:view") ≡ true
      → allowed (codes "auditor") (codes "client:view") ≡ true)
    × (allowed (codes "auditor") (codes "client:view") ≡ true
        → allowed (codes "operator") (codes "client:view") ≡ true)
    × (allowed (codes "operator") (codes "client:view") ≡ true
        → allowed (codes "admin") (codes "client:view") ≡ true)
role_order_example = role_order (codes "client:view")

interface_changes-admin_example : codes "admin" ≡ codes "admin"
unfolding allowed member
interface_changes-admin_example =
    interface_changes-admin (codes "admin") (codes "interface:manage") refl refl

secret_accepted : verify_password plain.kdf stored secret ≡ true
unfolding verify_password
secret_accepted = refl

verify_password-Verified_example : Verified plain.kdf (split 36 stored) secret
verify_password-Verified_example = verify_password-Verified plain.kdf stored secret secret_accepted
