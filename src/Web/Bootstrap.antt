-- ===== src/Web/Bootstrap.antt =====
-- The first administrator is made once (BootstrapAdmin of src/internal/web/repository/auth.go).
use wiregate.Prelude.{List, refl, ◌≢◌, [], ◌∷◌, ◌≡◌, success, ℕ, length, arith, ap}
use wiregate.Stdlib.Bytes.{Bytes}
use wiregate.Web.Tables.{UserRow, Tables}
use wiregate.Web.Manager.{Crypto, bootstrap}
use wiregate.Web.Runs.{Run, bootstrap-Bootstrapped, Run-Moves}
use wiregate.Web.Moves.{length-append}

empty_of : (xs : List UserRow) → length xs ≡ 0 → xs ≡ []
empty_of [] h = refl
empty_of (x ∷ xs) h = absurd (omega arith)

-- After a bootstrap that succeeded, whatever requests follow, no bootstrap succeeds again, whatever
-- its token and its other arguments; and before it there was no user.
pub bootstrap_once :
    (c : Crypto) (token name display password request : Bytes) (now : ℕ) (salt id audit : Bytes)
    (t : Tables) (admin : UserRow) (u : Tables)
    → bootstrap c token name display password request now salt id audit t ≡ success (admin, u)
    → (v : Tables) → Run c u v
    → (t.users ≡ [])
      × ((token' name' display' password' request' : Bytes) (now' : ℕ) (salt' id' audit' : Bytes)
            (other : UserRow) (w : Tables)
          → bootstrap c token' name' display' password' request' now' salt' id' audit' v
            ≢ success (other, w))
bootstrap_once c token name display password request now salt id audit t admin u h v run =
    let first =
      bootstrap-Bootstrapped c token name display password request now salt id audit t admin u h in
    (
      empty_of t.users first.none_before,
      λ token' name' display' password' request' now' salt' id' audit' other w again.
          let second =
            bootstrap-Bootstrapped c token' name' display' password' request' now' salt' id' audit'
              v other w again in
          absurd (
            omega (
              arith,
              second.none_before,
              (Run-Moves c u v run).users_stay,
              ap (length {A = UserRow}) first.admin_added,
              length-append t.users (admin ∷ []),
            )),
    )
