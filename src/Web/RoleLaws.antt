-- ===== src/Web/RoleLaws.antt =====
-- How the roles compare (Allowed of src/internal/web/auth/manager.go).
use wiregate.Prelude.{
  [], ◌∷◌, List, Bool, ◌≡◌, refl, true, false, inl, inr, not, Bool-cases, ◌&&◌, subst, arith,
  if_both,
}
use wiregate.Stdlib.Bytes.{Bytes, codes, same}
use wiregate.Web.Roles.{allowed, permissions, member}
use wiregate.Stdlib.Same.{same-eq}

all_in : List Bytes → List Bytes → Bool
all_in [] ys = true
all_in (x ∷ xs) ys = member x ys && all_in xs ys

none_in : List Bytes → List Bytes → Bool
none_in [] ys = true
none_in (x ∷ xs) ys = not (member x ys) && none_in xs ys

member-all_in :
    (p : Bytes) (xs ys : List Bytes) → all_in xs ys ≡ true → member p xs ≡ true → member p ys ≡ true
unfolding member all_in
member-all_in p [] ys a h = cc
member-all_in p (x ∷ xs) ys a h = elim (Bool-cases (same x p)) [
  | inl e ↦ subst (λ y. member y ys ≡ true) (same-eq x p e) (ground arith)
  | inr e ↦ member-all_in p xs ys (ground arith) (rw e at h)
]

member-none_in :
    (p : Bytes) (xs ys : List Bytes)
    → none_in xs ys ≡ true
    → member p xs ≡ true
    → member p ys ≡ false
unfolding member none_in
member-none_in p [] ys a h = cc
member-none_in p (x ∷ xs) ys a h = elim (Bool-cases (same x p)) [
  | inl e ↦ subst (λ y. member y ys ≡ false) (same-eq x p e) (ground arith)
  | inr e ↦ member-none_in p xs ys (ground arith) (rw e at h)
]

-- What an administrator alone may do.
abbrev pub interface_changes : List Bytes
interface_changes =
    codes "interface:adopt" ∷ codes "interface:create" ∷ codes "interface:manage" ∷ []

-- Every permission of a viewer is one of an auditor, every one of an auditor is one of an operator,
-- and every one of an operator is one of an administrator.
pub role_order :
    (permission : Bytes)
    → (allowed (codes "viewer") permission ≡ true → allowed (codes "auditor") permission ≡ true)
      × (allowed (codes "auditor") permission ≡ true → allowed (codes "operator") permission ≡ true)
      × (allowed (codes "operator") permission ≡ true → allowed (codes "admin") permission ≡ true)
unfolding allowed all_in
role_order permission = (
  member-all_in permission (permissions (codes "viewer")) (permissions (codes "auditor")) refl,
  member-all_in permission (permissions (codes "auditor")) (permissions (codes "operator")) refl,
  member-all_in permission (permissions (codes "operator")) (permissions (codes "admin")) refl,
)

not_both : (b : Bool) → b ≡ true → b ≡ false → ⊥
not_both b p q = cc

permissions-none_in :
    (role : Bytes)
    → same role (codes "admin") ≡ false
    → none_in (permissions role) interface_changes ≡ true
unfolding permissions none_in member
permissions-none_in role e =
    let Harmless : List Bytes → Type 0 = λ xs. none_in xs interface_changes ≡ true in
    rw (e, permissions)
      (if_both Harmless (same role (codes "operator")) _ _ refl (
        if_both Harmless (same role (codes "viewer")) _ _ refl
          (if_both Harmless (same role (codes "auditor")) _ _ refl refl)))

-- Only an administrator may adopt, create or manage an interface.
pub interface_changes-admin :
    (role permission : Bytes)
    → member permission interface_changes ≡ true
    → allowed role permission ≡ true
    → role ≡ codes "admin"
unfolding allowed none_in
interface_changes-admin role permission h a = elim (Bool-cases (same role (codes "admin"))) [
  | inl e ↦ same-eq role (codes "admin") e
  | inr e ↦ absurd (
      not_both (member permission interface_changes) h (
        member-none_in permission (permissions role) interface_changes (permissions-none_in role e)
          a))
]
