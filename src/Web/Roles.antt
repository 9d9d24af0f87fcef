-- ===== src/Web/Roles.antt =====
-- The permissions of the roles (Allowed of src/internal/web/auth/manager.go).
use wiregate.Prelude.{[], ◌∷◌, List, Bool, false, ◌||◌, if◌then◌else◌}
use wiregate.Stdlib.Bytes.{Bytes, codes, same}

unfoldable pub member : Bytes → List Bytes → Bool
unfolding same
member s [] = false
member s (x ∷ xs) = same x s || member s xs

-- The permissions that the map gives a role; a missing key has the empty map.
unfoldable pub permissions : Bytes → List Bytes
unfolding same
permissions role =
    if same role (codes "admin")
    then codes "interface:view"
      ∷ codes "interface:adopt"
      ∷ codes "interface:create"
      ∷ codes "interface:manage"
      ∷ codes "client:view"
      ∷ codes "client:manage"
      ∷ codes "client:export-secret"
      ∷ codes "diagnostic:view"
      ∷ codes "operation:view"
      ∷ codes "audit:view"
      ∷ []
    else if same role (codes "operator")
    then codes "interface:view"
      ∷ codes "client:view"
      ∷ codes "client:manage"
      ∷ codes "client:export-secret"
      ∷ codes "diagnostic:view"
      ∷ codes "operation:view"
      ∷ codes "audit:view"
      ∷ []
    else if same role (codes "viewer")
    then codes "interface:view" ∷ codes "client:view" ∷ codes "diagnostic:view" ∷ []
    else if same role (codes "auditor")
    then codes "interface:view"
      ∷ codes "client:view"
      ∷ codes "diagnostic:view"
      ∷ codes "operation:view"
      ∷ codes "audit:view"
      ∷ []
    else []

unfoldable pub allowed : Bytes → Bytes → Bool
unfolding permissions member
allowed role permission = member permission (permissions role)
