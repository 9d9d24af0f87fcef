-- ===== src/Stdlib/Same.antt =====
-- The test of equality on byte strings decides it.
use wiregate.Prelude.{[], ◌∷◌, refl, ◌≡◌, true, arith}
use wiregate.Stdlib.Bytes.{Bytes, same}

pub same_refl : (s : Bytes) → same s s ≡ true
unfolding same
same_refl [] = refl
same_refl (x ∷ s) = ground (arith, same_refl s)

pub same-eq : (s t : Bytes) → same s t ≡ true → s ≡ t
unfolding same
same-eq [] [] h = refl
same-eq [] (y ∷ t) h = cc
same-eq (x ∷ s) [] h = cc
same-eq (x ∷ s) (y ∷ t) h = ground (arith, same-eq s t)
