-- ===== src/Prelude/Failures.antt =====
-- Results of fallible code: an error as a value, or a value.
use mathlib.Core.Path.{◌≡◌, refl}
use mathlib.Core.Bool.{Bool, true, false}

pub data Fallible (E : Type 0) (A : Type 0) : Type 0 where
  failure : E → Fallible E A
  success : A → Fallible E A

module _ {E A B : Type 0} where
  infixl 5 ◌>>=◌
  abbrev pub ◌>>=◌ : Fallible E A → (A → Fallible E B) → Fallible E B
  failure e >>= f = failure e
  success a >>= f = f a

-- A guard clause: on a true condition the error is returned.
abbrev pub reject : {E : Type 0} → Bool → E → Fallible E Unit
reject true e = failure e
reject false e = success tt

module _ {E A B : Type 0} where
  -- The first part of a chain that succeeded did.
  pub bind-success :
      (m : Fallible E A) (f : A → Fallible E B) (b : B)
      → m >>= f ≡ success b
      → (a : A) × (m ≡ success a) × (f a ≡ success b)
  bind-success (failure e) f b h = cc
  bind-success (success a) f b h = (a, refl, h)

pub reject-success : {E : Type 0} (b : Bool) (e : E) → reject b e ≡ success tt → b ≡ false
reject-success true e h = cc
reject-success false e h = refl
