-- ===== src/Prelude/Lists.antt =====
-- Lists measured and indexed by native numbers, and predicates on their elements.
use Prim.Native.Nat.{ℕ, zero, suc}
use mathlib.Core.Path.{◌≡◌, refl, ap}
use mathlib.Core.Bool.{Bool, false, ◌||◌}
use mathlib.Core.Option.{Option, none, some}
use mathlib.Core.List.{List, [], ◌∷◌, map}

module _ {ℓ} {A : Type ℓ} where
  abbrev pub length : List A → ℕ
  length [] = 0
  length (x ∷ xs) = suc (length xs)

  abbrev pub get_elem? : List A → ℕ → Option A
  get_elem? [] i = none
  get_elem? (x ∷ xs) zero = some x
  get_elem? (x ∷ xs) (suc i) = get_elem? xs i

  abbrev pub take : ℕ → List A → List A
  take zero xs = []
  take (suc n) [] = []
  take (suc n) (x ∷ xs) = x ∷ take n xs

  abbrev pub drop : ℕ → List A → List A
  drop zero xs = xs
  drop (suc n) [] = []
  drop (suc n) (x ∷ xs) = drop n xs

-- Every element satisfies the predicate.
abbrev pub All {ℓ κ} : {A : Type ℓ} → (A → Type κ) → List A → Type κ
All P [] = Unit
All P (x ∷ xs) = P x × All P xs

-- The lists have one length, and the relation holds position by position.
abbrev pub AllPairs {ℓ} : {A B : Type ℓ} → (A → B → Type 0) → List A → List B → Type 0
AllPairs R [] [] = Unit
AllPairs R [] (y ∷ ys) = ⊥
AllPairs R (x ∷ xs) [] = ⊥
AllPairs R (x ∷ xs) (y ∷ ys) = R x y × AllPairs R xs ys

module _ {ℓ} {A : Type ℓ} (R : A → A → Type 0) where
  pub AllPairs-refl : ((a : A) → R a a) → (xs : List A) → AllPairs R xs xs
  AllPairs-refl here [] = tt
  AllPairs-refl here (x ∷ xs) = (here x, AllPairs-refl here xs)

  pub AllPairs-trans :
      ((a b c : A) → R a b → R b c → R a c)
      → (xs ys zs : List A) → AllPairs R xs ys
      → AllPairs R ys zs
      → AllPairs R xs zs
  AllPairs-trans chain [] [] [] p q = tt
  AllPairs-trans chain [] [] (z ∷ zs) p q = q
  AllPairs-trans chain [] (y ∷ ys) zs p q = absurd p
  AllPairs-trans chain (x ∷ xs) [] zs p q = absurd p
  AllPairs-trans chain (x ∷ xs) (y ∷ ys) [] p q = q
  AllPairs-trans chain (x ∷ xs) (y ∷ ys) (z ∷ zs) p q =
      (chain x y z p.0 q.0, AllPairs-trans chain xs ys zs p.1 q.1)

-- `slices.Contains` under a given test for equality.
abbrev pub contains_by {ℓ} : {A : Type ℓ} → (A → A → Bool) → List A → A → Bool
contains_by same [] x = false
contains_by same (y ∷ ys) x = same x y || contains_by same ys x

pub length-map {ℓ κ} :
    {A : Type ℓ} {B : Type κ} (xs : List A) (f : A → B) → length (map f xs) ≡ length xs
length-map [] f = refl
length-map (x ∷ xs) f = ap suc (length-map xs f)
