-- ===== src/Stdlib/Sort.antt =====
-- Sorting by an order, as ORDER BY of a query and sort.Slice do it.
use wiregate.Prelude.{List, [], ◌∷◌, Bool, if◌then◌else◌}

module _ {A : Type 0} (before : A → A → Bool) where
  -- Into a sorted list, behind what is before it.
  unfoldable pub insert_sorted : A → List A → List A
  insert_sorted x [] = x ∷ []
  insert_sorted x (y ∷ ys) =
      let rest = insert_sorted x ys in if before y x then y ∷ rest else x ∷ y ∷ ys

  unfoldable pub sort_by : List A → List A
  unfolding insert_sorted
  sort_by [] = []
  sort_by (x ∷ xs) = insert_sorted x (sort_by xs)
