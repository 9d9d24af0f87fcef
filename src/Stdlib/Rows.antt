-- ===== src/Stdlib/Rows.antt =====
-- Tables of a database as lists of rows, with what the statements that the repositories run do to
-- them: SELECT of one row, UPDATE and COUNT under a condition.
use mathlib.Core.Path.{subst}
use wiregate.Prelude.{
  [], ◌∷◌, none, some, refl, suc, inl, inr, List, ℕ, Bool, Option, All, ◌≡◌, true, false,
  if◌then◌else◌, ◌||◌, Bool-cases, arith,
}

module _ {A : Type 0} where
  -- The first row that meets the condition.
  abbrev pub select_row : (A → Bool) → List A → Option A
  select_row p [] = none
  select_row p (r ∷ rs) = let rest = select_row p rs in if p r then some r else rest

  abbrev pub update_rows : (A → Bool) → (A → A) → List A → List A
  update_rows p f [] = []
  update_rows p f (r ∷ rs) = (if p r then f r else r) ∷ update_rows p f rs

  abbrev pub count_rows : (A → Bool) → List A → ℕ
  count_rows p [] = 0
  count_rows p (r ∷ rs) = let n = count_rows p rs in if p r then suc n else n

  abbrev pub rows_where : (A → Bool) → List A → List A
  rows_where p [] = []
  rows_where p (r ∷ rs) = let rest = rows_where p rs in if p r then r ∷ rest else rest

  abbrev pub any_row : (A → Bool) → List A → Bool
  any_row p [] = false
  any_row p (r ∷ rs) = p r || any_row p rs

  pub some_eq : (x r : A) → some x ≡ some r → x ≡ r
  some_eq x r h = cc

  pub select_row-All :
      (p : A → Bool) (Q : A → Type 0) (rs : List A) (r : A)
      → All Q rs
      → select_row p rs ≡ some r
      → (p r ≡ true) × Q r
  select_row-All p Q [] r all h = cc
  select_row-All p Q (x ∷ rs) r all h = elim (Bool-cases (p x)) [
    | inl e ↦ subst (λ y. (p y ≡ true) × Q y) (some_eq x r (rw e at h)) (e, all.0)
    | inr e ↦ select_row-All p Q rs r all.1 (rw e at h)
  ]

  -- An update keeps what its change keeps.
  pub update_rows-All :
      (p : A → Bool) (f : A → A) (Q : A → Type 0) (rs : List A)
      → ((r : A) → p r ≡ true → Q r → Q (f r))
      → All Q rs
      → All Q (update_rows p f rs)
  update_rows-All p f Q [] keep all = tt
  update_rows-All p f Q (r ∷ rs) keep all = elim (Bool-cases (p r)) [
    | inl e ↦ rw e (keep r e all.0, update_rows-All p f Q rs keep all.1)
    | inr e ↦ rw e (all.0, update_rows-All p f Q rs keep all.1)
  ]

  pub any_row-select_row :
      (p : A → Bool) (rs : List A) → select_row p rs ≡ none → any_row p rs ≡ false
  any_row-select_row p [] h = refl
  any_row-select_row p (r ∷ rs) h = ground (arith, any_row-select_row p rs)

  pub select_row-none :
      (p : A → Bool) (rs : List A) → All (λ r. p r ≡ false) rs → select_row p rs ≡ none
  select_row-none p [] all = refl
  select_row-none p (r ∷ rs) all = rw all.0 (select_row-none p rs all.1)

  -- What every changed and every unchanged row fulfils.
  pub update_rows-every :
      (p : A → Bool) (f : A → A) (Q : A → Type 0) (rs : List A)
      → ((r : A) → Q (if p r then f r else r))
      → All Q (update_rows p f rs)
  update_rows-every p f Q [] h = tt
  update_rows-every p f Q (r ∷ rs) h = (h r, update_rows-every p f Q rs h)

  pub any_row-All : (p : A → Bool) (rs : List A) → any_row p rs ≡ false → All (λ r. p r ≡ false) rs
  any_row-All p [] h = tt
  any_row-All p (r ∷ rs) h = (ground arith, any_row-All p rs (ground arith))

  pub All-any_row : (p : A → Bool) (rs : List A) → All (λ r. p r ≡ false) rs → any_row p rs ≡ false
  All-any_row p [] all = refl
  All-any_row p (r ∷ rs) all = rw all.0 (All-any_row p rs all.1)
