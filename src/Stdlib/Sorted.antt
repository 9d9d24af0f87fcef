-- ===== src/Stdlib/Sorted.antt =====
-- What sorting gives: the rows it was given, in order.
use wiregate.Prelude.{
  ◌⊎◌, ◌++◌, [], ◌∷◌, refl, suc, zero, inl, inr, List, ℕ, Bool, All, ◌≡◌, true, false, Bool-cases,
  if_both, take, length, ◌≤◌, ltb, arith, map, ap,
}
use wiregate.Stdlib.Rows.{rows_where}
use wiregate.Stdlib.Sort.{insert_sorted, sort_by}

-- Every element stands in the relation to all after it.
unfoldable pub Ordered : {A : Type 0} → (A → A → Type 0) → List A → Type 0
Ordered R [] = Unit
Ordered R (x ∷ xs) = All (R x) xs × Ordered R xs

never_both : (b : Bool) → b ≡ true → b ≡ false → ⊥
never_both b h e = cc

module _ {A : Type 0} where
  pub All-implies : (P Q : A → Type 0) (xs : List A) → ((x : A) → P x → Q x) → All P xs → All Q xs
  All-implies P Q [] f all = tt
  All-implies P Q (x ∷ xs) f all = (f x all.0, All-implies P Q xs f all.1)

  pub insert_sorted-All :
      (before : A → A → Bool) (P : A → Type 0) (x : A) (xs : List A)
      → P x
      → All P xs
      → All P (insert_sorted before x xs)
  unfolding insert_sorted
  insert_sorted-All before P x [] p all = (p, tt)
  insert_sorted-All before P x (y ∷ xs) p all =
      if_both (All P) (before y x) (y ∷ insert_sorted before x xs) (x ∷ y ∷ xs)
        (all.0, insert_sorted-All before P x xs p all.1) (p, all)

  pub sort_by-All :
      (before : A → A → Bool) (P : A → Type 0) (xs : List A) → All P xs → All P (sort_by before xs)
  unfolding sort_by
  sort_by-All before P [] all = tt
  sort_by-All before P (x ∷ xs) all =
      insert_sorted-All before P x (sort_by before xs) all.0 (sort_by-All before P xs all.1)

  pub All-insert_sorted :
      (before : A → A → Bool) (P : A → Type 0) (x : A) (xs : List A)
      → All P (insert_sorted before x xs)
      → P x × All P xs
  unfolding insert_sorted
  All-insert_sorted before P x [] all = all
  All-insert_sorted before P x (y ∷ xs) all = elim (Bool-cases (before y x)) [
    | inl e ↦
        let here : All P (y ∷ insert_sorted before x xs) = rw e at all in
        let later = All-insert_sorted before P x xs here.1 in (later.0, (here.0, later.1))
    | inr e ↦ rw e at all
  ]

  -- Sorting loses nothing.
  pub All-sort_by :
      (before : A → A → Bool) (P : A → Type 0) (xs : List A) → All P (sort_by before xs) → All P xs
  unfolding sort_by
  All-sort_by before P [] all = tt
  All-sort_by before P (x ∷ xs) all =
      let parts = All-insert_sorted before P x (sort_by before xs) all in
      (parts.0, All-sort_by before P xs parts.1)

  pub rows_where-All : (p : A → Bool) (xs : List A) → All (λ x. p x ≡ true) (rows_where p xs)
  rows_where-All p [] = tt
  rows_where-All p (x ∷ xs) = elim (Bool-cases (p x)) [
    | inl e ↦ rw e (e, rows_where-All p xs)
    | inr e ↦ rw e (rows_where-All p xs)
  ]

  pub All-rows_where :
      (p : A → Bool) (P : A → Type 0) (xs : List A)
      → All P (rows_where p xs)
      → All (λ x. p x ≡ true → P x) xs
  All-rows_where p P [] all = tt
  All-rows_where p P (x ∷ xs) all = elim (Bool-cases (p x)) [
    | inl e ↦
        let here : All P (x ∷ rows_where p xs) = rw e at all in
        (λ h. here.0, All-rows_where p P xs here.1)
    | inr e ↦ (λ h. absurd (never_both (p x) h e), All-rows_where p P xs (rw e at all))
  ]

  pub take-All : (P : A → Type 0) (n : ℕ) (xs : List A) → All P xs → All P (take n xs)
  take-All P zero xs all = tt
  take-All P (suc n) [] all = tt
  take-All P (suc n) (x ∷ xs) all = (all.0, take-All P n xs all.1)

  pub take-Ordered :
      (R : A → A → Type 0) (n : ℕ) (xs : List A) → Ordered R xs → Ordered R (take n xs)
  unfolding Ordered
  take-Ordered R zero xs o = tt
  take-Ordered R (suc n) [] o = tt
  take-Ordered R (suc n) (x ∷ xs) o = (take-All (R x) n xs o.0, take-Ordered R n xs o.1)

  pub length-take_le : (n : ℕ) (xs : List A) → length (take n xs) ≤ n
  length-take_le zero xs = omega arith
  length-take_le (suc n) [] = omega arith
  length-take_le (suc n) (x ∷ xs) = omega (arith, length-take_le n xs)

  -- A list that is longer than what was taken of it fills what was asked for.
  pub take-short : (n : ℕ) (xs : List A) → ltb (length (take n xs)) n ≡ true → take n xs ≡ xs
  take-short zero xs h = ground arith
  take-short (suc n) [] h = refl
  take-short (suc n) (x ∷ xs) h = ap (λ t. x ∷ t) (take-short n xs (ground arith))

  module _ (before : A → A → Bool) (R : A → A → Type 0)
      (trans : (x y z : A) → R x y → R y z → R x z)
      (earlier : (x y : A) → before x y ≡ true → R x y)
      (later : (x y : A) → before x y ≡ false → R y x) where
    insert_sorted-Ordered :
        (x : A) (xs : List A) → Ordered R xs → Ordered R (insert_sorted before x xs)
    unfolding insert_sorted Ordered
    insert_sorted-Ordered x [] o = (tt, tt)
    insert_sorted-Ordered x (y ∷ xs) o = elim (Bool-cases (before y x)) [
      | inl e ↦
          rw e (
            insert_sorted-All before (R y) x xs (earlier y x e) o.0,
            insert_sorted-Ordered x xs o.1,
          )
      | inr e ↦
          rw e
            ((later y x e, All-implies (R y) (R x) xs (λ z r. trans x y z (later y x e) r) o.0), o)
    ]

    pub sort_by-Ordered : (xs : List A) → Ordered R (sort_by before xs)
    unfolding sort_by Ordered
    sort_by-Ordered [] = tt
    sort_by-Ordered (x ∷ xs) = insert_sorted-Ordered x (sort_by before xs) (sort_by-Ordered xs)

pub map-All :
    {A B : Type 0} (f : A → B) (P : B → Type 0) (xs : List A)
    → All (λ x. P (f x)) xs
    → All P (map f xs)
map-All f P [] all = tt
map-All f P (x ∷ xs) all = (all.0, map-All f P xs all.1)

pub map-Ordered :
    {A B : Type 0} (f : A → B) (R : B → B → Type 0) (xs : List A)
    → Ordered (λ x y. R (f x) (f y)) xs
    → Ordered R (map f xs)
unfolding Ordered
map-Ordered f R [] o = tt
map-Ordered f R (x ∷ xs) o = (map-All f (R (f x)) xs o.0, map-Ordered f R xs o.1)

module _ {A : Type 0} where
  All-both :
      (P Q T : A → Type 0) (xs : List A)
      → ((x : A) → P x → Q x → T x)
      → All P xs
      → All Q xs
      → All T xs
  All-both P Q T [] f a b = tt
  All-both P Q T (x ∷ xs) f a b = (f x a.0 b.0, All-both P Q T xs f a.1 b.1)

  pub append-All : (P : A → Type 0) (xs : List A) (y : A) → All P xs → P y → All P (xs ++ (y ∷ []))
  append-All P [] y all p = (p, tt)
  append-All P (x ∷ xs) y all p = (all.0, append-All P xs y all.1 p)

  pub append-Ordered :
      (R : A → A → Type 0) (xs : List A) (y : A)
      → Ordered R xs
      → All (λ x. R x y) xs
      → Ordered R (xs ++ (y ∷ []))
  unfolding Ordered
  append-Ordered R [] y o all = (tt, tt)
  append-Ordered R (x ∷ xs) y o all =
      (append-All (R x) xs y o.0 all.0, append-Ordered R xs y o.1 all.1)

  -- Two relations together imply a third.
  pub Ordered-both :
      (R S T : A → A → Type 0) (xs : List A)
      → ((x y : A) → R x y → S x y → T x y)
      → Ordered R xs
      → Ordered S xs
      → Ordered T xs
  unfolding Ordered
  Ordered-both R S T [] f o q = tt
  Ordered-both R S T (x ∷ xs) f o q =
      (All-both (R x) (S x) (T x) xs (f x) o.0 q.0, Ordered-both R S T xs f o.1 q.1)

  module _ (before : A → A → Bool) (R : A → A → Type 0) (swap : (x y : A) → R x y → R y x) where
    insert_sorted-pairs :
        (x : A) (xs : List A) → All (R x) xs → Ordered R xs → Ordered R (insert_sorted before x xs)
    unfolding insert_sorted Ordered
    insert_sorted-pairs x [] all o = (tt, tt)
    insert_sorted-pairs x (y ∷ xs) all o =
        if_both (Ordered R) (before y x) (y ∷ insert_sorted before x xs) (x ∷ y ∷ xs)
          (
            insert_sorted-All before (R y) x xs (swap x y all.0) o.0,
            insert_sorted-pairs x xs all.1 o.1,
          )
          (all, o)

    -- Sorting keeps a relation between any two that has no direction.
    pub sort_by-pairs : (xs : List A) → Ordered R xs → Ordered R (sort_by before xs)
    unfolding sort_by Ordered
    sort_by-pairs [] o = tt
    sort_by-pairs (x ∷ xs) o =
        insert_sorted-pairs x (sort_by before xs) (sort_by-All before (R x) xs o.0)
          (sort_by-pairs xs o.1)

module _ {A : Type 0} where
  All-every : (P : A → Type 0) (xs : List A) → ((x : A) → P x) → All P xs
  All-every P [] f = tt
  All-every P (x ∷ xs) f = (f x, All-every P xs f)

  -- As many as were asked for come before the element.
  unfoldable pub Follows : (A → A → Type 0) → ℕ → List A → A → Type 0
  Follows R n first x = (n ≤ length first) × All (λ y. R y x) first

  Follows-cons :
      (R : A → A → Type 0) (Q : A → Type 0) (n : ℕ) (first : List A) (x y : A)
      → R x y
      → Q y ⊎ Follows R n first y
      → Q y ⊎ Follows R (suc n) (x ∷ first) y
  unfolding Follows
  Follows-cons R Q n first x y r (inl q) = inl q
  Follows-cons R Q n first x y r (inr (l, later)) = inr (omega (arith, l), (r, later))

  -- An element of a list in order is among the first ones, or follows as many as were asked for.
  pub take-rest :
      (R : A → A → Type 0) (Q : A → Type 0) (n : ℕ) (xs : List A)
      → Ordered R xs
      → All Q (take n xs)
      → All (λ x. Q x ⊎ Follows R n (take n xs) x) xs
  unfolding Ordered Follows
  take-rest R Q zero xs o all =
      All-every (λ x. Q x ⊎ Follows R zero (take zero xs) x) xs (λ x. inr (omega arith, tt))
  take-rest R Q (suc n) [] o all = tt
  take-rest R Q (suc n) (x ∷ xs) o all = (
    inl all.0,
    All-both (R x) (λ y. Q y ⊎ Follows R n (take n xs) y)
        (λ y. Q y ⊎ Follows R (suc n) (take (suc n) (x ∷ xs)) y) xs
        (λ y. Follows-cons R Q n (take n xs) x y) o.0 (take-rest R Q n xs o.1 all.1),
  )
