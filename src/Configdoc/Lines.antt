-- ===== src/Configdoc/Lines.antt =====
-- The lines of a text that is put together from parts
-- (splitLines of internal/agent/configdoc/document.go).
use wiregate.Prelude.{
  All, subst, [], ◌∷◌, refl, List, ◌≡◌, ℕ, ◌++◌, ◌∙◌, ◌==◌, ap, sym, inl, inr, Bool-cases, false,
}
use wiregate.Stdlib.Bytes.{Bytes}
use wiregate.Configdoc.Nodes.{split_lines, join_line}

-- The text ends with a line feed.
pub record IsEnded (s : Bytes) : Type 0 where
  pub before : Bytes
  pub feed : s ≡ before ++ (10 ∷ [])

join_line-append :
    (b : ℕ) (line : Bytes) (xs ys : List Bytes)
    → join_line b ((line ∷ xs) ++ ys) ≡ join_line b (line ∷ xs) ++ ys
join_line-append b line xs ys = refl

-- A text with a line feed at its end has a line.
first_line :
    (s : Bytes) → (line : Bytes) × (xs : List Bytes) × (split_lines (s ++ (10 ∷ [])) ≡ line ∷ xs)
unfolding split_lines
first_line [] = (10 ∷ [], [], refl)
first_line (b ∷ s) = elim (Bool-cases (b == 10)) [
  | inl e ↦ (b ∷ [], split_lines (s ++ (10 ∷ [])), rw e refl)
  | inr e ↦ let (line, xs, h) = first_line s in (b ∷ line, xs, rw e (ap (join_line b) h))
]

split_lines-feed :
    (s t : Bytes)
    → split_lines ((s ++ (10 ∷ [])) ++ t) ≡ split_lines (s ++ (10 ∷ [])) ++ split_lines t
unfolding split_lines
split_lines-feed [] t = refl
split_lines-feed (b ∷ s) t = elim (Bool-cases (b == 10)) [
  | inl e ↦ rw e (ap (λ x. (b ∷ []) ∷ x) (split_lines-feed s t))
  | inr e ↦
      let (line, xs, h) = first_line s in
      rw e (
        ap (join_line b) (split_lines-feed s t)
        ∙ ap (λ x. join_line b (x ++ split_lines t)) h
        ∙ join_line-append b line xs (split_lines t)
        ∙ sym (ap (λ x. join_line b x ++ split_lines t) h))
]

-- The lines of a text that ends with a line feed stay as they are before any other text.
pub split_lines-IsEnded :
    (s t : Bytes) → IsEnded s → split_lines (s ++ t) ≡ split_lines s ++ split_lines t
split_lines-IsEnded s t h =
    subst (λ x. split_lines (x ++ t) ≡ split_lines x ++ split_lines t) (sym h.feed)
      (split_lines-feed h.before t)

-- No line feed is in the text.
unfoldable pub NoFeed : Bytes → Type 0
NoFeed = All (λ c. (c == 10) ≡ false)

-- A line in front of a text.
pub split_lines-line :
    (s t : Bytes) → NoFeed s → split_lines (s ++ (10 ∷ t)) ≡ (s ++ (10 ∷ [])) ∷ split_lines t
unfolding split_lines NoFeed
split_lines-line [] t h = refl
split_lines-line (b ∷ s) t h = rw h.0 (ap (join_line b) (split_lines-line s t h.1))

pub NoFeed-append : (s t : Bytes) → NoFeed s → NoFeed t → NoFeed (s ++ t)
unfolding NoFeed
NoFeed-append [] t a b = b
NoFeed-append (x ∷ s) t a b = (a.0, NoFeed-append s t a.1 b)
