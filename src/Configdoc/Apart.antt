-- ===== src/Configdoc/Apart.antt =====
-- What is appended stands apart: its lines follow a blank line (AddPeer and RestorePeerBlock of
-- internal/agent/configdoc/document.go).
use mathlib.Core.List.{reverse-append, reverse-reverse, append_assoc}
use wiregate.Prelude.{
  if_both, reverse, inl, inr, Bool-cases, [], ◌∷◌, refl, ◌≡◌, ℕ, ◌++◌, ◌∙◌, ◌==◌, ap, ap₂, sym,
  subst, inl, inr, Bool, true, All, ◌⊎◌, arith, reverse, ◌&&◌, append-nil, false,
}
use wiregate.Stdlib.Bytes.{contains, same, has_suffix, Bytes, codes, has_prefix, has_suffix}
use wiregate.Configdoc.Nodes.{ends_with_blank_line, detect_newline, split_lines}
use wiregate.Configdoc.Edit.{separator}
use wiregate.Configdoc.Lines.{IsEnded, split_lines-IsEnded}

equal_numbers : (m n : ℕ) → (m == n) ≡ true → m ≡ n
equal_numbers m n h = ground arith

pub both_true : (a b : Bool) → a && b ≡ true → (a ≡ true) × (b ≡ true)
both_true a b h = ground arith

has_prefix-split : (s t : Bytes) → has_prefix s t ≡ true → (rest : Bytes) × (s ≡ t ++ rest)
unfolding has_prefix
has_prefix-split s [] h = (s, refl)
has_prefix-split [] (y ∷ t) h = cc
has_prefix-split (x ∷ s) (y ∷ t) h =
    let (here, later) = both_true (x == y) (has_prefix s t) h in
    let (rest, e) = has_prefix-split s t later in
    (rest, ap₂ (λ a b. a ∷ b) (equal_numbers x y here) e)

has_suffix-split : (s t : Bytes) → has_suffix s t ≡ true → (front : Bytes) × (s ≡ front ++ t)
unfolding has_suffix
has_suffix-split s t h =
    let (rest, e) = has_prefix-split (reverse s) (reverse t) h in
    (
      reverse rest,
      sym (reverse-reverse s)
          ∙ ap reverse e
          ∙ reverse-append (reverse t) rest
          ∙ ap (λ x. reverse rest ++ x) (reverse-reverse t),
    )

has_prefix-head : (s t : Bytes) → has_prefix s (10 ∷ t) ≡ true → has_prefix s (10 ∷ []) ≡ true
unfolding has_prefix
has_prefix-head [] t h = cc
has_prefix-head (x ∷ s) t h = ground arith

-- A blank line, by either kind of line end.
unfoldable pub IsBlank : Bytes → Type 0
IsBlank s = (s ≡ codes "\n") ⊎ (s ≡ codes "\r\n")

-- The parts of a text that was appended to: what stood there with its last line completed, a blank
-- line, and what was added. Only line ends were put in between.
pub record SetApart (input added output : Bytes) : Type 0 where
  pub front : Bytes
  pub blank : Bytes
  pub between : Bytes
  pub ended : IsEnded front
  pub is_blank : IsBlank blank
  pub kept : front ++ blank ≡ input ++ between
  pub line_ends : All (λ c. (c ≡ 10) ⊎ (c ≡ 13)) between
  pub whole : output ≡ input ++ (between ++ added)
  pub lines : split_lines output ≡ split_lines front ++ (blank ∷ split_lines added)

blank-lines :
    (blank added : Bytes) → IsBlank blank → split_lines (blank ++ added) ≡ blank ∷ split_lines added
unfolding IsBlank split_lines
blank-lines blank added (inl e) =
    subst (λ b. split_lines (b ++ added) ≡ b ∷ split_lines added) (sym e) refl
blank-lines blank added (inr e) =
    subst (λ b. split_lines (b ++ added) ≡ b ∷ split_lines added) (sym e) refl

apart :
    (input added front blank between : Bytes)
    → IsEnded front
    → IsBlank blank
    → front ++ blank ≡ input ++ between
    → All (λ c. (c ≡ 10) ⊎ (c ≡ 13)) between
    → SetApart input added (input ++ (between ++ added))
apart input added front blank between ended is_blank kept ends = record {
  front = front;
  blank = blank;
  between = between;
  ended = ended;
  is_blank = is_blank;
  kept = kept;
  line_ends = ends;
  whole = refl;
  lines =
      ap split_lines (
        sym (append_assoc input between added)
        ∙ ap (λ x. x ++ added) (sym kept)
        ∙ append_assoc front blank added)
      ∙ split_lines-IsEnded front (blank ++ added) ended
      ∙ ap (λ x. split_lines front ++ x) (blank-lines blank added is_blank);
}

ends-of : (s : Bytes) → IsBlank s → All (λ c. (c ≡ 10) ⊎ (c ≡ 13)) s
unfolding IsBlank
ends-of s (inl e) = subst (All (λ c. (c ≡ 10) ⊎ (c ≡ 13))) (sym e) (inl refl, tt)
ends-of s (inr e) = subst (All (λ c. (c ≡ 10) ⊎ (c ≡ 13))) (sym e) (inr refl, (inl refl, tt))

append-Ended : (s t : Bytes) → IsBlank t → IsEnded (s ++ t)
unfolding IsBlank
append-Ended s t (inl e) =
    subst (λ x. IsEnded (s ++ x)) (sym e) (record { before = s; feed = refl })
append-Ended s t (inr e) =
    subst (λ x. IsEnded (s ++ x)) (sym e)
      (record { before = s ++ (13 ∷ []); feed = sym (append_assoc s (13 ∷ []) (10 ∷ [])) })

All-append : (P : ℕ → Type 0) (s t : Bytes) → All P s → All P t → All P (s ++ t)
All-append P [] t a b = b
All-append P (x ∷ s) t a b = (a.0, All-append P s t a.1 b)

blank-feed : (raw : Bytes) → ends_with_blank_line raw ≡ true → has_suffix raw (codes "\n") ≡ true
unfolding ends_with_blank_line has_suffix
blank-feed raw h = elim (Bool-cases (has_prefix (reverse raw) (10 ∷ 10 ∷ []))) [
  | inl e ↦ has_prefix-head (reverse raw) (10 ∷ []) e
  | inr e ↦ has_prefix-head (reverse raw) (13 ∷ 10 ∷ 13 ∷ []) (rw e at h)
]

-- A text that ends with a blank line is apart as it is.
blank-apart :
    (raw added : Bytes)
    → ends_with_blank_line raw ≡ true
    → SetApart raw added (raw ++ ([] ++ added))
unfolding ends_with_blank_line IsBlank
blank-apart raw added h = elim (Bool-cases (has_suffix raw (codes "\n\n"))) [
  | inl e ↦
      let (front, f) = has_suffix-split raw (codes "\n\n") e in
      apart raw added (front ++ (10 ∷ [])) (codes "\n") [] (record { before = front; feed = refl })
        (inl refl) (append_assoc front (10 ∷ []) (10 ∷ []) ∙ sym f ∙ sym (append-nil raw)) tt
  | inr e ↦
      let (front, f) = has_suffix-split raw (codes "\r\n\r\n") (rw e at h) in
      apart raw added (front ++ codes "\r\n") (codes "\r\n") []
        (append-Ended front (codes "\r\n") (inr refl)) (inr refl)
        (append_assoc front (codes "\r\n") (codes "\r\n") ∙ sym f ∙ sym (append-nil raw)) tt
]

pub separator-SetApart :
    (raw newline added : Bytes)
    → same raw [] ≡ false
    → has_suffix raw (codes "\r") ≡ false
    → IsBlank newline
    → SetApart raw added (raw ++ (separator raw newline ++ added))
unfolding separator
separator-SetApart raw newline added some_text no_return is_newline =
    elim (Bool-cases (ends_with_blank_line raw)) [
      | inl e ↦
          let none_between : separator raw newline ≡ [] =
            rw (some_text, blank-feed raw e, e) refl in
          subst (λ x. SetApart raw added (raw ++ (x ++ added))) (sym none_between)
            (blank-apart raw added e)
      | inr e ↦ elim (Bool-cases (has_suffix raw (codes "\n"))) [
        | inl f ↦
            let one : separator raw newline ≡ newline = rw (some_text, f, e) refl in
            let (front, g) = has_suffix-split raw (codes "\n") f in
            subst (λ x. SetApart raw added (raw ++ (x ++ added))) (sym one)
              (apart raw added raw newline newline (record { before = front; feed = g }) is_newline
                refl (ends-of newline is_newline))
        | inr f ↦
            let two : separator raw newline ≡ newline ++ newline =
              rw (some_text, f, no_return, e) refl in
            subst (λ x. SetApart raw added (raw ++ (x ++ added))) (sym two)
              (apart raw added (raw ++ newline) newline (newline ++ newline)
                (append-Ended raw newline is_newline) is_newline (append_assoc raw newline newline)
                (All-append (λ c. (c ≡ 10) ⊎ (c ≡ 13)) newline newline (ends-of newline is_newline)
                  (ends-of newline is_newline)))
      ]
    ]

pub newline-IsBlank : (input : Bytes) → IsBlank (detect_newline input)
unfolding detect_newline IsBlank
newline-IsBlank input =
    if_both (λ s. (s ≡ codes "\n") ⊎ (s ≡ codes "\r\n")) (contains input (codes "\r\n"))
      (codes "\r\n") (codes "\n") (inr refl) (inl refl)
