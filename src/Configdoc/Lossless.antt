-- ===== src/Configdoc/Lossless.antt =====
-- The text of a document is that of its nodes (parseNodes and renderNodes of
-- internal/agent/configdoc/document.go).
use wiregate.Prelude.{
  [], ◌∷◌, refl, none, some, List, ◌≡◌, ℕ, ◌++◌, ◌∙◌, ◌==◌, ap₂, ap, Option, if_both, ◌||◌, ◌&&◌,
}
use wiregate.Stdlib.Bytes.{Bytes, cut_at, same, to_lower, trim_space, has_prefix, codes, has_suffix}
use wiregate.Configdoc.Nodes.{
  Node, classify, render_nodes, split_lines, parse_line, parse_nodes, parse_lines, parse_statement,
  join_line, assign,
}

concat : List Bytes → Bytes
concat [] = []
concat (line ∷ lines) = line ++ concat lines

assign-raw :
    (body key : Bytes) (node : Node) (p : Bytes × Bytes) → (assign body key node p).raw ≡ node.raw
unfolding assign
assign-raw body key node p = if_both {A = Node} (λ n. n.raw ≡ node.raw) (same key []) _ _ refl refl

statement-raw :
    (body : Bytes) (node : Node) (at : Option (Bytes × Bytes))
    → cut_at 61 body ≡ at
    → (parse_statement body node).raw ≡ node.raw
unfolding parse_statement
statement-raw body node none e = rw (e, parse_statement) refl
statement-raw body node (some p) e =
    rw (e, parse_statement) (assign-raw body (to_lower (trim_space p.0)) node p)

classify-raw : (body trimmed : Bytes) (node : Node) → (classify body trimmed node).raw ≡ node.raw
unfolding classify
classify-raw body trimmed node =
    let Raw : Node → Type 0 = λ n. n.raw ≡ node.raw in
    if_both Raw (same trimmed []) _ _ refl (
      if_both Raw (has_prefix trimmed (codes "#") || has_prefix trimmed (codes ";")) _ _ refl (
        if_both Raw (has_prefix trimmed (codes "[") && has_suffix trimmed (codes "]")) _ _ refl
          (statement-raw body node (cut_at 61 body) refl)))

parse_line-raw : (section raw : Bytes) → (parse_line section raw).raw ≡ raw
unfolding parse_line
parse_line-raw section raw = search classify-raw

render-parse_lines :
    (section : Bytes) (lines : List Bytes) → render_nodes (parse_lines section lines) ≡ concat lines
unfolding render_nodes parse_lines concat
render-parse_lines section [] = refl
render-parse_lines section (raw ∷ lines) =
    ap₂ (λ x y. x ++ y) (parse_line-raw section raw)
      (render-parse_lines (parse_line section raw).section lines)

concat-join_line : (b : ℕ) (lines : List Bytes) → concat (join_line b lines) ≡ b ∷ concat lines
unfolding concat
concat-join_line b [] = refl
concat-join_line b (line ∷ lines) = refl

concat-split_lines : (input : Bytes) → concat (split_lines input) ≡ input
unfolding concat split_lines
concat-split_lines [] = refl
concat-split_lines (b ∷ input) =
    if_both (λ lines. concat lines ≡ b ∷ input) (b == 10) _ _
      (ap (λ x. b ∷ x) (concat-split_lines input))
      (concat-join_line b (split_lines input) ∙ ap (λ x. b ∷ x) (concat-split_lines input))

-- Rendering the nodes of any text gives back every byte of it.
pub render-parse_nodes : (input : Bytes) → render_nodes (parse_nodes input) ≡ input
unfolding parse_nodes
render-parse_nodes input = render-parse_lines [] (split_lines input) ∙ concat-split_lines input
