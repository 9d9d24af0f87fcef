-- ===== src/Configdoc/Nodes.antt =====
-- The nodes of a document: splitNodes, parseNodes, renderNodes and their helpers of
-- internal/agent/configdoc/document.go.
use wiregate.Prelude.{
  [], ◌∷◌, none, some, suc, List, ℕ, length, if◌then◌else◌, reverse, ◌++◌, Bool, ◌||◌, ltb, ◌==◌,
  ◌&&◌, take, ◌+◌, ◌-◌, drop,
}
use wiregate.Stdlib.Bytes.{
  Bytes, codes, has_prefix, contains, cut_at, has_suffix, trim_space, to_lower, same,
}

pub data NodeKind : Type 0 where
  raw_line blank_line comment_line section_header assignment : NodeKind

pub record Node : Type 0 where
  pub kind : NodeKind
  pub raw : Bytes
  pub section : Bytes
  pub key : Bytes
  pub value : Bytes
  pub value_start : ℕ
  pub value_end : ℕ

-- The byte joins the first line of the rest; at the end of the input it starts the last line.
abbrev pub join_line : ℕ → List Bytes → List Bytes
join_line b [] = (b ∷ []) ∷ []
join_line b (line ∷ lines) = (b ∷ line) ∷ lines

-- Every line keeps its line feed; the last one need not have any.
unfoldable pub split_lines : Bytes → List Bytes
split_lines [] = []
split_lines (b ∷ input) =
    let lines = split_lines input in if b == 10 then (b ∷ []) ∷ lines else join_line b lines

-- `bytes.TrimSuffix` by one byte.
trim_suffix : ℕ → Bytes → Bytes
trim_suffix b raw = elim (reverse raw) [
  | [] ↦ raw
  | last ∷ front ↦ if last == b then reverse front else raw
]

unfoldable pub trim_newline : Bytes → Bytes
unfolding trim_suffix
trim_newline raw = trim_suffix 13 (trim_suffix 10 raw)

is_blank : ℕ → Bool
is_blank c = c == 32 || c == 9

-- How many spaces and tabs a text begins with.
blanks : Bytes → ℕ
unfolding is_blank
blanks [] = 0
blanks (c ∷ s) = let n = blanks s in if is_blank c then suc n else 0

-- The assignment that a body holds from its first `=`, given the bytes before it and from it on.
unfoldable pub assign : Bytes → Bytes → Node → Bytes × Bytes → Node
unfolding blanks trim_space to_lower same
assign body key node (before, after) =
    let start = length before + 1 + blanks (drop 1 after) in
    let end =
      if ltb (length body - blanks (reverse body)) start
      then start
      else length body - blanks (reverse body) in
    if same key [] then node else record node {
      kind = assignment;
      key = key;
      value = take (end - start) (drop start body);
      value_start = start;
      value_end = end;
    }

-- The node of a line that is neither blank nor a comment nor a header.
unfoldable pub parse_statement : Bytes → Node → Node
unfolding assign cut_at
parse_statement body node = elim (cut_at 61 body) [
  | none ↦ node
  | some p ↦ assign body (to_lower (trim_space p.0)) node p
]

-- The node of a line in a section, by the line without its end and that text trimmed.
unfoldable pub classify : Bytes → Bytes → Node → Node
unfolding parse_statement has_prefix has_suffix
classify body trimmed node =
    if same trimmed []
    then record node { kind = blank_line }
    else if has_prefix trimmed (codes "#") || has_prefix trimmed (codes ";")
    then record node { kind = comment_line }
    else if has_prefix trimmed (codes "[") && has_suffix trimmed (codes "]")
    then record node {
      kind = section_header;
      section = to_lower (trim_space (take (length trimmed - 2) (drop 1 trimmed)));
    }
    else parse_statement body node

unfoldable pub parse_line : Bytes → Bytes → Node
unfolding classify trim_newline
parse_line section raw =
    let body = trim_newline raw in
    classify body (trim_space body) (record {
      kind = raw_line;
      raw = raw;
      section = section;
      key = [];
      value = [];
      value_start = 0;
      value_end = 0;
    })

-- A header's section holds for the lines after it; any other node keeps the section it is in.
unfoldable pub parse_lines : Bytes → List Bytes → List Node
unfolding parse_line
parse_lines section [] = []
parse_lines section (raw ∷ lines) =
    let node = parse_line section raw in node ∷ parse_lines node.section lines

unfoldable pub parse_nodes : Bytes → List Node
unfolding parse_lines split_lines
parse_nodes input = parse_lines [] (split_lines input)

unfoldable pub render_nodes : List Node → Bytes
render_nodes [] = []
render_nodes (node ∷ nodes) = node.raw ++ render_nodes nodes

unfoldable pub detect_newline : Bytes → Bytes
unfolding contains
detect_newline input = if contains input (codes "\r\n") then codes "\r\n" else codes "\n"

unfoldable pub ends_with_blank_line : Bytes → Bool
unfolding has_suffix
ends_with_blank_line input = has_suffix input (codes "\n\n") || has_suffix input (codes "\r\n\r\n")

-- The value's bytes replaced, those before and after it kept.
unfoldable pub replace_assignment_value : Node → Bytes → Bytes
unfolding trim_newline
replace_assignment_value node value =
    let limit = length (trim_newline node.raw) in
    if ltb limit node.value_start || ltb limit node.value_end
    then node.raw
    else take node.value_start node.raw ++ (value ++ drop node.value_end node.raw)
