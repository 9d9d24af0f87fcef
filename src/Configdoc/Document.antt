-- ===== src/Configdoc/Document.antt =====
-- The document: Parse, AdoptionSafe, findPeer, PeerSecrets and the replacement of a range of nodes
-- of internal/agent/configdoc/document.go. Its slices are copies, so a document is a value; an
-- operation that fails leaves the document as it was, and shows here as the error alone.
use wiregate.Prelude.{
  ◌>>=◌, reject, Fallible, failure, success, [], ◌∷◌, none, some, List, ℕ, Option, take,
  if◌then◌else◌, ◌-◌, ◌++◌, ltb, get_elem?, drop, length, ◌==◌, not,
}
use wiregate.Stdlib.Bytes.{Bytes, codes, same, trim_space}
use wiregate.Configdoc.Peers.{Peer, Analysis, Warning, WarningCode, lookup_field}
use wiregate.Configdoc.Nodes.{Node, parse_nodes, render_nodes, detect_newline}
use wiregate.Stdlib.Base64.{decode_base64}
use wiregate.Configdoc.Analyze.{analyze}

-- The two errors made from a warning hold its code, others what the error's text names.
pub data ConfigError : Type 0 where
  too_large not_one_interface unknown_content peer_not_found duplicate_peer : ConfigError
  duplicate_key unsupported : WarningCode → ConfigError
  not_the_peer_block no_prefix invalid_public_key invalid_preshared_key : ConfigError
  invalid_cidr stored_key_invalid : Bytes → ConfigError

pub record Document : Type 0 where
  pub raw : Bytes
  pub nodes : List Node
  pub analysis : Analysis
  pub newline : Bytes

-- `4 << 20`
abbrev default_max_bytes : ℕ
default_max_bytes = 4194304

unfoldable pub document : Bytes → Document
unfolding parse_nodes analyze detect_newline
document input = record {
  raw = input;
  nodes = parse_nodes input;
  analysis = analyze (parse_nodes input);
  newline = detect_newline input;
}

unfoldable pub parse : Bytes → Fallible ConfigError Document
unfolding document
parse input =
    if ltb default_max_bytes (length input)
    then failure ConfigError.too_large
    else success (document input)

-- The error of a warning that blocks adoption.
unfoldable pub blocking : WarningCode → Option ConfigError
blocking WarningCode.duplicate_peer_public_key =
    some (ConfigError.duplicate_key WarningCode.duplicate_peer_public_key)
blocking WarningCode.peer_public_key_missing =
    some (ConfigError.unsupported WarningCode.peer_public_key_missing)
blocking WarningCode.peer_public_key_invalid =
    some (ConfigError.unsupported WarningCode.peer_public_key_invalid)
blocking WarningCode.interface_private_key_missing =
    some (ConfigError.unsupported WarningCode.interface_private_key_missing)
blocking WarningCode.interface_private_key_invalid =
    some (ConfigError.unsupported WarningCode.interface_private_key_invalid)
blocking WarningCode.repeated_secret_key =
    some (ConfigError.unsupported WarningCode.repeated_secret_key)
blocking _ = none

-- The first warning that blocks decides the error.
unfoldable pub check_warnings :
    (WarningCode → Option ConfigError) → List Warning → Fallible ConfigError Unit
check_warnings f [] = success tt
check_warnings f (w ∷ ws) = elim (f w.code) [ some e ↦ failure e | none ↦ check_warnings f ws ]

unfoldable pub adoption_safe : Document → Fallible ConfigError Unit
unfolding blocking check_warnings
adoption_safe d = do
  _ ← reject (not (d.analysis.interface_count == 1)) ConfigError.not_one_interface
  _ ← reject d.analysis.has_unknown ConfigError.unknown_content
  check_warnings blocking d.analysis.warnings

unfoldable pub find_in : List Peer → Bytes → Fallible ConfigError Peer
unfolding same
find_in [] key = failure ConfigError.peer_not_found
find_in (p ∷ ps) key =
    let rest = find_in ps key in if same p.public_key key then success p else rest

unfoldable pub find_peer : Document → Bytes → Fallible ConfigError Peer
unfolding find_in
find_peer d key = find_in d.analysis.peers key

unfoldable pub slice : ℕ → ℕ → List Node → List Node
slice start end nodes = take (end - start) (drop start nodes)

unfoldable pub replace_node_range : Document → ℕ → ℕ → Bytes → Fallible ConfigError Document
unfolding render_nodes parse
replace_node_range d start end replacement =
    parse (render_nodes (take start d.nodes) ++ (replacement ++ render_nodes (drop end d.nodes)))

-- The decoded key of a peer that has one, if its node holds one of 32 bytes.
secret_of : Document → Peer → Option ℕ → Fallible ConfigError (List (Bytes × Bytes))
unfolding decode_base64 trim_space
secret_of d p none = success []
secret_of d p (some i) = elim (get_elem? d.nodes i) [
  | none ↦ success []
  | some node ↦ elim (decode_base64 (trim_space node.value)) [
    | none ↦ failure (ConfigError.stored_key_invalid p.public_key)
    | some decoded ↦
        if length decoded == 32
        then success ((p.public_key, decoded) ∷ [])
        else failure (ConfigError.stored_key_invalid p.public_key)
  ]
]

secrets_of : Document → List Peer → Fallible ConfigError (List (Bytes × Bytes))
unfolding secret_of lookup_field
secrets_of d [] = success []
secrets_of d (p ∷ ps) = do
  here ←
      if p.preshared_key_present
      then secret_of d p (lookup_field p.fields (codes "presharedkey"))
      else success []
  rest ← secrets_of d ps
  success (here ++ rest)

unfoldable pub peer_secrets : Document → Fallible ConfigError (List (Bytes × Bytes))
unfolding secrets_of
peer_secrets d = secrets_of d d.analysis.peers
