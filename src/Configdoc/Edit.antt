-- ===== src/Configdoc/Edit.antt =====
-- The four edits of internal/agent/configdoc/document.go: PatchPeer, AddPeer, RemovePeer and
-- RestorePeerBlock, with canonicalPrefixes and displayKey.
use mathlib.Core.Option
use wiregate.Prelude.{
  ◌>>=◌, reject, Fallible, failure, success, [], ◌∷◌, none, some, List, ℕ, Bool, Option, false,
  if◌then◌else◌, ◌||◌, ◌==◌, ◌++◌, not, ◌&&◌, true, length,
}
use wiregate.Stdlib.Bytes.{Bytes, codes, join, has_suffix, same, trim_space, format_uint}
use wiregate.Configdoc.Nodes.{
  Node, NodeKind, replace_assignment_value, ends_with_blank_line, render_nodes,
}
use wiregate.Configdoc.Peers.{WarningCode}
use wiregate.Configdoc.Document.{
  Document, ConfigError, find_peer, adoption_safe, parse, slice, check_warnings, replace_node_range,
}
use wiregate.Stdlib.NetipShow.{canonical}
use wiregate.Stdlib.Base64.{valid_key}

-- A nil pointer of the source is none.
pub record PeerPatch : Type 0 where
  pub new_allowed_ips : Option (List Bytes)
  pub new_endpoint : Option Bytes
  pub new_keepalive : Option ℕ
  pub new_preshared_key : Option Bytes

pub record NewPeer : Type 0 where
  pub peer_key : Bytes
  pub secret : Bytes
  pub prefixes : List Bytes
  pub host : Bytes
  pub keepalive : ℕ

unfoldable pub is_member : Bytes → List Bytes → Bool
unfolding same
is_member s [] = false
is_member s (x ∷ xs) = same x s || is_member s xs

-- `seen` holds the same strings as `result`.
abbrev pub add_new : Bytes → List Bytes → List Bytes
unfolding is_member
add_new s result = if is_member s result then result else result ++ (s ∷ [])

unfoldable pub prefixes_from : List Bytes → List Bytes → Fallible ConfigError (List Bytes)
unfolding canonical trim_space is_member
prefixes_from result [] = success result
prefixes_from result (value ∷ values) = elim (canonical (trim_space value)) [
  | none ↦ failure (ConfigError.invalid_cidr value)
  | some c ↦ prefixes_from (add_new c result) values
]

unfoldable pub canonical_prefixes : List Bytes → Fallible ConfigError (List Bytes)
unfolding prefixes_from
canonical_prefixes = prefixes_from []

display_key : Bytes → Bytes
unfolding same
display_key key =
    if same key (codes "allowedips")
    then codes "AllowedIPs"
    else if same key (codes "endpoint")
    then codes "Endpoint"
    else if same key (codes "persistentkeepalive")
    then codes "PersistentKeepalive"
    else if same key (codes "presharedkey")
    then codes "PresharedKey"
    else key

-- `node.Kind == Assignment && node.Key == key`
assigns : Bytes → Node → Bool
unfolding same
assigns key node = elim node.kind [ NodeKind.assignment ↦ same node.key key | _ ↦ false ]

any_assigns : Bytes → List Node → Bool
unfolding assigns
any_assigns key [] = false
any_assigns key (node ∷ block) = assigns key node || any_assigns key block

drop_key : Bytes → List Node → List Node
unfolding assigns
drop_key key [] = []
drop_key key (node ∷ block) =
    let rest = drop_key key block in if assigns key node then rest else node ∷ rest

-- The first assignment of the key takes the value, further ones go.
replace_key : Bytes → Bytes → List Node → List Node
unfolding assigns drop_key replace_assignment_value
replace_key key value [] = []
replace_key key value (node ∷ block) =
    let rest = replace_key key value block in
    if assigns key node
    then record node { raw = replace_assignment_value node value; value = value }
      ∷ drop_key key block
    else node ∷ rest

-- What one key of the patch does to the block.
unfoldable pub set_key : Bytes → Bytes → Option Bytes → List Node → List Node
unfolding any_assigns drop_key replace_key same display_key
set_key newline key none block = block
set_key newline key (some value) block =
    if any_assigns key block
    then (if same value [] then drop_key key block else replace_key key value block)
    else if same value []
    then block
    else block
      ++ ((record {
        kind = NodeKind.assignment;
        raw = display_key key ++ (codes " = " ++ (value ++ newline));
        section = codes "peer";
        key = key;
        value = value;
        value_start = 0;
        value_end = 0;
      })
          ∷ [])

-- The new value of AllowedIPs.
prefix_value : Option (List Bytes) → Fallible ConfigError (Option Bytes)
unfolding canonical_prefixes join
prefix_value none = success none
prefix_value (some values) = do
  value ← canonical_prefixes values
  success (some (join (codes ", ") value))

-- The new value of PresharedKey; the empty one removes the key.
key_value : Option Bytes → Fallible ConfigError (Option Bytes)
unfolding valid_key same trim_space
key_value none = success none
key_value (some key) = do
  _ ← reject (not (same key []) && not (valid_key key)) ConfigError.invalid_preshared_key
  success (some (trim_space key))

-- The patched block, from the values of the four keys.
unfoldable pub patch_block :
    Bytes → Option Bytes → Option Bytes → Option Bytes → Option Bytes → List Node → List Node
unfolding set_key
patch_block newline allowed endpoint keepalive secret block =
    set_key newline (codes "presharedkey") secret (
      set_key newline (codes "persistentkeepalive") keepalive (
        set_key newline (codes "endpoint") endpoint
          (set_key newline (codes "allowedips") allowed block)))

unfoldable pub patch_peer : Document → Bytes → PeerPatch → Fallible ConfigError Document
unfolding adoption_safe find_peer prefix_value key_value patch_block slice render_nodes
    replace_node_range trim_space format_uint
patch_peer d key patch = do
  _ ← adoption_safe d
  peer ← find_peer d key
  allowed ← prefix_value patch.new_allowed_ips
  secret ← key_value patch.new_preshared_key
  replace_node_range d peer.block_start peer.block_end (
      render_nodes (
        patch_block d.newline allowed (Option.map trim_space patch.new_endpoint)
          (Option.map format_uint patch.new_keepalive) secret
          (slice peer.block_start peer.block_end d.nodes)))

-- `if _, err := d.findPeer(key); err == nil { return ErrDuplicatePeer }`; the only error of
-- findPeer is that there is no such peer.
unfoldable pub require_absent : Document → Bytes → Fallible ConfigError Unit
unfolding find_peer
require_absent d key = elim (find_peer d key) [
  | success p ↦ failure ConfigError.duplicate_peer
  | failure e ↦ success tt
]

-- `name = value` and a line end, for a field that is set.
unfoldable pub optional_line : Bool → Bytes → Bytes → Bytes → Bytes
optional_line present name value newline =
    if present then name ++ (codes " = " ++ (value ++ newline)) else []

-- The line ends that part a new section from the text before it.
unfoldable pub separator : Bytes → Bytes → Bytes
unfolding has_suffix ends_with_blank_line same
separator raw newline =
    (if not (same raw []) && not (has_suffix raw (codes "\n")) && not (has_suffix raw (codes "\r"))
      then newline
      else [])
    ++ (if not (same raw []) && not (ends_with_blank_line raw) then newline else [])

unfoldable pub peer_lines : NewPeer → List Bytes → Bytes → Bytes
unfolding optional_line join trim_space format_uint same
peer_lines peer allowed newline =
    codes "[Peer]"
    ++ (newline
        ++ (optional_line true (codes "PublicKey") peer.peer_key newline
            ++ (optional_line (not (same peer.secret [])) (codes "PresharedKey") peer.secret newline
                ++ (optional_line true (codes "AllowedIPs") (join (codes ", ") allowed) newline
                    ++ (optional_line (not (same peer.host [])) (codes "Endpoint")
                          (trim_space peer.host) newline
                        ++ optional_line (not (peer.keepalive == 0)) (codes "PersistentKeepalive")
                            (format_uint peer.keepalive) newline)))))

unfoldable pub add_peer : Document → NewPeer → Fallible ConfigError Document
unfolding adoption_safe require_absent valid_key canonical_prefixes same separator peer_lines parse
add_peer d peer = do
  _ ← adoption_safe d
  _ ← reject (not (valid_key peer.peer_key)) ConfigError.invalid_public_key
  _ ← require_absent d peer.peer_key
  allowed ← canonical_prefixes peer.prefixes
  _ ← reject (length allowed == 0) ConfigError.no_prefix
  _ ←
      reject (not (same peer.secret []) && not (valid_key peer.secret))
        ConfigError.invalid_preshared_key
  parse (d.raw ++ (separator d.raw d.newline ++ peer_lines peer allowed d.newline))

-- The archived block and the document without it.
unfoldable pub remove_peer : Document → Bytes → Fallible ConfigError (Bytes × Document)
unfolding adoption_safe find_peer slice render_nodes replace_node_range
remove_peer d key = do
  _ ← adoption_safe d
  peer ← find_peer d key
  rest ← replace_node_range d peer.block_start peer.block_end []
  success (render_nodes (slice peer.block_start peer.block_end d.nodes), rest)

-- The warnings that make an archived block unsafe.
unfoldable pub unsafe_block : WarningCode → Option ConfigError
unsafe_block WarningCode.duplicate_peer_public_key =
    some (ConfigError.unsupported WarningCode.duplicate_peer_public_key)
unsafe_block WarningCode.peer_public_key_missing =
    some (ConfigError.unsupported WarningCode.peer_public_key_missing)
unsafe_block WarningCode.peer_public_key_invalid =
    some (ConfigError.unsupported WarningCode.peer_public_key_invalid)
unsafe_block WarningCode.repeated_secret_key =
    some (ConfigError.unsupported WarningCode.repeated_secret_key)
unsafe_block _ = none

-- The block has no interface, nothing unknown, and one peer, that of the key.
unfoldable pub is_peer_block : Document → Bytes → Bool
unfolding same
is_peer_block block key =
    block.analysis.interface_count == 0
    && not block.analysis.has_unknown
    && (elim block.analysis.peers [ p ∷ [] ↦ same p.public_key key | _ ↦ false ])

unfoldable pub restore_peer_block : Document → Bytes → Bytes → Fallible ConfigError Document
unfolding adoption_safe require_absent parse is_peer_block check_warnings unsafe_block separator
restore_peer_block d key archived = do
  _ ← adoption_safe d
  _ ← require_absent d key
  block ← parse archived
  _ ← reject (not (is_peer_block block key)) ConfigError.not_the_peer_block
  _ ← check_warnings unsafe_block block.analysis.warnings
  parse (d.raw ++ (separator d.raw d.newline ++ archived))
