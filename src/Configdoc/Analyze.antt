-- ===== src/Configdoc/Analyze.antt =====
-- The analysis of the nodes: analyze of internal/agent/configdoc/document.go.
use wiregate.Prelude.{
  [], ◌∷◌, none, some, suc, List, ℕ, Bool, String, false, Option, if◌then◌else◌, ◌||◌, length, ◌==◌,
  ◌++◌, ltb, ◌+◌, ◌&&◌, not, true,
}
use wiregate.Stdlib.Bytes.{Bytes, codes, same, to_lower, trim_space, split, parse_uint16}
use wiregate.Configdoc.Peers.{Peer, Analysis, Scan, WarningCode, warn, lookup_field, has_key}
use wiregate.Configdoc.Nodes.{Node, NodeKind}
use wiregate.Stdlib.Base64.{valid_key}
use wiregate.Stdlib.NetipShow.{canonical}

is : Bytes → String → Bool
unfolding same
is key name = same key (codes name)

-- `knownInterface[key]`
known_interface : Bytes → Bool
unfolding is
known_interface key =
    is key "privatekey"
    || is key "address"
    || is key "listenport"
    || is key "fwmark"
    || is key "dns"
    || is key "mtu"
    || is key "table"
    || is key "preup"
    || is key "postup"
    || is key "predown"
    || is key "postdown"
    || is key "saveconfig"

-- `knownPeer[key]`
known_peer : Bytes → Bool
unfolding is
known_peer key =
    is key "publickey"
    || is key "presharedkey"
    || is key "allowedips"
    || is key "endpoint"
    || is key "persistentkeepalive"

abbrev pub new_peer : ℕ → Peer
new_peer start = record {
  public_key = [];
  preshared_key_present = false;
  allowed_ips = [];
  endpoint = [];
  persistent_keepalive = 0;
  block_start = start;
  block_end = 0;
  fields = [];
}

-- A peer whose block is complete joins the list, unless it has no key.
unfoldable pub record_peer : Peer → Analysis → Analysis
unfolding same has_key
record_peer p a =
    if same p.public_key []
    then warn (p.block_start + 1) WarningCode.peer_public_key_missing a
    else if has_key p.public_key a.peers
    then (let b = warn (p.block_start + 1) WarningCode.duplicate_peer_public_key a in
        record b { peers = b.peers ++ (p ∷ []) })
    else record a { peers = a.peers ++ (p ∷ []) }

unfoldable pub finish_peer : ℕ → Scan → Scan
unfolding record_peer
finish_peer end s = elim s.current [
  | none ↦ s
  | some p ↦ record s {
    analysis = record_peer (record p { block_end = end }) s.analysis;
    current = none;
  }
]

-- A header, after the block before it is finished.
unfoldable pub open_section : ℕ → Bytes → Scan → Scan
unfolding is
open_section index section s =
    if is section "interface"
    then record s {
      analysis = record s.analysis { interface_count = suc s.analysis.interface_count };
    }
    else if is section "peer"
    then record s { current = some (new_peer index) }
    else record s {
      analysis =
          warn (index + 1) WarningCode.unknown_section (record s.analysis { has_unknown = true });
    }

unfoldable pub private_key : ℕ → Bytes → Scan → Scan
unfolding valid_key
private_key index value s =
    let t = record s { private_key_count = suc s.private_key_count } in
    if ltb 1 t.private_key_count
    then record t { analysis = warn (index + 1) WarningCode.repeated_secret_key t.analysis }
    else if not (valid_key value)
    then record t {
      analysis = warn (index + 1) WarningCode.interface_private_key_invalid t.analysis;
    }
    else record t { analysis = record t.analysis { private_key_present = true } }

unfoldable pub warn_unknown : Bool → ℕ → WarningCode → Scan → Scan
warn_unknown true index code s = s
warn_unknown false index code s = record s { analysis = warn (index + 1) code s.analysis }

unfoldable pub interface_key : ℕ → Bytes → Bytes → Scan → Scan
unfolding private_key is same to_lower trim_space
interface_key index key value s =
    if is key "privatekey"
    then private_key index value s
    else if is key "saveconfig"
    then record s {
      analysis = record s.analysis {
        save_config = same (to_lower (trim_space value)) (codes "true");
      };
    }
    else if is key "preup" || is key "postup" || is key "predown" || is key "postdown"
    then record s { analysis = record s.analysis { has_hooks = true } }
    else s

-- The first assignment of a key is kept; repeating a key of the peer is warned of.
unfoldable pub note_field : ℕ → Bytes → Peer → Analysis → Peer × Analysis
unfolding lookup_field is
note_field index key p a = elim (lookup_field p.fields key) [
  | none ↦ (record p { fields = p.fields ++ ((key, index) ∷ []) }, a)
  | some first ↦
      if is key "publickey" || is key "presharedkey"
      then (p, warn (index + 1) WarningCode.repeated_secret_key a)
      else (p, a)
]

-- The prefixes of a list that parse, in their canonical form.
prefixes_of : List Bytes → List Bytes
unfolding canonical trim_space
prefixes_of [] = []
prefixes_of (item ∷ items) = elim (canonical (trim_space item)) [
  | none ↦ prefixes_of items
  | some prefix ↦ prefix ∷ prefixes_of items
]

unfoldable pub set_keepalive : Option ℕ → Peer → Peer
set_keepalive none p = p
set_keepalive (some n) p = record p { persistent_keepalive = n }

unfoldable pub peer_key : ℕ → Bytes → Bytes → Peer → Analysis → Peer × Analysis
unfolding is valid_key trim_space same split prefixes_of set_keepalive parse_uint16
peer_key index key value p a =
    if is key "publickey"
    then (if not (valid_key value)
        then (p, warn (index + 1) WarningCode.peer_public_key_invalid a)
        else (record p { public_key = trim_space value }, a))
    else if is key "presharedkey"
    then (record p { preshared_key_present = not (same (trim_space value) []) }, a)
    else if is key "allowedips"
    then (record p { allowed_ips = p.allowed_ips ++ prefixes_of (split 44 value) }, a)
    else if is key "endpoint"
    then (record p { endpoint = trim_space value }, a)
    else if is key "persistentkeepalive"
    then (set_keepalive (parse_uint16 (trim_space value)) p, a)
    else (p, a)

-- An assignment of a peer section. Outside any block it is passed over.
unfoldable pub peer_assignment : ℕ → Node → Scan → Scan
unfolding peer_key note_field
peer_assignment index node s = elim s.current [
  | none ↦ s
  | some p ↦
      let noted = note_field index node.key p s.analysis in
      let set = peer_key index node.key node.value noted.0 noted.1 in
      record s { analysis = set.1; current = some set.0 }
]

unfoldable pub assign_key : ℕ → Node → Scan → Scan
unfolding is interface_key peer_assignment warn_unknown known_interface known_peer
assign_key index node s =
    if is node.section "interface"
    then interface_key index node.key node.value
        (warn_unknown (known_interface node.key) index WarningCode.unknown_interface_key s)
    else if is node.section "peer"
    then peer_assignment index node
        (warn_unknown (known_peer node.key) index WarningCode.unknown_peer_key s)
    else record s {
      analysis =
          warn (index + 1) WarningCode.assignment_outside_section
            (record s.analysis { has_unknown = true });
    }

unfoldable pub scan_node : ℕ → Node → Scan → Scan
unfolding open_section finish_peer assign_key
scan_node index node s = elim node.kind [
  | NodeKind.section_header ↦ open_section index node.section (finish_peer index s)
  | NodeKind.raw_line ↦ record s {
    analysis =
        warn (index + 1) WarningCode.unparsed_statement (record s.analysis { has_unknown = true });
  }
  | NodeKind.assignment ↦ assign_key index node s
  | _ ↦ s
]

unfoldable pub scan_nodes : ℕ → List Node → Scan → Scan
unfolding scan_node
scan_nodes index [] s = s
scan_nodes index (node ∷ nodes) s = scan_nodes (suc index) nodes (scan_node index node s)

abbrev pub start_scan : Scan
start_scan = record {
  analysis = record {
    interface_count = 0;
    private_key_present = false;
    save_config = false;
    has_hooks = false;
    has_unknown = false;
    peers = [];
    warnings = [];
  };
  current = none;
  private_key_count = 0;
}

unfoldable pub conclude : Scan → Analysis
conclude s =
    if s.analysis.interface_count == 1 && s.private_key_count == 0
    then warn 0 WarningCode.interface_private_key_missing s.analysis
    else s.analysis

unfoldable pub analyze : List Node → Analysis
unfolding scan_nodes finish_peer conclude
analyze nodes = conclude (finish_peer (length nodes) (scan_nodes 0 nodes start_scan))
