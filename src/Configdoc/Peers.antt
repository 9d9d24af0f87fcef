-- ===== src/Configdoc/Peers.antt =====
-- The records that analyze of internal/agent/configdoc/document.go fills. The messages of the
-- warnings, which repeat the code in words, are left out.
use wiregate.Prelude.{[], ◌∷◌, none, some, List, ℕ, Bool, Option, ◌++◌, if◌then◌else◌, false, ◌||◌}
use wiregate.Stdlib.Bytes.{Bytes, same}

pub data WarningCode : Type 0 where
  unknown_section unparsed_statement unknown_interface_key unknown_peer_key : WarningCode
  repeated_secret_key interface_private_key_invalid interface_private_key_missing : WarningCode
  peer_public_key_missing peer_public_key_invalid duplicate_peer_public_key : WarningCode
  assignment_outside_section : WarningCode

pub record Warning : Type 0 where
  pub line : ℕ
  pub code : WarningCode

-- `fields` holds the index of the first assignment of each key.
pub record Peer : Type 0 where
  pub public_key : Bytes
  pub preshared_key_present : Bool
  pub allowed_ips : List Bytes
  pub endpoint : Bytes
  pub persistent_keepalive : ℕ
  pub block_start : ℕ
  pub block_end : ℕ
  pub fields : List (Bytes × ℕ)

pub record Analysis : Type 0 where
  pub interface_count : ℕ
  pub private_key_present : Bool
  pub save_config : Bool
  pub has_hooks : Bool
  pub has_unknown : Bool
  pub peers : List Peer
  pub warnings : List Warning

-- What the loop over the nodes carries.
pub record Scan : Type 0 where
  pub analysis : Analysis
  pub current : Option Peer
  pub private_key_count : ℕ

abbrev pub warn : ℕ → WarningCode → Analysis → Analysis
warn line code a = record a {
  warnings = a.warnings ++ ((record { line = line; code = code }) ∷ []);
}

-- `_, exists := fields[key]` and the index that it finds.
unfoldable pub lookup_field : List (Bytes × ℕ) → Bytes → Option ℕ
unfolding same
lookup_field [] key = none
lookup_field (entry ∷ entries) key =
    let rest = lookup_field entries key in if same entry.0 key then some entry.1 else rest

unfoldable pub has_key : Bytes → List Peer → Bool
unfolding same
has_key key [] = false
has_key key (p ∷ ps) = same p.public_key key || has_key key ps
