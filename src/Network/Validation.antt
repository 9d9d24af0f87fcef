-- ===== src/Network/Validation.antt =====
-- The checks of src/internal/agent/validation/validation.go. Ports, intervals and the MTU are numbers
-- below 2 ^ 16 by their type there.
use wiregate.Prelude.{
  ◌++◌, [], ◌∷◌, none, some, Bool, length, List, ℕ, true, ◌||◌, Fallible, success, failure, ◌>>=◌,
  reject, leb, if◌then◌else◌, ◌==◌, ◌&&◌, ltb, false, not, contains_by,
}
use wiregate.Stdlib.Bytes.{
  Bytes, codes, trim_space, contains_any, trim_prefix, trim_suffix, split, has_prefix, has_suffix,
  same,
}
use wiregate.Stdlib.Base64.{valid_key}
use wiregate.Stdlib.Netip.{Prefix, masked, bit_len, less_addr, same_addr, overlaps}
use wiregate.Stdlib.NetipText.{parse_prefix, parse_addr, parse_zoned}
use wiregate.Stdlib.Sort.{sort_by}

pub data NetworkError : Type 0 where
  invalid_name invalid_key invalid_port invalid_tunnel_address not_host_address : NetworkError
  invalid_cidr invalid_dns : Bytes → NetworkError
  overlap : Prefix → Prefix → Bytes → NetworkError
  network_overlap : Prefix → Prefix → NetworkError
  endpoint_missing endpoint_characters endpoint_long endpoint_label endpoint_hyphen : NetworkError
  endpoint_character invalid_mtu : NetworkError
  unsupported_profile unsupported_firewall no_tunnel no_lan no_egress short_id : NetworkError
  no_address no_route no_operation hook_newline hook_pair : NetworkError
  invalid_address : Bytes → NetworkError

abbrev pub Checked : Type 0 → Type 0
Checked A = Fallible NetworkError A

abbrev pub is_alphanumeric : ℕ → Bool
is_alphanumeric c = leb 97 c && leb c 122 || leb 65 c && leb c 90 || leb 48 c && leb c 57

abbrev pub every : (ℕ → Bool) → Bytes → Bool
every p [] = true
every p (c ∷ s) = p c && every p s

-- `[A-Za-z0-9_=+.-]`
unfoldable pub name_character : ℕ → Bool
name_character c = is_alphanumeric c || contains_by (λ a b. a == b) (codes "_=+.-") c

-- `^[A-Za-z0-9_=+.-]{1,15}$`
unfoldable pub is_interface_name : Bytes → Bool
unfolding name_character
is_interface_name s = leb 1 (length s) && leb (length s) 15 && every name_character s

unfoldable pub interface_name : Bytes → Checked Unit
unfolding is_interface_name
interface_name s = reject (not (is_interface_name s)) NetworkError.invalid_name

unfoldable pub wireguard_key : Bytes → Checked Unit
wireguard_key s = reject (not (valid_key s)) NetworkError.invalid_key

unfoldable pub listen_port : ℕ → Checked Unit
listen_port port = reject (port == 0) NetworkError.invalid_port

-- `==` on prefixes.
unfoldable pub same_prefix : Prefix → Prefix → Bool
unfolding same_addr
same_prefix p q = same_addr p.addr q.addr && p.bits == q.bits

abbrev pub add_prefix : Prefix → List Prefix → List Prefix
add_prefix p result = if contains_by same_prefix result p then result else result ++ (p ∷ [])

-- The loop over the values, with the prefixes that it has collected.
unfoldable pub collect_prefixes : List Prefix → List Bytes → Checked (List Prefix)
unfolding same_prefix parse_prefix masked trim_space
collect_prefixes result [] = success result
collect_prefixes result (value ∷ values) = elim (parse_prefix (trim_space value)) [
  | none ↦ failure (NetworkError.invalid_cidr value)
  | some p ↦ collect_prefixes (add_prefix (masked p) result) values
]

-- The order of the result: by family, address and length.
unfoldable pub prefix_before : Prefix → Prefix → Bool
unfolding bit_len same_addr less_addr
prefix_before p q =
    if not (bit_len p.addr == bit_len q.addr)
    then ltb (bit_len p.addr) (bit_len q.addr)
    else if not (same_addr p.addr q.addr)
    then less_addr p.addr q.addr
    else ltb p.bits q.bits

unfoldable pub canonical_prefixes : List Bytes → Checked (List Prefix)
unfolding collect_prefixes prefix_before sort_by
canonical_prefixes values = do ps ← collect_prefixes [] values; success (sort_by prefix_before ps)

unfoldable pub tunnel_address : Bytes → Checked Prefix
unfolding bit_len trim_space parse_prefix
tunnel_address value = elim (parse_prefix (trim_space value)) [
  | none ↦ failure NetworkError.invalid_tunnel_address
  | some p ↦ do _ ← reject (not (p.bits == bit_len p.addr)) NetworkError.not_host_address; success p
]

pub record OwnedPrefix : Type 0 where
  pub peer_id : Bytes
  pub prefix : Prefix

-- The first prefix of another peer that overlaps a candidate.
unfoldable pub reject_overlap : Prefix → List OwnedPrefix → Bytes → Checked Unit
unfolding same bit_len overlaps
reject_overlap proposed [] excluded = success tt
reject_overlap proposed (current ∷ existing) excluded = do
  _ ←
      reject
        (not (same current.peer_id excluded)
          && (bit_len proposed.addr == bit_len current.prefix.addr
              && overlaps proposed current.prefix))
        (NetworkError.overlap proposed current.prefix current.peer_id)
  reject_overlap proposed existing excluded

unfoldable pub reject_overlaps : List Prefix → List OwnedPrefix → Bytes → Checked Unit
unfolding reject_overlap
reject_overlaps [] existing excluded = success tt
reject_overlaps (proposed ∷ candidate) existing excluded = do
  _ ← reject_overlap proposed existing excluded
  reject_overlaps candidate existing excluded

is_label_character : ℕ → Bool
is_label_character c = is_alphanumeric c || c == b'-'

check_label : Bytes → Checked Unit
unfolding is_label_character has_prefix has_suffix
check_label label = do
  _ ← reject (length label == 0 || ltb 63 (length label)) NetworkError.endpoint_label
  _ ←
      reject (has_prefix label (codes "-") || has_suffix label (codes "-"))
        NetworkError.endpoint_hyphen
  reject (not (every is_label_character label)) NetworkError.endpoint_character

check_labels : List Bytes → Checked Unit
unfolding check_label
check_labels [] = success tt
check_labels (label ∷ labels) = do _ ← check_label label; check_labels labels

-- `net.ParseIP(s) != nil`, which takes no zone.
unfoldable pub is_ip : Bytes → Bool
unfolding parse_addr
is_ip s = elim (parse_addr s) [ none ↦ false | some _ ↦ true ]

-- A host without the brackets of an IPv6 address.
unfoldable pub unbracketed : Bytes → Bytes
unfolding trim_prefix trim_suffix
unbracketed host = trim_prefix (trim_suffix host (codes "]")) (codes "[")

check_host : Bytes → Checked Unit
unfolding is_ip unbracketed check_labels contains_any split
check_host host = do
  _ ← reject (length host == 0) NetworkError.endpoint_missing
  _ ← reject (contains_any host (13 ∷ 10 ∷ 9 ∷ 32 ∷ 47 ∷ [])) NetworkError.endpoint_characters
  if is_ip (unbracketed host) then success tt else (do
    _ ← reject (ltb 253 (length host)) NetworkError.endpoint_long
    check_labels (split b'.' host))

unfoldable pub endpoint_host : Bytes → Checked Unit
unfolding check_host trim_space
endpoint_host host = check_host (trim_space host)

unfoldable pub check_mtu : ℕ → Checked Unit
check_mtu value =
    reject (not (value == 0) && (ltb value 1280 || ltb 9000 value)) NetworkError.invalid_mtu

unfoldable pub check_dns : List Bytes → Checked Unit
unfolding parse_zoned trim_space
check_dns [] = success tt
check_dns (value ∷ values) = elim (parse_zoned (trim_space value)) [
  | none ↦ failure (NetworkError.invalid_dns value)
  | some _ ↦ check_dns values
]
