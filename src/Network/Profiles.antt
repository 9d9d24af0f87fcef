-- ===== src/Network/Profiles.antt =====
-- The configurations that are rendered for a client and a server (src/internal/agent/profile/render.go
-- and server.go). The texts that the source writes into a buffer are appended in its order.
use wiregate.Prelude.{
  [], ◌∷◌, none, some, Bool, length, List, ℕ, ◌||◌, success, failure, ◌>>=◌, reject, if◌then◌else◌,
  ◌==◌, ◌&&◌, not, ◌++◌, map,
}
use wiregate.Stdlib.Bytes.{Bytes, codes, trim_space, contains_any, contains, format_uint, join}
use wiregate.Stdlib.Netip.{Prefix}
use wiregate.Stdlib.NetipText.{parse_prefix, parse_zoned}
use wiregate.Stdlib.NetipShow.{show_prefix, show_zoned}
use wiregate.Network.Validation.{
  NetworkError, Checked, wireguard_key, tunnel_address, canonical_prefixes, endpoint_host,
  listen_port, check_mtu, check_dns, is_ip, unbracketed,
}

pub record ClientConfig : Type 0 where
  pub client_key : Bytes
  pub addresses : List Bytes
  pub dns_values : List Bytes
  pub mtu : ℕ
  pub server_public_key : Bytes
  pub preshared_key : Bytes
  pub host : Bytes
  pub port : ℕ
  pub routes : List Bytes
  pub persistent_keepalive : ℕ

pub record ServerConfig : Type 0 where
  pub operation_id : Bytes
  pub server_key : Bytes
  pub own_addresses : List Bytes
  pub server_port : ℕ
  pub post_up : Bytes
  pub post_down : Bytes

unfoldable pub client_addresses : List Bytes → Checked (List Bytes)
unfolding tunnel_address show_prefix
client_addresses [] = success []
client_addresses (value ∷ values) = do
  p ← tunnel_address value
  rest ← client_addresses values
  success (show_prefix p ∷ rest)

-- The address that a value of DNS holds; no text where it holds none.
unfoldable pub shown_dns : Bytes → Bytes
unfolding parse_zoned show_zoned trim_space
shown_dns value = elim (parse_zoned (trim_space value)) [ none ↦ [] | some a ↦ show_zoned a ]

unfoldable pub endpoint : Bytes → ℕ → Bytes
unfolding is_ip unbracketed contains format_uint trim_space
endpoint text port =
    let host = unbracketed (trim_space text) in
    if is_ip host && contains host (codes ":")
    then codes "[" ++ (host ++ (codes "]:" ++ format_uint port))
    else host ++ (codes ":" ++ format_uint port)

-- A line `key = value`.
abbrev pub line : Bytes → Bytes → Bytes
line key value = key ++ (codes " = " ++ (value ++ codes "\n"))

-- A line that a condition leaves out.
abbrev pub line_if : Bool → Bytes → Bytes → Bytes
line_if b key value = if b then line key value else []

unfoldable pub client_text : ClientConfig → List Bytes → List Prefix → Bytes
unfolding shown_dns endpoint format_uint join show_prefix trim_space
client_text c addresses routes =
    codes "[Interface]\n"
    ++ (line (codes "PrivateKey") (trim_space c.client_key)
        ++ (line (codes "Address") (join (codes ", ") addresses)
            ++ (line_if (not (length c.dns_values == 0)) (codes "DNS")
                  (join (codes ", ") (map shown_dns c.dns_values))
                ++ (line_if (not (c.mtu == 0)) (codes "MTU") (format_uint c.mtu)
                    ++ (codes "\n[Peer]\n"
                        ++ (line (codes "PublicKey") (trim_space c.server_public_key)
                            ++ (line_if (not (length c.preshared_key == 0)) (codes "PresharedKey")
                                  (trim_space c.preshared_key)
                                ++ (line (codes "Endpoint") (endpoint c.host c.port)
                                    ++ (line (codes "AllowedIPs")
                                          (join (codes ", ") (map show_prefix routes))
                                        ++ line_if (not (c.persistent_keepalive == 0))
                                            (codes "PersistentKeepalive")
                                            (format_uint c.persistent_keepalive))))))))))

unfoldable pub check_preshared : Bytes → Checked Unit
unfolding wireguard_key trim_space
check_preshared key = if length key == 0 then success tt else wireguard_key (trim_space key)

unfoldable pub render_client_config : ClientConfig → Checked Bytes
unfolding wireguard_key trim_space check_preshared client_addresses canonical_prefixes endpoint_host
    listen_port check_mtu check_dns client_text
render_client_config c = do
  _ ← wireguard_key (trim_space c.client_key)
  _ ← wireguard_key c.server_public_key
  _ ← check_preshared c.preshared_key
  _ ← reject (length c.addresses == 0) NetworkError.no_address
  addresses ← client_addresses c.addresses
  _ ← reject (length c.routes == 0) NetworkError.no_route
  routes ← canonical_prefixes c.routes
  _ ← endpoint_host c.host
  _ ← listen_port c.port
  _ ← check_mtu c.mtu
  _ ← check_dns c.dns_values
  success (client_text c addresses routes)

unfoldable pub server_addresses : List Bytes → Checked (List Bytes)
unfolding parse_prefix show_prefix trim_space
server_addresses [] = success []
server_addresses (value ∷ values) = elim (parse_prefix (trim_space value)) [
  | none ↦ failure (NetworkError.invalid_address value)
  | some p ↦ do
    _ ← reject (p.bits == 0) (NetworkError.invalid_address value)
    rest ← server_addresses values
    success (show_prefix p ∷ rest)
]

abbrev pub line_ends : Bytes
line_ends = 13 ∷ 10 ∷ []

unfoldable pub server_text : ServerConfig → List Bytes → Bytes
unfolding format_uint join trim_space
server_text c addresses =
    codes "# WireGate-Operation: "
    ++ (c.operation_id
        ++ (codes "\n[Interface]\n"
            ++ (line (codes "PrivateKey") (trim_space c.server_key)
                ++ (line (codes "Address") (join (codes ", ") addresses)
                    ++ (line (codes "ListenPort") (format_uint c.server_port)
                        ++ (if length c.post_up == 0
                            then []
                            else line (codes "PostUp") c.post_up
                              ++ line (codes "PostDown") c.post_down))))))

unfoldable pub render_server_config : ServerConfig → Checked Bytes
unfolding contains_any wireguard_key listen_port server_addresses server_text trim_space
render_server_config c = do
  _ ←
      reject (length (trim_space c.operation_id) == 0 || contains_any c.operation_id line_ends)
        NetworkError.no_operation
  _ ← wireguard_key (trim_space c.server_key)
  _ ← listen_port c.server_port
  _ ← reject (length c.own_addresses == 0) NetworkError.no_address
  addresses ← server_addresses c.own_addresses
  _ ←
      reject (contains_any c.post_up line_ends || contains_any c.post_down line_ends)
        NetworkError.hook_newline
  _ ←
      reject
        (not (length c.post_up == 0) && length c.post_down == 0
          || length c.post_up == 0 && not (length c.post_down == 0))
        NetworkError.hook_pair
  success (server_text c addresses)
