-- ===== src/Configdoc/Tests.antt =====
-- Runs of the theorems on small documents.
use wiregate.Prelude.{[], ◌∷◌, refl, ◌++◌, success, ◌≡◌, length, ◌≢◌}
use wiregate.Stdlib.Bytes.{
  cut_at, split, parse_decimal, format_uint, Bytes, codes, has_suffix, join,
}
use wiregate.Stdlib.Netip.{bit_len}
use wiregate.Configdoc.Nodes.{render_nodes, parse_nodes, split_lines, detect_newline}
use wiregate.Configdoc.Lossless.{render-parse_nodes}
use wiregate.Configdoc.Edit.{
  restore_peer_block, require_absent, add_peer, NewPeer, canonical_prefixes,
}
use wiregate.Configdoc.Document.{document, adoption_safe}
use wiregate.Configdoc.Appends.{restore_peer_block-SetApart, add_peer-SetApart}
use wiregate.Configdoc.PeerText.{entries, feedless, is_feedless}
use wiregate.Configdoc.Apart.{SetApart}

abbrev small_config : Bytes
small_config = codes "[Interface]\r\nMTU = 1420\r\n\n[Peer]\n# kept\nEndpoint=\tvpn:1 \nlast"

render-parse_nodes_example : render_nodes (parse_nodes small_config) ≡ small_config
render-parse_nodes_example = render-parse_nodes small_config

abbrev safe_config : Bytes
safe_config = codes "[Interface]\nPrivateKey=AAAAAAAAAAAAAAAAAAAAAAAAAAAAAAAAAAAAAAAAAAE=\n"

abbrev lost_key : Bytes
lost_key = codes "AAAAAAAAAAAAAAAAAAAAAAAAAAAAAAAAAAAAAAAAAAI="

abbrev lost_block : Bytes
lost_block = codes "[Peer]\nPublicKey=AAAAAAAAAAAAAAAAAAAAAAAAAAAAAAAAAAAAAAAAAAI=\n# laptop\n"

abbrev restored : Bytes
restored = safe_config ++ (codes "\n" ++ lost_block)

safe_config-restored :
    restore_peer_block (document safe_config) lost_key lost_block ≡ success (document restored)
unfolding restore_peer_block document adoption_safe require_absent
safe_config-restored = refl

restore_peer_block-SetApart_example :
    (adoption_safe (document safe_config) ≡ success tt)
    × (require_absent (document safe_config) lost_key ≡ success tt)
    × SetApart safe_config lost_block (document restored).raw
unfolding has_suffix
restore_peer_block-SetApart_example =
    restore_peer_block-SetApart safe_config lost_key lost_block (document restored) refl
      safe_config-restored

abbrev phone : NewPeer
phone = record {
  peer_key = lost_key;
  secret = codes "AAAAAAAAAAAAAAAAAAAAAAAAAAAAAAAAAAAAAAAAAAM=";
  prefixes = codes "10.8.0.9/24" ∷ codes " 10.8.0.0/24" ∷ [];
  host = codes " vpn:51820";
  keepalive = 25;
}

abbrev with_phone : Bytes
with_phone =
    safe_config
    ++ (codes "\n[Peer]\nPublicKey = AAAAAAAAAAAAAAAAAAAAAAAAAAAAAAAAAAAAAAAAAAI=\n"
        ++ codes "PresharedKey = AAAAAAAAAAAAAAAAAAAAAAAAAAAAAAAAAAAAAAAAAAM=\n"
        ++ codes "AllowedIPs = 10.8.0.0/24\nEndpoint = vpn:51820\nPersistentKeepalive = 25\n")

safe_config-added : add_peer (document safe_config) phone ≡ success (document with_phone)
unfolding add_peer document bit_len
safe_config-added = refl

add_peer-SetApart_example :
    (adoption_safe (document safe_config) ≡ success tt)
    × (require_absent (document safe_config) phone.peer_key ≡ success tt)
    × (length (codes "10.8.0.0/24" ∷ []) ≢ 0)
    × ((added : Bytes) × SetApart safe_config added (document with_phone).raw
        × (split_lines added
            ≡ entries phone (codes "10.8.0.0/24" ∷ []) (detect_newline safe_config)))
unfolding has_suffix canonical_prefixes is_feedless join bit_len cut_at split parse_decimal
    format_uint
add_peer-SetApart_example =
    add_peer-SetApart safe_config phone (codes "10.8.0.0/24" ∷ []) (document with_phone) refl refl
      (feedless phone.peer_key refl) (feedless phone.secret refl) (feedless _ refl)
      (feedless _ refl) safe_config-added

-- A key with a line feed in it, which decoding skips, is written onto two lines.
abbrev broken_phone : NewPeer
broken_phone = record {
  peer_key = codes "AAAAAAAAAAAA\nAAAAAAAAAAAAAAAAAAAAAAAAAAAAAAI=";
  secret = [];
  prefixes = codes "10.8.0.9/32" ∷ [];
  host = [];
  keepalive = 0;
}

abbrev with_broken_phone : Bytes
with_broken_phone =
    safe_config
    ++ (codes "\n[Peer]\nPublicKey = AAAAAAAAAAAA\nAAAAAAAAAAAAAAAAAAAAAAAAAAAAAAI=\n"
        ++ codes "AllowedIPs = 10.8.0.9/32\n")

safe_config-broken :
    add_peer (document safe_config) broken_phone ≡ success (document with_broken_phone)
unfolding add_peer document bit_len
safe_config-broken = refl
