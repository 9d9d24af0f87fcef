-- ===== src/Stdlib/Tests.antt =====
-- Runs of the parsers and printers.
use wiregate.Prelude.{refl, ◌∷◌, none, some, ◌≡◌, false, true}
use wiregate.Stdlib.Bytes.{
  trim_space, cut_at, codes, has_prefix, parse_decimal, join, format_uint, split,
}
use wiregate.Stdlib.NetipShow.{canonical}
use wiregate.Stdlib.Base64.{valid_key}
use wiregate.Stdlib.Netip.{bit_len}

canonical_v6 : canonical (codes "2001:DB8::0:1/33") ≡ some (codes "2001:db8::/33")
unfolding canonical cut_at has_prefix parse_decimal bit_len join format_uint
canonical_v6 = refl

canonical_v4 : canonical (codes "10.8.3.77/20") ≡ some (codes "10.8.0.0/20")
unfolding canonical cut_at has_prefix parse_decimal bit_len join format_uint split
canonical_v4 = refl

canonical_embedded :
    canonical (codes "64:ff9b::192.0.2.33/128") ≡ some (codes "64:ff9b::c000:221/128")
unfolding canonical cut_at has_prefix parse_decimal bit_len join format_uint split
canonical_embedded = refl

canonical_bad : canonical (codes "10.08.0.0/16") ≡ none
unfolding canonical cut_at has_prefix parse_decimal bit_len join format_uint split
canonical_bad = refl

key_ok : valid_key (codes " AAAAAAAAAAAAAAAAAAAAAAAAAAAAAAAAAAAAAAAAAAE= ") ≡ true
unfolding valid_key
key_ok = refl

key_zero : valid_key (codes "AAAAAAAAAAAAAAAAAAAAAAAAAAAAAAAAAAAAAAAAAAA=") ≡ false
unfolding valid_key
key_zero = refl

trimmed : trim_space (0xC2 ∷ 0xA0 ∷ codes " a b\t") ≡ codes "a b"
unfolding trim_space
trimmed = refl
