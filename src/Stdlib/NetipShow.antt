-- ===== src/Stdlib/NetipShow.antt =====
-- `Prefix.String`, and the canonical text of a prefix.
use wiregate.Prelude.{
  [], ◌∷◌, none, some, zero, suc, List, ℕ, ◌++◌, ◌/◌, if◌then◌else◌, ◌+◌, ◌==◌, map, leb, ◌^◌, ltb,
  Option, ◌%◌, ◌*◌, take, drop,
}
use wiregate.Stdlib.Bytes.{Bytes, join, format_uint, codes}
use wiregate.Stdlib.Netip.{Addr, v4, Prefix, v6, masked}
use wiregate.Stdlib.NetipText.{parse_prefix}

hex_digit : ℕ → ℕ
hex_digit d = if ltb d 10 then 48 + d else 87 + d

-- A word without leading zeros.
hex_word : ℕ → Bytes
unfolding hex_digit
hex_word w =
    if leb 4096 w
    then hex_digit (w / 4096)
      ∷ hex_digit (w / 256 % 16)
      ∷ hex_digit (w / 16 % 16)
      ∷ hex_digit (w % 16)
      ∷ []
    else if leb 256 w
    then hex_digit (w / 256) ∷ hex_digit (w / 16 % 16) ∷ hex_digit (w % 16) ∷ []
    else if leb 16 w
    then hex_digit (w / 16) ∷ hex_digit (w % 16) ∷ []
    else hex_digit w ∷ []

show_v4 : ℕ → Bytes
show_v4 n =
    join (b'.' ∷ [])
      (map format_uint ((n / 16777216) ∷ (n / 65536 % 256) ∷ (n / 256 % 256) ∷ (n % 256) ∷ []))

to_words : ℕ → ℕ → List ℕ
to_words zero n = []
to_words (suc k) n = (n / 65536 ^ k % 65536) ∷ to_words k n

-- How many zero words a list begins with.
zero_run : List ℕ → ℕ
zero_run [] = 0
zero_run (w ∷ ws) = let n = zero_run ws in if w == 0 then n + 1 else 0

-- The start and the length of the longest run of zeros, the first among equals, from an index on.
longest_run : ℕ → List ℕ → ℕ × ℕ
unfolding zero_run
longest_run i [] = (0, 0)
longest_run i (w ∷ ws) =
    let (start, n) = longest_run (i + 1) ws in
    if leb n (zero_run (w ∷ ws)) then (i, zero_run (w ∷ ws)) else (start, n)

show_v6 : ℕ → Bytes
unfolding hex_word show_v4 to_words longest_run
show_v6 n =
    let ws = to_words 8 n in
    let (start, run) = longest_run 0 ws in
    let colon : Bytes = b':' ∷ [] in
    if n / 65536 / 65536 == 65535
    then codes "::ffff:" ++ show_v4 (n % (65536 * 65536))
    else if ltb run 2
    then join colon (map hex_word ws)
    else join colon (map hex_word (take start ws))
      ++ (codes "::" ++ join colon (map hex_word (drop (start + run) ws)))

-- `Addr.String` of an address without a zone.
unfoldable pub show_addr : Addr → Bytes
unfolding show_v4 show_v6
show_addr (v4 n) = show_v4 n
show_addr (v6 n) = show_v6 n

-- `Addr.String`
unfoldable pub show_zoned : Addr × Option Bytes → Bytes
unfolding show_addr
show_zoned (a, none) = show_addr a
show_zoned (a, some zone) = show_addr a ++ (b'%' ∷ zone)

unfoldable pub show_prefix : Prefix → Bytes
unfolding show_addr
show_prefix p = show_addr p.addr ++ (b'/' ∷ format_uint p.bits)

-- `prefix.Masked().String()` of what a text holds.
unfoldable pub canonical : Bytes → Option Bytes
unfolding parse_prefix show_prefix masked
canonical s = elim (parse_prefix s) [ none ↦ none | some p ↦ some (show_prefix (masked p)) ]
