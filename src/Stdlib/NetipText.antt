-- ===== src/Stdlib/NetipText.antt =====
-- `netip.ParsePrefix` and `netip.ParseAddr`. An address with a zone is an error to `ParsePrefix`, so
-- the parser of addresses below it fails on one.
use wiregate.Prelude.{
  refl, inl, inr, ◌≡◌, Bool-cases, subst, [], ◌∷◌, none, some, zero, suc, Option, List, ℕ,
  if◌then◌else◌, not, ◌*◌, Bool, ◌==◌, length, reverse, leb, drop, ◌&&◌, ◌+◌, true, ltb, ◌-◌, ◌||◌,
  false, take, ◌++◌, ◌%◌, ◌/◌,
}
use wiregate.Stdlib.Bytes.{Bytes, split, parse_decimal, has_prefix, cut_at}
use wiregate.Stdlib.Netip.{Addr, v4, v6, Prefix, bit_len}

infixl 5 ◌>>=◌
abbrev ◌>>=◌ : {A B : Type 0} → Option A → (A → Option B) → Option B
none >>= f = none
some a >>= f = f a

-- One field of an IPv4 address: decimal, without a leading zero, below 256.
octet : Bytes → Option ℕ
octet s = do
  n ← parse_decimal s
  if ltb n 256 && (length s == 1 || not (has_prefix s (48 ∷ []))) then some n else none

four_octets : List Bytes → Option ℕ
unfolding octet
four_octets (a ∷ b ∷ c ∷ d ∷ []) = do
  w ← octet a
  x ← octet b
  y ← octet c
  z ← octet d
  some (((w * 256 + x) * 256 + y) * 256 + z)
four_octets _ = none

parse_v4 : Bytes → Option ℕ
unfolding four_octets
parse_v4 s = four_octets (split b'.' s)

hex_value : ℕ → Option ℕ
hex_value c =
    if leb 48 c && leb c 57
    then some (c - 48)
    else if leb 97 c && leb c 102
    then some (c - 87)
    else if leb 65 c && leb c 70
    then some (c - 55)
    else none

-- The number of the hexadecimal digits at the start, how many they are, and what follows them.
hex_run : ℕ → ℕ → Bytes → ℕ × ℕ × Bytes
hex_run acc n [] = (acc, n, [])
hex_run acc n (c ∷ s) = elim (hex_value c) [
  | none ↦ (acc, n, c ∷ s)
  | some d ↦ hex_run (acc * 16 + d) (n + 1) s
]

-- The 16-bit words read so far, the last one first, and how many stood before `::`.
pub record Words : Type 0 where
  pub words : List ℕ
  pub ellipsis : Option ℕ

push_word : ℕ → Words → Words
push_word w ws = record ws { words = w ∷ ws.words }

is_none : Option ℕ → Bool
is_none none = true
is_none (some _) = false

-- After a field: the end, a colon and a field, or `::`.
pub data Next : Type 0 where
  stop : Next
  bad : Next
  field : Bytes → Next
  gap : Bytes → Next

next_field : Bytes → Next
next_field [] = Next.stop
next_field (c ∷ []) = Next.bad
next_field (c ∷ d ∷ s) =
    if not (c == b':') then Next.bad else if d == b':' then Next.gap s else Next.field (d ∷ s)

-- The loop over the fields; a field and its colon take at least two bytes, so the length of the
-- text is enough fuel. An IPv4 address may end the text.
fields : ℕ → Bytes → Words → Option Words
unfolding hex_run hex_value push_word is_none next_field parse_v4
fields zero s ws = none
fields (suc fuel) s ws =
    let (value, n, rest) = hex_run 0 0 s in
    let count = length ws.words in
    let again = λ (t : Bytes) (us : Words). fields fuel t us in
    if has_prefix rest (b'.' ∷ [])
    then (if (is_none ws.ellipsis && not (count == 6)) || ltb 6 count
        then none
        else elim (parse_v4 s) [
          | none ↦ none
          | some a ↦ some (push_word (a % 65536) (push_word (a / 65536) ws))
        ])
    else if n == 0 || ltb 4 n || leb 8 count
    then none
    else elim (next_field rest) [
      | stop ↦ some (push_word value ws)
      | bad ↦ none
      | field t ↦ if leb 7 count then none else again t (push_word value ws)
      | gap t ↦ elim ws.ellipsis [
        | some _ ↦ none
        | none ↦
            let us : Words = record { words = value ∷ ws.words; ellipsis = some (count + 1) } in
            elim t [ [] ↦ some us | c ∷ u ↦ if leb 7 count then none else again (c ∷ u) us ]
      ]
    ]

from_words : ℕ → List ℕ → ℕ
from_words acc [] = acc
from_words acc (w ∷ ws) = from_words (acc * 65536 + w) ws

replicate : ℕ → ℕ → List ℕ
replicate zero w = []
replicate (suc n) w = w ∷ replicate n w

-- The words of `::` are zero, and there is at least one of them.
expand : Words → Option ℕ
unfolding from_words replicate
expand ws =
    let read = reverse ws.words in
    elim ws.ellipsis [
      | none ↦ if length read == 8 then some (from_words 0 read) else none
      | some k ↦
          if ltb (length read) 8
          then some (from_words 0 (take k read ++ (replicate (8 - length read) 0 ++ drop k read)))
          else none
    ]

after_gap : ℕ → Bytes → Option ℕ
unfolding fields expand
after_gap fuel [] = some 0
after_gap fuel (c ∷ t) = fields fuel (c ∷ t) (record { words = []; ellipsis = some 0 }) >>= expand

parse_v6 : Bytes → Option ℕ
unfolding after_gap
parse_v6 s =
    if has_prefix s (b':' ∷ b':' ∷ [])
    then after_gap (length s) (drop 2 s)
    else fields (length s) s (record { words = []; ellipsis = none }) >>= expand

first_separator : Bytes → Option ℕ
first_separator [] = none
first_separator (c ∷ t) =
    let rest = first_separator t in if c == b'.' || c == b':' || c == b'%' then some c else rest

-- The first of `.`, `:` and `%` decides between the kinds of address.
unfoldable pub parse_addr : Bytes → Option Addr
unfolding parse_v4 parse_v6 first_separator
parse_addr s = do
  c ← first_separator s
  if c == b'.'
      then (parse_v4 s >>= λ n. some (v4 n))
      else if c == b':'
      then (parse_v6 s >>= λ n. some (v6 n))
      else none

-- `netip.ParseAddr`: an IPv6 address may have a zone, which may be any text but the empty one.
unfoldable pub parse_zoned : Bytes → Option (Addr × Option Bytes)
unfolding parse_addr parse_v6 first_separator
parse_zoned s = elim (cut_at b'%' s) [
  | none ↦ (do a ← parse_addr s; some (a, none))
  | some (before, after) ↦ do
    c ← first_separator s
    n ← if c == b':' && not (length after == 1) then parse_v6 before else none
    some (v6 n, some (drop 1 after))
]

-- The text before the last `/` and the text after it.
cut_last : Bytes → Option (Bytes × Bytes)
cut_last s = elim (cut_at b'/' (reverse s)) [
  | none ↦ none
  | some (after, before) ↦ some (reverse (drop 1 before), reverse after)
]

-- `strconv.Atoi` would take a sign and leading zeros, which are refused before.
parse_bits : Bytes → Option ℕ
parse_bits s = if has_prefix s (b'0' ∷ []) && ltb 1 (length s) then none else parse_decimal s

unfoldable pub parse_prefix : Bytes → Option Prefix
unfolding parse_addr cut_last parse_bits
parse_prefix s = do
  parts ← cut_last s
  addr ← parse_addr parts.0
  bits ← parse_bits parts.1
  if leb bits (bit_len addr) then some (record { addr = addr; bits = bits }) else none

bind-some :
    {A B : Type 0} (m : Option A) (f : A → Option B) (b : B)
    → m >>= f ≡ some b
    → (a : A) × (m ≡ some a) × (f a ≡ some b)
bind-some none f b h = cc
bind-some (some a) f b h = (a, refl, h)

prefix_eq : (p q : Prefix) → some p ≡ some q → p ≡ q
prefix_eq p q h = cc

no_prefix : {p : Prefix} → none ≡ some p → ⊥
no_prefix h = cc

fitting-some :
    (a : Addr) (bits : ℕ) (p : Prefix)
    → (if leb bits (bit_len a) then some (record { addr = a; bits = bits }) else none) ≡ some p
    → leb p.bits (bit_len p.addr) ≡ true
fitting-some a bits p h = elim (Bool-cases (leb bits (bit_len a))) [
  | inl e ↦ subst (λ q. leb q.bits (bit_len q.addr) ≡ true) (prefix_eq _ p (rw e at h)) e
  | inr e ↦ absurd (no_prefix (rw e at h))
]

-- The length of a prefix that was read is at most that of its address.
pub parse_prefix-leb :
    (s : Bytes) (p : Prefix) → parse_prefix s ≡ some p → leb p.bits (bit_len p.addr) ≡ true
unfolding parse_prefix
parse_prefix-leb s p h =
    let (parts, _, h1) = bind-some (cut_last s) _ p h in
    let (a, _, h2) = bind-some (parse_addr parts.0) _ p h1 in
    let (bits, _, h3) = bind-some (parse_bits parts.1) _ p h2 in fitting-some a bits p h3
