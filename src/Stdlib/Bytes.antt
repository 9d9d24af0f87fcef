-- ===== src/Stdlib/Bytes.antt =====
-- Byte strings as lists of numbers, with the functions of packages bytes, strings and strconv that
-- the program calls. Case folding is that of ASCII.
use Prim.Native.Char.{code}
use Prim.Native.String.{String}
use wiregate.Prelude.{
  [], ◌∷◌, none, some, zero, suc, Bool, Option, length, map, List, ℕ, true, drop, ◌++◌, ◌||◌, ◌/◌,
  leb, ◌*◌, if◌then◌else◌, ◌==◌, ◌&&◌, ◌+◌, ltb, false, ◌%◌, ◌-◌, reverse, not, contains_by, take,
}

abbrev pub Bytes : Type 0
Bytes = List ℕ

abbrev pub codes : String → Bytes
codes String.[] = []
codes (String.◌∷◌ c s) = code c ∷ codes s

-- `a == b` on strings.
unfoldable pub same : Bytes → Bytes → Bool
same [] [] = true
same [] (y ∷ ys) = false
same (x ∷ xs) [] = false
same (x ∷ xs) (y ∷ ys) = x == y && same xs ys

-- `strings.HasPrefix`
unfoldable pub has_prefix : Bytes → Bytes → Bool
has_prefix s [] = true
has_prefix [] (y ∷ ys) = false
has_prefix (x ∷ xs) (y ∷ ys) = x == y && has_prefix xs ys

-- `strings.HasSuffix`
unfoldable pub has_suffix : Bytes → Bytes → Bool
unfolding has_prefix
has_suffix s t = has_prefix (reverse s) (reverse t)

-- `bytes.Contains`
unfoldable pub contains : Bytes → Bytes → Bool
unfolding has_prefix
contains [] t = has_prefix [] t
contains (x ∷ xs) t = has_prefix (x ∷ xs) t || contains xs t

abbrev with_head : ℕ → Option (Bytes × Bytes) → Option (Bytes × Bytes)
with_head x none = none
with_head x (some (before, after)) = some (x ∷ before, after)

-- `bytes.IndexByte`, as the bytes before the first occurrence and those from it on.
unfoldable pub cut_at : ℕ → Bytes → Option (Bytes × Bytes)
cut_at b [] = none
cut_at b (x ∷ xs) = if x == b then some ([], x ∷ xs) else with_head x (cut_at b xs)

-- The white space of `unicode.IsSpace` in ASCII.
unfoldable pub is_space : ℕ → Bool
is_space c = c == 32 || (leb 9 c && leb c 13)

-- The white space characters beyond ASCII, in UTF-8.
abbrev wide_spaces : List Bytes
wide_spaces =
    (0xC2 ∷ 0x85 ∷ [])
    ∷ (0xC2 ∷ 0xA0 ∷ [])
    ∷ (0xE1 ∷ 0x9A ∷ 0x80 ∷ [])
    ∷ (0xE2 ∷ 0x80 ∷ 0x80 ∷ [])
    ∷ (0xE2 ∷ 0x80 ∷ 0x81 ∷ [])
    ∷ (0xE2 ∷ 0x80 ∷ 0x82 ∷ [])
    ∷ (0xE2 ∷ 0x80 ∷ 0x83 ∷ [])
    ∷ (0xE2 ∷ 0x80 ∷ 0x84 ∷ [])
    ∷ (0xE2 ∷ 0x80 ∷ 0x85 ∷ [])
    ∷ (0xE2 ∷ 0x80 ∷ 0x86 ∷ [])
    ∷ (0xE2 ∷ 0x80 ∷ 0x87 ∷ [])
    ∷ (0xE2 ∷ 0x80 ∷ 0x88 ∷ [])
    ∷ (0xE2 ∷ 0x80 ∷ 0x89 ∷ [])
    ∷ (0xE2 ∷ 0x80 ∷ 0x8A ∷ [])
    ∷ (0xE2 ∷ 0x80 ∷ 0xA8 ∷ [])
    ∷ (0xE2 ∷ 0x80 ∷ 0xA9 ∷ [])
    ∷ (0xE2 ∷ 0x80 ∷ 0xAF ∷ [])
    ∷ (0xE2 ∷ 0x81 ∷ 0x9F ∷ [])
    ∷ (0xE3 ∷ 0x80 ∷ 0x80 ∷ [])
    ∷ []

-- How many bytes of a text belong to a space that it begins with, among some spaces.
leading : List Bytes → Bytes → ℕ
unfolding has_prefix
leading [] s = 0
leading (w ∷ ws) s = if has_prefix s w then length w else leading ws s

space_size : List Bytes → Bytes → ℕ
unfolding leading is_space
space_size wide [] = 0
space_size wide (c ∷ s) = if is_space c then 1 else leading wide (c ∷ s)

-- Drop the spaces at the start. Every round drops a byte, so the length is enough fuel.
trim_start : List Bytes → ℕ → Bytes → Bytes
unfolding space_size
trim_start wide zero s = s
trim_start wide (suc fuel) s =
    let rest = trim_start wide fuel (drop (space_size wide s) s) in
    if space_size wide s == 0 then s else rest

-- `strings.TrimSpace`
unfoldable pub trim_space : Bytes → Bytes
unfolding trim_start
trim_space s =
    let t = trim_start wide_spaces (length s) s in
    reverse (trim_start (map reverse wide_spaces) (length t) (reverse t))

unfoldable pub lower : ℕ → ℕ
lower c = if leb 65 c && leb c 90 then c + 32 else c

-- `strings.ToLower`
unfoldable pub to_lower : Bytes → Bytes
unfolding lower
to_lower = map lower

split_from : ℕ → Bytes → Bytes → List Bytes
split_from b acc [] = reverse acc ∷ []
split_from b acc (x ∷ xs) = elim (x == b) [
  | true ↦ reverse acc ∷ split_from b [] xs
  | false ↦ split_from b (x ∷ acc) xs
]

-- `strings.Split` by one byte.
unfoldable pub split : ℕ → Bytes → List Bytes
unfolding split_from
split b = split_from b []

-- `strings.Join`
unfoldable pub join : Bytes → List Bytes → Bytes
join sep [] = []
join sep (s ∷ []) = s
join sep (s ∷ t ∷ ts) = s ++ (sep ++ join sep (t ∷ ts))

is_digit : ℕ → Bool
is_digit c = leb 48 c && leb c 57

digits_from : ℕ → Bytes → Option ℕ
unfolding is_digit
digits_from acc [] = some acc
digits_from acc (c ∷ s) =
    let rest = digits_from (acc * 10 + (c - 48)) s in if is_digit c then rest else none

-- A number in decimal digits, at least one of them.
unfoldable pub parse_decimal : Bytes → Option ℕ
unfolding digits_from
parse_decimal [] = none
parse_decimal (c ∷ s) = digits_from 0 (c ∷ s)

-- `strconv.ParseUint(s, 10, 16)`; nil on an error.
unfoldable pub parse_uint16 : Bytes → Option ℕ
unfolding parse_decimal
parse_uint16 s = elim (parse_decimal s) [
  | none ↦ none
  | some n ↦ if ltb n 65536 then some n else none
]

unfoldable pub decimal_from : ℕ → ℕ → Bytes → Bytes
decimal_from zero n acc = acc
decimal_from (suc fuel) n acc =
    let more = decimal_from fuel (n / 10) ((48 + n % 10) ∷ acc) in
    if ltb n 10 then (48 + n) ∷ acc else more

-- `strconv.FormatUint(n, 10)`; a number has at most as many digits as its value and one.
unfoldable pub format_uint : ℕ → Bytes
unfolding decimal_from
format_uint n = decimal_from (suc n) n []

-- `strconv.ParseUint(s, 10, 32)`; nil on an error.
unfoldable pub parse_uint32 : Bytes → Option ℕ
unfolding parse_decimal
parse_uint32 s = elim (parse_decimal s) [
  | none ↦ none
  | some n ↦ if ltb n 4294967296 then some n else none
]

is_continuation : ℕ → Bool
is_continuation b = leb 128 b && leb b 191

-- The length of the UTF-8 sequence that a text starts with; none where it is not valid.
sequence_length : Bytes → Option ℕ
unfolding is_continuation
sequence_length (a ∷ b ∷ c ∷ d ∷ s) =
    if ltb a 128
    then some 1
    else if leb 194 a && leb a 223 && is_continuation b
    then some 2
    else if leb 224 a
        && leb a 239
        && is_continuation b
        && is_continuation c
        && not (a == 224 && ltb b 160)
        && not (a == 237 && leb 160 b)
    then some 3
    else if leb 240 a
        && leb a 244
        && is_continuation b
        && is_continuation c
        && is_continuation d
        && not (a == 240 && ltb b 144)
        && not (a == 244 && leb 144 b)
    then some 4
    else none
sequence_length s = none

-- The characters of a text, one for a byte that is not valid, and whether all are valid. The bytes
-- after the end are zero, which continue no sequence.
rune_scan : ℕ → Bytes → ℕ × Bool
unfolding sequence_length
rune_scan zero s = (0, true)
rune_scan (suc fuel) [] = (0, true)
rune_scan (suc fuel) (a ∷ s) = elim (sequence_length (a ∷ s ++ (0 ∷ 0 ∷ 0 ∷ []))) [
  | none ↦ let (n, valid) = rune_scan fuel s in (suc n, false)
  | some k ↦ let (n, valid) = rune_scan fuel (drop k (a ∷ s)) in (suc n, valid)
]

-- `utf8.RuneCountInString`; every round takes a byte, so the length is enough fuel.
unfoldable pub rune_count : Bytes → ℕ
unfolding rune_scan
rune_count s = (rune_scan (length s) s).0

-- `utf8.ValidString`
unfoldable pub valid_utf8 : Bytes → Bool
unfolding rune_scan
valid_utf8 s = (rune_scan (length s) s).1

-- `strings.ContainsAny`
unfoldable pub contains_any : Bytes → Bytes → Bool
contains_any [] chars = false
contains_any (c ∷ s) chars = contains_by (λ a b. a == b) chars c || contains_any s chars

-- `strings.TrimPrefix` and `strings.TrimSuffix`
unfoldable pub trim_prefix : Bytes → Bytes → Bytes
unfolding has_prefix
trim_prefix s t = if has_prefix s t then drop (length t) s else s

unfoldable pub trim_suffix : Bytes → Bytes → Bytes
unfolding has_suffix
trim_suffix s t = if has_suffix s t then take (length s - length t) s else s

-- `a < b` on strings.
unfoldable pub less_bytes : Bytes → Bytes → Bool
less_bytes [] [] = false
less_bytes [] (y ∷ ys) = true
less_bytes (x ∷ xs) [] = false
less_bytes (x ∷ xs) (y ∷ ys) = ltb x y || (x == y && less_bytes xs ys)
