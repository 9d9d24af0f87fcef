-- ===== src/Stdlib/Base64.antt =====
-- `base64.StdEncoding.DecodeString`, and the two checks of a WireGuard key that rest on it
-- (validateKey of internal/agent/configdoc/document.go and WireGuardKey of
-- internal/agent/validation/validation.go).
use wiregate.Prelude.{
  [], ◌∷◌, none, some, Option, ℕ, ◌*◌, ◌++◌, Bool, if◌then◌else◌, leb, ◌==◌, ◌+◌, false, ◌/◌, not,
  ◌||◌, length, ◌&&◌, ◌-◌, ◌%◌, take, ltb, contains_by,
}
use wiregate.Stdlib.Bytes.{Bytes, trim_space}

-- The six bits of a character.
sextet : ℕ → Option ℕ
sextet c =
    if leb 65 c && leb c 90
    then some (c - 65)
    else if leb 97 c && leb c 122
    then some (c - 71)
    else if leb 48 c && leb c 57
    then some (c + 4)
    else if c == 43
    then some 62
    else if c == 47
    then some 63
    else none

-- Line ends are skipped.
without_newlines : Bytes → Bytes
without_newlines [] = []
without_newlines (c ∷ s) =
    let rest = without_newlines s in if c == 10 || c == 13 then rest else c ∷ rest

infixl 5 ◌>>=◌
abbrev ◌>>=◌ : {A B : Type 0} → Option A → (A → Option B) → Option B
none >>= f = none
some a >>= f = f a

quantum : ℕ → ℕ → ℕ → ℕ → Bytes
quantum a b c d =
    let n = ((a * 64 + b) * 64 + c) * 64 + d in (n / 65536) ∷ (n / 256 % 256) ∷ (n % 256) ∷ []

last_quantum : ℕ → ℕ → ℕ → ℕ → Option Bytes
unfolding quantum sextet
last_quantum p q r s =
    if r == 61 && s == 61
    then (do a ← sextet p; b ← sextet q; some (take 1 (quantum a b 0 0)))
    else if s == 61
    then (do a ← sextet p; b ← sextet q; c ← sextet r; some (take 2 (quantum a b c 0)))
    else (do a ← sextet p; b ← sextet q; c ← sextet r; d ← sextet s; some (quantum a b c d))

decode_quanta : Bytes → Option Bytes
unfolding last_quantum
decode_quanta [] = some []
decode_quanta (p ∷ q ∷ r ∷ s ∷ []) = last_quantum p q r s
decode_quanta (p ∷ q ∷ r ∷ s ∷ t ∷ rest) = do
  a ← sextet p
  b ← sextet q
  c ← sextet r
  d ← sextet s
  bytes ← decode_quanta (t ∷ rest)
  some (quantum a b c d ++ bytes)
decode_quanta _ = none

unfoldable pub decode_base64 : Bytes → Option Bytes
unfolding decode_quanta without_newlines
decode_base64 s = decode_quanta (without_newlines s)

any_nonzero : Bytes → Bool
any_nonzero [] = false
any_nonzero (b ∷ bytes) = not (b == 0) || any_nonzero bytes

-- The decoded key has 32 bytes, and one of them is not zero.
unfoldable pub valid_key : Bytes → Bool
unfolding decode_base64 any_nonzero trim_space
valid_key value = elim (decode_base64 (trim_space value)) [
  | none ↦ false
  | some decoded ↦ length decoded == 32 && any_nonzero decoded
]

-- `base64.RawStdEncoding.DecodeString`: the padding is left off, and none may be written.
unfoldable pub decode_raw_base64 : Bytes → Option Bytes
unfolding decode_quanta without_newlines
decode_raw_base64 s =
    let t = without_newlines s in
    let padding = if length t % 4 == 0 then [] else take (4 - length t % 4) (61 ∷ 61 ∷ 61 ∷ []) in
    if contains_by ◌==◌ t 61 then none else decode_quanta (t ++ padding)

-- The character of six bits.
unfoldable pub alphabet : ℕ → ℕ
alphabet n =
    if ltb n 26
    then n + 65
    else if ltb n 52
    then n + 71
    else if ltb n 62
    then n - 4
    else if n == 62
    then 43
    else 47

-- `base64.RawStdEncoding.EncodeToString`
unfoldable pub encode_raw_base64 : Bytes → Bytes
unfolding alphabet
encode_raw_base64 [] = []
encode_raw_base64 (a ∷ []) = alphabet (a / 4) ∷ alphabet (a % 4 * 16) ∷ []
encode_raw_base64 (a ∷ b ∷ []) =
    alphabet (a / 4) ∷ alphabet (a % 4 * 16 + b / 16) ∷ alphabet (b % 16 * 4) ∷ []
encode_raw_base64 (a ∷ b ∷ c ∷ bytes) =
    alphabet (a / 4)
    ∷ alphabet (a % 4 * 16 + b / 16)
    ∷ alphabet (b % 16 * 4 + c / 64)
    ∷ alphabet (c % 64)
    ∷ encode_raw_base64 bytes
