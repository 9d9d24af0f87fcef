-- ===== src/Web/Passwords.antt =====
-- Passwords of the web server (src/internal/web/auth/password.go). The key derivation of package
-- argon2 is a parameter; the salt that the source draws is an argument.
use wiregate.Prelude.{
  none, some, ℕ, Bool, Option, Fallible, success, ◌>>=◌, reject, [], ◌∷◌, false, List,
  if◌then◌else◌, not, length, ◌||◌, ◌++◌, ltb, ◌==◌, drop,
}
use wiregate.Stdlib.Bytes.{Bytes, codes, split, rune_count, same, cut_at, parse_uint32, valid_utf8}
use wiregate.Web.Tables.{WebError}
use wiregate.Stdlib.Base64.{encode_raw_base64, decode_raw_base64}

-- `argon2.IDKey(password, salt, time, memory, threads, keyLen)`
abbrev pub Kdf : Type 0
Kdf = Bytes → Bytes → ℕ → ℕ → ℕ → ℕ → Bytes

-- The parameters m, t and p of an encoded hash.
pub record Costs : Type 0 where
  pub memory : ℕ
  pub iterations : ℕ
  pub parallelism : ℕ

abbrev pub argon_memory : ℕ
argon_memory = 19456

-- `strings.Cut(parameter, "=")` and the number after it.
read_cost : Bytes → Option (Bytes × ℕ)
unfolding cut_at parse_uint32
read_cost parameter = elim (cut_at 61 parameter) [
  | none ↦ none
  | some p ↦ elim (parse_uint32 (drop 1 p.1)) [ none ↦ none | some n ↦ some (p.0, n) ]
]

set_cost : Costs → Option (Bytes × ℕ) → Option Costs
unfolding same
set_cost c none = none
set_cost c (some (key, n)) =
    if same key (codes "m")
    then some (record c { memory = n })
    else if same key (codes "t")
    then some (record c { iterations = n })
    else if same key (codes "p")
    then some (record c { parallelism = n })
    else none

unfoldable pub read_costs : Costs → List Bytes → Option Costs
unfolding set_cost read_cost
read_costs c [] = some c
read_costs c (parameter ∷ parameters) = elim (set_cost c (read_cost parameter)) [
  | none ↦ none
  | some d ↦ read_costs d parameters
]

-- The bounds on the parameters of a stored hash.
unfoldable pub allowed_costs : Costs → Bool
allowed_costs c = not (
    ltb c.memory argon_memory
    || ltb 262144 c.memory
    || ltb c.iterations 2
    || ltb 10 c.iterations
    || c.parallelism == 0
    || ltb 8 c.parallelism)

-- A salt or a key of 16 to 64 bytes.
unfoldable pub sized : Option Bytes → Option Bytes
sized none = none
sized (some s) = if ltb (length s) 16 || ltb 64 (length s) then none else some s

-- The derived key is compared with the stored one.
unfoldable pub matches : Kdf → Bytes → Costs → Option Bytes → Option Bytes → Bool
unfolding same
matches kdf password c (some salt) (some expected) =
    same (kdf password salt c.iterations c.memory c.parallelism (length expected)) expected
matches kdf password c _ _ = false

unfoldable pub verify_costs : Kdf → Bytes → Option Costs → Bytes → Bytes → Bool
unfolding allowed_costs sized matches decode_raw_base64
verify_costs kdf password none salt key = false
verify_costs kdf password (some c) salt key =
    if not (allowed_costs c)
    then false
    else matches kdf password c (sized (decode_raw_base64 salt)) (sized (decode_raw_base64 key))

abbrev pub no_costs : Costs
no_costs = record { memory = 0; iterations = 0; parallelism = 0 }

unfoldable pub verify_parts : Kdf → Bytes → List Bytes → Bool
unfolding same verify_costs read_costs split
verify_parts kdf password (first ∷ scheme ∷ version ∷ costs ∷ salt ∷ key ∷ []) =
    if not (same scheme (codes "argon2id")) || not (same version (codes "v=19"))
    then false
    else verify_costs kdf password (read_costs no_costs (split 44 costs)) salt key
verify_parts kdf password _ = false

unfoldable pub verify_password : Kdf → Bytes → Bytes → Bool
unfolding verify_parts split
verify_password kdf encoded password = verify_parts kdf password (split 36 encoded)

unfoldable pub validate_password : Bytes → Fallible WebError Unit
unfolding rune_count valid_utf8
validate_password password = do
  _ ← reject (ltb (rune_count password) 12) WebError.weak_password
  _ ← reject (ltb 128 (rune_count password) || ltb 1024 (length password)) WebError.weak_password
  reject (not (valid_utf8 password)) WebError.weak_password

unfoldable pub hash_password : Kdf → Bytes → Bytes → Fallible WebError Bytes
unfolding validate_password encode_raw_base64
hash_password kdf salt password = do
  _ ← validate_password password
  success (
      codes "$argon2id$v=19$m=19456,t=2,p=1$"
      ++ (encode_raw_base64 salt
          ++ (codes "$" ++ encode_raw_base64 (kdf password salt 2 argon_memory 1 32))))
