-- ===== src/Web/PasswordLaws.antt =====
-- The bounds that a stored hash must keep (VerifyPassword of src/internal/web/auth/password.go).
use wiregate.Prelude.{
  ap, sym, [], ◌∷◌, ◌≡◌, ◌≤◌, some, none, refl, true, false, List, Bool, Option, inl, inr, length,
  Bool-cases, arith, ltb, not, ◌||◌, subst,
}
use wiregate.Stdlib.Bytes.{Bytes, same, codes, split}
use wiregate.Web.Passwords.{
  Kdf, Costs, verify_password, verify_parts, verify_costs, matches, allowed_costs, sized,
  read_costs, no_costs,
}
use wiregate.Stdlib.Same.{same-eq}
use wiregate.Stdlib.Base64.{decode_raw_base64}
use wiregate.Stdlib.Rows.{some_eq}

-- The bounds on the three costs.
pub record InBounds (c : Costs) : Type 0 where
  pub enough_memory : 19456 ≤ c.memory
  pub memory_limit : c.memory ≤ 262144
  pub enough_iterations : 2 ≤ c.iterations
  pub iteration_limit : c.iterations ≤ 10
  pub some_thread : 1 ≤ c.parallelism
  pub thread_limit : c.parallelism ≤ 8

allowed_costs-InBounds : (c : Costs) → allowed_costs c ≡ true → InBounds c
unfolding allowed_costs
allowed_costs-InBounds c h = ground arith

-- What a password that was accepted was checked against.
pub record Verified (k : Kdf) (parts : List Bytes) (password : Bytes) : Type 0 where
  pub first : Bytes
  pub costs_text : Bytes
  pub salt_text : Bytes
  pub key_text : Bytes
  pub written :
      parts ≡ first ∷ codes "argon2id" ∷ codes "v=19" ∷ costs_text ∷ salt_text ∷ key_text ∷ []
  pub costs : Costs
  pub salt : Bytes
  pub key : Bytes
  pub costs_read : read_costs no_costs (split 44 costs_text) ≡ some costs
  pub salt_read : decode_raw_base64 salt_text ≡ some salt
  pub key_read : decode_raw_base64 key_text ≡ some key
  pub in_bounds : InBounds costs
  pub salt_size : (16 ≤ length salt) × (length salt ≤ 64)
  pub key_size : (16 ≤ length key) × (length key ≤ 64)
  pub derived : k password salt costs.iterations costs.memory costs.parallelism (length key) ≡ key

no_bytes : {s : Bytes} → none ≡ some s → ⊥
no_bytes h = cc

no_match : ◌≡◌ {A = Bool} false true → ⊥
no_match h = cc

sized_bounds :
    (o : Option Bytes) (s : Bytes)
    → sized o ≡ some s
    → (o ≡ some s) × ((16 ≤ length s) × (length s ≤ 64))
unfolding sized
sized_bounds none s h = absurd (no_bytes h)
sized_bounds (some r) s h = elim (Bool-cases (ltb (length r) 16 || ltb 64 (length r))) [
  | inl e ↦ absurd (no_bytes (rw e at h))
  | inr e ↦
      let kept : r ≡ s = some_eq r s (rw e at h) in
      (
        ap some kept,
        subst (λ x. (16 ≤ length x) × (length x ≤ 64)) kept (ground arith, ground arith),
      )
]

-- The six parts of a stored hash, with the costs that they hold.
abbrev written_as : Bytes → Bytes → Bytes → Bytes → List Bytes
written_as first costs salt key = first ∷ codes "argon2id" ∷ codes "v=19" ∷ costs ∷ salt ∷ key ∷ []

matches-Verified :
    (k : Kdf) (password first costs salt key : Bytes) (c : Costs) (s x : Option Bytes)
    → read_costs no_costs (split 44 costs) ≡ some c
    → sized (decode_raw_base64 salt) ≡ s
    → sized (decode_raw_base64 key) ≡ x
    → InBounds c
    → matches k password c s x ≡ true
    → Verified k (written_as first costs salt key) password
unfolding matches
matches-Verified k password first costs salt key c none x r p q b h = absurd (no_match h)
matches-Verified k password first costs salt key c (some s) none r p q b h = absurd (no_match h)
matches-Verified k password first costs salt key c (some s) (some x) r p q b h =
    let (salt_is, salt_fits) = sized_bounds (decode_raw_base64 salt) s p in
    let (key_is, key_fits) = sized_bounds (decode_raw_base64 key) x q in
    record {
      first = first;
      costs_text = costs;
      salt_text = salt;
      key_text = key;
      written = refl;
      costs = c;
      salt = s;
      key = x;
      costs_read = r;
      salt_read = salt_is;
      key_read = key_is;
      in_bounds = b;
      salt_size = salt_fits;
      key_size = key_fits;
      derived = same-eq _ x h;
    }

verify_costs-Verified :
    (k : Kdf) (password first costs salt key : Bytes) (o : Option Costs)
    → read_costs no_costs (split 44 costs) ≡ o
    → verify_costs k password o salt key ≡ true
    → Verified k (written_as first costs salt key) password
unfolding verify_costs
verify_costs-Verified k password first costs salt key none r h = absurd (no_match h)
verify_costs-Verified k password first costs salt key (some c) r h =
    elim (Bool-cases (allowed_costs c)) [
      | inl e ↦
          matches-Verified k password first costs salt key c (sized (decode_raw_base64 salt))
            (sized (decode_raw_base64 key)) r refl refl (allowed_costs-InBounds c e) (rw e at h)
      | inr e ↦ absurd (no_match (rw e at h))
    ]

-- The scheme and the version are the ones that are supported.
supported : (x y : Bool) → not x || not y ≡ false → (x ≡ true) × (y ≡ true)
supported x y h = ground arith

verify_parts-Verified :
    (k : Kdf) (password : Bytes) (parts : List Bytes)
    → verify_parts k password parts ≡ true
    → Verified k parts password
unfolding verify_parts
verify_parts-Verified k password [] h = absurd (no_match h)
verify_parts-Verified k password (a ∷ []) h = absurd (no_match h)
verify_parts-Verified k password (a ∷ b ∷ []) h = absurd (no_match h)
verify_parts-Verified k password (a ∷ b ∷ c ∷ []) h = absurd (no_match h)
verify_parts-Verified k password (a ∷ b ∷ c ∷ d ∷ []) h = absurd (no_match h)
verify_parts-Verified k password (a ∷ b ∷ c ∷ d ∷ e ∷ []) h = absurd (no_match h)
verify_parts-Verified k password (a ∷ b ∷ c ∷ d ∷ e ∷ f ∷ []) h =
    elim (Bool-cases (not (same b (codes "argon2id")) || not (same c (codes "v=19")))) [
      | inl bad ↦ absurd (no_match (rw bad at h))
      | inr good ↦
          let (scheme, version) =
            supported (same b (codes "argon2id")) (same c (codes "v=19")) good in
          subst (λ x. Verified k (a ∷ x ∷ c ∷ d ∷ e ∷ f ∷ []) password)
            (sym (same-eq b (codes "argon2id") scheme))
            (subst (λ x. Verified k (a ∷ codes "argon2id" ∷ x ∷ d ∷ e ∷ f ∷ []) password)
              (sym (same-eq c (codes "v=19") version))
              (verify_costs-Verified k password a d e f (read_costs no_costs (split 44 d)) refl
                (rw good at h)))
    ]
verify_parts-Verified k password (a ∷ b ∷ c ∷ d ∷ e ∷ f ∷ g ∷ parts) h = absurd (no_match h)

-- A password is accepted only if the stored hash has six parts between `$`, of the scheme argon2id
-- and the version 19, whose costs, salt and key are within the bounds, and the key is what the
-- derivation gives for the password under that salt and those costs.
pub verify_password-Verified :
    (k : Kdf) (encoded password : Bytes)
    → verify_password k encoded password ≡ true
    → Verified k (split 36 encoded) password
unfolding verify_password
verify_password-Verified k encoded password h =
    verify_parts-Verified k password (split 36 encoded) h
