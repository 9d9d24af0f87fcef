-- ===== src/Stdlib/Overlaps.antt =====
-- Prefixes overlap if and only if an address lies in both.
use Prim.Native.Nat.{min}
use native.Mathlib.Nat.{
  mul_assoc, div-div-eq-div-mul, pow-succ', eq_of_mul-eq-mul_right, min-eq_left, min-eq_right,
}
use wiregate.Prelude.{
  ℕ, suc, zero, ◌/◌, ◌*◌, ◌^◌, ◌-◌, ◌+◌, ◌≤◌, ◌<◌, ◌≡◌, Bool, true, false, refl, ap, sym, ◌∙◌,
  subst, arith, inl, inr, ◌⊎◌, Bool-cases, leb, ◌==◌,
}
use wiregate.Stdlib.Netip.{
  Addr, v4, v6, Prefix, bit_len, overlaps, contains_addr, mask_addr, same_addr,
}

plain : (n : ℕ) → 0 + n ≡ n
plain n = omega arith

one_times : (n : ℕ) → n ≡ 2 ^ 0 * n
one_times n = omega arith

mul_assoc_two : (a b : ℕ) → 2 * (a * b) ≡ (2 * a) * b
mul_assoc_two a b = sym (mul_assoc 2 a b)

suc_plus : (m n : ℕ) → suc m + n ≡ suc (m + n)
suc_plus m n = omega arith

pow_add : (m n : ℕ) → 2 ^ (m + n) ≡ 2 ^ m * 2 ^ n
pow_add zero n = ap (λ x. 2 ^ x) (plain n) ∙ one_times (2 ^ n)
pow_add (suc m) n =
    ap (λ x. 2 ^ x) (suc_plus m n)
    ∙ pow-succ' 2 (m + n)
    ∙ ap (λ x. 2 * x) (pow_add m n)
    ∙ mul_assoc_two (2 ^ m) (2 ^ n)
    ∙ sym (ap (λ x. x * 2 ^ n) (pow-succ' 2 m))

pub pow_pos : (n : ℕ) → 0 < 2 ^ n
pow_pos zero = omega arith
pow_pos (suc n) = omega (arith, pow-succ' 2 n, pow_pos n)

split_width : (w k j : ℕ) → k ≤ j → j ≤ w → w - k ≡ (w - j) + (j - k)
split_width w k j h l = omega arith

-- The leading bits of an address are the leading bits of more of them.
leading_bits : (w k j n : ℕ) → k ≤ j → j ≤ w → n / 2 ^ (w - k) ≡ n / 2 ^ (w - j) / 2 ^ (j - k)
leading_bits w k j n h l =
    ap (λ x. n / x) (ap (λ x. 2 ^ x) (split_width w k j h l) ∙ pow_add (w - j) (j - k))
    ∙ sym (div-div-eq-div-mul n (2 ^ (w - j)) (2 ^ (j - k)))

total : (k j : ℕ) → (k ≤ j) ⊎ (j ≤ k)
total k j = elim (Bool-cases (leb k j)) [ inl h ↦ inl (ground arith) | inr h ↦ inr (ground arith) ]

div_congruent : (a b d : ℕ) → a ≡ b → a / d ≡ b / d
div_congruent a b d h = ap (λ x. x / d) h

-- Where two numbers agree in their leading bits with a third, they agree in the fewer of them.
shared_bits :
    (w k j n m a : ℕ)
    → k ≤ j
    → j ≤ w
    → n / 2 ^ (w - k) ≡ a / 2 ^ (w - k)
    → m / 2 ^ (w - j) ≡ a / 2 ^ (w - j)
    → n / 2 ^ (w - k) ≡ m / 2 ^ (w - k)
shared_bits w k j n m a h l p q =
    p
    ∙ leading_bits w k j a h l
    ∙ div_congruent _ _ (2 ^ (j - k)) (sym q)
    ∙ sym (leading_bits w k j m h l)

shared_min :
    (w k j n m a : ℕ)
    → k ≤ w
    → j ≤ w
    → n / 2 ^ (w - k) ≡ a / 2 ^ (w - k)
    → m / 2 ^ (w - j) ≡ a / 2 ^ (w - j)
    → n / 2 ^ (w - min k j) ≡ m / 2 ^ (w - min k j)
shared_min w k j n m a kw jw p q = elim (total k j) [
  | inl h ↦
      subst (λ x. n / 2 ^ (w - x) ≡ m / 2 ^ (w - x)) (sym (min-eq_left h))
        (shared_bits w k j n m a h jw p q)
  | inr h ↦
      subst (λ x. n / 2 ^ (w - x) ≡ m / 2 ^ (w - x)) (sym (min-eq_right h))
        (sym (shared_bits w j k m n a h kw q p))
]

-- The two addresses are equal under the mask of the fewer bits.
masked_equal : (w k j n m : ℕ) → Bool
masked_equal w k j n m =
    n / 2 ^ (w - min k j) * 2 ^ (w - min k j) == m / 2 ^ (w - min k j) * 2 ^ (w - min k j)

equal_true : (a b : ℕ) → a ≡ b → (a == b) ≡ true
equal_true a b h = ground arith

true_equal : (a b : ℕ) → (a == b) ≡ true → a ≡ b
true_equal a b h = ground arith

shared-masked_equal :
    (w k j n m a : ℕ)
    → k ≤ w
    → j ≤ w
    → (n / 2 ^ (w - k) == a / 2 ^ (w - k)) ≡ true
    → (m / 2 ^ (w - j) == a / 2 ^ (w - j)) ≡ true
    → masked_equal w k j n m ≡ true
unfolding masked_equal
shared-masked_equal w k j n m a kw jw p q = equal_true _ _ (
    ap (λ x. x * 2 ^ (w - min k j))
      (shared_min w k j n m a kw jw (true_equal _ _ p) (true_equal _ _ q)))

masked_equal-bits :
    (w k j n m : ℕ) → masked_equal w k j n m ≡ true → n / 2 ^ (w - min k j) ≡ m / 2 ^ (w - min k j)
unfolding masked_equal
masked_equal-bits w k j n m h =
    eq_of_mul-eq-mul_right (2 ^ (w - min k j)) (pow_pos (w - min k j)) _ _ (true_equal _ _ h)

-- Of two prefixes of one family that overlap, the longer one's own address lies in both.
masked_equal-shared :
    (w k j n m : ℕ)
    → masked_equal w k j n m ≡ true
    → (a : ℕ) × ((n / 2 ^ (w - k) == a / 2 ^ (w - k)) ≡ true)
      × ((m / 2 ^ (w - j) == a / 2 ^ (w - j)) ≡ true)
masked_equal-shared w k j n m h =
    let bits = masked_equal-bits w k j n m h in
    elim (total k j) [
      | inl l ↦ (
        m,
        equal_true _ _ (subst (λ x. n / 2 ^ (w - x) ≡ m / 2 ^ (w - x)) (min-eq_left l) bits),
        equal_true _ _ refl,
      )
      | inr l ↦ (
        n,
        equal_true _ _ refl,
        equal_true _ _ (sym (subst (λ x. n / 2 ^ (w - x) ≡ m / 2 ^ (w - x)) (min-eq_right l) bits)),
      )
    ]

bool_absurd : false ≡ true → ⊥
bool_absurd h = cc

-- The length of a prefix is at most that of its address.
unfoldable pub Fits : Prefix → Type 0
Fits p = p.bits ≤ bit_len p.addr

abbrev of : Addr → ℕ → Prefix
of x k = record { addr = x; bits = k }

shared-overlaps_of :
    (x y a : Addr) (k j : ℕ)
    → k ≤ bit_len x
    → j ≤ bit_len y
    → contains_addr (of x k) a ≡ true
    → contains_addr (of y j) a ≡ true
    → overlaps (of x k) (of y j) ≡ true
unfolding contains_addr bit_len overlaps mask_addr same_addr masked_equal
shared-overlaps_of (v4 n) (v4 m) (v4 a) k j f g h l = shared-masked_equal 32 k j n m a f g h l
shared-overlaps_of (v6 n) (v6 m) (v6 a) k j f g h l = shared-masked_equal 128 k j n m a f g h l
shared-overlaps_of (v4 n) y (v6 a) k j f g h l = cc
shared-overlaps_of (v6 n) y (v4 a) k j f g h l = cc
shared-overlaps_of (v4 n) (v6 m) (v4 a) k j f g h l = cc
shared-overlaps_of (v6 n) (v4 m) (v6 a) k j f g h l = cc

pub shared-overlaps :
    (p q : Prefix) (a : Addr)
    → Fits p
    → Fits q
    → contains_addr p a ≡ true
    → contains_addr q a ≡ true
    → overlaps p q ≡ true
unfolding Fits
shared-overlaps p q a = shared-overlaps_of p.addr q.addr a p.bits q.bits

overlaps-shared_of :
    (x y : Addr) (k j : ℕ)
    → overlaps (of x k) (of y j) ≡ true
    → (a : Addr) × (contains_addr (of x k) a ≡ true) × (contains_addr (of y j) a ≡ true)
unfolding contains_addr bit_len overlaps mask_addr same_addr masked_equal
overlaps-shared_of (v4 n) (v4 m) k j h =
    let (a, x, y) = masked_equal-shared 32 k j n m h in (v4 a, x, y)
overlaps-shared_of (v6 n) (v6 m) k j h =
    let (a, x, y) = masked_equal-shared 128 k j n m h in (v6 a, x, y)
overlaps-shared_of (v4 n) (v6 m) k j h = absurd (bool_absurd h)
overlaps-shared_of (v6 n) (v4 m) k j h = absurd (bool_absurd h)

pub overlaps-shared :
    (p q : Prefix)
    → overlaps p q ≡ true
    → (a : Addr) × (contains_addr p a ≡ true) × (contains_addr q a ≡ true)
overlaps-shared p q = overlaps-shared_of p.addr q.addr p.bits q.bits
