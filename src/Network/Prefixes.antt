-- ===== src/Network/Prefixes.antt =====
-- What CanonicalPrefixes returns (src/internal/agent/validation/validation.go).
use native.Mathlib.Nat.{mul-div_cancel}
use wiregate.Prelude.{
  refl, some, [], ◌∷◌, ℕ, ◌≡◌, Bool, true, false, arith, if◌then◌else◌, ltb, ◌&&◌, not, ◌==◌, List,
  ◌/◌, ap, ◌^◌, ◌∙◌, ◌-◌, sym, All, ◌*◌, ◌||◌, contains_by, subst, leb, failure, Bool-cases, ◌≤◌,
  success, bind-success, Option-cases, inl, inr,
}
use wiregate.Network.Validation.{
  prefix_before, same_prefix, canonical_prefixes, NetworkError, add_prefix, Checked,
  collect_prefixes,
}
use wiregate.Stdlib.Overlaps.{Fits, pow_pos}
use wiregate.Stdlib.Netip.{
  mask_addr, Prefix, masked, same_addr, bit_len, addr_bits, Addr, less_addr, v4, v6,
}
use wiregate.Stdlib.Bytes.{Bytes, trim_space}
use wiregate.Stdlib.Sorted.{
  Ordered, Ordered-both, sort_by-Ordered, sort_by-pairs, append-Ordered, sort_by-All, append-All,
}
use wiregate.Stdlib.NetipText.{parse_prefix, parse_prefix-leb}
use wiregate.Stdlib.Sort.{sort_by}

lex : ℕ → ℕ → ℕ → ℕ → ℕ → ℕ → Bool
lex l n b l' n' b' =
    if not (l == l')
    then ltb l l'
    else if not (l == l' && n == n')
    then (if l == l' then ltb n n' else ltb l l')
    else ltb b b'

lex_trans :
    (l n b l' n' b' l'' n'' b'' : ℕ)
    → lex l' n' b' l n b ≡ false
    → lex l'' n'' b'' l' n' b' ≡ false
    → lex l'' n'' b'' l n b ≡ false
unfolding lex
lex_trans l n b l' n' b' l'' n'' b'' h k = ground arith

lex_asym : (l n b l' n' b' : ℕ) → lex l n b l' n' b' ≡ true → lex l' n' b' l n b ≡ false
unfolding lex
lex_asym l n b l' n' b' h = ground arith

lex_strict :
    (l n b l' n' b' : ℕ)
    → lex l' n' b' l n b ≡ false
    → (l == l' && n == n') && b == b' ≡ false
    → lex l n b l' n' b' ≡ true
unfolding lex
lex_strict l n b l' n' b' h k = ground arith

same_comm :
    (l n b l' n' b' : ℕ) → ((l == l' && n == n') && b == b') ≡ ((l' == l && n' == n) && b' == b)
same_comm l n b l' n' b' = ground arith

abbrev number : Prefix → ℕ
number p = addr_bits p.addr

before-lex :
    (p q : Prefix)
    → prefix_before p q ≡ lex (bit_len p.addr) (number p) p.bits (bit_len q.addr) (number q) q.bits
unfolding prefix_before less_addr same_addr lex
before-lex p q = refl

-- The second prefix does not come before the first.
NotBefore : Prefix → Prefix → Type 0
NotBefore p q = prefix_before q p ≡ false

Differ : Prefix → Prefix → Type 0
Differ p q = same_prefix p q ≡ false

NotBefore-trans : (p q r : Prefix) → NotBefore p q → NotBefore q r → NotBefore p r
unfolding NotBefore
NotBefore-trans p q r h k =
    before-lex r p
    ∙ lex_trans (bit_len p.addr) (number p) p.bits (bit_len q.addr) (number q) q.bits
        (bit_len r.addr) (number r) r.bits (sym (before-lex q p) ∙ h) (sym (before-lex r q) ∙ k)

before-NotBefore : (p q : Prefix) → prefix_before p q ≡ true → NotBefore p q
unfolding NotBefore
before-NotBefore p q h = before-lex q p ∙ lex_asym _ _ _ _ _ _ (sym (before-lex p q) ∙ h)

not_before : (p q : Prefix) → prefix_before p q ≡ false → NotBefore q p
unfolding NotBefore
not_before p q h = h

Differ-comm : (p q : Prefix) → Differ p q → Differ q p
unfolding Differ same_prefix same_addr
Differ-comm p q h =
    same_comm (bit_len q.addr) (number q) q.bits (bit_len p.addr) (number p) p.bits ∙ h

strictly : (p q : Prefix) → NotBefore p q → Differ p q → prefix_before p q ≡ true
unfolding NotBefore Differ same_prefix same_addr
strictly p q h k =
    before-lex p q
    ∙ lex_strict (bit_len p.addr) (number p) p.bits (bit_len q.addr) (number q) q.bits
        (sym (before-lex q p) ∙ h) k

masked_twice :
    (n k w : ℕ)
    → n / 2 ^ (w - k) * 2 ^ (w - k) / 2 ^ (w - k) * 2 ^ (w - k) ≡ n / 2 ^ (w - k) * 2 ^ (w - k)
masked_twice n k w = ap (λ x. x * 2 ^ (w - k)) (mul-div_cancel (n / 2 ^ (w - k)) (pow_pos (w - k)))

mask_addr_twice : (a : Addr) (k : ℕ) → mask_addr (mask_addr a k) k ≡ mask_addr a k
unfolding mask_addr
mask_addr_twice (v4 n) k = ap v4 (masked_twice n k 32)
mask_addr_twice (v6 n) k = ap v6 (masked_twice n k 128)

masked-masked : (p : Prefix) → masked (masked p) ≡ masked p
unfolding masked
masked-masked p = ap (λ a. record p { addr = a }) (mask_addr_twice p.addr p.bits)

bit_len-mask_addr : (a : Addr) (k : ℕ) → bit_len (mask_addr a k) ≡ bit_len a
unfolding mask_addr bit_len
bit_len-mask_addr (v4 n) k = refl
bit_len-mask_addr (v6 n) k = refl

masked-Fits : (p : Prefix) → Fits p → Fits (masked p)
unfolding Fits masked
masked-Fits p h = subst (λ n. p.bits ≤ n) (sym (bit_len-mask_addr p.addr p.bits)) h

-- Networks in increasing order, so that none is twice in it.
pub record IsCanonical (ps : List Prefix) : Type 0 where
  pub increasing : Ordered (λ p q. prefix_before p q ≡ true) ps
  pub networks : All (λ p. (masked p ≡ p) × Fits p) ps

below : (m n : ℕ) → leb m n ≡ true → m ≤ n
below m n h = ground arith

parse_prefix-Fits : (s : Bytes) (p : Prefix) → parse_prefix s ≡ some p → Fits p
unfolding Fits
parse_prefix-Fits s p h = below p.bits (bit_len p.addr) (parse_prefix-leb s p h)

list_eq :
    (ps qs : List Prefix) → ◌≡◌ {A = Checked (List Prefix)} (success ps) (success qs) → ps ≡ qs
list_eq ps qs h = cc

no_list : {e : NetworkError} {qs : List Prefix} → failure e ≡ success qs → ⊥
no_list h = cc

neither : (a b : Bool) → a || b ≡ false → (a ≡ false) × (b ≡ false)
neither a b h = ground arith

Collects : List Prefix → Type 0
Collects ps = Ordered Differ ps × All (λ p. (masked p ≡ p) × Fits p) ps

absent-Differ :
    (p : Prefix) (ps : List Prefix)
    → contains_by same_prefix ps p ≡ false
    → All (λ x. Differ x p) ps
unfolding Differ
absent-Differ p [] h = tt
absent-Differ p (x ∷ ps) h =
    let (here, later) = neither (same_prefix p x) (contains_by same_prefix ps p) h in
    (Differ-comm p x here, absent-Differ p ps later)

add_prefix-Collects :
    (p : Prefix) (ps : List Prefix)
    → (masked p ≡ p) × Fits p
    → Collects ps
    → Collects (add_prefix p ps)
unfolding Collects
add_prefix-Collects p ps f c = elim (Bool-cases (contains_by same_prefix ps p)) [
  | inl e ↦ rw e c
  | inr e ↦ rw e (
    append-Ordered Differ ps p c.0 (absent-Differ p ps e),
    append-All (λ x. (masked x ≡ x) × Fits x) ps p c.1 f,
  )
]

collect_prefixes-Collects :
    (values : List Bytes) (ps qs : List Prefix)
    → Collects ps
    → collect_prefixes ps values ≡ success qs
    → Collects qs
unfolding collect_prefixes
collect_prefixes-Collects [] ps qs c h = subst Collects (list_eq ps qs h) c
collect_prefixes-Collects (value ∷ values) ps qs c h =
    elim (Option-cases (parse_prefix (trim_space value))) [
      | inl e ↦ absurd (no_list (rw (e, collect_prefixes) at h))
      | inr (p, e) ↦
          collect_prefixes-Collects values (add_prefix (masked p) ps) qs
            (add_prefix-Collects (masked p) ps
              (masked-masked p, masked-Fits p (parse_prefix-Fits (trim_space value) p e)) c)
            (rw (e, collect_prefixes) at h)
    ]

empty-Collects : Collects []
unfolding Collects Ordered
empty-Collects = (tt, tt)

sorted-IsCanonical : (ps : List Prefix) → Collects ps → IsCanonical (sort_by prefix_before ps)
unfolding Collects
sorted-IsCanonical ps c = record {
  increasing =
      Ordered-both NotBefore Differ (λ p q. prefix_before p q ≡ true) (sort_by prefix_before ps)
        strictly
        (sort_by-Ordered prefix_before NotBefore NotBefore-trans before-NotBefore
          (λ p q h. not_before p q h) ps)
        (sort_by-pairs prefix_before Differ Differ-comm ps c.0);
  networks = sort_by-All prefix_before (λ p. (masked p ≡ p) × Fits p) ps c.1;
}

-- What CanonicalPrefixes returns are networks, with lengths that fit, in strictly increasing order
-- by family, address and length.
pub canonical_prefixes-IsCanonical :
    (values : List Bytes) (ps : List Prefix)
    → canonical_prefixes values ≡ success ps
    → IsCanonical ps
unfolding canonical_prefixes
canonical_prefixes-IsCanonical values ps h =
    let (collected, h1, h2) = bind-success (collect_prefixes [] values) _ ps h in
    let c = collect_prefixes-Collects values [] collected empty-Collects h1 in
    subst IsCanonical (list_eq (sort_by prefix_before collected) ps h2)
      (sorted-IsCanonical collected c)
