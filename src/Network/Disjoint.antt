-- ===== src/Network/Disjoint.antt =====
-- What RejectOverlaps and RejectNetworkOverlap let through
-- (src/internal/agent/validation/validation.go and src/internal/agent/network/plan.go).
use wiregate.Prelude.{
  [], ◌∷◌, List, All, ◌≡◌, Bool, true, false, success, reject, refl, arith, bind-success,
  reject-success, ◌&&◌, not, ◌==◌, ◌↔◌, ◌⊎◌, inl, inr, Bool-cases,
}
use wiregate.Stdlib.Bytes.{Bytes, same}
use wiregate.Stdlib.Netip.{Addr, Prefix, bit_len, contains_addr, overlaps}
use wiregate.Stdlib.Overlaps.{Fits, shared-overlaps, overlaps-shared}
use wiregate.Network.Validation.{NetworkError, OwnedPrefix, reject_overlap, reject_overlaps}
use wiregate.Network.Plan.{reject_network, reject_network_overlap}

-- An address lies in both prefixes.
pub Shares : Prefix → Prefix → Type 0
Shares p q = (a : Addr) × (contains_addr p a ≡ true) × (contains_addr q a ≡ true)

both_false : (a b : Bool) → a && b ≡ false → b ≡ true → a ≡ false
both_false a b h k = ground arith

never : {b : Bool} → b ≡ true → b ≡ false → ⊥
never h k = cc

family_then : (a b : Bool) → a && b ≡ true → b ≡ true
family_then a b h = ground arith

same_family : (p q : Prefix) → overlaps p q ≡ true → (bit_len p.addr == bit_len q.addr) ≡ true
unfolding overlaps
same_family p q h = ground arith

clear-Shares :
    (p q : Prefix)
    → Fits p
    → Fits q
    → (bit_len p.addr == bit_len q.addr && overlaps p q) ≡ false
    → ¬ (Shares p q)
unfolding Shares
clear-Shares p q f g h (a, x, y) =
    let meets = shared-overlaps p q a f g x y in
    never (same_family p q meets)
      (both_false (bit_len p.addr == bit_len q.addr) (overlaps p q) h meets)

Shares-clear :
    (p q : Prefix) → ¬ (Shares p q) → (bit_len p.addr == bit_len q.addr && overlaps p q) ≡ false
unfolding Shares
Shares-clear p q h = elim (Bool-cases (bit_len p.addr == bit_len q.addr && overlaps p q)) [
  | inr e ↦ e
  | inl e ↦ absurd (h (overlaps-shared p q (family_then _ (overlaps p q) e)))
]

-- The prefix belongs to the excluded peer, or shares no address with the candidate.
pub IsAllowed : Bytes → Prefix → OwnedPrefix → Type 0
IsAllowed excluded p e = (same e.peer_id excluded ≡ true) ⊎ ¬ (Shares p e.prefix)

skip_or : (s f : Bool) → not s && f ≡ false → (s ≡ true) ⊎ (f ≡ false)
skip_or s f h = elim (Bool-cases s) [ inl e ↦ inl e | inr e ↦ inr (ground arith) ]

abbrev meets : Prefix → OwnedPrefix → Bool
meets p e = bit_len p.addr == bit_len e.prefix.addr && overlaps p e.prefix

tested-IsAllowed :
    (excluded : Bytes) (p : Prefix) (e : OwnedPrefix)
    → Fits p
    → Fits e.prefix
    → not (same e.peer_id excluded) && meets p e ≡ false
    → IsAllowed excluded p e
unfolding IsAllowed
tested-IsAllowed excluded p e f g h = elim (skip_or (same e.peer_id excluded) (meets p e) h) [
  | inl s ↦ inl s
  | inr c ↦ inr (clear-Shares p e.prefix f g c)
]

IsAllowed-tested :
    (excluded : Bytes) (p : Prefix) (e : OwnedPrefix)
    → IsAllowed excluded p e
    → not (same e.peer_id excluded) && meets p e ≡ false
unfolding IsAllowed
IsAllowed-tested excluded p e (inl s) = rw s refl
IsAllowed-tested excluded p e (inr c) = ground (arith, Shares-clear p e.prefix c)

one-IsAllowed :
    (excluded : Bytes) (p : Prefix) (es : List OwnedPrefix)
    → Fits p
    → All (λ e. Fits e.prefix) es
    → reject_overlap p es excluded ≡ success tt
    → All (IsAllowed excluded p) es
unfolding reject_overlap
one-IsAllowed excluded p [] f all h = tt
one-IsAllowed excluded p (e ∷ es) f all h =
    let (_, here, later) =
      bind-success
        (reject (not (same e.peer_id excluded) && meets p e)
          (NetworkError.overlap p e.prefix e.peer_id))
        _ tt h in
    (
      tested-IsAllowed excluded p e f all.0 (reject-success _ _ here),
      one-IsAllowed excluded p es f all.1 later,
    )

IsAllowed-one :
    (excluded : Bytes) (p : Prefix) (es : List OwnedPrefix)
    → All (IsAllowed excluded p) es
    → reject_overlap p es excluded ≡ success tt
unfolding reject_overlap
IsAllowed-one excluded p [] all = refl
IsAllowed-one excluded p (e ∷ es) all =
    rw (IsAllowed-tested excluded p e all.0) (IsAllowed-one excluded p es all.1)

IsAllowed-candidates :
    (excluded : Bytes) (ps : List Prefix) (es : List OwnedPrefix)
    → All Fits ps
    → All (λ e. Fits e.prefix) es
    → reject_overlaps ps es excluded ≡ success tt
    → All (λ p. All (IsAllowed excluded p) es) ps
unfolding reject_overlaps
IsAllowed-candidates excluded [] es fits all h = tt
IsAllowed-candidates excluded (p ∷ ps) es fits all h =
    let (_, here, later) = bind-success (reject_overlap p es excluded) _ tt h in
    (
      one-IsAllowed excluded p es fits.0 all here,
      IsAllowed-candidates excluded ps es fits.1 all later,
    )

candidates-IsAllowed :
    (excluded : Bytes) (ps : List Prefix) (es : List OwnedPrefix)
    → All (λ p. All (IsAllowed excluded p) es) ps
    → reject_overlaps ps es excluded ≡ success tt
unfolding reject_overlaps
candidates-IsAllowed excluded [] es all = refl
candidates-IsAllowed excluded (p ∷ ps) es all =
    rw (IsAllowed-one excluded p es all.0) (candidates-IsAllowed excluded ps es all.1)

-- RejectOverlaps accepts candidates exactly if no address lies in one of them and in a prefix of a
-- peer other than the excluded one, for prefixes whose lengths fit their addresses.
pub reject_overlaps_iff :
    (candidate : List Prefix) (existing : List OwnedPrefix) (excluded : Bytes)
    → All Fits candidate
    → All (λ e. Fits e.prefix) existing
    → (reject_overlaps candidate existing excluded ≡ success tt)
      ↔ All (λ p. All (IsAllowed excluded p) existing) candidate
reject_overlaps_iff candidate existing excluded f g = (
  IsAllowed-candidates excluded candidate existing f g,
  candidates-IsAllowed excluded candidate existing,
)

one-clear :
    (p : Prefix) (qs : List Prefix)
    → Fits p
    → All Fits qs
    → reject_network p qs ≡ success tt
    → All (λ q. ¬ (Shares p q)) qs
unfolding reject_network
one-clear p [] f all h = tt
one-clear p (q ∷ qs) f all h =
    let (_, here, later) =
      bind-success
        (reject (bit_len p.addr == bit_len q.addr && overlaps p q)
          (NetworkError.network_overlap p q))
        _ tt h in
    (clear-Shares p q f all.0 (reject-success _ _ here), one-clear p qs f all.1 later)

clear-one :
    (p : Prefix) (qs : List Prefix)
    → All (λ q. ¬ (Shares p q)) qs
    → reject_network p qs ≡ success tt
unfolding reject_network
clear-one p [] all = refl
clear-one p (q ∷ qs) all = rw (Shares-clear p q all.0) (clear-one p qs all.1)

network-clear :
    (ps qs : List Prefix)
    → All Fits ps
    → All Fits qs
    → reject_network_overlap ps qs ≡ success tt
    → All (λ p. All (λ q. ¬ (Shares p q)) qs) ps
unfolding reject_network_overlap
network-clear [] qs f g h = tt
network-clear (p ∷ ps) qs f g h =
    let (_, here, later) = bind-success (reject_network p qs) _ tt h in
    (one-clear p qs f.0 g here, network-clear ps qs f.1 g later)

clear-network :
    (ps qs : List Prefix)
    → All (λ p. All (λ q. ¬ (Shares p q)) qs) ps
    → reject_network_overlap ps qs ≡ success tt
unfolding reject_network_overlap
clear-network [] qs all = refl
clear-network (p ∷ ps) qs all = rw (clear-one p qs all.0) (clear-network ps qs all.1)

-- RejectNetworkOverlap accepts candidates exactly if no address lies in one of them and in an
-- occupied prefix, for prefixes whose lengths fit their addresses.
pub reject_network_overlap_iff :
    (candidate occupied : List Prefix)
    → All Fits candidate
    → All Fits occupied
    → (reject_network_overlap candidate occupied ≡ success tt)
      ↔ All (λ p. All (λ q. ¬ (Shares p q)) occupied) candidate
reject_network_overlap_iff candidate occupied f g =
    (network-clear candidate occupied f g, clear-network candidate occupied)
