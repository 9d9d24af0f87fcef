-- ===== src/Ipam/Accepted.antt =====
-- What Allocate returns (internal/agent/ipam/allocator.go).
use mathlib.Core.Path.{subst}
use wiregate.Prelude.{
  refl, none, some, zero, suc, ◌≡◌, inl, inr, ◌⊎◌, true, false, ◌&&◌, Bool, ℕ, Option, Fallible,
  success, failure, arith, if◌then◌else◌, not,
}
use wiregate.Stdlib.Netip.{Addr, Prefix, contains_addr, same_addr, masked, is_4}
use wiregate.Ipam.Allocator.{
  PoolError, CandidateSet, scan, visit, accepts, allocate, usable, has, max_allocation_scan,
  last_address, next,
}

visit-success :
    (inside accepted : Bool) (c : Addr) (rest : Fallible PoolError Addr) (a : Addr)
    → visit inside accepted c rest ≡ success a
    → ((inside ≡ true) × (accepted ≡ true) × (c ≡ a)) ⊎ (rest ≡ success a)
visit-success false accepted c rest a h = cc
visit-success true true c rest a h = inl (refl, refl, cc)
visit-success true false c rest a h = inr h

scan-success :
    (fuel : ℕ) (input : CandidateSet) (pool : Prefix) (c : Option Addr) (a : Addr)
    → scan fuel input pool c ≡ success a
    → (contains_addr pool a ≡ true) × (accepts input pool a ≡ true)
unfolding scan
scan-success zero input pool none a h = cc
scan-success (suc fuel) input pool none a h = cc
scan-success zero input pool (some c) a h = ground arith
scan-success (suc fuel) input pool (some c) a h =
    elim (visit-success (contains_addr pool c) (accepts input pool c) c
      (scan fuel input pool (next c)) a h) [
        | inl (inside, accepted, e) ↦ (
          subst (λ x. contains_addr pool x ≡ true) e inside,
          subst (λ x. accepts input pool x ≡ true) e accepted,
        )
        | inr later ↦ scan-success fuel input pool (next c) a later
      ]

pick :
    (p q r s : Bool) → p && q && r && s ≡ true → (p ≡ true) × (q ≡ true) × (r ≡ true) × (s ≡ true)
pick p q r s h = ground arith

no_from : (b : Bool) → not b ≡ true → b ≡ false
no_from b h = ground arith

usable-parts :
    (pool : Prefix) (a gateway : Addr)
    → usable pool a gateway ≡ true
    → (same_addr a gateway ≡ false)
      × (same_addr a pool.addr ≡ false)
      × (is_4 a && same_addr a (last_address pool) ≡ false)
unfolding usable
usable-parts pool a gateway h = ground arith

accepts-parts :
    (input : CandidateSet) (pool : Prefix) (a : Addr)
    → accepts input pool a ≡ true
    → (usable pool a input.gateway ≡ true)
      × (not (has input.allocated a) ≡ true)
      × (not (has input.quarantined a) ≡ true)
      × (not (has input.reservations a) ≡ true)
unfolding accepts
accepts-parts input pool a h =
    pick (usable pool a input.gateway) (not (has input.allocated a)) (not (has input.quarantined a))
      (not (has input.reservations a)) h

guarded :
    (b : Bool) (m : Fallible PoolError Addr) (e : PoolError) (a : Addr)
    → (if b then m else failure e) ≡ success a
    → m ≡ success a
guarded true m e a h = h
guarded false m e a h = cc

allocate-success :
    (input : CandidateSet) (a : Addr)
    → allocate input ≡ success a
    → (contains_addr (masked input.pool) a ≡ true) × (accepts input (masked input.pool) a ≡ true)
unfolding allocate
allocate-success input a h =
    scan-success max_allocation_scan input (masked input.pool) (some (masked input.pool).addr) a
      (guarded (contains_addr (masked input.pool) input.gateway) _ PoolError.gateway_outside a h)

-- An address that Allocate returns lies in the pool, is neither the gateway nor the first address
-- of the pool nor, in IPv4, its last one, and is not allocated, quarantined or reserved.
pub allocate_free :
    (input : CandidateSet) (a : Addr)
    → allocate input ≡ success a
    → (contains_addr (masked input.pool) a ≡ true)
      × (same_addr a input.gateway ≡ false)
      × (same_addr a (masked input.pool).addr ≡ false)
      × (is_4 a && same_addr a (last_address (masked input.pool)) ≡ false)
      × (has input.allocated a ≡ false)
      × (has input.quarantined a ≡ false)
      × (has input.reservations a ≡ false)
allocate_free input a h =
    let (inside, accepted) = allocate-success input a h in
    let (free, fresh, calm, unreserved) = accepts-parts input (masked input.pool) a accepted in
    let (guest, above, below) = usable-parts (masked input.pool) a input.gateway free in
    (inside, guest, above, below, no_from _ fresh, no_from _ calm, no_from _ unreserved)
