-- ===== src/Ipam/Pools.antt =====
-- Which pools ValidatePool accepts (internal/agent/ipam/allocator.go).
use wiregate.Prelude.{
  refl, [], ◌∷◌, List, All, ◌≡◌, Bool, true, false, success, reject, arith, bind-success,
  reject-success, ◌||◌, ◌&&◌, not, ◌==◌,
}
use wiregate.Stdlib.Netip.{Addr, Prefix, bit_len, contains_addr, overlaps, masked}
use wiregate.Ipam.Allocator.{any_overlap, validate_pool, PoolError}

-- `pool.Addr().BitLen() == prefix.Addr().BitLen() && pool.Overlaps(prefix)`
pub IsClear : Prefix → Prefix → Type 0
IsClear pool p = (bit_len pool.addr == bit_len p.addr && overlaps pool p) ≡ false

or_false : (a b : Bool) → a || b ≡ false → (a ≡ false) × (b ≡ false)
or_false a b h = ground arith

truth : (b : Bool) → not b ≡ false → b ≡ true
truth b h = ground arith

any_overlap-IsClear :
    (pool : Prefix) (ps : List Prefix) → any_overlap pool ps ≡ false → All (IsClear pool) ps
unfolding any_overlap IsClear
any_overlap-IsClear pool [] h = tt
any_overlap-IsClear pool (p ∷ ps) h =
    let (here, later) =
      or_false (bit_len pool.addr == bit_len p.addr && overlaps pool p) (any_overlap pool ps) h in
    (here, any_overlap-IsClear pool ps later)

-- When ValidatePool accepts a pool, the gateway lies in it, and the masked pool overlaps none of the
-- occupied prefixes of its family.
pub validate_pool-IsClear :
    (pool : Prefix) (gateway : Addr) (occupied : List Prefix)
    → validate_pool pool gateway occupied ≡ success tt
    → (contains_addr (masked pool) gateway ≡ true) × All (IsClear (masked pool)) occupied
unfolding validate_pool
validate_pool-IsClear pool gateway occupied h =
    let (_, inside, h1) =
      bind-success (reject (not (contains_addr (masked pool) gateway)) PoolError.gateway_outside) _
        tt h in
    (
      truth (contains_addr (masked pool) gateway) (reject-success _ _ inside),
      any_overlap-IsClear (masked pool) occupied (reject-success _ _ h1),
    )

IsClear-any_overlap :
    (pool : Prefix) (ps : List Prefix) → All (IsClear pool) ps → any_overlap pool ps ≡ false
unfolding any_overlap IsClear
IsClear-any_overlap pool [] all = refl
IsClear-any_overlap pool (p ∷ ps) all = rw (all.0, IsClear-any_overlap pool ps all.1) refl

-- ValidatePool accepts every pool that holds its gateway and whose masked prefix overlaps none of
-- the occupied prefixes of its family.
pub validate_pool_accepts :
    (pool : Prefix) (gateway : Addr) (occupied : List Prefix)
    → contains_addr (masked pool) gateway ≡ true
    → All (IsClear (masked pool)) occupied
    → validate_pool pool gateway occupied ≡ success tt
unfolding validate_pool
validate_pool_accepts pool gateway occupied inside clear =
    rw (inside, IsClear-any_overlap (masked pool) occupied clear) refl
