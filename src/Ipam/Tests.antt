-- ===== src/Ipam/Tests.antt =====
-- Runs of the allocation on a small pool.
use wiregate.Prelude.{List, All, [], ◌∷◌, refl, ◌≡◌, success, false, true, ◌&&◌}
use wiregate.Stdlib.Netip.{v4, contains_addr, masked, same_addr, is_4, Prefix}
use wiregate.Ipam.Allocator.{CandidateSet, allocate, last_address, has, validate_pool}
use wiregate.Ipam.Accepted.{allocate_free}
use wiregate.Ipam.Pools.{IsClear, validate_pool-IsClear, validate_pool_accepts}

-- 10.8.0.0/29 with the gateway 10.8.0.1; 10.8.0.2 and 10.8.0.3 are taken.
abbrev small_pool : CandidateSet
small_pool = record {
  pool = record { addr = v4 168296453; bits = 29 };
  gateway = v4 168296449;
  allocated = v4 168296450 ∷ [];
  quarantined = v4 168296451 ∷ [];
  reservations = [];
}

small_pool-allocated : allocate small_pool ≡ success (v4 168296452)
unfolding allocate
small_pool-allocated = refl

allocate_free_example :
    (contains_addr (masked small_pool.pool) (v4 168296452) ≡ true)
    × (same_addr (v4 168296452) small_pool.gateway ≡ false)
    × (same_addr (v4 168296452) (masked small_pool.pool).addr ≡ false)
    × (is_4 (v4 168296452) && same_addr (v4 168296452) (last_address (masked small_pool.pool))
        ≡ false)
    × (has small_pool.allocated (v4 168296452) ≡ false)
    × (has small_pool.quarantined (v4 168296452) ≡ false)
    × (has small_pool.reservations (v4 168296452) ≡ false)
allocate_free_example = allocate_free small_pool (v4 168296452) small_pool-allocated

abbrev office : Prefix
office = record { addr = v4 168296453; bits = 29 }

-- 10.9.0.0/16 is occupied.
abbrev elsewhere : List Prefix
elsewhere = record { addr = v4 168361984; bits = 16 } ∷ []

office-accepted : validate_pool office (v4 168296449) elsewhere ≡ success tt
unfolding validate_pool
office-accepted = refl

validate_pool-IsClear_example :
    (contains_addr (masked office) (v4 168296449) ≡ true) × All (IsClear (masked office)) elsewhere
validate_pool-IsClear_example =
    validate_pool-IsClear office (v4 168296449) elsewhere office-accepted

office-IsClear :
    (contains_addr (masked office) (v4 168296449) ≡ true) × All (IsClear (masked office)) elsewhere
office-IsClear = validate_pool-IsClear office (v4 168296449) elsewhere office-accepted

validate_pool_accepts_example : validate_pool office (v4 168296449) elsewhere ≡ success tt
validate_pool_accepts_example =
    validate_pool_accepts office (v4 168296449) elsewhere office-IsClear.0 office-IsClear.1
