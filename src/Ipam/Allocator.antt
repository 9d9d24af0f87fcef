-- ===== src/Ipam/Allocator.antt =====
-- Allocate and ValidatePool of internal/agent/ipam/allocator.go. The sets of addresses are lists.
-- Pools and gateways are valid, as the types of addresses and prefixes here are; the error for the
-- invalid ones is left out.
use wiregate.Prelude.{
  ◌>>=◌, Fallible, success, failure, reject, false, true, [], ◌∷◌, none, some, zero, suc, List, ℕ,
  Bool, ◌&&◌, Option, ◌/◌, if◌then◌else◌, ◌^◌, not, contains_by, ◌||◌, ◌-◌, ◌==◌, ◌*◌, ◌+◌,
}
use wiregate.Stdlib.Netip.{
  Addr, Prefix, v4, v6, overlaps, contains_addr, same_addr, masked, bit_len, is_4,
}

pub data PoolError : Type 0 where
  gateway_outside scan_exceeded exhausted overlapping : PoolError

pub record CandidateSet : Type 0 where
  pub pool : Prefix
  pub gateway : Addr
  pub allocated : List Addr
  pub quarantined : List Addr
  pub reservations : List Addr

unfoldable pub has : List Addr → Addr → Bool
unfolding same_addr
has values value = contains_by same_addr values value

-- `Next`: the zero address, here none, after the last one.
unfoldable pub next : Addr → Option Addr
next (v4 n) = if suc n == 2 ^ 32 then none else some (v4 (suc n))
next (v6 n) = if suc n == 2 ^ 128 then none else some (v6 (suc n))

-- The bits from the length of the prefix on are set. The caller asks for IPv4 only.
unfoldable pub last_address : Prefix → Addr
last_address p = elim p.addr [
  | v4 n ↦ v4 (n / 2 ^ (32 - p.bits) * 2 ^ (32 - p.bits) + (2 ^ (32 - p.bits) - 1))
  | v6 n ↦ v6 n
]

unfoldable pub usable : Prefix → Addr → Addr → Bool
unfolding same_addr last_address
usable pool candidate gateway =
    if same_addr candidate gateway || same_addr candidate pool.addr
    then false
    else not (is_4 candidate && same_addr candidate (last_address pool))

-- The four conditions under which the scan returns a candidate of the masked pool.
unfoldable pub accepts : CandidateSet → Prefix → Addr → Bool
unfolding usable has
accepts input pool candidate =
    usable pool candidate input.gateway
    && not (has input.allocated candidate)
    && not (has input.quarantined candidate)
    && not (has input.reservations candidate)

-- What one round does with a candidate, given the scan of the later ones.
abbrev pub visit : Bool → Bool → Addr → Fallible PoolError Addr → Fallible PoolError Addr
visit false accepted candidate rest = failure PoolError.exhausted
visit true true candidate rest = success candidate
visit true false candidate rest = rest

-- The scan of a number of candidates.
unfoldable pub scan : ℕ → CandidateSet → Prefix → Option Addr → Fallible PoolError Addr
unfolding contains_addr accepts next
scan fuel input pool none = failure PoolError.exhausted
scan zero input pool (some candidate) =
    if contains_addr pool candidate
    then failure PoolError.scan_exceeded
    else failure PoolError.exhausted
scan (suc fuel) input pool (some candidate) =
    visit (contains_addr pool candidate) (accepts input pool candidate) candidate
      (scan fuel input pool (next candidate))

-- `1 << 20`
abbrev pub max_allocation_scan : ℕ
max_allocation_scan = 1048576

unfoldable pub allocate : CandidateSet → Fallible PoolError Addr
unfolding masked contains_addr scan
allocate input =
    let pool = masked input.pool in
    let result = scan max_allocation_scan input pool (some pool.addr) in
    if contains_addr pool input.gateway then result else failure PoolError.gateway_outside

unfoldable pub any_overlap : Prefix → List Prefix → Bool
unfolding overlaps bit_len
any_overlap pool [] = false
any_overlap pool (p ∷ ps) =
    bit_len pool.addr == bit_len p.addr && overlaps pool p || any_overlap pool ps

unfoldable pub validate_pool : Prefix → Addr → List Prefix → Fallible PoolError Unit
unfolding masked contains_addr any_overlap
validate_pool pool gateway occupied = do
  _ ← reject (not (contains_addr (masked pool) gateway)) PoolError.gateway_outside
  reject (any_overlap (masked pool) occupied) PoolError.overlapping
