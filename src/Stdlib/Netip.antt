-- ===== src/Stdlib/Netip.antt =====
-- The addresses and prefixes of package net/netip. An address is its 32 or 128 bits as a number;
-- zones are read by the parser, and no prefix has one.
use Prim.Native.Nat.{min}
use wiregate.Prelude.{ℕ, Bool, if◌then◌else◌, ◌==◌, true, ◌/◌, ◌^◌, ◌&&◌, ltb, false, ◌-◌, ◌*◌}

pub data Addr : Type 0 where
  v4 v6 : ℕ → Addr

unfoldable pub bit_len : Addr → ℕ
bit_len (v4 n) = 32
bit_len (v6 n) = 128

abbrev pub addr_bits : Addr → ℕ
addr_bits (v4 n) = n
addr_bits (v6 n) = n

abbrev pub is_4 : Addr → Bool
is_4 (v4 n) = true
is_4 (v6 n) = false

-- `==` and `Less`; a shorter address is the lesser.
unfoldable pub same_addr : Addr → Addr → Bool
unfolding bit_len
same_addr a b = bit_len a == bit_len b && addr_bits a == addr_bits b

unfoldable pub less_addr : Addr → Addr → Bool
unfolding bit_len
less_addr a b =
    if bit_len a == bit_len b then ltb (addr_bits a) (addr_bits b) else ltb (bit_len a) (bit_len b)

-- A prefix that was parsed or made from valid parts: `bits` is at most the length of the address.
pub record Prefix : Type 0 where
  pub addr : Addr
  pub bits : ℕ

-- The bits below the first `bits` ones are cleared.
unfoldable pub mask_addr : Addr → ℕ → Addr
mask_addr (v4 n) bits = v4 (n / 2 ^ (32 - bits) * 2 ^ (32 - bits))
mask_addr (v6 n) bits = v6 (n / 2 ^ (128 - bits) * 2 ^ (128 - bits))

unfoldable pub masked : Prefix → Prefix
unfolding mask_addr
masked p = record p { addr = mask_addr p.addr p.bits }

-- `Contains`: the leading bits agree.
unfoldable pub contains_addr : Prefix → Addr → Bool
unfolding bit_len
contains_addr p a =
    bit_len p.addr == bit_len a
    && addr_bits p.addr / 2 ^ (bit_len a - p.bits) == addr_bits a / 2 ^ (bit_len a - p.bits)

-- `Overlaps`: the shorter prefix holds of both addresses.
unfoldable pub overlaps : Prefix → Prefix → Bool
unfolding bit_len mask_addr same_addr
overlaps p q =
    bit_len p.addr == bit_len q.addr
    && same_addr (mask_addr p.addr (min p.bits q.bits)) (mask_addr q.addr (min p.bits q.bits))
