-- ===== src/Network/Tests.antt =====
-- Runs of the theorems on small networks.
use wiregate.Prelude.{[], ◌∷◌, List, ◌≡◌, ◌↔◌, All, refl, false, success, arith}
use wiregate.Stdlib.Bytes.{Bytes, codes, cut_at, split, parse_decimal}
use wiregate.Stdlib.Netip.{v4, Prefix, bit_len}
use wiregate.Stdlib.Overlaps.{Fits}
use wiregate.Network.Validation.{OwnedPrefix, canonical_prefixes, reject_overlaps}
use wiregate.Network.Plan.{
  PlanInput, Plan, Profile, FirewallMode, build_plan, completed_plan, reject_network_overlap,
}
use wiregate.Network.Disjoint.{IsAllowed, Shares, reject_overlaps_iff, reject_network_overlap_iff}
use wiregate.Network.Prefixes.{IsCanonical, canonical_prefixes-IsCanonical}
use wiregate.Network.PlanLaws.{IsSound, build_plan-IsSound}

-- 10.0.0.2/32 and 10.0.0.0/24.
abbrev host : Prefix
host = record { addr = v4 167772162; bits = 32 }

abbrev net : Prefix
net = record { addr = v4 167772160; bits = 24 }

abbrev lan : Prefix
lan = record { addr = v4 3232235520; bits = 16 }

host-Fits : Fits host
unfolding Fits bit_len
host-Fits = omega arith

net-Fits : Fits net
unfolding Fits bit_len
net-Fits = omega arith

lan-Fits : Fits lan
unfolding Fits bit_len
lan-Fits = omega arith

abbrev owned : List OwnedPrefix
owned = record { peer_id = codes "peer-1"; prefix = net } ∷ []

reject_overlaps_iff_example :
    (reject_overlaps (host ∷ []) owned (codes "peer-1") ≡ success tt)
    ↔ All (λ p. All (IsAllowed (codes "peer-1") p) owned) (host ∷ [])
reject_overlaps_iff_example =
    reject_overlaps_iff (host ∷ []) owned (codes "peer-1") (host-Fits, tt) (net-Fits, tt)

accepted : reject_overlaps (host ∷ []) owned (codes "peer-1") ≡ success tt
unfolding reject_overlaps
accepted = refl

reject_network_overlap_iff_example :
    (reject_network_overlap (net ∷ []) (lan ∷ []) ≡ success tt)
    ↔ All (λ p. All (λ q. ¬ (Shares p q)) (lan ∷ [])) (net ∷ [])
reject_network_overlap_iff_example =
    reject_network_overlap_iff (net ∷ []) (lan ∷ []) (net-Fits, tt) (lan-Fits, tt)

-- Out of order, and twice.
abbrev values : List Bytes
values = codes "192.168.0.0/16" ∷ codes " 10.0.0.7/24" ∷ codes "192.168.3.4/16 " ∷ []

canonical : canonical_prefixes values ≡ success (net ∷ lan ∷ [])
unfolding canonical_prefixes cut_at split parse_decimal
canonical = refl

canonical_prefixes-IsCanonical_example : IsCanonical (net ∷ lan ∷ [])
canonical_prefixes-IsCanonical_example =
    canonical_prefixes-IsCanonical values (net ∷ lan ∷ []) canonical

abbrev gateway : PlanInput
gateway = record {
  interface_id = codes "0199-aaaa-bbbb-cccc";
  interface = codes "wg0";
  deployment = Profile.profile_full_tunnel;
  firewall = FirewallMode.managed_nft;
  port = 51820;
  tunnel_cidrs = codes "10.0.0.0/24" ∷ [];
  lan_cidrs = [];
  egress_device = codes "eth0";
  enable_ipv6 = false;
}

abbrev planned : Plan
unfolding completed_plan
planned =
    completed_plan gateway (codes "wiregate_0199aaaabbbb") (net ∷ []) [] (codes "0.0.0.0/0" ∷ [])

built : build_plan gateway ≡ success planned
unfolding build_plan cut_at split parse_decimal
built = refl

build_plan-IsSound_example : IsSound gateway planned
unfolding completed_plan
build_plan-IsSound_example = build_plan-IsSound gateway planned built
