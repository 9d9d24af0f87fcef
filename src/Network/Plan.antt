-- ===== src/Network/Plan.antt =====
-- The plan of an interface's network (src/internal/agent/network/plan.go). The texts that the source
-- writes into a builder are appended in its order.
use wiregate.Prelude.{
  [], ◌∷◌, none, some, Bool, length, List, ℕ, true, ◌||◌, success, failure, ◌>>=◌, reject, leb,
  if◌then◌else◌, ◌==◌, ◌&&◌, ltb, false, not, ◌++◌, map, take,
}
use wiregate.Stdlib.Bytes.{Bytes, codes, trim_space, to_lower, format_uint, less_bytes}
use wiregate.Stdlib.Netip.{Prefix, bit_len, is_4, overlaps}
use wiregate.Stdlib.NetipText.{parse_prefix}
use wiregate.Stdlib.NetipShow.{show_prefix}
use wiregate.Stdlib.Sort.{sort_by}
use wiregate.Stdlib.Rows.{rows_where}
use wiregate.Network.Validation.{
  NetworkError, Checked, interface_name, listen_port, canonical_prefixes, is_alphanumeric, every,
}

pub data Profile : Type 0 where
  profile_server_only profile_lan profile_full_tunnel : Profile
  other_profile : Bytes → Profile

pub data FirewallMode : Type 0 where
  managed_nft external : FirewallMode
  other_mode : Bytes → FirewallMode

pub record PlanInput : Type 0 where
  pub interface_id : Bytes
  pub interface : Bytes
  pub deployment : Profile
  pub firewall : FirewallMode
  pub port : ℕ
  pub tunnel_cidrs : List Bytes
  pub lan_cidrs : List Bytes
  pub egress_device : Bytes
  pub enable_ipv6 : Bool

pub record Plan : Type 0 where
  pub table_name : Bytes
  pub client_routes : List Bytes
  pub up_nft : Bytes
  pub down_nft : Bytes
  pub sysctl : Bytes
  pub post_up : Bytes
  pub post_down : Bytes
  pub external_checklist : List Bytes

-- `[A-Za-z0-9_.:-]`
unfoldable pub device_character : ℕ → Bool
device_character c = is_alphanumeric c || c == b'_' || c == b'.' || c == b':' || c == b'-'

-- `^[A-Za-z0-9_.:-]{1,15}$`
unfoldable pub is_device : Bytes → Bool
unfolding device_character
is_device s = leb 1 (length s) && leb (length s) 15 && every device_character s

abbrev pub is_server_only : Profile → Bool
is_server_only Profile.profile_server_only = true
is_server_only _ = false

abbrev pub is_lan : Profile → Bool
is_lan Profile.profile_lan = true
is_lan _ = false

abbrev pub is_full_tunnel : Profile → Bool
is_full_tunnel Profile.profile_full_tunnel = true
is_full_tunnel _ = false

abbrev pub is_external : FirewallMode → Bool
is_external FirewallMode.external = true
is_external _ = false

abbrev pub is_managed : FirewallMode → Bool
is_managed FirewallMode.managed_nft = true
is_managed _ = false

-- The address of each tunnel, as a prefix of its full length.
unfoldable pub host_routes : List Bytes → Checked (List Bytes)
unfolding parse_prefix show_prefix trim_space
host_routes [] = success []
host_routes (value ∷ values) = elim (parse_prefix (trim_space value)) [
  | none ↦ failure (NetworkError.invalid_cidr value)
  | some p ↦ do
    routes ← host_routes values
    success (show_prefix (record p { bits = if is_4 p.addr then 32 else 128 }) ∷ routes)
]

unfoldable pub client_routes_of : PlanInput → List Prefix → Checked (List Bytes)
unfolding host_routes show_prefix
client_routes_of i lan =
    if is_server_only i.deployment
    then host_routes i.tunnel_cidrs
    else if is_lan i.deployment
    then success (map show_prefix lan)
    else success (codes "0.0.0.0/0" ∷ (if i.enable_ipv6 then codes "::/0" ∷ [] else []))

unfoldable pub sysctl_of : PlanInput → Bytes
sysctl_of i =
    if is_server_only i.deployment
    then []
    else codes "net.ipv4.ip_forward=1\n"
      ++ (if i.enable_ipv6 then codes "net.ipv6.conf.all.forwarding=1\n" else [])

abbrev pub family : Prefix → Bytes
family p = if is_4 p.addr then codes "ip" else codes "ip6"

-- The rules of the chain `forward`.
unfoldable pub forward_rules : PlanInput → List Prefix → Bytes
unfolding show_prefix
forward_rules i [] = []
forward_rules i (tunnel ∷ tunnels) =
    codes "    iifname \""
    ++ (i.interface
        ++ (codes "\" "
            ++ (family tunnel
                ++ (codes " saddr "
                    ++ (show_prefix tunnel
                        ++ (codes " accept comment \"wiregate-owned\"\n"
                            ++ forward_rules i tunnels))))))

-- The rules of the chain `postrouting`.
unfoldable pub masquerade_rules : PlanInput → List Prefix → Bytes
unfolding show_prefix
masquerade_rules i [] = []
masquerade_rules i (tunnel ∷ tunnels) =
    codes "    "
    ++ (family tunnel
        ++ (codes " saddr "
            ++ (show_prefix tunnel
                ++ (codes " oifname \""
                    ++ (i.egress_device
                        ++ (codes "\" masquerade comment \"wiregate-owned\"\n"
                            ++ masquerade_rules i tunnels))))))

unfoldable pub forward_chain : PlanInput → List Prefix → Bytes
unfolding forward_rules
forward_chain i tunnels =
    if is_server_only i.deployment
    then []
    else codes "  chain forward {\n"
      ++ (codes "    type filter hook forward priority -10; policy accept;\n"
          ++ (codes "    ct state established,related accept comment \"wiregate-owned\"\n"
              ++ (forward_rules i tunnels ++ codes "  }\n")))

unfoldable pub postrouting_chain : PlanInput → List Prefix → Bytes
unfolding masquerade_rules
postrouting_chain i tunnels =
    if is_full_tunnel i.deployment
    then codes "  chain postrouting {\n"
      ++ (codes "    type nat hook postrouting priority srcnat; policy accept;\n"
          ++ (masquerade_rules i tunnels ++ codes "  }\n"))
    else []

unfoldable pub input_chain : PlanInput → Bytes
unfolding format_uint
input_chain i =
    codes "  chain input {\n"
    ++ (codes "    type filter hook input priority -10; policy accept;\n"
        ++ (codes "    udp dport "
            ++ (format_uint i.port ++ codes " accept comment \"wiregate-owned\"\n  }\n")))

unfoldable pub destroy_table : Bytes → Bytes
destroy_table table = codes "destroy table inet " ++ (table ++ codes "\n")

unfoldable pub table_text : PlanInput → Bytes → List Prefix → Bytes
unfolding input_chain forward_chain postrouting_chain
table_text i table tunnels =
    codes "table inet "
    ++ (table
        ++ (codes " {\n"
            ++ (input_chain i
                ++ (forward_chain i tunnels ++ (postrouting_chain i tunnels ++ codes "}\n")))))

unfoldable pub render_up_nft : PlanInput → Bytes → List Prefix → Bytes
unfolding destroy_table table_text
render_up_nft i table tunnels = destroy_table table ++ table_text i table tunnels

unfoldable pub external_checklist_of : PlanInput → List Prefix → List Prefix → List Bytes
unfolding show_prefix sort_by less_bytes format_uint
external_checklist_of i tunnels lan = sort_by less_bytes (
    (codes "Allow UDP destination port "
        ++ (format_uint i.port ++ codes " on the gateway input path."))
      ∷ (if is_server_only i.deployment
          then []
          else (codes "Enable stateful forwarding from "
              ++ (i.interface ++ (codes " to " ++ (i.egress_device ++ codes "."))))
            ∷ (codes "Allow established and related return traffic back to "
                ++ (i.interface ++ codes "."))
            ∷ [])
    ++ (map (λ p. codes "Allow tunnel source CIDR " ++ (show_prefix p ++ codes ".")) tunnels
        ++ (map
              (λ p.
                codes "Provide a return route for "
                ++ (show_prefix p ++ codes " where applicable."))
              lan
            ++ (if is_full_tunnel i.deployment
                then (codes "Masquerade tunnel CIDRs only on egress device "
                    ++ (i.egress_device ++ codes "."))
                  ∷ []
                else []))))

-- `strings.ReplaceAll(id, "-", "")`
unfoldable pub without_dashes : Bytes → Bytes
without_dashes = rows_where (λ c. not (c == b'-'))

-- Any error in the tunnels is reported as their lack.
unfoldable pub tunnels_of : PlanInput → Checked (List Prefix)
unfolding canonical_prefixes
tunnels_of i = elim (canonical_prefixes i.tunnel_cidrs) [
  | failure e ↦ failure NetworkError.no_tunnel
  | success [] ↦ failure NetworkError.no_tunnel
  | success (p ∷ ps) ↦ success (p ∷ ps)
]

unfoldable pub completed_plan : PlanInput → Bytes → List Prefix → List Prefix → List Bytes → Plan
unfolding sysctl_of external_checklist_of render_up_nft destroy_table
completed_plan i table tunnels lan routes =
    let plan : Plan = record {
      table_name = table;
      client_routes = routes;
      up_nft = [];
      down_nft = [];
      sysctl = sysctl_of i;
      post_up = [];
      post_down = [];
      external_checklist = [];
    } in
    if is_external i.firewall
    then record plan { external_checklist = external_checklist_of i tunnels lan }
    else record plan {
      up_nft = render_up_nft i table tunnels;
      down_nft = destroy_table table;
      post_up =
          codes "/usr/sbin/nft -f "
          ++ (codes "/etc/wiregate/network/" ++ (i.interface ++ codes "/up.nft"));
      post_down =
          codes "/usr/sbin/nft -f "
          ++ (codes "/etc/wiregate/network/" ++ (i.interface ++ codes "/down.nft"));
    }

unfoldable pub build_plan : PlanInput → Checked Plan
unfolding interface_name listen_port tunnels_of canonical_prefixes is_device without_dashes
    client_routes_of completed_plan to_lower
build_plan i = do
  _ ← interface_name i.interface
  _ ← listen_port i.port
  _ ←
      reject
        (not (is_server_only i.deployment || is_lan i.deployment || is_full_tunnel i.deployment))
        NetworkError.unsupported_profile
  _ ←
      reject (not (is_managed i.firewall || is_external i.firewall))
        NetworkError.unsupported_firewall
  tunnels ← tunnels_of i
  lan ← canonical_prefixes i.lan_cidrs
  _ ← reject (is_lan i.deployment && length lan == 0) NetworkError.no_lan
  _ ←
      reject
        ((is_lan i.deployment || is_full_tunnel i.deployment) && not (is_device i.egress_device))
        NetworkError.no_egress
  _ ← reject (ltb (length (without_dashes i.interface_id)) 12) NetworkError.short_id
  let table = codes "wiregate_" ++ to_lower (take 12 (without_dashes i.interface_id))
  routes ← client_routes_of i lan
  success (completed_plan i table tunnels lan routes)

unfoldable pub reject_network : Prefix → List Prefix → Checked Unit
unfolding bit_len overlaps
reject_network proposed [] = success tt
reject_network proposed (current ∷ occupied) = do
  _ ←
      reject (bit_len proposed.addr == bit_len current.addr && overlaps proposed current)
        (NetworkError.network_overlap proposed current)
  reject_network proposed occupied

unfoldable pub reject_network_overlap : List Prefix → List Prefix → Checked Unit
unfolding reject_network
reject_network_overlap [] occupied = success tt
reject_network_overlap (proposed ∷ candidate) occupied = do
  _ ← reject_network proposed occupied
  reject_network_overlap candidate occupied
