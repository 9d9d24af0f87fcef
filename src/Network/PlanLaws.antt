-- ===== src/Network/PlanLaws.antt =====
-- What BuildPlan promises (src/internal/agent/network/plan.go).
use wiregate.Prelude.{
  Bool-cases, inl, inr, [], refl, [], List, ℕ, ◌≡◌, ◌≢◌, Bool, true, false, success, reject, refl,
  arith, bind-success, reject-success, ◌++◌, ◌||◌, ◌&&◌, not, ◌==◌, subst, length, ltb, if_both,
  take,
}
use wiregate.Stdlib.Bytes.{Bytes, codes, to_lower}
use wiregate.Stdlib.Netip.{Prefix}
use wiregate.Network.Validation.{
  NetworkError, Checked, interface_name, is_interface_name, listen_port, canonical_prefixes,
}
use wiregate.Network.Plan.{
  table_text, PlanInput, Plan, build_plan, completed_plan, is_device, is_server_only, is_lan,
  is_full_tunnel, is_managed, is_external, tunnels_of, without_dashes, client_routes_of,
  render_up_nft, sysctl_of,
}

pub record IsSound (i : PlanInput) (plan : Plan) : Type 0 where
  pub named : is_interface_name i.interface ≡ true
  pub listens : i.port ≢ 0
  pub device : is_server_only i.deployment || is_device i.egress_device ≡ true
  pub undone : (rest : Bytes) × (plan.up_nft ≡ plan.down_nft ++ rest)
  pub hands_off :
      not (is_external i.firewall) || (length plan.up_nft == 0 && length plan.post_up == 0) ≡ true
  pub forwards : not (is_server_only i.deployment) || length plan.sysctl == 0 ≡ true

truth : (b : Bool) → not b ≡ false → b ≡ true
truth b h = ground arith

nonzero : (n : ℕ) → (n == 0) ≡ false → n ≢ 0
nonzero n h = ground arith

has_device :
    (s l f d : Bool) → not (s || l || f) ≡ false → (l || f) && not d ≡ false → s || d ≡ true
has_device s l f d h k = ground arith

name_checked : (s : Bytes) → interface_name s ≡ success tt → is_interface_name s ≡ true
unfolding interface_name
name_checked s h = truth (is_interface_name s) (reject-success _ _ h)

port_checked : (n : ℕ) → listen_port n ≡ success tt → n ≢ 0
unfolding listen_port
port_checked n h = nonzero n (reject-success _ _ h)

plan_eq : (p q : Plan) → ◌≡◌ {A = Checked Plan} (success p) (success q) → p ≡ q
plan_eq p q h = cc

plan_undone :
    (i : PlanInput) (table : Bytes) (tunnels nets : List Prefix) (routes : List Bytes)
    → (rest : Bytes) × ((completed_plan i table tunnels nets routes).up_nft
        ≡ (completed_plan i table tunnels nets routes).down_nft ++ rest)
unfolding completed_plan render_up_nft
plan_undone i table tunnels nets routes = elim (Bool-cases (is_external i.firewall)) [
  | inl e ↦ rw e ([], refl)
  | inr e ↦ rw e (table_text i table tunnels, refl)
]

plan_hands_off :
    (i : PlanInput) (table : Bytes) (tunnels nets : List Prefix) (routes : List Bytes)
    → let plan = completed_plan i table tunnels nets routes in
      not (is_external i.firewall) || (length plan.up_nft == 0 && length plan.post_up == 0) ≡ true
unfolding completed_plan
plan_hands_off i table tunnels nets routes = elim (Bool-cases (is_external i.firewall)) [
  | inl e ↦ rw e refl
  | inr e ↦ rw e refl
]

plan_forwards :
    (i : PlanInput) (table : Bytes) (tunnels nets : List Prefix) (routes : List Bytes)
    → not (is_server_only i.deployment)
        || length (completed_plan i table tunnels nets routes).sysctl == 0
      ≡ true
unfolding completed_plan sysctl_of
plan_forwards i table tunnels nets routes = elim (Bool-cases (is_server_only i.deployment)) [
  | inl e ↦
      if_both {A = Plan} (λ p. not (is_server_only i.deployment) || length p.sysctl == 0 ≡ true)
        (is_external i.firewall) _ _ (rw e refl) (rw e refl)
  | inr e ↦ rw e refl
]

-- A plan that BuildPlan returns is for a valid interface name and port, and for a valid egress
-- device unless the profile is `server_only`. Its script up.nft begins with the whole of down.nft,
-- which removes the table; with an external firewall up.nft and PostUp are empty, and with the
-- profile `server_only` so is the sysctl file.
pub build_plan-IsSound :
    (i : PlanInput) (plan : Plan) → build_plan i ≡ success plan → IsSound i plan
unfolding build_plan
build_plan-IsSound i plan h =
    let (_, name, h1) = bind-success (interface_name i.interface) _ plan h in
    let (_, port, h2) = bind-success (listen_port i.port) _ plan h1 in
    let (_, profile, h3) =
      bind-success
        (reject
          (not (is_server_only i.deployment || is_lan i.deployment || is_full_tunnel i.deployment))
          NetworkError.unsupported_profile)
        _ plan h2 in
    let (_, _, h4) =
      bind-success
        (reject (not (is_managed i.firewall || is_external i.firewall))
          NetworkError.unsupported_firewall)
        _ plan h3 in
    let (tunnels, _, h5) = bind-success (tunnels_of i) _ plan h4 in
    let (nets, _, h6) = bind-success (canonical_prefixes i.lan_cidrs) _ plan h5 in
    let (_, _, h7) =
      bind-success (reject (is_lan i.deployment && length nets == 0) NetworkError.no_lan) _ plan
        h6 in
    let (_, egress, h8) =
      bind-success
        (reject
          ((is_lan i.deployment || is_full_tunnel i.deployment) && not (is_device i.egress_device))
          NetworkError.no_egress)
        _ plan h7 in
    let (_, _, h9) =
      bind-success (reject (ltb (length (without_dashes i.interface_id)) 12) NetworkError.short_id)
        _ plan h8 in
    let table : Bytes = codes "wiregate_" ++ to_lower (take 12 (without_dashes i.interface_id)) in
    let (routes, _, h10) = bind-success (client_routes_of i nets) _ plan h9 in
    subst (IsSound i) (plan_eq (completed_plan i table tunnels nets routes) plan h10) (record {
      named = name_checked i.interface name;
      listens = port_checked i.port port;
      device =
          has_device (is_server_only i.deployment) (is_lan i.deployment)
            (is_full_tunnel i.deployment) (is_device i.egress_device) (reject-success _ _ profile)
            (reject-success _ _ egress);
      undone = plan_undone i table tunnels nets routes;
      hands_off = plan_hands_off i table tunnels nets routes;
      forwards = plan_forwards i table tunnels nets routes;
    })
