-- ===== src/Config/Network/Agreement.antt =====
-- A network that is restored from docker's inspection has the state that its creation gave it.
use dovesnap.Prelude.{
  ℕ, String, Option, none, some, [], ◌∷◌, ◌≡◌, ◌≢◌, refl, ap, ◌∙◌, str_eq, eq_iff, if◌then◌else◌,
  arith,
}
use mathlib.Core.Option
use dovesnap.Prelude.Map.{Map, string_key, lookup}
use dovesnap.Prelude.Text.{concat}
use dovesnap.Outcome.{Outcome, returned, panicked, ◌>>=◌, ◌>>◌}
use dovesnap.System.{NetworkInspect}
use dovesnap.State.{NetworkState, DriverConfig}
use dovesnap.Config.{
  Leaf, Value, text, object, CreateNetworkRequest, generic_option, mode_flat,
  must_get_uint_from_hex_str, as_text, text_option, get_generic_option, get_generic_uint_option,
  must_get_bridge_vlan, must_get_tunnel_vid, must_get_bridge_mtu, must_get_pre_allocate_ports,
  must_get_lb_port, must_get_bridge_name, must_get_bridge_mode, is_valid_mode,
  get_str_option_from_resource, get_uint_option_from_resource, get_gateway_from_resource,
  get_stack_mirror_config, get_stack_mirror_config_from_resource,
}
use dovesnap.Config.Network.{
  must_get_bridge_dpid, must_get_use_dhcp, controller_or_default, check_dhcp, new_network_state,
  created_state, inspected_state, must_get_bridge_name_from_resource, resource_network_state,
  with_default_controller,
}

-- Docker keeps the generic options of the request, texts all of them, and gives them back in the
-- inspection of the network.
pub record SameNetwork (r : CreateNetworkRequest) (i : NetworkInspect) : Type 0 where
  pub id : r.network_id ≡ i.id
  pub given : Map String Value
  pub generic : Map String Leaf
  pub kept : Map String String
  pub has_options : r.options ≡ some given
  pub has_generic : lookup generic_option given ≡ some (object generic)
  pub has_kept : i.options ≡ some kept
  pub same : (name : String) → lookup name generic ≡ Option.map text (lookup name kept)

option_text : (o : Option String) → as_text (Option.map text o) ≡ elim o [ none ↦ "" | some s ↦ s ]
unfolding as_text
option_text none = refl
option_text (some s) = refl

mode_cases :
    (o : Option String) (mode : String)
    → o ≢ some ""
    → (let given = as_text (Option.map text o) in
        if str_eq given ""
        then returned mode_flat
        else if is_valid_mode given
        then returned given
        else panicked (concat (given ∷ " is not a valid mode" ∷ [])))
      ≡ returned mode
    → elim o as (λ x. String) [ none ↦ mode_flat | some given ↦ given ] ≡ mode
unfolding as_text
mode_cases none mode ne h = ground arith
mode_cases (some given) mode ne h = ground (arith, eq_iff given "")

-- What docker's inspection says of the name and the gateway.
abbrev pub as_inspected : NetworkInspect → NetworkState → NetworkState
as_inspected i ns = record ns {
  network_name = i.name;
  gateway = (get_gateway_from_resource i).0;
  gateway_mask = (get_gateway_from_resource i).1;
}

abbrev pub restored : DriverConfig → Outcome NetworkState → Outcome NetworkState
restored d o = do ns ← o; returned (with_default_controller d ns)

-- What an accepted request went through.
record Accepted (hex_to_decimal : String → String) (d : DriverConfig) (r : CreateNetworkRequest)
    (ns : NetworkState) : Type 0 where
  bridge_name : String
  mode : String
  gateway : String × String
  uint : ℕ
  named : must_get_bridge_name r ≡ returned bridge_name
  moded : must_get_bridge_mode r ≡ returned mode
  numbered : must_get_uint_from_hex_str hex_to_decimal (must_get_bridge_dpid r) ≡ returned uint
  built : created_state d r bridge_name mode gateway uint ≡ ns

after_checks :
    (hex : String → String) (d : DriverConfig) (r : CreateNetworkRequest) {ns : NetworkState}
    (bridge_name mode : String) (gateway : String × String) (checked : Outcome (Unit {0}))
    (uint : Outcome ℕ)
    → must_get_uint_from_hex_str hex (must_get_bridge_dpid r) ≡ uint
    → must_get_bridge_name r ≡ returned bridge_name
    → must_get_bridge_mode r ≡ returned mode
    → (checked >> (uint >>= λ n. returned (created_state d r bridge_name mode gateway n)))
      ≡ returned ns
    → Accepted hex d r ns
after_checks hex d r bridge_name mode gateway (returned _) (returned uint) e1 e2 e3 h = record {
  bridge_name = bridge_name;
  mode = mode;
  gateway = gateway;
  uint = uint;
  named = e2;
  moded = e3;
  numbered = e1;
  built = ground arith;
}
after_checks hex d r bridge_name mode gateway _ _ e1 e2 e3 h = absurd (cc)

new_network_state-Accepted :
    (hex : String → String) (d : DriverConfig) (r : CreateNetworkRequest) {ns : NetworkState}
    (name mode : Outcome String) (gateway : Outcome (String × String))
    → must_get_bridge_name r ≡ name
    → must_get_bridge_mode r ≡ mode
    → (do
      bridge_name ← name
      mode ← mode
      gateway ← gateway
      check_dhcp r mode gateway.0
      dpid_uint ← must_get_uint_from_hex_str hex (must_get_bridge_dpid r)
      returned (created_state d r bridge_name mode gateway dpid_uint))
      ≡ returned ns
    → Accepted hex d r ns
new_network_state-Accepted hex d r (returned name) (returned mode) (returned gateway) e1 e2 h =
    after_checks hex d r name mode gateway (check_dhcp r mode gateway.0) _ refl e1 e2 h
new_network_state-Accepted hex d r _ _ _ e1 e2 h = absurd (cc)

module _ {r : CreateNetworkRequest} {i : NetworkInspect} (s : SameNetwork r i) where
  generic-eq : (name : String) → get_generic_option r name ≡ get_str_option_from_resource i name ""
  unfolding get_generic_option get_str_option_from_resource text_option
  generic-eq name =
      rw (s.has_options, s.has_generic, s.has_kept, s.same name) (option_text (lookup name s.kept))

  uint-eq :
      (name : String) (default : ℕ)
      → get_generic_uint_option r name default ≡ get_uint_option_from_resource i name default
  unfolding get_generic_uint_option get_uint_option_from_resource
  uint-eq name default = rw (generic-eq name)

  vlan-eq : must_get_bridge_vlan r ≡ get_uint_option_from_resource i "ovs.bridge.vlan" 100
  unfolding must_get_bridge_vlan
  vlan-eq = uint-eq "ovs.bridge.vlan" 100

  -- The mirror configuration of a network is the same when it is restored, for every driver.
  pub stack_mirror_config_agrees :
      (d : DriverConfig) → get_stack_mirror_config_from_resource d i ≡ get_stack_mirror_config d r
  unfolding get_stack_mirror_config_from_resource get_stack_mirror_config must_get_lb_port
      must_get_tunnel_vid
  stack_mirror_config_agrees d = rw (uint-eq, uint-eq, vlan-eq)

  mode-eq :
      {mode : String}
      → lookup "ovs.bridge.mode" s.kept ≢ some ""
      → must_get_bridge_mode r ≡ returned mode
      → get_str_option_from_resource i "ovs.bridge.mode" mode_flat ≡ mode
  unfolding must_get_bridge_mode get_generic_option get_str_option_from_resource text_option
  mode-eq {mode} ne h = rw s.has_kept (
      mode_cases (lookup "ovs.bridge.mode" s.kept) mode ne
        (rw (s.has_options, s.has_generic, s.same "ovs.bridge.mode") at h))

  name-eq :
      {name : String}
      → get_generic_option r "ovs.bridge.name" ≡ ""
      → must_get_bridge_name r ≡ returned name
      → must_get_bridge_name_from_resource i ≡ returned name
  unfolding must_get_bridge_name must_get_bridge_name_from_resource
  name-eq e h = simp (e, s.id) at h

  controller-eq :
      (d : DriverConfig) (ns : NetworkState)
      → ns.controller ≡ get_str_option_from_resource i "ovs.bridge.controller" ""
      → with_default_controller d ns ≡ record ns { controller = controller_or_default d r }
  unfolding with_default_controller controller_or_default
  controller-eq d ns e = ground (arith, generic-eq "ovs.bridge.controller")

  literals-eq :
      (d : DriverConfig) (bridge_name mode : String) (gateway : String × String) (uint : ℕ)
      → get_str_option_from_resource i "ovs.bridge.mode" mode_flat ≡ mode
      → record (inspected_state i d.short_engine_id bridge_name
          (get_gateway_from_resource i)
          uint) { controller = controller_or_default d r }
        ≡ as_inspected i (created_state d r bridge_name mode gateway uint)
  unfolding inspected_state created_state must_get_bridge_dpid must_get_use_dhcp must_get_bridge_mtu
      must_get_bridge_vlan must_get_pre_allocate_ports
  literals-eq d bridge_name mode gateway uint e = simp (generic-eq, uint-eq, e)

  accepted-eq :
      (hex_to_decimal : String → String) (d : DriverConfig) (bridge_name mode : String)
      (gateway : String × String) (uint : ℕ)
      → must_get_bridge_name_from_resource i ≡ returned bridge_name
      → get_str_option_from_resource i "ovs.bridge.mode" mode_flat ≡ mode
      → must_get_uint_from_hex_str hex_to_decimal (must_get_bridge_dpid r) ≡ returned uint
      → restored d (resource_network_state hex_to_decimal d.short_engine_id i)
        ≡ returned (as_inspected i (created_state d r bridge_name mode gateway uint))
  unfolding resource_network_state must_get_bridge_dpid
  accepted-eq hex d bridge_name mode gateway uint named moded e =
      rw (← generic-eq, e, named)
        (ap returned (
          controller-eq d
            (inspected_state i d.short_engine_id bridge_name (get_gateway_from_resource i) uint)
            (unfold inspected_state in refl)
          ∙ literals-eq d bridge_name mode gateway uint moded))

-- If a create request that names no bridge and gives no empty mode is accepted with a state, then
-- restoring the network from docker's inspection succeeds with that state, but for the name and
-- the gateway, which are those of the inspection.
pub restore_agrees :
    (hex_to_decimal : String → String) (d : DriverConfig) (r : CreateNetworkRequest)
    (i : NetworkInspect) (ns : NetworkState) (s : SameNetwork r i)
    → get_generic_option r "ovs.bridge.name" ≡ ""
    → lookup "ovs.bridge.mode" s.kept ≢ some ""
    → new_network_state hex_to_decimal d r ≡ returned ns
    → restored d (resource_network_state hex_to_decimal d.short_engine_id i)
      ≡ returned (as_inspected i ns)
unfolding new_network_state
restore_agrees hex d r i ns s no_name mode_given h =
    go (new_network_state-Accepted hex d r _ _ _ refl refl h)
  where
    go :
        Accepted hex d r ns
        → restored d (resource_network_state hex d.short_engine_id i) ≡ returned (as_inspected i ns)
    go a =
        accepted-eq s hex d a.bridge_name a.mode a.gateway a.uint (name-eq s no_name a.named)
          (mode-eq s mode_given a.moded) a.numbered
        ∙ ap (λ x. returned (as_inspected i x)) a.built
