-- ===== src/Faucet.antt =====
-- ovs/ovs_faucetconfrpc.go: the requests to the faucetconfrpc server and the YAML fragments in them.
pub mod Client
use dovesnap.Prelude.{ℕ, String, Bool, true, [], ◌∷◌, if◌then◌else◌}
use dovesnap.Prelude.Text.{concat, decimal}
use dovesnap.System.{
  Io, set_config_file, set_port_acl, set_vlan_out_acl, del_dp_interfaces, del_dps, add_port_mirror,
  set_remote_mirror_port, faucet, must_call,
}

unfoldable pub must_set_faucet_config_file : String → Io String
must_set_faucet_config_file config_yaml = must_call (faucet (set_config_file config_yaml true))

unfoldable pub must_set_port_acl : String → ℕ → String → Io String
must_set_port_acl dp_name port_no acls = must_call (faucet (set_port_acl dp_name port_no acls))

unfoldable pub must_set_vlan_out_acl : String → String → Io String
must_set_vlan_out_acl vlan_name acl_out = must_call (faucet (set_vlan_out_acl vlan_name acl_out))

unfoldable pub must_delete_dp_interface : String → ℕ → Io String
must_delete_dp_interface dp_name ofport = must_call (faucet (del_dp_interfaces dp_name ofport true))

unfoldable pub must_delete_dp : String → Io String
must_delete_dp dp_name = must_call (faucet (del_dps dp_name))

unfoldable pub must_add_port_mirror : String → ℕ → ℕ → Io String
must_add_port_mirror dp_name ofport mirrorofport =
    must_call (faucet (add_port_mirror dp_name ofport mirrorofport))

unfoldable pub must_set_remote_mirror_port : String → ℕ → ℕ → String → ℕ → Io String
must_set_remote_mirror_port dp_name ofport vid remote_dp_name remoteofport =
    must_call (faucet (set_remote_mirror_port dp_name ofport vid remote_dp_name remoteofport))

unfoldable pub copro_interface_yaml : ℕ → String → String → String
copro_interface_yaml ofport description strategy = concat (
    decimal ofport
    ∷ ": {description: "
    ∷ description
    ∷ ", coprocessor: {strategy: "
    ∷ strategy
    ∷ "}},"
    ∷ [])

unfoldable pub vlan_interface_yaml : ℕ → String → ℕ → String → String
vlan_interface_yaml ofport description vlan acls_in = concat (
    decimal ofport
    ∷ ": {description: "
    ∷ description
    ∷ ", native_vlan: "
    ∷ decimal vlan
    ∷ ", acls_in: ["
    ∷ acls_in
    ∷ "]},"
    ∷ [])

unfoldable pub local_vlan_interface_yaml : ℕ → String → ℕ → String → String
local_vlan_interface_yaml ofport description vlan acls_in = concat (
    decimal ofport
    ∷ ": {opstatus_reconf: False, description: "
    ∷ description
    ∷ ", native_vlan: "
    ∷ decimal vlan
    ∷ ", acls_in: ["
    ∷ acls_in
    ∷ "]},"
    ∷ [])

unfoldable pub stack_interface_yaml : ℕ → String → ℕ → String
stack_interface_yaml ofport remote_dp_name remote_ofport = concat (
    decimal ofport
    ∷ ": {description: stack link to "
    ∷ remote_dp_name
    ∷ ", stack: {dp: "
    ∷ remote_dp_name
    ∷ ", port: "
    ∷ decimal remote_ofport
    ∷ "}},"
    ∷ [])

unfoldable pub merge_dp_interfaces_minimal_yaml : String → String → String
merge_dp_interfaces_minimal_yaml dp_name add_interfaces =
    concat (dp_name ∷ ": {interfaces: {" ∷ add_interfaces ∷ "}}," ∷ [])

unfoldable pub merge_dp_interfaces_yaml : String → ℕ → String → String → Bool → String
merge_dp_interfaces_yaml dp_name uint_dpid description add_interfaces egress_pipeline = concat (
    dp_name
    ∷ ": {dp_id: "
    ∷ decimal uint_dpid
    ∷ ", description: "
    ∷ description
    ∷ ", hardware: Open vSwitch, egress_pipeline: "
    ∷ (if egress_pipeline then "true" else "false")
    ∷ ", interfaces: {"
    ∷ add_interfaces
    ∷ "}},"
    ∷ [])

unfoldable pub merge_single_dp_minimal_yaml : String → String → String
merge_single_dp_minimal_yaml dp_name add_interfaces =
    concat ("{dps: {" ∷ merge_dp_interfaces_minimal_yaml dp_name add_interfaces ∷ "}}" ∷ [])

unfoldable pub merge_single_dp_yaml : String → ℕ → String → String → Bool → String
merge_single_dp_yaml dp_name uint_dpid description add_interfaces egress_pipeline = concat (
    "{dps: {"
    ∷ merge_dp_interfaces_yaml dp_name uint_dpid description add_interfaces egress_pipeline
    ∷ "}}"
    ∷ [])
