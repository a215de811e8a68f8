-- ===== src/AddPorts.antt =====
-- parseAddPorts of ovs/ovs_bridge.go: `ovs.bridge.add_ports` and `ovs.bridge.add_copro_ports`, a
-- list of `portname[/ofport][/acl_name][/native_vlan]` with commas between.
pub mod Bounds
pub mod RoundTrip
pub mod Validation
use dovesnap.Prelude.{
  ℕ, ◌≤◌, String, Bool, true, false, ◌&&◌, ◌||◌, not, Option, none, some, List, [], ◌∷◌, ◌≡◌, refl,
  str_eq, ltb, if◌then◌else◌,
}
use dovesnap.Prelude.Map.{Map, nat_key, string_key, insert}
use dovesnap.Prelude.Text.{concat, decimal, field, split}
use dovesnap.Outcome.{Outcome, returned, panicked, ◌>>=◌}
use dovesnap.Ports.{parse_uint32}

-- The three maps that the caller passes by pointer.
pub record AddPorts : Type 0 where
  pub ports : Map String ℕ
  pub acls : Map ℕ String
  pub vlans : Map String ℕ

abbrev pub no_ports : AddPorts
no_ports = record { ports = []; acls = []; vlans = [] }

-- Which of the pointers are not nil: those of the ACLs and of the VLANs.
pub record Wanted : Type 0 where
  pub acls : Bool
  pub vlans : Bool

unfoldable pub checked_vlan : String → Option ℕ → Outcome ℕ
checked_vlan add_port none = panicked (concat ("invalid VLAN for port " ∷ add_port ∷ []))
checked_vlan add_port (some vlan) =
    if ltb vlan 1 || ltb 4094 vlan
    then panicked
        (concat ("VLAN " ∷ decimal vlan ∷ " for port " ∷ add_port ∷ " out of range (1-4094)" ∷ []))
    else returned vlan

-- The native VLAN, parameter 4.
unfoldable pub add_vlan : Wanted → List String → AddPorts → Outcome AddPorts
add_vlan wanted params found =
    let add_port = field 0 params in
    let text = field 3 params in
    if not (str_eq text "") && wanted.vlans
    then (do
      vlan ← checked_vlan add_port (parse_uint32 text)
      returned (record found { vlans = insert add_port vlan found.vlans }))
    else returned found

-- The ACL name, parameter 3.
unfoldable pub add_acl : Wanted → List String → ℕ → AddPorts → AddPorts
add_acl wanted params port_no found =
    let acl = field 2 params in
    if not (str_eq acl "") && wanted.acls
    then record found { acls = insert port_no acl found.acls }
    else found

unfoldable pub add_numbered : Wanted → List String → Option ℕ → AddPorts → Outcome AddPorts
add_numbered wanted params none found = panicked "invalid OFPort"
add_numbered wanted params (some port_no) found = add_vlan wanted params (
    add_acl wanted params port_no
      (record found { ports = insert (field 0 params) port_no found.ports }))

-- One round of the loop.
unfoldable pub add_entry : Wanted → List String → AddPorts → Outcome AddPorts
add_entry wanted params found =
    let found = record found { ports = insert (field 0 params) 0 found.ports } in
    if not (str_eq (field 1 params) "")
    then add_numbered wanted params (parse_uint32 (field 1 params)) found
    else add_vlan wanted params found

unfoldable pub add_entries : Wanted → List String → AddPorts → Outcome AddPorts
add_entries wanted [] found = returned found
add_entries wanted (params_str ∷ rest) found = do
  found ← add_entry wanted (split "/" params_str) found
  add_entries wanted rest found

unfoldable pub parse_add_ports : Wanted → String → AddPorts → Outcome AddPorts
parse_add_ports wanted add_ports found =
    if str_eq add_ports "" then returned found else add_entries wanted (split "," add_ports) found

abbrev pub every : Wanted
every = record { acls = true; vlans = true }

-- With a nil pointer for the VLANs.
abbrev pub without_vlans : Wanted
without_vlans = record { acls = true; vlans = false }

abbrev pub only_ports : Wanted
only_ports = record { acls = false; vlans = false }

-- Opens what a run of `parse_add_ports` computes with.
parsing : Unit {0}
unfolding parse_add_ports add_entries add_entry add_numbered add_acl add_vlan checked_vlan field
    split parse_uint32 insert concat decimal
parsing = tt

-- The example of README.md.
readme_example :
    parse_add_ports every "eth0/8//20,eth1/9//30,eth2/10/myacl/40" no_ports
    ≡ returned (record {
      ports = ("eth0", 8) ∷ ("eth1", 9) ∷ ("eth2", 10) ∷ [];
      acls = (10, "myacl") ∷ [];
      vlans = ("eth0", 20) ∷ ("eth1", 30) ∷ ("eth2", 40) ∷ [];
    })
unfolding parsing
readme_example = refl

-- Without an OFPort the ACL name is not read.
acl_without_port :
    parse_add_ports every "eth0//myacl/20" no_ports
    ≡ returned (record { ports = ("eth0", 0) ∷ []; acls = []; vlans = ("eth0", 20) ∷ [] })
unfolding parsing
acl_without_port = refl

vlan_out_of_range :
    parse_add_ports every "eth0/8//4095" no_ports
    ≡ panicked "VLAN 4095 for port eth0 out of range (1-4094)"
unfolding parsing
vlan_out_of_range = refl
