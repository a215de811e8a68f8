-- ===== src/AddPorts/Validation.antt =====
-- The validation of ReOrCreateNetwork (ovs/driver.go), which parses the options of added ports without a
-- pointer for the VLANs, and the parsing of the handler, which has one (ovs/ovs_bridge.go).
use dovesnap.Prelude.{
  ℕ, String, Bool, true, false, not, ◌&&◌, Option, none, some, List, [], ◌∷◌, ◌≡◌, refl, ap, ◌∙◌,
  str_eq, if◌then◌else◌,
}
use dovesnap.Prelude.Map.{string_key, nat_key, insert}
use dovesnap.Prelude.Text.{field, split}
use dovesnap.Outcome.{Outcome, returned, panicked, ◌>>=◌, >>=-eq-returned}
use dovesnap.Ports.{parse_uint32}
use dovesnap.AddPorts.{
  AddPorts, Wanted, no_ports, every, without_vlans, checked_vlan, add_vlan, add_acl, add_numbered,
  add_entry, add_entries, parse_add_ports,
}

abbrev forget_vlans : AddPorts → AddPorts
forget_vlans found = record found { vlans = [] }

same_found : {x y : AddPorts} → returned x ≡ returned y → x ≡ y
same_found e = cc

-- A VLAN that is read changes no port and no ACL.
vlan_forgotten :
    (params : List String) (b : Bool) (found x : AddPorts)
    → (if b && true
        then (do
          vlan ← checked_vlan (field 0 params) (parse_uint32 (field 3 params))
          returned (record found { vlans = insert (field 0 params) vlan found.vlans }))
        else returned found)
      ≡ returned x
    → forget_vlans found ≡ forget_vlans x
vlan_forgotten params true found x h =
    let vlan =
      >>=-eq-returned (checked_vlan (field 0 params) (parse_uint32 (field 3 params))) _ h in
    ap forget_vlans (same_found vlan.2)
vlan_forgotten params false found x h = ap forget_vlans (same_found h)

add_vlan_forgotten :
    (params : List String) (found x : AddPorts)
    → add_vlan every params found ≡ returned x
    → add_vlan without_vlans params (forget_vlans found) ≡ returned (forget_vlans x)
unfolding add_vlan
add_vlan_forgotten params found x h =
    let same = vlan_forgotten params (not (str_eq (field 3 params) "")) found x h in
    unread _ (not (str_eq (field 3 params) "")) same
  where
    unread :
        (m : Outcome AddPorts) (b : Bool)
        → forget_vlans found ≡ forget_vlans x
        → (if b && false then m else returned (forget_vlans found)) ≡ returned (forget_vlans x)
    unread m true e = ap returned e
    unread m false e = ap returned e

add_acl_forgotten :
    (params : List String) (n : ℕ) (found : AddPorts)
    → add_acl without_vlans params n (forget_vlans found)
      ≡ forget_vlans (add_acl every params n found)
unfolding add_acl
add_acl_forgotten params n found = go (not (str_eq (field 2 params) "") && true)
  where
    go :
        (b : Bool)
        → (if b
            then record found { acls = insert n (field 2 params) found.acls; vlans = [] }
            else forget_vlans found)
          ≡ forget_vlans
              (if b then record found { acls = insert n (field 2 params) found.acls } else found)
    go true = refl
    go false = refl

add_numbered_forgotten :
    (params : List String) (port_no : Option ℕ) (found x : AddPorts)
    → add_numbered every params port_no found ≡ returned x
    → add_numbered without_vlans params port_no (forget_vlans found) ≡ returned (forget_vlans x)
unfolding add_numbered
add_numbered_forgotten params none found x h = cc
add_numbered_forgotten params (some n) found x h =
    let numbered = record found { ports = insert (field 0 params) n found.ports } in
    ap (add_vlan without_vlans params) (add_acl_forgotten params n numbered)
    ∙ add_vlan_forgotten params (add_acl every params n numbered) x h

add_entry_forgotten :
    (params : List String) (found x : AddPorts)
    → add_entry every params found ≡ returned x
    → add_entry without_vlans params (forget_vlans found) ≡ returned (forget_vlans x)
unfolding add_entry
add_entry_forgotten params found x h = go (not (str_eq (field 1 params) "")) h
  where
    named : AddPorts
    named = record found { ports = insert (field 0 params) 0 found.ports }

    go :
        (b : Bool)
        → (if b
            then add_numbered every params (parse_uint32 (field 1 params)) named
            else add_vlan every params named)
          ≡ returned x
        → (if b
            then add_numbered without_vlans params
                (parse_uint32 (field 1 params))
                (forget_vlans named)
            else add_vlan without_vlans params (forget_vlans named))
          ≡ returned (forget_vlans x)
    go true h = add_numbered_forgotten params (parse_uint32 (field 1 params)) named x h
    go false h = add_vlan_forgotten params named x h

add_entries_forgotten :
    (entries : List String) (found x : AddPorts)
    → add_entries every entries found ≡ returned x
    → add_entries without_vlans entries (forget_vlans found) ≡ returned (forget_vlans x)
unfolding add_entries
add_entries_forgotten [] found x h = ap returned (ap forget_vlans (same_found h))
add_entries_forgotten (entry ∷ entries) found x h =
    let first = >>=-eq-returned (add_entry every (split "/" entry) found) _ h in
    ap (λ o. o >>= λ f. add_entries without_vlans entries f)
      (add_entry_forgotten (split "/" entry) found first.0 first.1)
    ∙ add_entries_forgotten entries first.0 x first.2

-- An option that the handler of a creation accepts is accepted by the validation of the request, which
-- finds the same ports and ACLs; it reads no VLAN.
pub validation_agrees :
    (option : String) (x : AddPorts)
    → parse_add_ports every option no_ports ≡ returned x
    → parse_add_ports without_vlans option no_ports ≡ returned (record x { vlans = [] })
unfolding parse_add_ports
validation_agrees option x h = go (str_eq option "") h
  where
    go :
        (b : Bool)
        → (if b then returned no_ports else add_entries every (split "," option) no_ports)
          ≡ returned x
        → (if b then returned no_ports else add_entries without_vlans (split "," option) no_ports)
          ≡ returned (forget_vlans x)
    go true h = ap returned (ap forget_vlans (same_found h))
    go false h = add_entries_forgotten (split "," option) no_ports x h

-- A VLAN out of range passes the validation, and the handler panics on it.
bad_vlan_validated :
    (parse_add_ports without_vlans "eth0/8//4095" no_ports
      ≡ returned (record { ports = ("eth0", 8) ∷ []; acls = []; vlans = [] }))
    × (parse_add_ports every "eth0/8//4095" no_ports
        ≡ panicked "VLAN 4095 for port eth0 out of range (1-4094)")
unfolding dovesnap.AddPorts.parsing
bad_vlan_validated = (refl, refl)
