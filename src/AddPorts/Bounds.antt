-- ===== src/AddPorts/Bounds.antt =====
-- What `parseAddPorts` lets through is in range.
use dovesnap.Prelude.{
  ℕ, ◌≤◌, ◌<◌, ◌^◌, String, List, [], ◌∷◌, Option, none, some, ◌≡◌, refl, arith, All, str_eq, not,
  ◌&&◌, Bool, true, false, if◌then◌else◌,
}
use dovesnap.Prelude.Map.{nat_key, string_key, insert, All-insert}
use dovesnap.Prelude.Text.{field, split}
use dovesnap.Prelude.Text.Decimal.{parse_uint-lt}
use dovesnap.Outcome.{Outcome, returned, panicked, exited, blocked, ◌>>=◌}
use dovesnap.Ports.{parse_uint32}
use dovesnap.AddPorts.{
  AddPorts, Wanted, no_ports, checked_vlan, add_vlan, add_acl, add_numbered, add_entry, add_entries,
  parse_add_ports,
}

-- VLANs are those of 802.1Q, port numbers fit OpenFlow's 32 bits.
pub record InRange (found : AddPorts) : Type 0 where
  pub vlans : All (λ p. (1 ≤ p.1) × (p.1 ≤ 4094)) found.vlans
  pub ports : All (λ p. p.1 < 2 ^ 32) found.ports

-- The outcome is a panic, or maps in range.
abbrev Safe : Outcome AddPorts → Type 0
Safe (returned found) = InRange found
Safe _ = Unit

checked_vlan_bounds :
    (port : String) (o : Option ℕ) {v : ℕ} → checked_vlan port o ≡ returned v → (1 ≤ v) × (v ≤ 4094)
unfolding checked_vlan
checked_vlan_bounds port none h = ground arith
checked_vlan_bounds port (some n) h = ground arith

Safe-bind {ℓ} :
    {A : Type ℓ} (o : Outcome A) (f : A → Outcome AddPorts)
    → ((a : A) → o ≡ returned a → Safe (f a))
    → Safe (o >>= f)
Safe-bind (returned a) f h = h a refl
Safe-bind (panicked m) f h = tt
Safe-bind (exited m) f h = tt
Safe-bind blocked f h = tt

Safe-if : (b : Bool) (x y : Outcome AddPorts) → Safe x → Safe y → Safe (if b then x else y)
Safe-if true x y hx hy = hx
Safe-if false x y hx hy = hy

Safe-add_vlan :
    (w : Wanted) (params : List String) (found : AddPorts)
    → InRange found
    → Safe (add_vlan w params found)
unfolding add_vlan
Safe-add_vlan w params found h =
    Safe-if (not (str_eq (field 3 params) "") && w.vlans) _ (returned found)
      (Safe-bind (checked_vlan (field 0 params) (parse_uint32 (field 3 params))) store stored) h
  where
    store : ℕ → Outcome AddPorts
    store v = returned (record found { vlans = insert (field 0 params) v found.vlans })

    stored :
        (v : ℕ)
        → checked_vlan (field 0 params) (parse_uint32 (field 3 params)) ≡ returned v
        → Safe (store v)
    stored v e = record {
      vlans =
          All-insert (λ n. (1 ≤ n) × (n ≤ 4094)) (field 0 params) v found.vlans
            (checked_vlan_bounds (field 0 params) (parse_uint32 (field 3 params)) e) h.vlans;
      ports = h.ports;
    }

InRange-add_acl :
    (w : Wanted) (params : List String) (n : ℕ) (found : AddPorts)
    → InRange found
    → InRange (add_acl w params n found)
unfolding add_acl
InRange-add_acl w params n found h = ground arith

Safe-add_numbered :
    (w : Wanted) (params : List String) (o : Option ℕ) (found : AddPorts)
    → ((n : ℕ) → o ≡ some n → n < 2 ^ 32)
    → InRange found
    → Safe (add_numbered w params o found)
unfolding add_numbered
Safe-add_numbered w params none found small h = tt
Safe-add_numbered w params (some n) found small h = Safe-add_vlan w params _ (
    InRange-add_acl w params n _ (record {
      vlans = h.vlans;
      ports = All-insert _ (field 0 params) n found.ports (small n refl) h.ports;
    }))

Safe-add_entry :
    (w : Wanted) (params : List String) (found : AddPorts)
    → InRange found
    → Safe (add_entry w params found)
unfolding add_entry
Safe-add_entry w params found h =
    Safe-if _ _ _
      (Safe-add_numbered w params (parse_uint32 (field 1 params)) _
        (λ n e. unfold parse_uint32 in parse_uint-lt 32 (field 1 params) e) with_name)
      (Safe-add_vlan w params _ with_name)
  where
    with_name : InRange (record found { ports = insert (field 0 params) 0 found.ports })
    with_name = record {
      vlans = h.vlans;
      ports = All-insert _ (field 0 params) 0 found.ports (omega arith) h.ports;
    }

Safe-add_entries :
    (w : Wanted) (entries : List String) (found : AddPorts)
    → InRange found
    → Safe (add_entries w entries found)
unfolding add_entries
Safe-add_entries w [] found h = h
Safe-add_entries w (e ∷ es) found h =
    step (add_entry w (split "/" e) found) (Safe-add_entry w (split "/" e) found h)
      (Safe-add_entries w es)
  where
    step :
        (o : Outcome AddPorts)
        → Safe o
        → ((f : AddPorts) → InRange f → Safe (add_entries w es f))
        → Safe (o >>= add_entries w es)
    step (returned f) k ih = ih f k
    step (panicked m) k ih = tt
    step (exited m) k ih = tt
    step blocked k ih = tt

-- Whatever the option says, if parsing it into empty maps returns, then every VLAN in the maps lies
-- from 1 to 4094 and every port number is below 2^32.
pub parse_add_ports_bounds :
    (w : Wanted) (add_ports : String) {found : AddPorts}
    → parse_add_ports w add_ports no_ports ≡ returned found
    → InRange found
unfolding parse_add_ports
parse_add_ports_bounds w add_ports {found} e =
    inv
      (if str_eq add_ports ""
        then returned no_ports
        else add_entries w (split "," add_ports) no_ports)
      (Safe-if (str_eq add_ports "") (returned no_ports)
        (add_entries w (split "," add_ports) no_ports) empty
        (Safe-add_entries w (split "," add_ports) no_ports empty))
      e
  where
    empty : InRange no_ports
    empty = record { vlans = tt; ports = tt }

    inv : (o : Outcome AddPorts) → Safe o → o ≡ returned found → InRange found
    inv (returned f) k p = ground arith
    inv (panicked m) k p = cc
    inv (exited m) k p = cc
    inv blocked k p = cc
