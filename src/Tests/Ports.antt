-- ===== src/Tests/Ports.antt =====
-- The theorems on lists of ports, at the dumps of a bridge with two ports.
use dovesnap.Prelude.{
  ℕ, ◌≤◌, ◌<◌, ◌^◌, ◌-◌, String, Bool, true, false, Option, none, some, List, [], ◌∷◌, ◌≡◌, ◌↔◌,
  refl, sym, ap, ◌∙◌, arith, ◌==◌, ==_iff, length, if◌then◌else◌,
}
use dovesnap.Prelude.Map.{nat_key, string_key, lookup, insert, has}
use dovesnap.Outcome.{returned, ok}
use dovesnap.System.{Env}
use dovesnap.Manager.{Manager, zero_network}
use dovesnap.Ports.{PortDesc, parse_port_desc, lowest_free_port, scrape_port_desc}
use dovesnap.Ports.Lowest.{same_ports_same_choice}
use dovesnap.AddPorts.{AddPorts, every, without_vlans, no_ports, parse_add_ports}
use dovesnap.AddPorts.Validation.{validation_agrees}
use dovesnap.Handlers.Reconcile.{reconcile_network}
use dovesnap.Handlers.Unchanged.{IsReadable, unchanged_ports_unchanged}
use dovesnap.Tests.Data.{all_five, manager}

abbrev dump : String
dump = " 1(eth0): addr:aa\n 2(eth1): addr:cc\n"

abbrev other_dump : String
other_dump = " 2(eth5): addr:cc\n 1(eth0): addr:aa\n"

parsed : parse_port_desc dump [] ≡ (1, "eth0") ∷ (2, "eth1") ∷ []
unfolding parse_port_desc dovesnap.Ports.Line.match_line
parsed = refl

other_parsed : parse_port_desc other_dump [] ≡ (2, "eth5") ∷ (1, "eth0") ∷ []
unfolding parse_port_desc dovesnap.Ports.Line.match_line
other_parsed = refl

both_listed :
    (k : ℕ)
    → has {V = String} k ((1, "eth0") ∷ (2, "eth1") ∷ [])
      ≡ has {V = String} k ((2, "eth5") ∷ (1, "eth0") ∷ [])
unfolding lookup
both_listed k = ground (arith, ==_iff 1 k, ==_iff 2 k)

listed_alike : (k : ℕ) → has k (parse_port_desc dump []) ≡ has k (parse_port_desc other_dump [])
listed_alike k =
    ap (λ (m : PortDesc). has k m) parsed
    ∙ (both_listed k ∙ sym (ap (λ (m : PortDesc). has k m) other_parsed))

same_ports_same_choice_example :
    lowest_free_port (parse_port_desc dump []) ≡ lowest_free_port (parse_port_desc other_dump [])
unfolding parse_port_desc lookup dovesnap.Ports.Line.match_line
same_ports_same_choice_example =
    same_ports_same_choice dump other_dump refl (omega arith) (omega arith) listed_alike

abbrev option_ports : AddPorts
option_ports = record {
  ports = ("eth0", 7) ∷ [];
  acls = (7, "acl") ∷ [];
  vlans = ("eth0", 200) ∷ [];
}

accepted : parse_add_ports every "eth0/7/acl/200" no_ports ≡ returned option_ports
unfolding parse_add_ports dovesnap.AddPorts.add_entries dovesnap.Prelude.Text.split
    dovesnap.AddPorts.add_entry dovesnap.Prelude.Text.field dovesnap.AddPorts.add_numbered
    dovesnap.Ports.parse_uint32 dovesnap.AddPorts.add_vlan dovesnap.AddPorts.checked_vlan
    dovesnap.AddPorts.add_acl insert
accepted = refl

validation_agrees_example :
    parse_add_ports without_vlans "eth0/7/acl/200" no_ports
    ≡ returned (record option_ports { vlans = [] })
validation_agrees_example = validation_agrees "eth0/7/acl/200" option_ports accepted

abbrev two_ports : PortDesc
two_ports = (1, "eth0") ∷ (2, "eth1") ∷ []

abbrev turned : PortDesc
turned = (2, "eth1") ∷ (1, "eth0") ∷ []

alike : (k : ℕ) → lookup k two_ports ≡ lookup k turned
unfolding lookup
alike k = ground (arith, ==_iff 1 k, ==_iff 2 k)

abbrev dumping : Env
dumping = record all_five { answer = λ h c. ok dump }

abbrev recorded : Manager
recorded = record manager { all_port_desc = ("n1", turned) ∷ [] }

readable : IsReadable (zero_network "n1" recorded)
unfolding lookup parse_add_ports
readable = record { first = no_ports; found = no_ports; reads = refl; reads_copro = refl }

scraped :
    (scrape_port_desc (zero_network "n1" recorded).bridge_name [] dumping recorded.calls).0
    ≡ returned (ok two_ports)
unfolding scrape_port_desc parse_port_desc dovesnap.Prelude.Text.trim_newline
    dovesnap.Ports.Line.match_line
scraped = refl

unchanged_ports_unchanged_example : reconcile_network "n1" dumping recorded ≡ (
  returned tt,
  record recorded {
    calls = (scrape_port_desc (zero_network "n1" recorded).bridge_name [] dumping recorded.calls).1;
  },
)
unfolding lookup dovesnap.Ports.Lowest.elem
unchanged_ports_unchanged_example =
    unchanged_ports_unchanged "n1" dumping recorded two_ports turned readable scraped refl
      (refl, (refl, tt)) (refl, (refl, tt)) alike
