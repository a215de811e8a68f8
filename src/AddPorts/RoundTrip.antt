-- ===== src/AddPorts/RoundTrip.antt =====
-- Reading back the entries that README.md describes.
use dovesnap.Prelude.{
  ℕ, ◌≤◌, ◌<◌, ◌^◌, String, List, Option, none, some, ◌≡◌, ◌≢◌, refl, ap, ◌∙◌, arith, All, false,
  str_eq, eq_iff, le→ltb, if◌then◌else◌, Char,
}
use dovesnap.Prelude.Map.{nat_key, string_key, insert, insert-insert_self}
use dovesnap.Prelude.Text.{decimal, field, split, join, Lacks, is_digit}
use dovesnap.Prelude.Text.Split.{split-join, Lacks-join, split_empty}
use dovesnap.Prelude.Text.Decimal.{parse_uint-decimal, Lacks-decimal, decimal-ne-nil}
use dovesnap.Outcome.{returned}
use dovesnap.Ports.{parse_uint32}
use dovesnap.AddPorts.{
  AddPorts, every, checked_vlan, add_vlan, add_acl, add_numbered, add_entry, add_entries,
  parse_add_ports,
}

-- One entry of the option, as a user means it.
pub record PortSpec : Type 0 where
  pub name : String
  pub of_port : Option ℕ
  pub acl : String  -- "" for none
  pub vlan : Option ℕ

abbrev number_text : Option ℕ → String
number_text none = ""
number_text (some n) = decimal n

-- `portname/ofport/acl_name/native_vlan`
unfoldable pub print : PortSpec → List String
print p =
    List.◌∷◌ p.name
      (List.◌∷◌ (number_text p.of_port) (List.◌∷◌ p.acl (List.◌∷◌ (number_text p.vlan) List.[])))

-- The option's text: the fields of an entry with slashes between, the entries with commas.
unfoldable pub print_entry : PortSpec → String
unfolding print join
print_entry p = join "/" (print p)

unfoldable pub print_entries : List PortSpec → List String
unfolding print_entry
print_entries List.[] = List.[]
print_entries (List.◌∷◌ p ps) = List.◌∷◌ (print_entry p) (print_entries ps)

-- What an entry asks for: an ACL goes with an OFPort.
unfoldable pub meant : PortSpec → AddPorts → AddPorts
unfolding insert
meant p found = record {
  ports = insert p.name (elim p.of_port [ none ↦ 0 | some n ↦ n ]) found.ports;
  acls = elim p.of_port [
    | none ↦ found.acls
    | some n ↦ if str_eq p.acl "" then found.acls else insert n p.acl found.acls
  ];
  vlans = elim p.vlan [ none ↦ found.vlans | some v ↦ insert p.name v found.vlans ];
}

unfoldable pub all_meant : List PortSpec → AddPorts → AddPorts
unfolding meant
all_meant List.[] found = found
all_meant (List.◌∷◌ p ps) found = all_meant ps (meant p found)

abbrev pub IsPortNumber : Option ℕ → Type 0
IsPortNumber none = Unit
IsPortNumber (some n) = n < 2 ^ 32

abbrev pub IsVlan : Option ℕ → Type 0
IsVlan none = Unit
IsVlan (some v) = (1 ≤ v) × (v ≤ 4094)

-- No separator in the name or the ACL, and the numbers in range.
pub record IsPlain (p : PortSpec) : Type 0 where
  pub name_slash : Lacks "/" p.name
  pub name_comma : Lacks "," p.name
  pub acl_slash : Lacks "/" p.acl
  pub acl_comma : Lacks "," p.acl
  pub port_fits : IsPortNumber p.of_port
  pub vlan_fits : IsVlan p.vlan

Lacks-number_text : (sep : Char) (o : Option ℕ) → is_digit sep ≡ false → Lacks sep (number_text o)
Lacks-number_text sep none h = tt
Lacks-number_text sep (some n) h = Lacks-decimal sep n h

slash_no_digit : is_digit "/" ≡ false
unfolding is_digit
slash_no_digit = refl

split-print_entry : (p : PortSpec) → IsPlain p → split "/" (print_entry p) ≡ print p
unfolding print_entry print
split-print_entry p h = split-join "/" p.name _ h.name_slash (
  Lacks-number_text "/" p.of_port slash_no_digit,
  (h.acl_slash, (Lacks-number_text "/" p.vlan slash_no_digit, tt)),
)

-- The steps of one entry, each on its printed field.
parse_number : (n : ℕ) → n < 2 ^ 32 → parse_uint32 (decimal n) ≡ some n
unfolding parse_uint32
parse_number n h = parse_uint-decimal 32 n h

decimal_not_empty : (n : ℕ) → str_eq (decimal n) "" ≡ false
decimal_not_empty n = ground (arith, decimal-ne-nil n, eq_iff (decimal n) "")

-- The fields of an entry, in the form that `print` gives them.
abbrev fields : String → Option ℕ → String → Option ℕ → List String
fields name o acl v =
    List.◌∷◌ name (List.◌∷◌ (number_text o) (List.◌∷◌ acl (List.◌∷◌ (number_text v) List.[])))

abbrev with_vlan : String → Option ℕ → AddPorts → AddPorts
with_vlan name none found = found
with_vlan name (some v) found = record found { vlans = insert name v found.vlans }

add_vlan-fields :
    (name : String) (o : Option ℕ) (acl : String) (v : Option ℕ) (found : AddPorts)
    → IsVlan v
    → add_vlan every (fields name o acl v) found ≡ returned (with_vlan name v found)
unfolding add_vlan field checked_vlan
add_vlan-fields name o acl none found k = refl
add_vlan-fields name o acl (some v) found (lo, hi) = rw (
  decimal_not_empty v,
  parse_number v (omega arith),
  checked_vlan,
  le→ltb v 1 lo,
  le→ltb 4094 v hi,
)

abbrev with_acl : ℕ → String → AddPorts → AddPorts
with_acl n acl found =
    if str_eq acl "" then found else record found { acls = insert n acl found.acls }

add_acl-fields :
    (name : String) (o : Option ℕ) (acl : String) (v : Option ℕ) (n : ℕ) (found : AddPorts)
    → add_acl every (fields name o acl v) n found ≡ with_acl n acl found
unfolding add_acl field
add_acl-fields name o acl v n found = ground arith

with_both :
    (name : String) (n : ℕ) (acl : String) (v : Option ℕ) (found : AddPorts)
    → with_vlan name v (with_acl n acl (record found { ports = insert name n found.ports }))
      ≡ meant (record { name = name; of_port = some n; acl = acl; vlan = v }) found
unfolding meant
with_both name n acl none found = ground arith
with_both name n acl (some v) found = ground arith

add_entry-fields :
    (name : String) (o : Option ℕ) (acl : String) (v : Option ℕ) (found : AddPorts)
    → IsPortNumber o
    → IsVlan v
    → add_entry every (fields name o acl v) found
      ≡ returned (meant (record { name = name; of_port = o; acl = acl; vlan = v }) found)
unfolding add_entry field meant add_numbered
add_entry-fields name none acl none found hp hv = add_vlan-fields name none acl none _ hv
add_entry-fields name none acl (some v) found hp hv = add_vlan-fields name none acl (some v) _ hv
add_entry-fields name (some n) acl v found hp hv =
    rw (decimal_not_empty n, parse_number n hp, insert-insert_self, add_acl-fields)
      (add_vlan-fields name (some n) acl v _ hv ∙ ap returned (with_both name n acl v found))

add_entry-print :
    (p : PortSpec) (found : AddPorts)
    → IsPlain p
    → add_entry every (split "/" (print_entry p)) found ≡ returned (meant p found)
add_entry-print p found h =
    rw (split-print_entry p h)
      (unfold print in add_entry-fields p.name p.of_port p.acl p.vlan found h.port_fits h.vlan_fits)

add_entries-print :
    (ps : List PortSpec) (found : AddPorts)
    → All IsPlain ps
    → add_entries every (print_entries ps) found ≡ returned (all_meant ps found)
unfolding add_entries print_entries all_meant
add_entries-print List.[] found h = refl
add_entries-print (List.◌∷◌ p ps) found (h, hs) =
    rw (add_entry-print p found h) (add_entries-print ps (meant p found) hs)

comma_no_digit : is_digit "," ≡ false
unfolding is_digit
comma_no_digit = refl

Lacks-print_entry : (p : PortSpec) → IsPlain p → Lacks "," (print_entry p)
unfolding print_entry print
Lacks-print_entry p h =
    Lacks-join "," "/" (print p) (refl, tt)
      (
        h.name_comma,
        (
          Lacks-number_text "," p.of_port comma_no_digit,
          (h.acl_comma, (Lacks-number_text "," p.vlan comma_no_digit, tt)),
        ),
      )

Lacks-print_entries : (ps : List PortSpec) → All IsPlain ps → All (Lacks ",") (print_entries ps)
unfolding print_entries
Lacks-print_entries List.[] h = tt
Lacks-print_entries (List.◌∷◌ p ps) (h, hs) = (Lacks-print_entry p h, Lacks-print_entries ps hs)

-- The text that a user writes for the entries.
unfoldable pub print_option : List PortSpec → String
unfolding print_entries join
print_option ps = join "," (print_entries ps)

split-print_option :
    (p : PortSpec) (ps : List PortSpec)
    → All IsPlain (List.◌∷◌ p ps)
    → split "," (print_option (List.◌∷◌ p ps)) ≡ print_entries (List.◌∷◌ p ps)
unfolding print_option print_entries
split-print_option p ps (h, hs) =
    split-join "," (print_entry p) (print_entries ps) (Lacks-print_entry p h)
      (Lacks-print_entries ps hs)

print_option-ne-nil :
    (p : PortSpec) (ps : List PortSpec)
    → All IsPlain (List.◌∷◌ p ps)
    → print_option (List.◌∷◌ p ps) ≢ ""
unfolding print_entries print
print_option-ne-nil p ps h e =
    cc (e, split_empty ",", split_empty "/", split-print_option p ps h, split-print_entry p h.0)

print_option_not_empty :
    (p : PortSpec) (ps : List PortSpec)
    → All IsPlain (List.◌∷◌ p ps)
    → str_eq (print_option (List.◌∷◌ p ps)) "" ≡ false
print_option_not_empty p ps h =
    ground (arith, print_option-ne-nil p ps h, eq_iff (print_option (List.◌∷◌ p ps)) "")

-- Parsing the text of one or more entries, written with all four fields (an absent OFPort, ACL or
-- VLAN as an empty field), into the three maps gives exactly what the entries mean, in order, if
-- names and ACLs hold no "/" and no ",", OFPorts are below 2^32 and VLANs lie from 1 to 4094.
pub parse_add_ports-print_option :
    (p : PortSpec) (ps : List PortSpec) (found : AddPorts)
    → All IsPlain (List.◌∷◌ p ps)
    → parse_add_ports every (print_option (List.◌∷◌ p ps)) found
      ≡ returned (all_meant (List.◌∷◌ p ps) found)
unfolding parse_add_ports
parse_add_ports-print_option p ps found h =
    rw (print_option_not_empty p ps h, split-print_option p ps h)
      (add_entries-print (List.◌∷◌ p ps) found h)
