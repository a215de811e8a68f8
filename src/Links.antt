-- ===== src/Links.antt =====
-- ovs/utils.go: network interfaces of the host, by netlink; the MAC prefix; namespace links.
use dovesnap.Prelude.{ℕ, zero, suc, String, Bool, false, [], ◌∷◌, str_eq, if◌then◌else◌}
use dovesnap.Prelude.Text.{concat, contains, decimal}
use dovesnap.Outcome.{Result, ok, err}
use dovesnap.System.{
  Io, link_by_name, link_add, link_del, link_set_up, link_set_mtu, mac_of, parse_addr, addr_add,
  addr_list, interface_flags, sleep, lstat, stat, mkdir_all, remove_file, symlink, call, must_call,
  pure, panic, fatal, ◌>>=◌, ◌>>◌,
}

abbrev pub ovs_port_prefix : String
ovs_port_prefix = "odsve"

abbrev pub peer_ovs_port_prefix : String
peer_ovs_port_prefix = "ethc"

abbrev pub net_ns_path : String
net_ns_path = "/var/run/netns"

abbrev pub VethPair : Type 0
VethPair = String × String

unfoldable pub veth_pair : String → VethPair
veth_pair suffix =
    (concat (ovs_port_prefix ∷ suffix ∷ []), concat (peer_ovs_port_prefix ∷ suffix ∷ []))

unfoldable pub must_get_link_by_name : String → Io String
must_get_link_by_name name = must_call (link_by_name name)

unfoldable pub get_mac_addr : String → Io String
get_mac_addr name = do must_get_link_by_name name; must_call (mac_of name)

unfoldable pub must_set_interface_mtu : String → ℕ → Io String
must_set_interface_mtu name mtu = do must_get_link_by_name name; must_call (link_set_mtu name mtu)

-- The answer to `addr_list` is the first IPv4 address, or "" where there is none.
abbrev first_address : String → Result String → Result String
first_address name (err m) = err m
first_address name (ok addr) =
    if str_eq addr ""
    then err (concat ("interface " ∷ name ∷ " has no IP addresses" ∷ []))
    else ok addr

abbrev address_of : String → Result String → Io (Result String)
address_of name (err m) = pure (err m)
address_of name (ok link) = do addrs ← call (addr_list name); pure (first_address name addrs)

unfoldable pub get_iface_addr : String → Io (Result String)
get_iface_addr name = do link ← call (link_by_name name); address_of name link

-- `for i := 0; i < retries; i++`, with the error of the last round.
unfoldable pub find_link : ℕ → String → String → Io (Result String)
find_link zero last_error name = pure (err last_error)
find_link (suc left) last_error name = do
  link ← call (link_by_name name)
  elim link [ ok found ↦ pure (ok found) | err m ↦ call (sleep 2) >>= λ _. find_link left m name ]

abbrev add_address : String → String → Result String → Io (Result String)
add_address name raw_ip (err m) = fatal "Abandoning retrieving the new OVS bridge link from netlink"
add_address name raw_ip (ok link) = do
  addr ← call (parse_addr raw_ip)
  elim addr [ err m ↦ pure (err m) | ok a ↦ call (addr_add name a) ]

unfoldable pub set_interface_ip : String → String → Io (Result String)
set_interface_ip name raw_ip = do link ← find_link 2 "" name; add_address name raw_ip link

-- On an error the code logs a field of the link that it did not get, a nil pointer.
abbrev up_if_found : String → Result String → Io (Result String)
up_if_found name (err m) = panic "invalid memory address or nil pointer dereference"
up_if_found name (ok link) = call (link_set_up name)

unfoldable pub interface_up : String → Io (Result String)
interface_up name = do link ← call (link_by_name name); up_if_found name link

unfoldable pub del_veth_pair : VethPair → Io String
del_veth_pair (name, peer_name) = must_call (link_del name peer_name)

unfoldable pub add_veth_pair : VethPair → Io String
add_veth_pair (name, peer_name) = do
  must_call (link_add name peer_name)
  must_call (link_set_up name)

abbrev pub has_up_flag : Result String → Bool
has_up_flag (err m) = false
has_up_flag (ok flags) = contains flags "up"

unfoldable pub if_up : String → Io Bool
if_up if_name = do flags ← call (interface_flags if_name); pure (has_up_flag flags)

-- The answer to `stat` is "" where there is no such file.
abbrev make_if_absent : String → Result String → Io (Unit {0})
make_if_absent dir (err m) = pure tt
make_if_absent dir (ok found) =
    if str_eq found "" then must_call (mkdir_all dir) >> pure tt else pure tt

unfoldable pub ensure_dir_exists : String → Io (Unit {0})
ensure_dir_exists dir = do found ← call (stat dir); make_if_absent dir found

abbrev ns_path : String → String
ns_path id = concat (net_ns_path ∷ "/" ∷ id ∷ [])

unfoldable pub remove_existing : String → Result String → Io (Unit {0})
remove_existing path (err m) = pure tt
remove_existing path (ok found) = do must_call (remove_file path); pure tt

unfoldable pub create_ns_link : ℕ → String → Io String
create_ns_link pid id = do
  found ← call (lstat (ns_path id))
  remove_existing (ns_path id) found
  must_call (symlink (concat ("/proc/" ∷ decimal pid ∷ "/ns/net" ∷ [])) (ns_path id))

unfoldable pub delete_ns_link : String → Io (Result String)
delete_ns_link id = call (remove_file (ns_path id))
