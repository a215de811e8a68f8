-- ===== src/Tests/Options.antt =====
-- The theorems on names, ports and options, at concrete values.
use Prim.Native.String.{len}
use dovesnap.Prelude.{
  ℕ, ◌+◌, ◌^◌, ◌<◌, ◌≤◌, String, Bool, true, false, Option, none, some, List, [], ◌++◌, ◌∷◌, ◌≡◌,
  ◌≢◌, refl, ◌⊎◌, arith, All,
}
use dovesnap.Prelude.Map.{Map, lookup}
use dovesnap.Outcome.{returned, panicked}
use dovesnap.Naming.{b62_encode, patch_name}
use dovesnap.Mac.{decode_string, without_colons, must_prefix_mac, print_mac}
use dovesnap.Mac.Laws.{drop, must_prefix_mac_lem}
use dovesnap.Naming.Base62.{b62_decode, b62_decode-encode}
use dovesnap.Naming.Limits.{patch_name_total}
use dovesnap.Ports.{parse_port_desc, lowest_free_port, must_scrape_port_desc}
use dovesnap.Ports.Lowest.{IsLowestFree, lowest_free_port-IsLowestFree}
use dovesnap.Retries.{IsRetried}
use dovesnap.State.{float64, other_type, fields}
use dovesnap.Handlers.PortMaps.{must_get_port_map, int_text}
use dovesnap.Ports.Retries.{scrape_loop, must_scrape_port_desc-IsRetried}
use dovesnap.Tests.Data.{all_five}
use dovesnap.AddPorts.{AddPorts, every, no_ports, parse_add_ports}
use dovesnap.AddPorts.Bounds.{InRange, parse_add_ports_bounds}
use dovesnap.AddPorts.RoundTrip.{
  PortSpec, IsPlain, print_option, all_meant, parse_add_ports-print_option,
}
use dovesnap.Config.{get_str_for_network, CreateNetworkRequest, must_get_gateway_ip}
use dovesnap.Config.Acls
use dovesnap.Config.Acls.{Entry, for_all, for_one, get_str_for_network_lem, last_value_for, text_or}
use dovesnap.Config.Gateway.{ipv4_gateway_first, gateway_has_mask}

b62_decode-encode_example : b62_decode (b62_encode 3735928559) ≡ 3735928559
b62_decode-encode_example = b62_decode-encode 3735928559 (omega arith)

patch_name_total_example :
    (name : String) × ((patch_name "ovsbr1" "ovsmirrorbridge") ≡ returned name) × (len name ≤ 15)
patch_name_total_example = patch_name_total "ovsbr1" "ovsmirrorbridge"

abbrev port_dump : String
port_dump = " 1(eth0): addr:aa\n LOCAL(ovsbr): addr:bb\n 2(eth1): addr:cc\n"

lowest_free_port-IsLowestFree_example :
    IsLowestFree (parse_port_desc port_dump []) (lowest_free_port (parse_port_desc port_dump []))
unfolding parse_port_desc dovesnap.Prelude.Map.lookup dovesnap.Ports.Line.match_line
lowest_free_port-IsLowestFree_example = lowest_free_port-IsLowestFree port_dump refl (omega arith)

abbrev eth0 : PortSpec
eth0 = record { name = "eth0"; of_port = some 7; acl = "denyall"; vlan = some 200 }

eth0-IsPlain : IsPlain eth0
eth0-IsPlain = record {
  name_slash = (refl, (refl, (refl, (refl, tt))));
  name_comma = (refl, (refl, (refl, (refl, tt))));
  acl_slash = (refl, (refl, (refl, (refl, (refl, (refl, (refl, tt)))))));
  acl_comma = (refl, (refl, (refl, (refl, (refl, (refl, (refl, tt)))))));
  port_fits = omega arith;
  vlan_fits = (omega arith, omega arith);
}

parse_add_ports-print_option_example :
    parse_add_ports every (print_option (eth0 ∷ [])) no_ports
    ≡ returned (all_meant (eth0 ∷ []) no_ports)
parse_add_ports-print_option_example =
    parse_add_ports-print_option eth0 [] no_ports (eth0-IsPlain, tt)

parsed_option :
    parse_add_ports every "eth0/7/acl/200" no_ports
    ≡ returned
        (record { ports = ("eth0", 7) ∷ []; acls = (7, "acl") ∷ []; vlans = ("eth0", 200) ∷ [] })
unfolding parse_add_ports dovesnap.AddPorts.add_entries dovesnap.Prelude.Text.split
    dovesnap.AddPorts.add_entry dovesnap.Prelude.Text.field dovesnap.AddPorts.add_numbered
    dovesnap.Ports.parse_uint32 dovesnap.AddPorts.add_vlan dovesnap.AddPorts.checked_vlan
    dovesnap.AddPorts.add_acl dovesnap.Prelude.Map.insert
parsed_option = refl

parse_add_ports_bounds_example :
    InRange
      (record { ports = ("eth0", 7) ∷ []; acls = (7, "acl") ∷ []; vlans = ("eth0", 200) ∷ [] })
parse_add_ports_bounds_example = parse_add_ports_bounds every "eth0/7/acl/200" parsed_option

get_str_for_network_lem_example :
    get_str_for_network
      (Acls.option_text (for_all "allowall" ∷ for_one "testnet" "denyall" ∷ []))
      "testnet"
    ≡ text_or "" (last_value_for "testnet" (for_all "allowall" ∷ for_one "testnet" "denyall" ∷ []))
get_str_for_network_lem_example =
    get_str_for_network_lem (for_all "allowall") (for_one "testnet" "denyall" ∷ []) "testnet" (
      record {
        slash = (refl, (refl, (refl, (refl, (refl, (refl, (refl, (refl, tt))))))));
        colon = (refl, (refl, (refl, (refl, (refl, (refl, (refl, (refl, tt))))))));
      },
      (
        record {
          slash = (
            (refl, (refl, (refl, (refl, (refl, (refl, (refl, tt))))))),
            (refl, (refl, (refl, (refl, (refl, (refl, (refl, tt))))))),
          );
          colon = (
            (refl, (refl, (refl, (refl, (refl, (refl, (refl, tt))))))),
            (refl, (refl, (refl, (refl, (refl, (refl, (refl, tt))))))),
          );
        },
        tt,
      ),
    )

abbrev nat_request : CreateNetworkRequest
nat_request = record {
  network_id = "0123456789abcdef";
  options = none;
  ipv4_data = some "10.0.0.1/24" ∷ [];
  ipv6_data = [];
}

ipv4_gateway_first_example : must_get_gateway_ip nat_request ≡ returned ("10.0.0.1", "24")
unfolding dovesnap.Prelude.Text.join
ipv4_gateway_first_example =
    ipv4_gateway_first nat_request "10.0.0.1" "24" [] refl (λ e. cc e) (λ e. cc e)
      (refl, (refl, (refl, (refl, (refl, (refl, (refl, (refl, tt)))))))) (refl, (refl, tt))

taken : must_get_gateway_ip nat_request ≡ returned ("10.0.0.1", "24")
unfolding must_get_gateway_ip dovesnap.Config.split_gateway
    dovesnap.Config.must_get_gateway_ip_from_data dovesnap.Config.address_and_mask
    dovesnap.Prelude.Text.split
taken = refl

gateway_has_mask_example :
    (let ip : String = "10.0.0.1" in
      let mask : String = "24" in ((ip ≡ "") × (mask ≡ "")) ⊎ ((ip ≢ "") × (mask ≢ "")))
gateway_has_mask_example = gateway_has_mask nat_request "10.0.0.1" "24" taken

decoded_prefix : decode_string (without_colons "0E:00") ≡ some (14 ∷ 0 ∷ [])
unfolding decode_string without_colons dovesnap.Mac.hex_value
decoded_prefix = refl

abbrev docker_mac : List ℕ
docker_mac = 2 ∷ 66 ∷ 172 ∷ 17 ∷ 0 ∷ 2 ∷ []

must_prefix_mac_lem_example :
    must_prefix_mac "0E:00" (print_mac docker_mac)
    ≡ returned (print_mac ((14 ∷ 0 ∷ []) ++ drop 2 docker_mac))
must_prefix_mac_lem_example =
    must_prefix_mac_lem "0E:00" (14 ∷ 0 ∷ []) docker_mac decoded_prefix (omega arith)
      (omega arith, (omega arith, (omega arith, (omega arith, (omega arith, (omega arith, tt))))))
      refl

must_scrape_port_desc-IsRetried_example :
    IsRetried
      (scrape_loop "ovsbr" [])
      all_five
      0
      4
      ""
      []
      (must_scrape_port_desc "ovsbr" [] all_five [])
must_scrape_port_desc-IsRetried_example = must_scrape_port_desc-IsRetried "ovsbr" [] all_five []

-- The port map of 80:8080/udp, where the fraction of a number is dropped; a text or a missing number panics.
port_map_read :
    must_get_port_map (
      fields (
        ("HostPort", float64 false 80 0)
        ∷ ("Port", float64 false 16161 1)
        ∷ ("Proto", float64 false 17 0)
        ∷ []))
    ≡ returned ("80", ("8080", "udp"))
unfolding must_get_port_map lookup int_text dovesnap.Prelude.Text.decimal
port_map_read = refl

port_map_refused :
    must_get_port_map (fields (("HostPort", other_type) ∷ []))
    ≡ panicked "interface conversion: interface {} is not float64"
unfolding must_get_port_map lookup
port_map_refused = refl

port_map_missing :
    must_get_port_map (fields [])
    ≡ panicked "interface conversion: interface {} is nil, not float64"
unfolding must_get_port_map lookup
port_map_missing = refl
