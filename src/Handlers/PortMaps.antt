-- ===== src/Handlers/PortMaps.antt =====
-- mustGetPortMap of ovs/driver.go: the fields of a port map, whose values docker's JSON gives any type.
use dovesnap.Prelude.{
  ℕ, zero, suc, true, false, ◌/◌, ◌^◌, String, Bool, Option, none, some, [], ◌∷◌, ◌==◌,
  if◌then◌else◌,
}
use dovesnap.Prelude.Map.{Map, string_key, lookup}
use dovesnap.Prelude.Text.{concat, decimal}
use dovesnap.Outcome.{Outcome, returned, panicked, ◌>>=◌}
use dovesnap.State.{FieldValue, float64, other_type, PortMap, fields, no_map}

-- An int. A number beyond its range has, in Go, a conversion that depends on the machine; here it is kept.
pub data ℤ : Type 0 where
  pos : ℕ → ℤ
  negsuc : ℕ → ℤ

abbrev pub signed : Bool → ℕ → ℤ
signed false n = pos n
signed true zero = pos zero
signed true (suc n) = negsuc n

-- `int(value.(float64))`: the conversion drops the fraction. A missing key gives nil, which is no float64.
abbrev pub must_be_float64 : Option FieldValue → Outcome ℤ
must_be_float64 none = panicked "interface conversion: interface {} is nil, not float64"
must_be_float64 (some other_type) = panicked "interface conversion: interface {} is not float64"
must_be_float64 (some (float64 negative mantissa exponent)) =
    returned (signed negative (mantissa / 2 ^ exponent))

-- fmt.Sprintf("%d", n)
unfoldable pub int_text : ℤ → String
int_text (pos n) = decimal n
int_text (negsuc n) = concat ("-" ∷ decimal (suc n) ∷ [])

abbrev pub proto_name : ℤ → String
proto_name (pos n) = if n == 17 then "udp" else "tcp"
proto_name (negsuc n) = "tcp"

abbrev pub must_be_map : PortMap → Outcome (Map String FieldValue)
must_be_map (fields port_map) = returned port_map
must_be_map no_map = panicked "interface conversion: interface {} is not map[string]interface {}"

-- The host's port, the port and the protocol.
unfoldable pub must_get_port_map : PortMap → Outcome (String × (String × String))
must_get_port_map port_map_raw = do
  port_map ← must_be_map port_map_raw
  host_port ← must_be_float64 (lookup "HostPort" port_map)
  port ← must_be_float64 (lookup "Port" port_map)
  ip_proto ← must_be_float64 (lookup "Proto" port_map)
  returned (int_text host_port, (int_text port, proto_name ip_proto))
