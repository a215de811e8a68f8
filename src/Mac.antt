-- ===== src/Mac.antt =====
-- mustPrefixMAC and mustSetInterfaceMac of ovs/utils.go, with what they use of encoding/hex and of net.ParseMAC: the form with
-- colons, which docker gives, and 6, 8 or 20 bytes.
pub mod Laws
use Prim.Native.String.{[], ◌∷◌}
use dovesnap.Prelude.{
  ℕ, zero, suc, ◌+◌, ◌-◌, ◌*◌, ◌/◌, ◌%◌, String, Char, code, Bool, ◌&&◌, ◌||◌, Option, none, some,
  List, ◌≡◌, refl, ltb, leb, ◌==◌, length, if◌then◌else◌,
}
use dovesnap.Prelude.Text.{nth, split, join}
use dovesnap.Outcome.{Outcome, returned, panicked}
use dovesnap.System.{Io, link_set_mac, must_call, panic, ◌>>=◌, ◌>>◌}
use dovesnap.Links.{must_get_link_by_name}

unfoldable pub hex_value : Char → Option ℕ
hex_value c =
    if leb b'0' (code c) && leb (code c) b'9'
    then some (code c - b'0')
    else if leb b'a' (code c) && leb (code c) b'f'
    then some (code c - b'a' + 10)
    else if leb b'A' (code c) && leb (code c) b'F'
    then some (code c - b'A' + 10)
    else none

abbrev pub byte_of : Option ℕ → Option ℕ → Option ℕ
byte_of (some a) (some b) = some (a * 16 + b)
byte_of (some a) none = none
byte_of none b = none

abbrev pub with_byte : Option ℕ → Option (List ℕ) → Option (List ℕ)
with_byte (some b) (some bs) = some (List.◌∷◌ b bs)
with_byte (some b) none = none
with_byte none bs = none

-- hex.DecodeString
unfoldable pub decode_string : String → Option (List ℕ)
unfolding hex_value
decode_string [] = some List.[]
decode_string (a ∷ []) = none
decode_string (a ∷ b ∷ s) = with_byte (byte_of (hex_value a) (hex_value b)) (decode_string s)

-- strings.ReplaceAll(s, ":", "")
unfoldable pub without_colons : String → String
without_colons [] = []
without_colons (c ∷ s) = let rest = without_colons s in if code c == b':' then rest else c ∷ rest

unfoldable pub parse_group : String → Option ℕ
unfolding hex_value
parse_group [] = none
parse_group (a ∷ []) = none
parse_group (a ∷ b ∷ []) = byte_of (hex_value a) (hex_value b)
parse_group (a ∷ b ∷ c ∷ s) = none

unfoldable pub parse_groups : List String → Option (List ℕ)
unfolding parse_group
parse_groups List.[] = some List.[]
parse_groups (List.◌∷◌ s ss) = with_byte (parse_group s) (parse_groups ss)

abbrev pub is_mac_length : ℕ → Bool
is_mac_length n = n == 6 || n == 8 || n == 20

abbrev pub checked_length : Option (List ℕ) → Option (List ℕ)
checked_length none = none
checked_length (some bytes) = if is_mac_length (length bytes) then some bytes else none

-- net.ParseMAC
unfoldable pub parse_mac : String → Option (List ℕ)
unfolding parse_groups split
parse_mac s = checked_length (parse_groups (split ":" s))

unfoldable pub print_byte : ℕ → String
unfolding nth
print_byte b = nth "0123456789abcdef" (b / 16) ∷ nth "0123456789abcdef" (b % 16) ∷ []

unfoldable pub print_bytes : List ℕ → List String
unfolding print_byte
print_bytes List.[] = List.[]
print_bytes (List.◌∷◌ b bs) = List.◌∷◌ (print_byte b) (print_bytes bs)

-- net.HardwareAddr.String
unfoldable pub print_mac : List ℕ → String
unfolding print_bytes join
print_mac bytes = join ":" (print_bytes bytes)

-- `for i, b := range prefixBytes { raw[i] = b }`
unfoldable pub overlay : List ℕ → List ℕ → List ℕ
overlay List.[] raw = raw
overlay (List.◌∷◌ b bs) List.[] = List.[]
overlay (List.◌∷◌ b bs) (List.◌∷◌ r raw) = List.◌∷◌ b (overlay bs raw)

abbrev pub prefixed : List ℕ → Option (List ℕ) → Outcome String
prefixed prefix_bytes none = panicked "invalid MAC address"
prefixed prefix_bytes (some raw) = returned (print_mac (overlay prefix_bytes raw))

abbrev pub with_prefix : Option (List ℕ) → String → Outcome String
with_prefix none mac_address = panicked "invalid MAC prefix"
with_prefix (some prefix_bytes) mac_address =
    if ltb 5 (length prefix_bytes)
    then panicked "MAC prefix too long"
    else prefixed prefix_bytes (parse_mac mac_address)

unfoldable pub must_prefix_mac : String → String → Outcome String
unfolding decode_string without_colons parse_mac print_mac overlay
must_prefix_mac mac_prefix mac_address =
    with_prefix (decode_string (without_colons mac_prefix)) mac_address

abbrev set_mac : String → Option (List ℕ) → Io String
set_mac name none = panic "invalid MAC address"
set_mac name (some netaddr) = must_call (link_set_mac name (print_mac netaddr))

unfoldable pub must_set_interface_mac : String → String → Io String
unfolding parse_mac print_mac
must_set_interface_mac name mac_address =
    must_get_link_by_name name >> set_mac name (parse_mac mac_address)

must_prefix_mac_test : must_prefix_mac "0E:00" "02:42:ac:11:00:02" ≡ returned "0e:00:ac:11:00:02"
unfolding must_prefix_mac
must_prefix_mac_test = refl
