-- ===== src/Ports.antt =====
-- ovs/ovs_port.go: the ports of a bridge. `portDesc` maps OpenFlow port numbers to interface names.
pub mod Line
pub mod Lowest
pub mod Retries
use dovesnap.Prelude.{
  ℕ, zero, suc, ◌+◌, ◌%◌, ◌^◌, String, Bool, true, false, Option, none, some, List, [], ◌∷◌, ◌≡◌,
  refl, ltb, leb, ◌==◌, if◌then◌else◌,
}
use dovesnap.Prelude.Map.{Map, nat_key, insert, keys}
use dovesnap.Prelude.Text.{concat, split, decimal, parse_uint}
use dovesnap.Outcome.{Result, ok, err}
use dovesnap.System.{
  Io, Call, link_add, link_set_up, link_del, sleep, call, lift, or_panic, pure, panic, ◌>>=◌, ◌>>◌,
}
use dovesnap.Commands.{vs_ctl, must_vs_ctl, of_ctl}
use dovesnap.Naming.{patch_name}
use dovesnap.Ports.Line.{match_line}

-- An OpenFlow port number, a uint32.
abbrev pub PortDesc : Type 0
PortDesc = Map ℕ String

unfoldable pub parse_uint32 : String → Option ℕ
unfolding parse_uint
parse_uint32 = parse_uint 32

-- A number that is too large is read as 0: the code drops the error.
abbrev pub number_or_zero : Option ℕ → ℕ
number_or_zero none = 0
number_or_zero (some n) = n

unfoldable pub record_line : Option (String × String) → PortDesc → PortDesc
unfolding insert parse_uint32
record_line none desc = desc
record_line (some (digits, name)) desc = insert (number_or_zero (parse_uint32 digits)) name desc

unfoldable pub parse_lines : List String → PortDesc → PortDesc
unfolding record_line
parse_lines [] desc = desc
parse_lines (line ∷ lines) desc = parse_lines lines (record_line (match_line line) desc)

unfoldable pub parse_port_desc : String → PortDesc → PortDesc
unfolding parse_lines split
parse_port_desc output desc = parse_lines (split "\n" output) desc

abbrev pub scraped : Result String → PortDesc → Result PortDesc
scraped (ok output) desc = ok (parse_port_desc output desc)
scraped (err m) desc = err m

unfoldable pub scrape_port_desc : String → PortDesc → Io (Result PortDesc)
unfolding of_ctl
scrape_port_desc bridge_name desc = do
  r ← of_ctl ("dump-ports-desc" ∷ bridge_name ∷ [])
  pure (scraped r desc)

abbrev pub dump_ports_retries : ℕ
dump_ports_retries = 3

-- The rounds that are left of `for i := 0; i <= dumpPortsRetries; i++`.
unfoldable pub scrape_rounds : ℕ → ℕ → String → String → PortDesc → Io PortDesc
unfolding scrape_port_desc
scrape_rounds zero i last_error bridge_name desc = panic last_error
scrape_rounds (suc left) i last_error bridge_name desc = do
  r ← scrape_port_desc bridge_name desc
  elim r [
    | ok new_desc ↦ pure new_desc
    | err m ↦ call (sleep (i + 1)) >>= λ _. scrape_rounds left (i + 1) m bridge_name desc
  ]

unfoldable pub must_scrape_port_desc : String → PortDesc → Io PortDesc
unfolding scrape_rounds
must_scrape_port_desc = scrape_rounds (suc dump_ports_retries) 0 ""

-- sort.Ints
unfoldable pub insert_sorted : ℕ → List ℕ → List ℕ
insert_sorted x [] = x ∷ []
insert_sorted x (y ∷ ys) = if leb x y then x ∷ y ∷ ys else y ∷ insert_sorted x ys

unfoldable pub sort : List ℕ → List ℕ
unfolding insert_sorted
sort [] = []
sort (x ∷ xs) = insert_sorted x (sort xs)

unfoldable pub first_gap : ℕ → List ℕ → ℕ
first_gap lowest [] = lowest
first_gap lowest (p ∷ ps) = if p == lowest then first_gap (lowest + 1) ps else lowest

-- The loop of `mustLowestFreePortOnBridge`, over the keys of the scraped map.
unfoldable pub lowest_free_port : PortDesc → ℕ
unfolding first_gap sort
lowest_free_port desc = first_gap 1 (sort (keys desc)) % 2 ^ 32

unfoldable pub must_lowest_free_port_on_bridge : String → Io ℕ
unfolding must_scrape_port_desc lowest_free_port
must_lowest_free_port_on_bridge bridge_name = do
  desc ← must_scrape_port_desc bridge_name []
  pure (lowest_free_port desc)

unfoldable pub ofport_request : ℕ → String
unfolding concat decimal
ofport_request port = concat ("ofport_request=" ∷ decimal port ∷ [])

-- fmt.Sprintf("tag=%u", tag): %u is no verb of fmt, which prints its complaint.
unfoldable pub tag_argument : ℕ → String
unfolding concat decimal
tag_argument tag = concat ("tag=%!u(uint=" ∷ decimal tag ∷ ")" ∷ [])

unfoldable pub add_internal_port : String → String → ℕ → Io (ℕ × Result String)
unfolding must_lowest_free_port_on_bridge tag_argument ofport_request vs_ctl
add_internal_port bridge_name port_name tag = do
  lowest_free_port ← must_lowest_free_port_on_bridge bridge_name
  let request = ofport_request lowest_free_port
  value ← vs_ctl (
      if tag == 0
      then "add-port" ∷ bridge_name ∷ port_name ∷ "--" ∷ "set" ∷ "Interface" ∷ port_name ∷ request
        ∷ []
      else "add-port"
        ∷ bridge_name
        ∷ port_name
        ∷ tag_argument tag
        ∷ "--"
        ∷ "set"
        ∷ "Interface"
        ∷ port_name
        ∷ request
        ∷ [])
  pure (lowest_free_port, value)

unfoldable pub must_add_internal_port : String → String → ℕ → Io (ℕ × String)
unfolding add_internal_port
must_add_internal_port bridge_name port_name tag = do
  r ← add_internal_port bridge_name port_name tag
  value ← or_panic r.1
  pure (r.0, value)

-- `if port == 0 { port = mustLowestFreePortOnBridge(bridge) }`
unfoldable pub given_or_free : ℕ → String → Io ℕ
unfolding must_lowest_free_port_on_bridge
given_or_free port bridge_name =
    let free = must_lowest_free_port_on_bridge bridge_name in if port == 0 then free else pure port

unfoldable pub must_add_patch_port : String → String → ℕ → ℕ → Io (ℕ × ℕ)
unfolding given_or_free patch_name ofport_request vs_ctl
must_add_patch_port bridge_name bridge_name_peer port port_peer = do
  port ← given_or_free port bridge_name
  port_peer ← given_or_free port_peer bridge_name_peer
  port_name ← lift (patch_name bridge_name bridge_name_peer)
  port_name_peer ← lift (patch_name bridge_name_peer bridge_name)
  call (link_add port_name port_name_peer)
  call (link_set_up port_name)
  call (link_set_up port_name_peer)
  vs_ctl (
      "add-port"
      ∷ bridge_name
      ∷ port_name
      ∷ "--"
      ∷ "set"
      ∷ "Interface"
      ∷ port_name
      ∷ ofport_request port
      ∷ [])
  vs_ctl (
      "add-port"
      ∷ bridge_name_peer
      ∷ port_name_peer
      ∷ "--"
      ∷ "set"
      ∷ "Interface"
      ∷ port_name_peer
      ∷ ofport_request port_peer
      ∷ [])
  pure (port, port_peer)

unfoldable pub must_delete_port : String → String → Io String
unfolding must_vs_ctl
must_delete_port bridge_name port_name = must_vs_ctl ("del-port" ∷ bridge_name ∷ port_name ∷ [])

unfoldable pub must_delete_patch_port : String → String → Io (Unit {0})
unfolding patch_name must_delete_port
must_delete_patch_port bridge_name bridge_name_peer = do
  port_name ← lift (patch_name bridge_name bridge_name_peer)
  port_name_peer ← lift (patch_name bridge_name_peer bridge_name)
  must_delete_port bridge_name port_name
  must_delete_port bridge_name_peer port_name_peer
  call (link_del port_name port_name_peer)
  pure tt

abbrev pub parsed_port : Option ℕ → Result ℕ
parsed_port (some n) = ok n
parsed_port none = err "invalid syntax"

unfoldable pub get_of_port : String → Io (Result ℕ)
unfolding must_vs_ctl parse_uint32
get_of_port port_name = do
  text ← must_vs_ctl ("get" ∷ "Interface" ∷ port_name ∷ "ofport" ∷ [])
  pure (parsed_port (parse_uint32 text))

unfoldable pub must_get_of_port : String → Io ℕ
unfolding get_of_port
must_get_of_port port_name = do r ← get_of_port port_name; or_panic r

unfoldable pub add_vxlan_port : String → String → String → Io (Result String)
unfolding vs_ctl concat
add_vxlan_port bridge_name port_name peer_address = vs_ctl (
    "add-port"
    ∷ bridge_name
    ∷ port_name
    ∷ "--"
    ∷ "set"
    ∷ "interface"
    ∷ port_name
    ∷ "type=vxlan"
    ∷ concat ("options:remote_ip=" ∷ peer_address ∷ [])
    ∷ [])
