-- ===== src/System.antt =====
-- The world outside the program, and the actions that call it: commands (os/exec), the kernel's links
-- (netlink, net), iptables, the faucetconfrpc server, the docker daemon, files and time. What it
-- answers is a parameter, `Env`: any function of the calls made so far. An action ends by an
-- `Outcome` and leaves the history of calls, the newest first.
use dovesnap.Prelude.{ℕ, String, Bool, List, ◌∷◌, Option}
use dovesnap.Prelude.Map.{Map}
use dovesnap.Outcome.{Outcome, returned, panicked, exited, blocked, Result, ok, err}

-- The requests of ovs_faucetconfrpc.go to the server.
pub data FaucetRequest : Type 0 where
  set_config_file : (config_yaml : String) (merge : Bool) → FaucetRequest
  set_port_acl : (dp_name : String) (port_no : ℕ) (acls : String) → FaucetRequest
  set_vlan_out_acl : (vlan_name acl_out : String) → FaucetRequest
  del_dp_interfaces : (dp_name : String) (port_no : ℕ) (delete_empty_dp : Bool) → FaucetRequest
  del_dps : (dp_name : String) → FaucetRequest
  add_port_mirror : (dp_name : String) (port_no mirror_port_no : ℕ) → FaucetRequest
  set_remote_mirror_port :
      (dp_name : String) (port_no tunnel_vid : ℕ) (remote_dp_name : String) (remote_port_no : ℕ)
      → FaucetRequest

pub data Call : Type 0 where
  exec : (path : String) → List String → Call
  start : List String → Call
  kill_and_wait : List String → Call
  iptables : List String → Call
  faucet : FaucetRequest → Call
  link_by_name : String → Call
  link_add : (name peer_name : String) → Call
  link_del : (name peer_name : String) → Call
  link_set_up : (name : String) → Call
  link_set_mtu : (name : String) → ℕ → Call
  link_set_mac : (name mac : String) → Call
  mac_of : (name : String) → Call
  parse_addr : String → Call
  addr_add : (name addr : String) → Call
  addr_list : (name : String) → Call
  interface_flags : (name : String) → Call
  sleep : (seconds : ℕ) → Call
  sleep_for : (nanoseconds : ℕ) → Call  -- of a time.Duration, an int64, by its two's complement
  lstat : String → Call
  remove_file : String → Call
  symlink : (from to : String) → Call
  read_file : String → Call
  modified : String → Call
  network_inspect : String → Call
  network_list : Call
  hostname : Call
  container_inspect : String → Call
  stat : String → Call
  mkdir_all : String → Call
  parse_cidr : String → Call
  docker_client : Call
  docker_info : Call
  load_key_pair : (crt_file key_file : String) → Call
  append_certs : (pem : String) → Call
  dial : (addr : String) (nanoseconds : ℕ) → Call  -- with the timeout, a time.Duration

-- The fields that are read of docker's answer to a network inspection.
pub record NetworkInspect : Type 0 where
  pub id : String
  pub name : String
  pub options : Option (Map String String)
  pub ipam_config : List (String × String)  -- subnet and gateway
  pub containers : Map String String  -- container id to endpoint id

pub record EndpointSettings : Type 0 where
  pub mac_address : String
  pub ip_address : String
  pub gateway : String

-- The fields that are read of docker's answer to a container inspection.
pub record ContainerInspect : Type 0 where
  pub id : String
  pub name : String
  pub pid : ℕ
  pub labels : Map String String
  pub networks : Map String EndpointSettings

pub record Env : Type 0 where
  pub answer : List Call → Call → Result String
  pub inspect_network : List Call → String → Result NetworkInspect
  pub inspect_container : List Call → String → Result ContainerInspect
  pub list_networks : List Call → Result (Map String (String × String))  -- id to name and driver
  pub hex_to_decimal : String → String  -- baseconv.Convert from hexadecimal
  pub base36_to_hex : String → String  -- baseconv.Convert from base 36
  pub split_host_port : String → Option String  -- the host of net.SplitHostPort
  pub parse_ip : String → Option String  -- net.ParseIP
  pub net_contains : String → Option String → Bool  -- net.IPNet.Contains, of an address or nil

abbrev pub Io {ℓ} : Type ℓ → Type ℓ
Io A = Env → List Call → Outcome A × List Call

module _ {ℓ κ} {A : Type ℓ} {B : Type κ} where
  abbrev pub continue : Outcome A → (A → Io B) → Env → List Call → Outcome B × List Call
  continue (returned a) f env h = f a env h
  continue (panicked m) f env h = (panicked m, h)
  continue (exited m) f env h = (exited m, h)
  continue blocked f env h = (blocked, h)

  infixl 10 ◌>>=◌ ◌>>◌
  abbrev pub ◌>>=◌ : Io A → (A → Io B) → Io B
  ◌>>=◌ m f env h = let r = m env h in continue r.0 f env r.1

  abbrev pub ◌>>◌ : Io A → Io B → Io B
  m >> k = m >>= λ _. k

module _ {ℓ} {A : Type ℓ} where
  abbrev pub pure : A → Io A
  pure a env h = (returned a, h)

  abbrev pub panic : String → Io A
  panic m env h = (panicked m, h)

  abbrev pub fatal : String → Io A
  fatal m env h = (exited m, h)

  -- An outcome that calls nothing.
  abbrev pub lift : Outcome A → Io A
  lift o env h = (o, h)

  -- `if err != nil { panic(err) }`
  abbrev pub or_panic : Result A → Io A
  or_panic (ok a) = pure a
  or_panic (err m) = panic m

abbrev pub call : Call → Io (Result String)
call c env h = (returned (env.answer h c), c ∷ h)

abbrev pub must_call : Call → Io String
must_call c = call c >>= or_panic

abbrev pub ask {ℓ} : {A : Type ℓ} → (Env → A) → Io A
ask f env h = (returned (f env), h)

abbrev pub skip : Io (Unit {0})
skip = pure tt

-- `recover()`: a panic becomes an error, and what was done stays done.
abbrev pub recovered {ℓ} : {A : Type ℓ} → Outcome A × List Call → Outcome (Result A) × List Call
recovered (returned a, h) = (returned (ok a), h)
recovered (panicked m, h) = (returned (err m), h)
recovered (exited m, h) = (exited m, h)
recovered (blocked, h) = (blocked, h)

abbrev pub recover {ℓ} : {A : Type ℓ} → Io A → Io (Result A)
recover m env h = recovered (m env h)
