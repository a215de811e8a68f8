-- ===== src/Web.antt =====
-- The status server of ovs/driver.go: the address of a client, whether it is authorized, and the answer.
pub mod Authority
use dovesnap.Prelude.{
  String, Bool, true, false, ◌||◌, Option, none, some, List, [], ◌∷◌, ◌++◌, if◌then◌else◌,
}
use dovesnap.Prelude.Text.{split}
use dovesnap.System.{Env, ask}
use dovesnap.Manager.{M, io, pure, ◌>>=◌, ◌>>◌}
use dovesnap.Plugin.{get_web_response}

-- The two headers that are read, and the address of the connection.
pub record WebRequest : Type 0 where
  pub real_ip : String
  pub forwarded_for : String
  pub remote_addr : String

-- The address of one "host:port".
abbrev pub address_of : Env → String → Option String
address_of env host_port = elim (env.split_host_port host_port) as (λ _. Option String) [
  | none ↦ none
  | some host ↦ env.parse_ip host
]

abbrev pub or_next : Option String → Option String → Option String
or_next none rest = rest
or_next (some ip) rest = some ip

unfoldable pub first_ip : Env → List String → Option String
first_ip env [] = none
first_ip env (host_port ∷ rest) = or_next (address_of env host_port) (first_ip env rest)

-- The first address that can be read, of the headers and then of the connection.
unfoldable pub get_remote_ip : Env → WebRequest → Option String
get_remote_ip env r =
    or_next (first_ip env (split "," r.real_ip))
      (or_next (first_ip env (split "," r.forwarded_for)) (first_ip env (split "," r.remote_addr)))

unfoldable pub is_auth_ip : Env → Option String → List String → Bool
is_auth_ip env request_ip [] = false
is_auth_ip env request_ip (auth_ip ∷ rest) =
    env.net_contains auth_ip request_ip || is_auth_ip env request_ip rest

-- True where the client gets the state of the networks, false where it gets "not authorized".
unfoldable pub handle_networks_web : List String → WebRequest → M Bool
handle_networks_web auth_ips r = do
  auth_ip ← io (ask (λ env. is_auth_ip env (get_remote_ip env r) auth_ips))
  let answer = get_web_response "networks" >> pure true
  if auth_ip then answer else pure false
