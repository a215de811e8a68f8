-- ===== src/Docker.antt =====
-- ovs/ovs_docker.go: what is asked of the docker daemon, with retries.
use dovesnap.Prelude.{ℕ, zero, suc, String, Option, none, some, [], ◌∷◌, str_eq, if◌then◌else◌}
use dovesnap.Prelude.Map.{Map, string_key, insert}
use dovesnap.Prelude.Text.{concat, field, split}
use dovesnap.Config.{base36_to_16}
use dovesnap.Outcome.{returned, Result, ok, err}
use dovesnap.System.{
  Io, network_inspect, network_list, container_inspect, sleep, NetworkInspect, ContainerInspect,
  docker_client, docker_info, call, must_call, ask, pure, panic, ◌>>=◌,
}

abbrev pub driver_name : String
driver_name = "dovesnap"

abbrev pub docker_retries : ℕ
docker_retries = 5

abbrev inspect_network : String → Io (Result NetworkInspect)
inspect_network network_id env h =
    (returned (env.inspect_network h network_id), network_inspect network_id ∷ h)

abbrev inspect_container : String → Io (Result ContainerInspect)
inspect_container id env h = (returned (env.inspect_container h id), container_inspect id ∷ h)

abbrev list_networks : Io (Result (Map String (String × String)))
list_networks env h = (returned (env.list_networks h), network_list ∷ h)

unfoldable pub must_get_docker_client : Io String
must_get_docker_client = must_call docker_client

-- The answer to `docker_info` is the engine's id.
unfoldable pub must_get_short_engine_id : Io String
must_get_short_engine_id = do
  id ← must_call docker_info
  base36_to_hex ← ask (λ env. env.base36_to_hex)
  pure (base36_to_16 base36_to_hex (field 0 (split ":" id)))

unfoldable pub inspect_rounds : ℕ → String → Io NetworkInspect
inspect_rounds zero network_id = panic (concat ("network " ∷ network_id ∷ " not found" ∷ []))
inspect_rounds (suc left) network_id = do
  r ← inspect_network network_id
  elim r [
    | ok net_inspect ↦ pure net_inspect
    | err _ ↦ call (sleep 1) >>= λ _. inspect_rounds left network_id
  ]

unfoldable pub must_get_network_inspect_from_id : String → Io NetworkInspect
must_get_network_inspect_from_id = inspect_rounds docker_retries

unfoldable pub must_get_network_name_from_id : String → Io String
must_get_network_name_from_id network_id = do
  net_inspect ← must_get_network_inspect_from_id network_id
  pure net_inspect.name

-- The networks of this driver, by id, with their names.
unfoldable pub own_networks : Map String (String × String) → Map String String
own_networks [] = []
own_networks ((id, (name, driver)) ∷ rest) =
    let others = own_networks rest in
    if str_eq driver driver_name then insert id name others else others

abbrev listed : Result (Map String (String × String)) → Io (Map String String)
listed (ok networks) = pure (own_networks networks)
listed (err _) = panic "could not get docker networks"

unfoldable pub must_get_network_list : Io (Map String String)
must_get_network_list = do r ← list_networks; listed r

-- One look through the containers of a network; an inspection that fails is passed over.
unfoldable pub find_container : Map String String → String → Io (Option ContainerInspect)
find_container [] endpoint_id = pure none
find_container ((container_id, container_endpoint) ∷ rest) endpoint_id =
    let others = find_container rest endpoint_id in
    let inspect = (do
      r ← inspect_container container_id
      elim r [ ok found ↦ pure (some found) | err _ ↦ others ]) in
    if str_eq container_endpoint endpoint_id then inspect else others

unfoldable pub endpoint_rounds : ℕ → String → String → Io (Result ContainerInspect)
endpoint_rounds zero network_id endpoint_id =
    pure (err (concat ("endpoint " ∷ endpoint_id ∷ " not found" ∷ [])))
endpoint_rounds (suc left) network_id endpoint_id = do
  net_inspect ← must_get_network_inspect_from_id network_id
  found ← find_container net_inspect.containers endpoint_id
  elim found [
    | some c ↦ pure (ok c)
    | none ↦ call (sleep 2) >>= λ _. endpoint_rounds left network_id endpoint_id
  ]

unfoldable pub get_container_from_endpoint : String → String → Io (Result ContainerInspect)
get_container_from_endpoint = endpoint_rounds docker_retries
