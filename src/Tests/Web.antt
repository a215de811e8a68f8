-- ===== src/Tests/Web.antt =====
-- The theorem on the status server, at a world that authorizes the host itself and writes addresses as
-- "address:port".
use dovesnap.Prelude.{
  String, Bool, true, false, Option, none, some, [], ◌∷◌, ◌≡◌, ◌⊎◌, refl, str_eq, if◌then◌else◌,
}
use dovesnap.Prelude.Text.{split, field}
use dovesnap.Outcome.{returned}
use dovesnap.System.{Env}
use dovesnap.Web.{WebRequest, get_remote_ip, is_auth_ip, handle_networks_web}
use dovesnap.Web.Authority.{IsAuthorized, web_needs_authority}
use dovesnap.Tests.Data.{all_five, manager}

abbrev is_same : String → Option String → Bool
is_same network none = false
is_same network (some ip) = str_eq network ip

abbrev host_only : Env
host_only = record all_five {
  split_host_port = λ s. some (field 0 (split ":" s));
  parse_ip = λ s. if str_eq s "" then none else some s;
  net_contains = is_same;
}

abbrev stranger : WebRequest
stranger = record { real_ip = ""; forwarded_for = ""; remote_addr = "203.0.113.9:4444" }

web_needs_authority_example :
    IsAuthorized host_only ("127.0.0.1" ∷ []) stranger
    ⊎ (handle_networks_web ("127.0.0.1" ∷ []) stranger host_only manager
        ≡ (returned false, manager))
web_needs_authority_example = web_needs_authority ("127.0.0.1" ∷ []) stranger host_only manager

-- A client that writes the header itself is authorized from any address.
forged :
    (is_auth_ip host_only (get_remote_ip host_only stranger) ("127.0.0.1" ∷ []) ≡ false)
    × (is_auth_ip host_only
          (get_remote_ip host_only (record stranger { real_ip = "127.0.0.1:1" }))
          ("127.0.0.1" ∷ [])
        ≡ true)
unfolding is_auth_ip get_remote_ip dovesnap.Web.first_ip split field
forged = (refl, refl)

-- An address without a port is passed over.
without_port :
    get_remote_ip
      (record host_only {
        split_host_port = λ s. if str_eq s "10.0.0.7" then none else some (field 0 (split ":" s));
      })
      (record stranger { real_ip = "10.0.0.7" })
    ≡ some "203.0.113.9"
unfolding get_remote_ip dovesnap.Web.first_ip split field
without_port = refl
