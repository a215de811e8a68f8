-- ===== src/Web/Authority.antt =====
-- Who gets an answer of the status server of ovs/driver.go.
use dovesnap.Prelude.{
  String, Bool, true, false, ◌||◌, List, [], ◌∷◌, ◌++◌, ◌≡◌, refl, ap, ◌⊎◌, inl, inr, if◌then◌else◌,
}
use dovesnap.Outcome.{returned}
use dovesnap.System.{Env}
use dovesnap.Manager.{Manager, io, pure, ◌>>◌}
use dovesnap.Plugin.{get_web_response}
use dovesnap.Web.{WebRequest, get_remote_ip, is_auth_ip, handle_networks_web}

-- One of the authorized networks holds the client's address.
pub record IsAuthorized (env : Env) (auth_ips : List String) (r : WebRequest) : Type 0 where
  pub before : List String
  pub network : String
  pub after : List String
  pub listed : auth_ips ≡ before ++ (network ∷ after)
  pub holds : env.net_contains network (get_remote_ip env r) ≡ true

holder :
    (env : Env) (r : WebRequest) (l : List String)
    → is_auth_ip env (get_remote_ip env r) l ≡ true
    → IsAuthorized env l r
unfolding is_auth_ip
holder env r [] h = cc
holder env r (n ∷ l) h =
    go (env.net_contains n (get_remote_ip env r)) refl (λ g. holder env r l g) h
  where
    go :
        (b : Bool)
        → env.net_contains n (get_remote_ip env r) ≡ b
        → (is_auth_ip env (get_remote_ip env r) l ≡ true → IsAuthorized env l r)
        → (b || is_auth_ip env (get_remote_ip env r) l) ≡ true
        → IsAuthorized env (n ∷ l) r
    go true e later h = record { before = []; network = n; after = l; listed = refl; holds = e }
    go false e later h =
        let a = later h in
        record {
          before = n ∷ a.before;
          network = a.network;
          after = a.after;
          listed = ap (λ t. n ∷ t) a.listed;
          holds = a.holds;
        }

-- A request of the web changes the state of the driver only if one of the authorized networks holds the
-- address that is read for its client; every other request is answered "not authorized".
pub web_needs_authority :
    (auth_ips : List String) (r : WebRequest) (env : Env) (s : Manager)
    → IsAuthorized env auth_ips r ⊎ (handle_networks_web auth_ips r env s ≡ (returned false, s))
unfolding handle_networks_web io pure
web_needs_authority auth_ips r env s = go (is_auth_ip env (get_remote_ip env r) auth_ips) refl
  where
    go :
        (b : Bool)
        → is_auth_ip env (get_remote_ip env r) auth_ips ≡ b
        → IsAuthorized env auth_ips r
          ⊎ ((if b then get_web_response "networks" >> pure true else pure false) env s
              ≡ (returned false, s))
    go true e = inl (holder env r auth_ips e)
    go false e = inr refl
