-- ===== src/Config/Network/Errors.antt =====
-- What getNetworkStateFromResource of ovs/ovs_config.go reports of an inspection that lacks options.
use Prim.Native.String.{len, slice}
use dovesnap.Prelude.{ltb, ◌==◌, String, Bool, true, false, none, ◌≡◌, refl, if◌then◌else◌}
use dovesnap.Prelude.Text.{to_lower}
use dovesnap.Outcome.{Outcome, returned, panicked, exited, blocked, ◌>>=◌}
use dovesnap.System.{NetworkInspect}
use dovesnap.State.{NetworkState, zero_network_state}
use dovesnap.Config.{default_uint, must_get_uint_from_hex_str, truncate_id}
use dovesnap.Config.Network.{
  must_get_bridge_name_from_resource, resource_network_state, get_network_state_from_resource,
  recovered_state,
}

-- It returns or panics: it neither ends the process nor waits forever.
IsRecoverable {ℓ} : {A : Type ℓ} → Outcome A → Type 0
IsRecoverable (returned _) = Unit
IsRecoverable (panicked _) = Unit
IsRecoverable (exited _) = ⊥
IsRecoverable blocked = ⊥

IsRecoverable-if {ℓ} :
    {A : Type ℓ} (b : Bool) (x y : Outcome A)
    → IsRecoverable x
    → IsRecoverable y
    → IsRecoverable (if b then x else y)
IsRecoverable-if true x y h k = h
IsRecoverable-if false x y h k = k

IsRecoverable-bind {ℓ κ} :
    {A : Type ℓ} {B : Type κ} (o : Outcome A) (f : A → Outcome B)
    → IsRecoverable o
    → ((a : A) → IsRecoverable (f a))
    → IsRecoverable (o >>= f)
unfolding IsRecoverable
IsRecoverable-bind (returned a) f h k = k a
IsRecoverable-bind (panicked m) f h k = tt
IsRecoverable-bind (exited m) f h k = h
IsRecoverable-bind blocked f h k = h

panicked-IsRecoverable {ℓ} : (A : Type ℓ) (m : String) → IsRecoverable {A = A} (panicked m)
unfolding IsRecoverable
panicked-IsRecoverable A m = tt

returned-IsRecoverable {ℓ} : {A : Type ℓ} (a : A) → IsRecoverable (returned a)
unfolding IsRecoverable
returned-IsRecoverable a = tt

uint-IsRecoverable :
    (hex : String → String) (dpid : String) → IsRecoverable (must_get_uint_from_hex_str hex dpid)
unfolding must_get_uint_from_hex_str
uint-IsRecoverable hex dpid = IsRecoverable-if (ltb (len dpid) 2) _ _ (panicked-IsRecoverable _ _) (
    IsRecoverable-if (default_uint (hex (to_lower (slice dpid 2 (len dpid)))) 0 == 0) _ _
      (panicked-IsRecoverable _ _) (returned-IsRecoverable _))

name-IsRecoverable : (r : NetworkInspect) → IsRecoverable (must_get_bridge_name_from_resource r)
unfolding must_get_bridge_name_from_resource truncate_id
name-IsRecoverable r =
    IsRecoverable-bind (truncate_id r.id) _
      (IsRecoverable-if (ltb (len r.id) 5) _ _ (panicked-IsRecoverable _ _)
        (returned-IsRecoverable _))
      (λ _. returned-IsRecoverable _)

state-IsRecoverable :
    (hex : String → String) (id : String) (r : NetworkInspect)
    → IsRecoverable (resource_network_state hex id r)
unfolding resource_network_state
state-IsRecoverable hex id r =
    IsRecoverable-bind (must_get_uint_from_hex_str hex _) _ (uint-IsRecoverable hex _) (λ n.
      IsRecoverable-bind (must_get_bridge_name_from_resource r) _ (name-IsRecoverable r)
        (λ _. returned-IsRecoverable _))

recovered_without_error :
    (o : Outcome NetworkState)
    → IsRecoverable o
    → (ns : NetworkState) × (recovered_state o ≡ returned (ns, none))
unfolding IsRecoverable
recovered_without_error (returned ns) h = (ns, refl)
recovered_without_error (panicked m) h = (zero_network_state, refl)
recovered_without_error (exited m) h = elim h [ ]
recovered_without_error blocked h = elim h [ ]

-- Whatever the inspection holds, getNetworkStateFromResource returns a state with a nil error.
pub error_never_reported :
    (hex_to_decimal : String → String) (r : NetworkInspect) (short_engine_id : String)
    → (ns : NetworkState) × (get_network_state_from_resource hex_to_decimal r short_engine_id
        ≡ returned (ns, none))
unfolding get_network_state_from_resource
error_never_reported hex r id =
    recovered_without_error (resource_network_state hex id r) (state-IsRecoverable hex id r)
