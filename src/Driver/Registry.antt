-- ===== src/Driver/Registry.antt =====
-- An abstract view of the maps of the resource manager (ovs/driver.go): a registry of the known networks
-- and of the endpoints that have a port, and the acts on it that each operation permits.
use mathlib.Core.Path.{subst}
use dovesnap.Prelude.{
  String, Bool, true, false, List, [], ◌∷◌, ◌++◌, ◌≡◌, refl, ap, ◌∙◌, str_eq, if◌then◌else◌,
}
use dovesnap.Prelude.Map.{string_key, has}
use dovesnap.Manager.{Manager, DovesnapOp}
use dovesnap.Handlers.KeepsDispatch.{is_creating, is_deleting, is_taking}

pub record Registry : Type 0 where
  pub known : String → Bool
  pub reserved : String → Bool

pub data Act : Type 0 where
  know : (network_id : String) → Act
  forget : (network_id : String) → Act
  reserve : (endpoint_id : String) → Act
  release : (endpoint_id : String) → Act

abbrev pub put : String → Bool → (String → Bool) → String → Bool
put key b f other = if str_eq key other then b else f other

unfoldable pub act : Act → Registry → Registry
act (know id) v = record v { known = put id true v.known }
act (forget id) v = record v { known = put id false v.known }
act (reserve id) v = record v { reserved = put id true v.reserved }
act (release id) v = record v { reserved = put id false v.reserved }

unfoldable pub replay : List Act → Registry → Registry
replay [] v = v
replay (a ∷ as_) v = replay as_ (act a v)

-- The acts of one message: on its own network and its own endpoint only.
pub data Permits (op : DovesnapOp) : Act → Type 0 where
  creates : is_creating op ≡ true → Permits op (know op.network_id)
  deletes : is_deleting op ≡ true → Permits op (forget op.network_id)
  takes : is_taking op ≡ true → Permits op (reserve op.endpoint_id)
  leaves : str_eq op.operation "leave" ≡ true → Permits op (release op.endpoint_id)

-- The registry of the maps.
unfoldable pub registry : Manager → Registry
registry s = record { known = λ id. has id s.networks; reserved = λ id. has id s.of_ports }

pub record IsSame (v w : Registry) : Type 0 where
  pub known : (id : String) → v.known id ≡ w.known id
  pub reserved : (id : String) → v.reserved id ≡ w.reserved id

pub IsSame-refl : (v : Registry) → IsSame v v
IsSame-refl v = record { known = λ id. refl; reserved = λ id. refl }

pub IsSame-trans : (u v w : Registry) → IsSame u v → IsSame v w → IsSame u w
IsSame-trans u v w h k = record {
  known = λ id. h.known id ∙ k.known id;
  reserved = λ id. h.reserved id ∙ k.reserved id;
}

put_same :
    (key : String) (b : Bool) (f g : String → Bool)
    → ((id : String) → f id ≡ g id)
    → (id : String) → put key b f id ≡ put key b g id
put_same key b f g h id = ap (λ x. if str_eq key id then b else x) (h id)

act-IsSame : (a : Act) (v w : Registry) → IsSame v w → IsSame (act a v) (act a w)
unfolding act
act-IsSame (know id) v w h = record {
  known = put_same id true v.known w.known h.known;
  reserved = h.reserved;
}
act-IsSame (forget id) v w h = record {
  known = put_same id false v.known w.known h.known;
  reserved = h.reserved;
}
act-IsSame (reserve id) v w h = record {
  known = h.known;
  reserved = put_same id true v.reserved w.reserved h.reserved;
}
act-IsSame (release id) v w h = record {
  known = h.known;
  reserved = put_same id false v.reserved w.reserved h.reserved;
}

replay-IsSame : (l : List Act) (v w : Registry) → IsSame v w → IsSame (replay l v) (replay l w)
unfolding replay
replay-IsSame [] v w h = h
replay-IsSame (a ∷ l) v w h = replay-IsSame l (act a v) (act a w) (act-IsSame a v w h)

replay-++ : (l k : List Act) (v : Registry) → replay (l ++ k) v ≡ replay k (replay l v)
unfolding replay
replay-++ [] k v = refl
replay-++ (a ∷ l) k v = replay-++ l k (act a v)

-- One replay behind another.
pub joined :
    (l k : List Act) (u v w : Registry)
    → IsSame (replay l u) v
    → IsSame (replay k v) w
    → IsSame (replay (l ++ k) u) w
joined l k u v w h g =
    IsSame-trans (replay (l ++ k) u) (replay k (replay l u)) w
      (subst (λ x. IsSame (replay (l ++ k) u) x) (replay-++ l k u)
        (IsSame-refl (replay (l ++ k) u)))
      (IsSame-trans (replay k (replay l u)) (replay k v) w (replay-IsSame k (replay l u) v h) g)
