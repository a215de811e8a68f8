-- ===== src/Handlers/WellFormed.antt =====
-- The invariant of the resource manager's maps (ovs/driver.go): d.networks and d.stackMirrorConfigs.
use dovesnap.Prelude.{
  String, true, false, Option, none, some, ◌≡◌, refl, sym, ap, ◌∙◌, ◌⊎◌, inl, inr, arith, str_eq,
  eq_iff,
}
use dovesnap.Prelude.Map.{
  Map, string_key, lookup, insert, delete, has, get_or, lookup-insert, lookup-delete,
}
use dovesnap.State.{NetworkState, zero_network_state}
use dovesnap.Manager.{Manager, DovesnapOp}
use dovesnap.Manager.Keeps.{Relation, Keeps, Calm, OnDynamic, keep_modify}
use dovesnap.Handlers.Create.{store_network}
use dovesnap.Handlers.Delete.{forget_network}

-- Every known network has its shared maps and a mirror configuration.
unfoldable pub IsWellFormed : Manager → Type 0
IsWellFormed s =
    (id : String) (ns : NetworkState)
    → lookup id s.networks ≡ some ns
    → (ns.dynamic.made ≡ true) × (has id s.stack_mirror_configs ≡ true)

abbrev pub Preserves : Relation
Preserves s t = IsWellFormed s → IsWellFormed t

pub preserves_laws : Calm Preserves
unfolding IsWellFormed
preserves_laws = record {
  same = λ s h. h;
  compose = λ s t u h k x. k (h x);
  on_calls = λ s _ h. h;
  on_notices = λ s _ h. h;
  on_desc = λ s _ h. h;
  on_mtime = λ s _ h. h;
}

module _ {ℓ} {V : Type ℓ} where
  lookup_inserted :
      (k j : String) (v w : V) (m : Map String V)
      → lookup j (insert k v m) ≡ some w
      → ((k ≡ j) × (v ≡ w)) ⊎ (lookup j m ≡ some w)
  lookup_inserted k j v w m h = ground (arith, lookup-insert k j v m, eq_iff k j)

  has_inserted :
      (k j : String) (v : V) (m : Map String V) → has j m ≡ true → has j (insert k v m) ≡ true
  has_inserted k j v m h = ground (arith, lookup-insert k j v m)

  has_self : (k : String) (v : V) (m : Map String V) → has k (insert k v m) ≡ true
  has_self k v m = ground (arith, lookup-insert k k v m, eq_iff k k)

  lookup_deleted :
      (k j : String) (w : V) (m : Map String V)
      → lookup j (delete k m) ≡ some w
      → (str_eq k j ≡ false) × (lookup j m ≡ some w)
  lookup_deleted k j w m h = ground (arith, lookup-delete k j m)

  has_deleted :
      (k j : String) (m : Map String V)
      → str_eq k j ≡ false
      → has j m ≡ true
      → has j (delete k m) ≡ true
  has_deleted k j m g h = ground (arith, lookup-delete k j m)

-- A network that has its maps is a known one.
pub known :
    (id : String) (m : Map String NetworkState)
    → (get_or id m zero_network_state).dynamic.made ≡ true
    → (ns : NetworkState) × (lookup id m ≡ some ns)
known id m h = go (lookup id m) refl h
  where
    go :
        (o : Option NetworkState)
        → lookup id m ≡ o
        → (elim o as (λ _. NetworkState) [ none ↦ zero_network_state | some ns ↦ ns ]).dynamic.made
          ≡ true
        → (ns : NetworkState) × (lookup id m ≡ some ns)
    go none e h = cc
    go (some ns) e h = (ns, e)

has_key : {V : Type 0} {a b : String} (m : Map String V) → a ≡ b → has a m ≡ true → has b m ≡ true
has_key m h k = cc

is_made : {n w : NetworkState} → n ≡ w → n.dynamic.made ≡ true → w.dynamic.made ≡ true
is_made h k = sym (ap (λ x. x.dynamic.made) h) ∙ k

pub preserves_dynamic : (id : String) → OnDynamic Preserves id
unfolding IsWellFormed
preserves_dynamic id = record {
  written = λ s d made k h j ns e.
      let split = lookup_inserted id j _ ns s.networks e in
      let found = known id s.networks made in
      elim split [
        | inl p ↦ (is_made p.1 k, has_key s.stack_mirror_configs p.0 (h id found.0 found.1).1)
        | inr old ↦ h j ns old
      ];
}

pub preserves_store :
    (op : DovesnapOp) (ns : NetworkState)
    → ns.dynamic.made ≡ true
    → Keeps Preserves (store_network op ns)
unfolding IsWellFormed store_network
preserves_store op ns made = keep_modify preserves_laws _ (λ s h j w e.
    elim (lookup_inserted op.network_id j ns w s.networks e) [
      | inl p ↦ (
        is_made p.1 made,
        has_key _ p.0 (has_self op.network_id op.new_stack_mirror_config s.stack_mirror_configs),
      )
      | inr old ↦
          ((h j w old).0, has_inserted op.network_id j _ s.stack_mirror_configs (h j w old).1)
    ])

pub preserves_forget : (id : String) → Keeps Preserves (forget_network id)
unfolding IsWellFormed forget_network
preserves_forget id = keep_modify preserves_laws _ (λ s h j w e.
    let old = lookup_deleted id j w s.networks e in
    ((h j w old.1).0, has_deleted id j s.stack_mirror_configs old.0 (h j w old.1).1))
