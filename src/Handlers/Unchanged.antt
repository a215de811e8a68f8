-- ===== src/Handlers/Unchanged.antt =====
-- reconcileOvs of ovs/driver.go, where the ports of a bridge are as they were.
use dovesnap.Prelude.{
  ℕ, String, Bool, true, false, ◌&&◌, Option, none, some, [], ◌∷◌, ◌≡◌, ◌↔◌, refl, sym, ap, ◌∙◌,
  arith, eq_iff, ◌==◌, ==_iff, if◌then◌else◌,
}
use dovesnap.Prelude.Map.{nat_key, string_key, get_or, lookup, has, keys}
use dovesnap.Ports.{PortDesc, scrape_port_desc}
use dovesnap.Ports.Lowest.{IsDistinct, has-keys}
use dovesnap.Outcome.{Outcome, returned, ok}
use dovesnap.System.{Env, lift}
use dovesnap.State.{NetworkState, StackMirrorConfig, zero_stack_mirror_config}
use dovesnap.AddPorts.{AddPorts, no_ports, only_ports, parse_add_ports}
use dovesnap.Manager.{
  M, Manager, continue, pure, io, gets, skip, get_network, get_mirror_config, zero_network, ◌>>=◌,
}
use dovesnap.Handlers.Reconcile.{
  included, deep_equal, same_desc, compare_ports, scraped_ports, reconcile_network,
}

-- Every entry of the one map stands in the other.
abbrev IsSubmap : PortDesc → PortDesc → Type 0
IsSubmap a b = (k : ℕ) (v : String) → lookup k a ≡ some v → lookup k b ≡ some v

same_desc_iff : (o : Option String) (v : String) → same_desc o v ≡ true → o ≡ some v
same_desc_iff none v h = cc
same_desc_iff (some w) v h = ap some ((eq_iff w v).0 h)

both : {x y : Bool} → (x && y) ≡ true → (x ≡ true) × (y ≡ true)
both {x = true} {y} h = (refl, h)
both {x = false} h = cc

of_text : {v w : String} → some v ≡ some w → v ≡ w
of_text e = cc

within_if_included : (a b : PortDesc) → included a b ≡ true → IsSubmap a b
unfolding included lookup
within_if_included [] b h k v e = cc
within_if_included ((p, n) ∷ a) b h k v e =
    go (within_if_included a b (both h).1 k v) (p == k) refl e
  where
    go :
        (lookup k a ≡ some v → lookup k b ≡ some v)
        → (u : Bool) → (p == k) ≡ u
        → (if u then some n else lookup k a) ≡ some v
        → lookup k b ≡ some v
    go later true here e =
        ap (λ j. lookup j b) (sym ((==_iff p k).0 here))
        ∙ (same_desc_iff (lookup p b) n (both h).0 ∙ e)
    go later false here e = later e

same_desc_self : (o : Option String) (v : String) → o ≡ some v → same_desc o v ≡ true
same_desc_self none v h = cc
same_desc_self (some w) v h = (eq_iff w v).1 (of_text h)

present : (k : ℕ) (v : String) (a : PortDesc) → lookup k a ≡ some v → has k a ≡ true
present k v a h = cc

included_if_within : (a b : PortDesc) → IsDistinct (keys a) → IsSubmap a b → included a b ≡ true
unfolding included lookup
included_if_within [] b distinct h = refl
included_if_within ((p, n) ∷ a) b distinct h =
    let first = same_desc_self (lookup p b) n (h p n (ground (arith, ==_iff p p))) in
    let rest = included_if_within a b distinct.1 (λ k v e. h k v (
      ground
        (arith, e, ==_iff p k, present k v a e, has-keys p a, distinct.0, ap (λ j. has j a)))) in
    ground (arith, first, rest)

same_lookup : (a b : PortDesc) → IsSubmap a b → IsSubmap b a → (k : ℕ) → lookup k a ≡ lookup k b
same_lookup a b h g k = go (lookup k a) (lookup k b) refl refl
  where
    other : {v : String} → none ≡ some v → ⊥
    other e = cc

    go : (x y : Option String) → lookup k a ≡ x → lookup k b ≡ y → lookup k a ≡ lookup k b
    go none none e f = e ∙ sym f
    go none (some w) e f = elim (other (sym e ∙ g k w f)) [ ]
    go (some v) y e f = e ∙ sym (h k v e)

-- The test for a change of a bridge's ports holds of two dumps just where they give each port the same
-- name, in whatever order they list the ports, if no port stands twice in a dump.
deep_equal_iff :
    (a b : PortDesc)
    → IsDistinct (keys a)
    → IsDistinct (keys b)
    → (deep_equal a b ≡ true) ↔ ((k : ℕ) → lookup k a ≡ lookup k b)
unfolding deep_equal
deep_equal_iff a b distinct_a distinct_b = (
  λ h. same_lookup a b (within_if_included a b (both h).0) (within_if_included b a (both h).1),
  λ same.
      let ab = included_if_within a b distinct_a (λ k v e. sym (same k) ∙ e) in
      let ba = included_if_within b a distinct_b (λ k v e. same k ∙ e) in ground (arith, ab, ba),
)

same_run {ℓ κ} :
    {A : Type ℓ} {B : Type κ} (f : A → M B) (env : Env) (s : Manager) (o : Outcome A) (a : A)
    → o ≡ returned a
    → continue o f env s ≡ f a env s
same_run f env s o a h = cc

unchanged_by :
    (m : M (Unit {0})) (env : Env) (s : Manager) (b : Bool)
    → b ≡ true
    → (if b then skip else m) env s ≡ (returned tt, s)
unfolding pure
unchanged_by m env s true h = refl
unchanged_by m env s false h = cc

-- The ports of the network's options are read, whatever they are.
pub record IsReadable (ns : NetworkState) : Type 0 where
  pub first : AddPorts
  pub found : AddPorts
  pub reads : parse_add_ports only_ports ns.add_ports no_ports ≡ returned first
  pub reads_copro : parse_add_ports only_ports ns.add_copro_ports first ≡ returned found

module _ (id : String) (ns : NetworkState) (sc : StackMirrorConfig) (new_desc : PortDesc) where
  compared : AddPorts → M (Unit {0})
  compared found =
      gets (λ s. lookup id s.all_port_desc) >>= compare_ports id ns sc found.ports new_desc

  copro_read : AddPorts → M (Unit {0})
  unfolding compared
  copro_read first = io (lift (parse_add_ports only_ports ns.add_copro_ports first)) >>= compared

  scraped_unchanged :
      (env : Env) (t : Manager) (old_desc : PortDesc)
      → IsReadable ns
      → lookup id t.all_port_desc ≡ some old_desc
      → deep_equal new_desc old_desc ≡ true
      → scraped_ports id ns sc (ok new_desc) env t ≡ (returned tt, t)
  unfolding copro_read compared compare_ports io gets
  scraped_unchanged env t old_desc readable old equal =
      same_run copro_read env t (parse_add_ports only_ports ns.add_ports no_ports) readable.first
        readable.reads
      ∙ (same_run compared env t (parse_add_ports only_ports ns.add_copro_ports readable.first)
            readable.found readable.reads_copro
          ∙ (ap (λ o. compare_ports id ns sc readable.found.ports new_desc o env t) old
              ∙ unchanged_by _ env t (deep_equal new_desc old_desc) equal))

-- A round of reconciliation for a network whose bridge has the ports that were recorded, with the same
-- names and in any order, returns and changes nothing: its only calls are those of the port dump.
-- The options of the network must be readable and the dump must succeed.
pub unchanged_ports_unchanged :
    (id : String) (env : Env) (s : Manager) (new_desc old_desc : PortDesc)
    → IsReadable (zero_network id s)
    → (scrape_port_desc (zero_network id s).bridge_name [] env s.calls).0 ≡ returned (ok new_desc)
    → lookup id s.all_port_desc ≡ some old_desc
    → IsDistinct (keys new_desc)
    → IsDistinct (keys old_desc)
    → ((k : ℕ) → lookup k new_desc ≡ lookup k old_desc)
    → reconcile_network id env s ≡ (
      returned tt,
      record s { calls = (scrape_port_desc (zero_network id s).bridge_name [] env s.calls).1 },
    )
unfolding reconcile_network get_network get_mirror_config gets io
unchanged_ports_unchanged id env s new_desc old_desc readable scraped old distinct distinct_old
      same =
    let ns = zero_network id s in
    let sc = get_or id s.stack_mirror_configs zero_stack_mirror_config in
    let r = scrape_port_desc ns.bridge_name [] env s.calls in
    let t = record s { calls = r.1 } in
    same_run (scraped_ports id ns sc) env t r.0 (ok new_desc) scraped
    ∙ scraped_unchanged id ns sc new_desc env t old_desc readable old
        ((deep_equal_iff new_desc old_desc distinct distinct_old).1 same)
