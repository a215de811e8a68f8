-- ===== src/Prelude/Map.antt =====
-- Go's maps as association lists, over any key type with a Boolean equality. A key stands once; an
-- insertion at a present key replaces in place, a new key goes to the end.
use Prim.Native.Nat.{ℕ}
use Prim.Native.String.{String}
use mathlib.Core.Path.{◌≡◌, refl}
use mathlib.Core.Logic.{◌↔◌}
use mathlib.Core.Bool.{Bool, true, false}
use mathlib.Core.Option.{Option, none, some}
use mathlib.Core.List.{List, [], ◌∷◌, map}
use native.Mathlib.Omega.{arith}
use text.Mathlib.Text.{◌==◌ as str_eq}
use text.Mathlib.TextEquality.{eq_iff}
use dovesnap.Prelude.Tests.{◌==◌ as nat_eq, ==_iff, if◌then◌else◌, All}

pub record Key {ℓ} (K : Type ℓ) : Type ℓ where
  pub same : K → K → Bool
  pub same_iff : (a b : K) → (same a b ≡ true) ↔ (a ≡ b)

instance abbrev pub string_key : Key String
string_key = record { same = str_eq; same_iff = eq_iff }

instance abbrev pub nat_key : Key ℕ
nat_key = record { same = nat_eq; same_iff = ==_iff }

abbrev pub Map {ℓ κ} : Type ℓ → Type κ → Type (ℓ ⊔ κ)
Map K V = List (K × V)

pub same_refl {ℓ} : {K : Type ℓ} ⦃e : Key K⦄ (k : K) → e.same k k ≡ true
same_refl ⦃e⦄ k = (e.same_iff k k).1 refl

module _ {ℓ κ} {K : Type ℓ} {V : Type κ} ⦃e : Key K⦄ where
  unfoldable pub lookup : K → Map K V → Option V
  lookup key [] = none
  lookup key ((other, value) ∷ rest) = if e.same other key then some value else lookup key rest

  unfoldable pub insert : K → V → Map K V → Map K V
  insert key value [] = (key, value) ∷ []
  insert key value ((other, old) ∷ rest) =
      if e.same other key then (other, value) ∷ rest else (other, old) ∷ insert key value rest

  unfoldable pub delete : K → Map K V → Map K V
  delete key [] = []
  delete key ((other, value) ∷ rest) =
      let kept = delete key rest in if e.same other key then kept else (other, value) ∷ kept

  abbrev pub has : K → Map K V → Bool
  has key m = elim (lookup key m) [ none ↦ false | some _ ↦ true ]

  -- A read of an absent key gives Go's zero value.
  abbrev pub get_or : K → Map K V → V → V
  get_or k m zero_value = elim (lookup k m) [ none ↦ zero_value | some v ↦ v ]

  -- What a read of `sought` gives after a write of `written`.
  pub lookup-insert :
      (written sought : K) (value : V) (m : Map K V)
      → lookup sought (insert written value m)
        ≡ (if e.same written sought then some value else lookup sought m)
  unfolding insert lookup
  lookup-insert written sought value [] = refl
  lookup-insert written sought value ((first, old) ∷ rest) = ground (
    arith,
    lookup-insert written sought value rest,
    e.same_iff first written,
    e.same_iff first sought,
    e.same_iff written sought,
  )

  pub lookup-delete :
      (k j : K) (m : Map K V) → lookup j (delete k m) ≡ (if e.same k j then none else lookup j m)
  unfolding lookup delete
  lookup-delete k j [] = ground arith
  lookup-delete k j ((i, w) ∷ m) =
      ground (arith, e.same_iff k j, e.same_iff i k, e.same_iff i j, lookup-delete k j m)

  pub lookup-insert_self : (k : K) (v : V) (m : Map K V) → lookup k (insert k v m) ≡ some v
  lookup-insert_self k v m = ground (arith, lookup-insert k k v m, same_refl k)

  pub lookup-delete_self : (k : K) (m : Map K V) → lookup k (delete k m) ≡ none
  lookup-delete_self k m = ground (arith, lookup-delete k k m, same_refl k)

  -- What holds of every value of a map holds after an insertion of such a value.
  pub All-insert {μ} :
      (P : V → Type μ) (k : K) (v : V) (m : Map K V)
      → P v
      → All (λ p. P p.1) m
      → All (λ p. P p.1) (insert k v m)
  unfolding insert
  All-insert P k v [] h _ = (h, tt)
  All-insert P k v ((j, w) ∷ m) h (hw, hm) = ground (arith, All-insert P k v m h hm)

  -- A second write of a key replaces the first.
  pub insert-insert_self :
      (k : K) (v w : V) (m : Map K V) → insert k w (insert k v m) ≡ insert k w m
  unfolding insert
  insert-insert_self k v w [] = ground (arith, same_refl k)
  insert-insert_self k v w ((j, u) ∷ m) = ground (arith, insert-insert_self k v w m)

abbrev pub keys {ℓ κ} : {K : Type ℓ} {V : Type κ} → Map K V → List K
keys = map (λ p. p.0)
