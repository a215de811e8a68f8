-- ===== src/Ports/Lowest.antt =====
-- The port number that `mustLowestFreePortOnBridge` chooses.
use dovesnap.Prelude.{
  ℕ, suc, ◌+◌, ◌-◌, ◌%◌, ◌^◌, ◌≤◌, ◌<◌, String, Bool, true, false, ◌||◌, Option, none, some, List,
  [], ◌∷◌, ◌≡◌, refl, sym, ap, ◌∙◌, arith, ◌==◌, length,
}
use dovesnap.Prelude.Map.{Map, nat_key, insert, lookup, has, keys}
use dovesnap.Prelude.Text.{split}
use dovesnap.Ports.{
  PortDesc, record_line, parse_lines, parse_port_desc, insert_sorted, sort, first_gap,
  lowest_free_port,
}
use dovesnap.Ports.Line.{match_line}

-- The number stands in the list.
unfoldable pub elem : ℕ → List ℕ → Bool
elem k [] = false
elem k (x ∷ xs) = x == k || elem k xs

-- No key stands twice.
abbrev pub IsDistinct : List ℕ → Type 0
IsDistinct [] = Unit
IsDistinct (x ∷ xs) = (elem x xs ≡ false) × IsDistinct xs

-- Strictly ascending from `lo`.
abbrev IsAscending : ℕ → List ℕ → Type 0
IsAscending lo [] = Unit
IsAscending lo (x ∷ xs) = (lo ≤ x) × IsAscending (x + 1) xs

pub has-keys {ℓ} : {V : Type ℓ} (k : ℕ) (m : Map ℕ V) → has k m ≡ elem k (keys m)
unfolding lookup elem
has-keys k [] = refl
has-keys k ((j, v) ∷ m) = ground (arith, has-keys k m)

elem-insert_sorted : (k x : ℕ) (xs : List ℕ) → elem k (insert_sorted x xs) ≡ (x == k || elem k xs)
unfolding elem insert_sorted
elem-insert_sorted k x [] = refl
elem-insert_sorted k x (y ∷ ys) = ground (arith, elem-insert_sorted k x ys)

elem-sort : (k : ℕ) (xs : List ℕ) → elem k (sort xs) ≡ elem k xs
unfolding elem sort
elem-sort k [] = refl
elem-sort k (x ∷ xs) = ground (arith, elem-insert_sorted k x (sort xs), elem-sort k xs)

length-insert_sorted : (x : ℕ) (xs : List ℕ) → length (insert_sorted x xs) ≡ suc (length xs)
unfolding insert_sorted
length-insert_sorted x [] = refl
length-insert_sorted x (y ∷ ys) = ground (arith, length-insert_sorted x ys)

length-sort : (xs : List ℕ) → length (sort xs) ≡ length xs
unfolding sort
length-sort [] = refl
length-sort (x ∷ xs) = ground (arith, length-insert_sorted x (sort xs), length-sort xs)

insert_sorted-IsAscending :
    (lo x : ℕ) (xs : List ℕ)
    → lo ≤ x
    → elem x xs ≡ false
    → IsAscending lo xs
    → IsAscending lo (insert_sorted x xs)
unfolding insert_sorted elem
insert_sorted-IsAscending lo x [] h e a = (h, tt)
insert_sorted-IsAscending lo x (y ∷ ys) h e (p, a) =
    ground (arith, insert_sorted-IsAscending (y + 1) x ys)

-- Distinct positive numbers are sorted into a strictly ascending list.
sort-IsAscending : (xs : List ℕ) → elem 0 xs ≡ false → IsDistinct xs → IsAscending 1 (sort xs)
unfolding sort elem
sort-IsAscending [] z d = tt
sort-IsAscending (x ∷ xs) z (e, d) =
    insert_sorted-IsAscending 1 x (sort xs) (ground arith) (ground (arith, elem-sort x xs))
      (sort-IsAscending xs (ground arith) d)

below_ascending : (lo k : ℕ) (xs : List ℕ) → k < lo → IsAscending lo xs → elem k xs ≡ false
unfolding elem
below_ascending lo k [] h a = refl
below_ascending lo k (x ∷ xs) h (p, a) = ground (arith, below_ascending (x + 1) k xs)

first_gap_bounds :
    (lo : ℕ) (xs : List ℕ) → (lo ≤ first_gap lo xs) × (first_gap lo xs ≤ lo + length xs)
unfolding first_gap
first_gap_bounds lo [] = (omega arith, omega arith)
first_gap_bounds lo (x ∷ xs) = ground (arith, first_gap_bounds (lo + 1) xs)

first_gap-free : (lo : ℕ) (xs : List ℕ) → IsAscending lo xs → elem (first_gap lo xs) xs ≡ false
unfolding elem first_gap
first_gap-free lo [] a = refl
first_gap-free lo (x ∷ xs) (p, a) =
    ground (
      arith,
      first_gap-free (x + 1) xs a,
      first_gap_bounds (x + 1) xs,
      below_ascending (x + 1) lo xs,
    )

first_gap-lowest :
    (lo : ℕ) (xs : List ℕ)
    → IsAscending lo xs
    → (k : ℕ) → lo ≤ k
    → k < first_gap lo xs
    → elem k xs ≡ true
unfolding elem first_gap
first_gap-lowest lo [] a k h l = absurd (omega arith)
first_gap-lowest lo (x ∷ xs) (p, a) k h l = ground (arith, first_gap-lowest (x + 1) xs a k)

-- The keys of a Go map: distinct, and parsing port descriptions keeps them so.
abbrev pub HasDistinctKeys : PortDesc → Type 0
HasDistinctKeys desc = IsDistinct (keys desc)

elem-keys-insert :
    (j k : ℕ) (name : String) (desc : PortDesc)
    → elem j (keys (insert k name desc)) ≡ (k == j || elem j (keys desc))
unfolding insert elem
elem-keys-insert j k name [] = refl
elem-keys-insert j k name ((i, w) ∷ desc) = ground (arith, elem-keys-insert j k name desc)

insert-HasDistinctKeys :
    (k : ℕ) (name : String) (desc : PortDesc)
    → HasDistinctKeys desc
    → HasDistinctKeys (insert k name desc)
unfolding insert elem
insert-HasDistinctKeys k name [] h = (refl, tt)
insert-HasDistinctKeys k name ((i, w) ∷ desc) (e, h) =
    ground (arith, insert-HasDistinctKeys k name desc h, elem-keys-insert i k name desc)

record_line-HasDistinctKeys :
    (m : Option (String × String)) (desc : PortDesc)
    → HasDistinctKeys desc
    → HasDistinctKeys (record_line m desc)
unfolding record_line
record_line-HasDistinctKeys none desc h = h
record_line-HasDistinctKeys (some (d, name)) desc h = insert-HasDistinctKeys _ name desc h

parse_lines-HasDistinctKeys :
    (lines : List String) (desc : PortDesc)
    → HasDistinctKeys desc
    → HasDistinctKeys (parse_lines lines desc)
unfolding parse_lines
parse_lines-HasDistinctKeys [] desc h = h
parse_lines-HasDistinctKeys (l ∷ ls) desc h =
    parse_lines-HasDistinctKeys ls _ (record_line-HasDistinctKeys (match_line l) desc h)

parse_port_desc-HasDistinctKeys : (output : String) → HasDistinctKeys (parse_port_desc output [])
unfolding parse_port_desc
parse_port_desc-HasDistinctKeys output = parse_lines-HasDistinctKeys (split "\n" output) [] tt

-- What it means that `p` is the lowest port number from 1 on that the bridge does not use.
pub record IsLowestFree (desc : PortDesc) (p : ℕ) : Type 0 where
  pub positive : 1 ≤ p
  pub free : has p desc ≡ false
  pub lowest : (k : ℕ) → 1 ≤ k → k < p → has k desc ≡ true

length-keys : (desc : PortDesc) → length (keys desc) ≡ length desc
length-keys [] = refl
length-keys (x ∷ desc) = ap suc (length-keys desc)

module _ (desc : PortDesc) (zero_unused : has 0 desc ≡ false) (few : length desc < 2 ^ 32 - 1)
    (distinct : HasDistinctKeys desc) where
  ascending : IsAscending 1 (sort (keys desc))
  ascending = sort-IsAscending (keys desc) (sym (has-keys 0 desc) ∙ zero_unused) distinct

  gap_fits : first_gap 1 (sort (keys desc)) % 2 ^ 32 ≡ first_gap 1 (sort (keys desc))
  gap_fits =
      omega
        (arith, first_gap_bounds 1 (sort (keys desc)), length-sort (keys desc), length-keys desc)

  lowest_free_port-IsLowestFree_of_distinct : IsLowestFree desc (lowest_free_port desc)
  unfolding lowest_free_port
  lowest_free_port-IsLowestFree_of_distinct = rw gap_fits (record {
    positive = (first_gap_bounds 1 (sort (keys desc))).0;
    free =
        has-keys _ desc
        ∙ (sym (elem-sort _ (keys desc)) ∙ first_gap-free 1 (sort (keys desc)) ascending);
    lowest = λ k h l.
        has-keys k desc
        ∙ (sym (elem-sort k (keys desc)) ∙ first_gap-lowest 1 (sort (keys desc)) ascending k h l);
  })

-- For the text of any port dump in which no port is numbered 0 and which lists fewer than 2^32 - 1
-- ports, the chosen port is at least 1, the dump does not list it, and it lists every port from 1
-- below it.
pub lowest_free_port-IsLowestFree :
    (output : String)
    → has 0 (parse_port_desc output []) ≡ false
    → length (parse_port_desc output []) < 2 ^ 32 - 1
    → IsLowestFree (parse_port_desc output []) (lowest_free_port (parse_port_desc output []))
lowest_free_port-IsLowestFree output zero_unused few =
    lowest_free_port-IsLowestFree_of_distinct _ zero_unused few
      (parse_port_desc-HasDistinctKeys output)

not_below :
    (a b : PortDesc) (p q : ℕ)
    → ((k : ℕ) → has k a ≡ has k b)
    → IsLowestFree a p
    → IsLowestFree b q
    → p < q
    → ⊥
not_below a b p q same lp lq h =
    let listed = lq.lowest p lp.positive h in let free = lp.free in let s = same p in cc

-- Two port dumps that list the same ports, with any names and in any order, lead to the same
-- choice, where no port is numbered 0 and fewer than 2^32 - 1 are listed.
pub same_ports_same_choice :
    (output other : String)
    → has 0 (parse_port_desc output []) ≡ false
    → length (parse_port_desc output []) < 2 ^ 32 - 1
    → length (parse_port_desc other []) < 2 ^ 32 - 1
    → ((k : ℕ) → has k (parse_port_desc output []) ≡ has k (parse_port_desc other []))
    → lowest_free_port (parse_port_desc output []) ≡ lowest_free_port (parse_port_desc other [])
same_ports_same_choice output other zero_unused few few_other same =
    let a = parse_port_desc output [] in
    let b = parse_port_desc other [] in
    let lp = lowest_free_port-IsLowestFree output zero_unused few in
    let lq = lowest_free_port-IsLowestFree other (sym (same 0) ∙ zero_unused) few_other in
    let below = not_below a b (lowest_free_port a) (lowest_free_port b) same lp lq in
    let above = not_below b a (lowest_free_port b) (lowest_free_port a) (λ k. sym (same k)) lq lp in
    ground (arith, below, above)
