-- ===== src/Naming/Limits.antt =====
-- An interface name that `patchName` builds always fits the kernel's 15 bytes.
use Prim.Native.Char.{len_utf8}
use Prim.Native.String.{◌∷◌, len}
use Prim.Native.String.len as len_clauses
use native.Mathlib.Nat.{pow-suc}
use text.Mathlib.TextPositions.{len-append}
use dovesnap.Prelude.{
  ℕ, zero, suc, ◌+◌, ◌/◌, ◌%◌, ◌^◌, ◌≤◌, ◌<◌, String, ◌≡◌, refl, true, arith, ◌==◌, inl, inr, List,
  Bool-cases, every_below, every_below_sound,
}
use dovesnap.Prelude.Text.{nth, concat}
use dovesnap.Outcome.{returned}
use dovesnap.Naming.{
  b62alphabet, float64_of, b62_loop, b62_encode, crc32, patch_str, patch_prefix, patch_name,
}

width_table : every_below 62 (λ d. len_utf8 (nth b62alphabet d) == 1) ≡ true
unfolding every_below nth
width_table = refl

len-digit : (d : ℕ) (s : String) → d < 62 → len (nth b62alphabet d ∷ s) ≡ 1 + len s
len-digit d s h =
    ground (arith, len_clauses.cons (nth b62alphabet d) s, every_below_sound 62 _ d h width_table)

-- `k` digits at most for a number below 62^k.
len-b62_loop : (k f n : ℕ) (b : String) → n < 62 ^ k → len (b62_loop f n b) ≤ k + len b
unfolding b62_loop
len-b62_loop k zero n b h = omega arith
len-b62_loop zero (suc f) n b h = ground arith
len-b62_loop (suc k) (suc f) n b h = elim (Bool-cases (n == 0)) [
  | inl z ↦ rw z (omega arith)
  | inr nz ↦ rw nz (
      omega (
        arith,
        len-b62_loop k f (n / 62) (nth b62alphabet (float64_of n % 62) ∷ b)
            (omega (arith, pow-suc 62 k)),
        len-digit (float64_of n % 62) b (omega arith),
      ))
]

pub len-b62_encode : (n : ℕ) → n < 2 ^ 32 → len (b62_encode n) ≤ 6
unfolding b62_encode
len-b62_encode n h = elim (Bool-cases (n == 0)) [
  | inl z ↦ rw z (omega arith)
  | inr nz ↦ rw nz (omega (arith, len-b62_loop 6 n n "" (omega arith)))
]

crc32-lt : (s : String) → crc32 s < 2 ^ 32
unfolding crc32
crc32-lt s = omega arith

len-patch_str : (a : String) → len (patch_str a) ≤ 6
unfolding patch_str
len-patch_str a = len-b62_encode (crc32 a) (crc32-lt a)

patch_text : String → String → String
patch_text a b =
    concat (List.◌∷◌ patch_prefix (List.◌∷◌ (patch_str a) (List.◌∷◌ (patch_str b) List.[])))

len-patch_text : (a b : String) → len (patch_text a b) ≤ 15
unfolding patch_text concat
len-patch_text a b = simp len-append (omega (arith, len-patch_str a, len-patch_str b))

-- For every pair of bridge names `patchName` returns, without its panic, a name of at most 15 bytes.
pub patch_name_total :
    (a b : String) → (name : String) × (patch_name a b ≡ returned name) × (len name ≤ 15)
unfolding patch_name patch_text
patch_name_total a b = (patch_text a b, ground (arith, len-patch_text a b), len-patch_text a b)
