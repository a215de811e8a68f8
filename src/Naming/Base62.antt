-- ===== src/Naming/Base62.antt =====
-- Base 62 loses nothing: a reader of the digits gets the hash back.
use Prim.Native.String.{[], ◌∷◌}
use dovesnap.Prelude.{
  ℕ, zero, suc, ◌+◌, ◌*◌, ◌/◌, ◌%◌, ◌^◌, ◌≤◌, ◌<◌, String, Char, ◌≡◌, refl, ap, ◌∙◌, true, lt→ltb,
  code, arith, ◌==◌, if◌then◌else◌, inl, inr, Bool-cases, every_below, every_below_sound,
}
use dovesnap.Prelude.Text.{nth}
use dovesnap.Naming.{b62alphabet, float64_of, b62_loop, b62_encode}

-- The place of a character in the alphabet.
index_of : Char → String → ℕ
index_of c [] = 0
index_of c (d ∷ s) = if code c == code d then 0 else suc (index_of c s)

-- The number that base-62 digits spell behind `n`.
unfoldable pub b62_decode_from : ℕ → String → ℕ
unfolding index_of
b62_decode_from n [] = n
b62_decode_from n (c ∷ s) = b62_decode_from (n * 62 + index_of c b62alphabet) s

unfoldable pub b62_decode : String → ℕ
unfolding b62_decode_from
b62_decode s = b62_decode_from 0 s

index_table : every_below 62 (λ d. index_of (nth b62alphabet d) b62alphabet == d) ≡ true
unfolding every_below index_of nth
index_table = refl

index_of-nth : (d : ℕ) → d < 62 → index_of (nth b62alphabet d) b62alphabet ≡ d
index_of-nth d h = ground (arith, every_below_sound 62 _ d h index_table)

-- Below 2^53 a float64 is the integer itself.
pub float64_of_exact : (n : ℕ) → n < 2 ^ 53 → float64_of n ≡ n
unfolding float64_of
float64_of_exact n h = rw (lt→ltb n _ h)

decode_from-loop :
    (f n : ℕ) (b : String)
    → n ≤ f
    → n < 2 ^ 53
    → b62_decode_from 0 (b62_loop f n b) ≡ b62_decode_from n b
unfolding b62_loop
decode_from-loop zero n b h lt = let e : n ≡ 0 = omega arith in rw e
decode_from-loop (suc f) n b h lt = elim (Bool-cases (n == 0)) [
  | inl z ↦ let e : n ≡ 0 = ground arith in rw e
  | inr nz ↦ rw nz (
      decode_from-loop f (n / 62) (nth b62alphabet (float64_of n % 62) ∷ b) (ground arith)
        (omega arith)
      ∙ (rw (float64_of_exact n lt) (digit_step n b)))
]
  where
    digit_step :
        (m : ℕ) (s : String)
        → b62_decode_from (m / 62) (nth b62alphabet (m % 62) ∷ s) ≡ b62_decode_from m s
    digit_step m s =
        unfold b62_decode_from in
        ap (λ k. b62_decode_from k s) (omega (arith, index_of-nth (m % 62) (omega arith)))

-- Below 2^53 the base-62 text of a number is read back as that number, so different hashes have
-- different texts.
pub b62_decode-encode : (n : ℕ) → n < 2 ^ 53 → b62_decode (b62_encode n) ≡ n
unfolding b62_decode b62_encode
b62_decode-encode n h = elim (Bool-cases (n == 0)) [
  | inl z ↦ let e : n ≡ 0 = ground arith in rw e refl
  | inr nz ↦ rw nz (decode_from-loop n n "" (omega arith) h)
]
