-- ===== src/Prelude/Text/Decimal.antt =====
-- Printing a number in decimal and reading it back.
use Prim.Native.Nat.{ℕ, zero, suc, ◌+◌, ◌*◌, ◌/◌, ◌%◌, ◌^◌, ◌<◌, ◌≤◌}
use Prim.Native.String.{String, ◌∷◌}
use Prim.Native.Char.{Char, code}
use mathlib.Core.Path.{◌≡◌, refl, ap, ◌∙◌}
use mathlib.Core.Logic.{◌≢◌, inl, inr}
use mathlib.Core.Bool.{true, false, ◌&&◌}
use mathlib.Core.Option.{some}
use native.Mathlib.Omega.{arith}
use text.Mathlib.TextEquality.{eq_iff}
use text.Mathlib.TextLemmas.{cons-ne-nil}
use dovesnap.Prelude.Tests.{◌==◌, every_below, every_below_sound, Bool-cases}
use dovesnap.Prelude.Text.{nth, is_digit, scan, parse_uint, decimal_from, decimal, Lacks}

digit_table :
    every_below 10 (λ d. is_digit (nth "0123456789" d) && (code (nth "0123456789" d) == b'0' + d))
    ≡ true
unfolding every_below nth is_digit
digit_table = refl

digit_facts :
    (d : ℕ)
    → d < 10
    → (is_digit (nth "0123456789" d) && (code (nth "0123456789" d) == b'0' + d)) ≡ true
digit_facts d h = every_below_sound 10 _ d h digit_table

scan_digit :
    (d n : ℕ) (out : String) → d < 10 → scan n (nth "0123456789" d ∷ out) ≡ scan (n * 10 + d) out
unfolding scan
scan_digit d n out h = ground (arith, digit_facts d h)

scan-decimal_from : (f n : ℕ) (out : String) → n ≤ f → scan 0 (decimal_from f n out) ≡ scan n out
unfolding decimal_from
scan-decimal_from zero n out h = let e : n ≡ 0 = omega arith in rw e
scan-decimal_from (suc f) n out h = elim (Bool-cases (n == 0)) [
  | inl z ↦ let e : n ≡ 0 = ground arith in rw e
  | inr nz ↦ rw nz (
      scan-decimal_from f (n / 10) (nth "0123456789" (n % 10) ∷ out) (ground arith)
      ∙ (scan_digit (n % 10) (n / 10) out (omega arith) ∙ ap (λ k. scan k out) (omega arith)))
]

scan-decimal : (n : ℕ) → scan 0 (decimal n) ≡ some n
unfolding decimal
scan-decimal n = elim (Bool-cases (n == 0)) [
  | inl z ↦ let e : n ≡ 0 = ground arith in rw e (unfold scan in refl)
  | inr nz ↦ rw nz (scan-decimal_from n n "" (omega arith) ∙ (unfold scan in refl))
]

decimal_from-ne-nil : (f n : ℕ) (out : String) → out ≢ "" → decimal_from f n out ≢ ""
unfolding decimal_from
decimal_from-ne-nil zero n out h = h
decimal_from-ne-nil (suc f) n out h = elim (Bool-cases (n == 0)) [
  | inl z ↦ rw z h
  | inr nz ↦ rw nz (
      decimal_from-ne-nil f (n / 10) (nth "0123456789" (n % 10) ∷ out)
        (cons-ne-nil (nth "0123456789" (n % 10)) out))
]

pub decimal-ne-nil : (n : ℕ) → decimal n ≢ ""
unfolding decimal decimal_from
decimal-ne-nil zero = cons-ne-nil "0" ""
decimal-ne-nil (suc k) = rw eq_suc (decimal_from-ne-nil k (suc k / 10) _ (cons-ne-nil _ ""))
  where
    eq_suc : (suc k == 0) ≡ false
    eq_suc = ground arith

-- Every number below 2^bits is read back from its print.
pub parse_uint-decimal : (bits n : ℕ) → n < 2 ^ bits → parse_uint bits (decimal n) ≡ some n
unfolding parse_uint
parse_uint-decimal bits n h =
    ground (arith, scan-decimal n, decimal-ne-nil n, eq_iff (decimal n) "")

Lacks-decimal_from :
    (sep : Char) (f n : ℕ) (out : String)
    → is_digit sep ≡ false
    → Lacks sep out
    → Lacks sep (decimal_from f n out)
unfolding decimal_from is_digit
Lacks-decimal_from sep zero n out h k = k
Lacks-decimal_from sep (suc f) n out h k = elim (Bool-cases (n == 0)) [
  | inl z ↦ rw z k
  | inr nz ↦ rw nz (
      Lacks-decimal_from sep f (n / 10) (nth "0123456789" (n % 10) ∷ out) h
        (ground (arith, digit_facts (n % 10)), k))
]

-- A separator that is no digit does not occur in a printed number.
pub Lacks-decimal : (sep : Char) (n : ℕ) → is_digit sep ≡ false → Lacks sep (decimal n)
unfolding decimal
Lacks-decimal sep n h = elim (Bool-cases (n == 0)) [
  | inl z ↦ rw z (unfold is_digit in ground arith, tt)
  | inr nz ↦ rw nz (Lacks-decimal_from sep n n "" h tt)
]

-- A parsed number is in the range of its width.
pub parse_uint-lt : (bits : ℕ) (s : String) {n : ℕ} → parse_uint bits s ≡ some n → n < 2 ^ bits
unfolding parse_uint
parse_uint-lt bits s h = ground arith
