-- ===== src/Prelude/Text.antt =====
-- What the program uses of Go's strings, strconv and fmt packages, on texts as lists of characters.
-- `fmt.Sprintf` is `concat` of its pieces, with `decimal` for %d.
pub mod Split
pub mod Decimal
use Prim.Native.String.{[], ◌∷◌}
use dovesnap.Prelude.Tests.{ltb, leb, ◌==◌, if◌then◌else◌}
use Prim.Native.Nat.{ℕ, zero, suc, ◌+◌, ◌-◌, ◌*◌, ◌/◌, ◌%◌, ◌^◌}
use Prim.Native.Char.{Char, code}
use Prim.Native.String
use Prim.Native.String.{String}
use mathlib.Core.Bool.{Bool, true, false, ◌&&◌, ◌||◌}
use mathlib.Core.Option.{Option, none, some}
use mathlib.Core.List.{List, [], ◌∷◌}
use mathlib.Core.Path.{◌≡◌, refl}
use text.Mathlib.Text.{◌==◌ as str_eq}

-- The text before the first separator, and the parts behind it.
cut : Char → String → String × List String
cut sep [] = ("", [])
cut sep (c ∷ s) =
    let r = cut sep s in if code c == code sep then ("", r.0 ∷ r.1) else (c ∷ r.0, r.1)

-- strings.Split with a separator of one character.
unfoldable pub split : Char → String → List String
unfolding cut
split sep s = let r = cut sep s in r.0 ∷ r.1

unfoldable pub concat : List String → String
concat [] = ""
concat (s ∷ ss) = String.◌++◌ s (concat ss)

-- strings.Join
unfoldable pub join : String → List String → String
join sep [] = ""
join sep (s ∷ []) = s
join sep (s ∷ t ∷ ss) = String.◌++◌ s (String.◌++◌ sep (join sep (t ∷ ss)))

-- s[i], at a place that the caller knows to lie inside.
unfoldable pub nth : String → ℕ → Char
nth [] i = "0"
nth (c ∷ s) zero = c
nth (c ∷ s) (suc i) = nth s i

unfoldable pub is_digit : Char → Bool
is_digit c = leb b'0' (code c) && leb (code c) b'9'

unfoldable pub scan : ℕ → String → Option ℕ
unfolding is_digit
scan n [] = some n
scan n (c ∷ s) = if is_digit c then scan (n * 10 + (code c - b'0')) s else none

-- strconv.ParseUint(s, 10, bits); `none` is its error.
unfoldable pub parse_uint : ℕ → String → Option ℕ
unfolding scan
parse_uint bits s =
    if str_eq s ""
    then none
    else elim (scan 0 s) [ none ↦ none | some n ↦ if ltb n (2 ^ bits) then some n else none ]

-- One round a digit, the last digit first. `n` rounds are enough.
unfoldable pub decimal_from : ℕ → ℕ → String → String
unfolding nth
decimal_from zero n out = out
decimal_from (suc f) n out =
    let rest = decimal_from f (n / 10) (nth "0123456789" (n % 10) ∷ out) in
    if n == 0 then out else rest

-- %d
unfoldable pub decimal : ℕ → String
unfolding decimal_from
decimal n = if n == 0 then "0" else decimal_from n n ""

letter : ℕ → String → Char → Char
unfolding nth
letter first alphabet c =
    if leb first (code c) && ltb (code c) (first + 26) then nth alphabet (code c - first) else c

-- strings.ToLower and strings.ToUpper, on ASCII letters.
unfoldable pub to_lower : String → String
unfolding letter
to_lower [] = []
to_lower (c ∷ s) = letter b'A' "abcdefghijklmnopqrstuvwxyz" c ∷ to_lower s

unfoldable pub to_upper : String → String
unfolding letter
to_upper [] = []
to_upper (c ∷ s) = letter b'a' "ABCDEFGHIJKLMNOPQRSTUVWXYZ" c ∷ to_upper s

-- strings.TrimSuffix(s, "\n")
unfoldable pub trim_newline : String → String
trim_newline [] = []
trim_newline (c ∷ s) =
    let rest = trim_newline s in if str_eq s "" && (code c == b'\n') then "" else c ∷ rest

-- strings.HasPrefix
unfoldable pub has_prefix : String → String → Bool
has_prefix s [] = true
has_prefix [] (p ∷ ps) = false
has_prefix (c ∷ s) (p ∷ ps) = code c == code p && has_prefix s ps

-- strings.Contains
unfoldable pub contains : String → String → Bool
unfolding has_prefix
contains [] t = str_eq t ""
contains (c ∷ s) t = has_prefix (c ∷ s) t || contains s t

-- An element of a split text, and "" where the text has fewer.
unfoldable pub field : ℕ → List String → String
field i List.[] = ""
field zero (List.◌∷◌ s ss) = s
field (suc i) (List.◌∷◌ s ss) = field i ss

-- strconv.ParseBool, with its error read as false.
unfoldable pub true_text : String → Bool
true_text s =
    str_eq s "1"
    || str_eq s "t"
    || str_eq s "T"
    || str_eq s "TRUE"
    || str_eq s "true"
    || str_eq s "True"

-- The separator does not occur in the text.
abbrev pub Lacks : Char → String → Type 0
Lacks sep [] = Unit
Lacks sep (c ∷ s) = ((code c == code sep) ≡ false) × Lacks sep s

split_test : split "/" "eth0///20" ≡ "eth0" ∷ "" ∷ "" ∷ "20" ∷ []
unfolding split
split_test = refl

decimal_test : decimal 4294967294 ≡ "4294967294"
unfolding decimal
decimal_test = refl

parse_uint_test : parse_uint 32 "4294967296" ≡ none
unfolding parse_uint
parse_uint_test = refl

join_test : join "," ("a" ∷ "b" ∷ []) ≡ concat ("a" ∷ "," ∷ "b" ∷ [])
unfolding join concat
join_test = refl

true_text_test : true_text "yes" ≡ false
unfolding true_text
true_text_test = refl
