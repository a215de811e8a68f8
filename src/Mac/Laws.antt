-- ===== src/Mac/Laws.antt =====
-- A prefixed MAC address (mustPrefixMAC of ovs/utils.go) as bytes.
use dovesnap.Prelude.{
  ℕ, zero, suc, ◌/◌, ◌%◌, ◌≤◌, ◌<◌, String, Bool, true, false, not, Option, none, some, List, [],
  ◌∷◌, ◌++◌, ◌≡◌, refl, ap, ◌∙◌, arith, All, every_below, every_below_sound, ◌==◌, ==_iff, code,
  length, ltb,
}
use dovesnap.Prelude.Text.{nth, Lacks}
use dovesnap.Prelude.Text.Split.{split-join}
use dovesnap.Outcome.{returned}
use dovesnap.Mac.{
  decode_string, without_colons, parse_group, parse_groups, is_mac_length, checked_length,
  parse_mac, print_byte, print_bytes, print_mac, overlay, prefixed, with_prefix, must_prefix_mac,
}

abbrev reads_back : ℕ → Option ℕ → Bool
reads_back b none = false
reads_back b (some x) = x == b

byte_table : every_below 256 (λ b. reads_back b (parse_group (print_byte b))) ≡ true
unfolding every_below parse_group print_byte
byte_table = refl

read_back : (b : ℕ) (o : Option ℕ) → reads_back b o ≡ true → o ≡ some b
read_back b none h = cc
read_back b (some x) h = ap some ((==_iff x b).0 h)

parse_group-print_byte : (b : ℕ) → b < 256 → parse_group (print_byte b) ≡ some b
parse_group-print_byte b h =
    read_back b (parse_group (print_byte b)) (every_below_sound 256 _ b h byte_table)

parse_groups-print_bytes :
    (bytes : List ℕ) → All (λ b. b < 256) bytes → parse_groups (print_bytes bytes) ≡ some bytes
unfolding parse_groups print_bytes
parse_groups-print_bytes [] h = refl
parse_groups-print_bytes (b ∷ bytes) (hb, h) =
    rw (parse_group-print_byte b hb, parse_groups-print_bytes bytes h) refl

colon_table : every_below 16 (λ d. not (code (nth "0123456789abcdef" d) == b':')) ≡ true
unfolding every_below nth
colon_table = refl

no_colon : (d : ℕ) → d < 16 → (code (nth "0123456789abcdef" d) == b':') ≡ false
no_colon d h = ground (arith, every_below_sound 16 _ d h colon_table)

Lacks-print_byte : (b : ℕ) → b < 256 → Lacks ":" (print_byte b)
unfolding print_byte
Lacks-print_byte b h = (no_colon (b / 16) (omega arith), (no_colon (b % 16) (omega arith), tt))

Lacks-print_bytes :
    (bytes : List ℕ) → All (λ b. b < 256) bytes → All (Lacks ":") (print_bytes bytes)
unfolding print_bytes
Lacks-print_bytes [] h = tt
Lacks-print_bytes (b ∷ bytes) (hb, h) = (Lacks-print_byte b hb, Lacks-print_bytes bytes h)

parse_mac-print_mac :
    (bytes : List ℕ)
    → All (λ b. b < 256) bytes
    → is_mac_length (length bytes) ≡ true
    → parse_mac (print_mac bytes) ≡ some bytes
unfolding parse_mac print_mac print_bytes
parse_mac-print_mac [] h l = cc
parse_mac-print_mac (b ∷ bytes) (hb, h) l =
    ap (λ gs. checked_length (parse_groups gs))
      (split-join ":" (print_byte b) (print_bytes bytes) (Lacks-print_byte b hb)
        (Lacks-print_bytes bytes h))
    ∙ (ap checked_length (parse_groups-print_bytes (b ∷ bytes) (hb, h)) ∙ rw l refl)

-- The bytes from the n-th on.
unfoldable pub drop : ℕ → List ℕ → List ℕ
drop zero bytes = bytes
drop (suc n) [] = []
drop (suc n) (b ∷ bytes) = drop n bytes

overlay-eq :
    (prefix raw : List ℕ)
    → length prefix ≤ length raw
    → overlay prefix raw ≡ prefix ++ drop (length prefix) raw
unfolding overlay drop
overlay-eq [] raw h = refl
overlay-eq (b ∷ bs) [] h = ground arith
overlay-eq (b ∷ bs) (r ∷ raw) h = ap (λ l. b ∷ l) (overlay-eq bs raw (omega (arith, h)))

-- A prefix of at most five bytes replaces the first bytes of an address of 6, 8 or 20 bytes, and the
-- others stay: the result is the text of the prefix's bytes and the address's bytes behind them. The address is
-- the text of bytes below 256.
pub must_prefix_mac_lem :
    (mac_prefix : String) (prefix raw : List ℕ)
    → decode_string (without_colons mac_prefix) ≡ some prefix
    → length prefix ≤ 5
    → All (λ b. b < 256) raw
    → is_mac_length (length raw) ≡ true
    → must_prefix_mac mac_prefix (print_mac raw)
      ≡ returned (print_mac (prefix ++ drop (length prefix) raw))
unfolding must_prefix_mac
must_prefix_mac_lem mac_prefix prefix raw d few bytes l =
    ap (λ o. with_prefix o (print_mac raw)) d
    ∙ rw (not_long (length prefix) few) (
        ap (prefixed prefix) (parse_mac-print_mac raw bytes l)
        ∙ ap (λ x. returned (print_mac x))
            (overlay-eq prefix raw (fits (length prefix) (length raw) few l)))
  where
    not_long : (n : ℕ) → n ≤ 5 → ltb 5 n ≡ false
    not_long n h = ground arith

    fits : (n m : ℕ) → n ≤ 5 → is_mac_length m ≡ true → n ≤ m
    fits n m h k = ground arith
