-- ===== src/Naming.antt =====
-- ovs/utils.go and ovs/ovs_port.go: the names of the interfaces that join two bridges. A bridge's
-- name is hashed by CRC-32 (hash/crc32, IEEE polynomial) and the hash is written in base 62.
pub mod Base62
pub mod Limits
use Prim.Native.Nat.{bit_xor}
use Prim.Native.String
use Prim.Native.String.{[], ◌∷◌, len}
use dovesnap.Prelude.{
  ℕ, zero, suc, ◌+◌, ◌*◌, ◌/◌, ◌%◌, ◌^◌, Bool, String, List, ◌≡◌, refl, code, ltb, ◌==◌,
  if◌then◌else◌,
}
use dovesnap.Prelude.Text.{nth, concat}
use dovesnap.Outcome.{Outcome, returned, panicked}

abbrev pub b62alphabet : String
b62alphabet = "0123456789abcdefghijklmnopqrstuvwxyzABCDEFGHIJKLMNOPQRSTUVWXYZ"

-- The shift that brings an integer into the 53 bits of a float64.
float64_shift : ℕ → ℕ → ℕ
float64_shift zero n = 0
float64_shift (suc f) n =
    let rest = suc (float64_shift f (n / 2)) in if ltb n (2 ^ 53) then 0 else rest

-- float64(n): the nearest multiple of 2^k, a tie to the even one.
pub float64_of : ℕ → ℕ
unfolding float64_shift
float64_of n =
    let k = float64_shift 64 n in
    let q = n / 2 ^ k in
    let r = n % 2 ^ k in
    if ltb n (2 ^ 53)
    then n
    else if ltb (2 * r) (2 ^ k)
    then q * 2 ^ k
    else if ltb (2 ^ k) (2 * r)
    then (q + 1) * 2 ^ k
    else (q + q % 2) * 2 ^ k

-- The loop of `b62Encode`. math.Mod is exact on its float64 arguments.
b62_loop : ℕ → ℕ → String → String
unfolding float64_of nth
b62_loop zero n b = b
b62_loop (suc f) n b =
    let rest = b62_loop f (n / 62) (nth b62alphabet (float64_of n % 62) ∷ b) in
    if n == 0 then b else rest

-- Each round divides `n`, so `n` rounds are enough.
pub b62_encode : ℕ → String
unfolding b62_loop
b62_encode n = if n == 0 then "0" else b62_loop n n ""

-- The bytes of a text, which Go keeps in UTF-8.
utf8 : ℕ → List ℕ → List ℕ
utf8 c rest =
    if ltb c 0x80
    then List.◌∷◌ c rest
    else if ltb c 0x800
    then List.◌∷◌ (0xc0 + c / 64) (List.◌∷◌ (0x80 + c % 64) rest)
    else if ltb c 0x10000
    then List.◌∷◌ (0xe0 + c / 4096) (List.◌∷◌ (0x80 + c / 64 % 64) (List.◌∷◌ (0x80 + c % 64) rest))
    else List.◌∷◌ (0xf0 + c / 262144) (
        List.◌∷◌ (0x80 + c / 4096 % 64)
          (List.◌∷◌ (0x80 + c / 64 % 64) (List.◌∷◌ (0x80 + c % 64) rest)))

bytes : String → List ℕ
unfolding utf8
bytes [] = List.[]
bytes (c ∷ s) = utf8 (code c) (bytes s)

crc_bit : ℕ → ℕ
crc_bit r = if r % 2 == 0 then r / 2 else bit_xor (r / 2) 0xedb88320 % 2 ^ 32

crc_bits : ℕ → ℕ → ℕ
unfolding crc_bit
crc_bits zero r = r
crc_bits (suc k) r = crc_bits k (crc_bit r)

crc_bytes : ℕ → List ℕ → ℕ
unfolding crc_bits
crc_bytes r List.[] = r
crc_bytes r (List.◌∷◌ b bs) = crc_bytes (crc_bits 8 (bit_xor r b % 2 ^ 32)) bs

-- crc32.ChecksumIEEE, a uint32.
pub crc32 : String → ℕ
unfolding crc_bytes bytes
crc32 s = bit_xor (crc_bytes 0xffffffff (bytes s)) 0xffffffff % 2 ^ 32

unfoldable pub patch_str : String → String
unfolding crc32 b62_encode
patch_str a = b62_encode (crc32 a)

abbrev pub patch_prefix : String
patch_prefix = "ods"

unfoldable pub patch_name : String → String → Outcome String
unfolding concat patch_str
patch_name a b =
    let name =
      concat (List.◌∷◌ patch_prefix (List.◌∷◌ (patch_str a) (List.◌∷◌ (patch_str b) List.[]))) in
    if ltb 15 (len name)
    then panicked (concat (List.◌∷◌ name (List.◌∷◌ " too long for ifName" List.[])))
    else returned name

-- The check value of the CRC-32 catalogue.
crc32_check : crc32 "123456789" ≡ 0xcbf43926
unfolding crc32
crc32_check = refl

b62_test : b62_encode 4294967295 ≡ "4GFfc3"
unfolding b62_encode
b62_test = refl
