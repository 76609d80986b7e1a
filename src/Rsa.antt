-- ===== src/Rsa.antt =====
-- kernel/rsa.c: PKCS#1 v1.5 around the exponentiation of bignums. `junk` is what that finds on the stack. The
-- scan over a decoded block goes along the list of the bytes that are left, in place of an index.
pub mod Verify
pub mod Accept
pub mod Padding
mod Tests
use aioperatingsystem.Common.{
  ℕ, zero, suc, ◌+◌, ◌-◌, ◌*◌, ◌/◌, ◌%◌, ◌^◌, List, [], ◌∷◌, ◌++◌, Bool, true, false, ◌&&◌, ◌||◌,
  Option, none, some, ltb, ◌==◌, ◌!=◌, if◌then◌else◌, length, u8, u32, ◌<<<◌, ◌>>>◌,
}
use Prim.Native.Nat.{bit_xor}
use aioperatingsystem.Bignum.{Bignum}
use aioperatingsystem.Bignum.Bytes.{bignum_modexp_bytes}

-- The clock and the timer as they are mixed.
unfoldable pub padding_seed : (ticks hours minutes seconds : ℕ) → ℕ
padding_seed ticks hours minutes seconds =
    bit_xor (bit_xor (bit_xor (bit_xor ticks (u32 (hours <<< 16))) (u32 (minutes <<< 8))) seconds)
      0xA5A5A5A5

-- `n` bytes of padding from number `i` on.
unfoldable pub padding_bytes : (n i seed : ℕ) → List ℕ
padding_bytes zero i seed = []
padding_bytes (suc n) i seed =
    let next = u32 (seed * 1103515245 + 12345 + i) in
    let b = u8 (next >>> 16) in (if b == 0 then 0x42 else b) ∷ padding_bytes n (i + 1) next

unfoldable pub pad_message : (modulus_len seed : ℕ) → (message : List ℕ) → List ℕ
pad_message modulus_len seed message =
    0x00 ∷ 0x02 ∷ (padding_bytes (modulus_len - length message - 3) 0 seed ++ (0x00 ∷ message))

-- `none` is a `false` with nothing written. The lengths are those of lists, below 2 ^ 32 - 11, so that the sum of the
-- first test does not wrap.
unfoldable pub rsa_encrypt_pkcs1 :
    (junk : ℕ → ℕ → Bignum)
    → (seed : ℕ) → (modulus pub_exponent message : List ℕ) → (out_len : ℕ) → Option (List ℕ)
rsa_encrypt_pkcs1 junk seed modulus pub_exponent message out_len =
    let modulus_len = length modulus in
    if (out_len != modulus_len) || ltb modulus_len (length message + 11)
    then none
    else if ltb 512 modulus_len
    then none
    else bignum_modexp_bytes junk (pad_message modulus_len seed message) pub_exponent modulus
        out_len

abbrev pub sha256_digestinfo_prefix : List ℕ
sha256_digestinfo_prefix =
    0x30 ∷ 0x31 ∷ 0x30 ∷ 0x0d ∷ 0x06 ∷ 0x09 ∷ 0x60 ∷ 0x86 ∷ 0x48 ∷ 0x01 ∷ 0x65 ∷ 0x03 ∷ 0x04 ∷ 0x02
    ∷ 0x01 ∷ 0x05 ∷ 0x00 ∷ 0x04 ∷ 0x20 ∷ []

-- What is left behind the bytes 0xFF.
unfoldable pub skip_ff : List ℕ → List ℕ
skip_ff [] = []
skip_ff (b ∷ s) = elim (b == 0xFF) [ true ↦ skip_ff s | false ↦ b ∷ s ]

-- The two loops of comparisons, over the bytes that are expected.
unfoldable pub starts_as : (s expected : List ℕ) → Bool
starts_as s [] = true
starts_as [] (e ∷ expected) = false
starts_as (b ∷ s) (e ∷ expected) = (b == e) && starts_as s expected

-- The zero byte, the amount of bytes that has to be left, and the two comparisons.
unfoldable pub check_rest : (hash s : List ℕ) → Bool
check_rest hash [] = false
check_rest hash (b ∷ s) =
    (b == 0x00) && ((length s == 19 + 32) && starts_as s (sha256_digestinfo_prefix ++ hash))

unfoldable pub check_decoded : (hash decoded : List ℕ) → Bool
check_decoded hash [] = false
check_decoded hash (a ∷ []) = false
check_decoded hash (a ∷ b ∷ s) = (a == 0x00) && ((b == 0x01) && check_rest hash (skip_ff s))

unfoldable pub rsa_verify_pkcs1_sha256 :
    (junk : ℕ → ℕ → Bignum) → (modulus pub_exponent signature hash : List ℕ) → Bool
rsa_verify_pkcs1_sha256 junk modulus pub_exponent signature hash =
    let modulus_len = length modulus in
    if (length signature != modulus_len) || ltb modulus_len (11 + 19 + 32)
    then false
    else if ltb 512 modulus_len
    then false
    else elim (bignum_modexp_bytes junk signature pub_exponent modulus modulus_len) [
      | none ↦ false
      | some decoded ↦ check_decoded hash decoded
    ]
