-- ===== src/Rsa/Accept.antt =====
-- kernel/rsa.c: the signatures that `rsa_verify_pkcs1_sha256` accepts.
use aioperatingsystem.Common.{
  ℕ, zero, suc, ◌-◌, ◌^◌, ◌%◌, ◌<◌, ◌≤◌, ◌≡◌, ◌≢◌, ◌↔◌, sym, ap, ◌∙◌, List, ◌∷◌, ◌++◌, true, some,
  length, length-append, length-replicate, replicate, arith,
}
use native.Mathlib.Nat.{pow-le-pow_right, mul-le-mul_right}
use aioperatingsystem.Bignum.{Bignum, bignum_words}
use aioperatingsystem.Bignum.Value.{IsWords}
use aioperatingsystem.Bignum.Bytes.{bignum_modexp_bytes}
use aioperatingsystem.Bignum.Bytes.FromBytes.{IsBytes, IsBytes-append}
use aioperatingsystem.Bignum.Bytes.ToBytes.{be_value}
use aioperatingsystem.Bignum.Bytes.Unique.{bignum_modexp_bytes-IsBytes, be_value-cancel}
use aioperatingsystem.Bignum.Bytes.Api.{bignum_modexp_bytes-value}
use aioperatingsystem.Rsa.{sha256_digestinfo_prefix, check_decoded, rsa_verify_pkcs1_sha256}
use aioperatingsystem.Rsa.Verify.{encoded, check_encoded, check_decoded_lem}

accepted :
    (junk : ℕ → ℕ → Bignum) (modulus exponent signature hash out : List ℕ)
    → length signature ≡ length modulus
    → 62 ≤ length modulus
    → length modulus ≤ 512
    → bignum_modexp_bytes junk signature exponent modulus (length modulus) ≡ some out
    → rsa_verify_pkcs1_sha256 junk modulus exponent signature hash ≡ check_decoded hash out
unfolding rsa_verify_pkcs1_sha256
accepted junk modulus exponent signature hash out same least most e = ground (arith, e)

pub replicate-IsBytes : (n b : ℕ) → b < 256 → IsBytes (replicate n b)
replicate-IsBytes zero b h = tt
replicate-IsBytes (suc n) b h = (h, replicate-IsBytes n b h)

prefix-IsBytes : IsBytes (0x00 ∷ sha256_digestinfo_prefix)
prefix-IsBytes = ground arith

encoded-IsBytes : (len : ℕ) (hash : List ℕ) → IsBytes hash → IsBytes (encoded len hash)
encoded-IsBytes len hash h = (
  omega arith,
  (
    omega arith,
    IsBytes-append (replicate (len - 54) 0xFF) (0x00 ∷ (sha256_digestinfo_prefix ++ hash))
        (replicate-IsBytes (len - 54) 0xFF (omega arith))
        (IsBytes-append (0x00 ∷ sha256_digestinfo_prefix) hash prefix-IsBytes h),
  ),
)

length-encoded :
    (len : ℕ) (hash : List ℕ) → length hash ≡ 32 → 54 ≤ len → length (encoded len hash) ≡ len
length-encoded len hash h least = omega (
  arith,
  h,
  length-append (replicate (len - 54) 0xFF) (0x00 ∷ (sha256_digestinfo_prefix ++ hash)),
  length-replicate {A = ℕ} (len - 54) 0xFF,
)

-- Two bytes, the first of which is not zero, are enough.
pub big_modulus :
    (first : ℕ) (rest : List ℕ) → 1 ≤ length rest → first ≢ 0 → 1 < be_value (first ∷ rest)
big_modulus first rest least nonzero = omega (
  arith,
  least,
  mul-le-mul_right (256 ^ length rest) (let e : 1 ≤ first = omega (arith, nonzero) in e),
  pow-le-pow_right {n = 256} (omega arith) least,
)

-- For lists of bytes, a modulus of 62 to 512 bytes whose first byte is not zero, a signature of as many
-- bytes, an exponent of at most 512 bytes and a hash of 32 bytes: the signature is accepted exactly when
-- its power by the exponent modulo the modulus is the number that the encoding of RFC 8017 stands for,
-- which is 00 01, bytes FF, 00, the prefix for SHA-256 and the hash.
pub rsa_verify_pkcs1_sha256_lem :
    (junk : ℕ → ℕ → Bignum) (exponent signature hash : List ℕ) (first : ℕ) (rest : List ℕ)
    → ((k i : ℕ) → IsWords bignum_words (junk k i))
    → IsBytes exponent
    → IsBytes signature
    → IsBytes hash
    → IsBytes (first ∷ rest)
    → length exponent ≤ 512
    → length hash ≡ 32
    → length signature ≡ length (first ∷ rest)
    → 62 ≤ length (first ∷ rest)
    → length (first ∷ rest) ≤ 512
    → first ≢ 0
    → (rsa_verify_pkcs1_sha256 junk (first ∷ rest) exponent signature hash ≡ true) ↔ (
        be_value signature ^ be_value exponent % be_value (first ∷ rest)
        ≡ be_value (encoded (length (first ∷ rest)) hash))
rsa_verify_pkcs1_sha256_lem junk exponent signature hash first rest hj he hs hh hn le lh same least
      most nonzero =
    (one_way, other_way)
  where
    modulus : List ℕ
    modulus = first ∷ rest

    big : 1 < be_value modulus
    big = big_modulus first rest (omega (arith, least)) nonzero

    power :
        (out : List ℕ) × (bignum_modexp_bytes junk signature exponent modulus (length modulus)
          ≡ some out)
        × (be_value out ≡ be_value signature ^ be_value exponent % be_value modulus)
    power =
        bignum_modexp_bytes-value junk signature exponent first rest hj hs he hn
          (omega (arith, same)) le most nonzero big

    out_IsBytes : IsBytes power.0 × (length power.0 ≡ length modulus)
    out_IsBytes =
        bignum_modexp_bytes-IsBytes junk signature exponent modulus (length modulus) power.0 power.1

    runs : rsa_verify_pkcs1_sha256 junk modulus exponent signature hash ≡ check_decoded hash power.0
    runs = accepted junk modulus exponent signature hash power.0 same least most power.1

    one_way :
        rsa_verify_pkcs1_sha256 junk modulus exponent signature hash ≡ true
        → be_value signature ^ be_value exponent % be_value modulus
          ≡ be_value (encoded (length modulus) hash)
    one_way h =
        sym power.2
        ∙ ap be_value (check_decoded_lem hash power.0 lh (sym runs ∙ h))
        ∙ ap (λ (n : ℕ). be_value (encoded n hash)) out_IsBytes.1

    other_way :
        be_value signature ^ be_value exponent % be_value modulus
          ≡ be_value (encoded (length modulus) hash)
        → rsa_verify_pkcs1_sha256 junk modulus exponent signature hash ≡ true
    other_way h =
        runs
        ∙ ap (check_decoded hash) (
            be_value-cancel power.0 (encoded (length modulus) hash) out_IsBytes.0
              (encoded-IsBytes (length modulus) hash hh)
              (out_IsBytes.1 ∙ sym (length-encoded (length modulus) hash lh (omega arith)))
              (power.2 ∙ h))
        ∙ check_encoded (length modulus) hash lh
