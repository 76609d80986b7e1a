-- ===== src/Rsa/Padding.antt =====
-- kernel/rsa.c: the padding of `rsa_encrypt_pkcs1`, and what it returns.
use aioperatingsystem.Common.{
  ℕ, zero, suc, ◌+◌, ◌-◌, ◌*◌, ◌^◌, ◌%◌, ◌<◌, ◌≤◌, ◌≡◌, ◌≢◌, refl, ap, ◌∙◌, subst, List, [], ◌∷◌,
  ◌++◌, Bool, true, false, some, u8, u32, ◌>>>◌, ◌==◌, if◌then◌else◌, length, length-append, arith,
}
use native.Mathlib.Nat.{mul-le-mul_right}
use aioperatingsystem.Bignum.{Bignum, bignum_words}
use aioperatingsystem.Bignum.Value.{IsWords}
use aioperatingsystem.Bignum.Bytes.{bignum_modexp_bytes}
use aioperatingsystem.Bignum.Bytes.FromBytes.{IsBytes, IsBytes-append}
use aioperatingsystem.Bignum.Bytes.ToBytes.{be_value}
use aioperatingsystem.Bignum.Bytes.Modulus.{be_value-lt}
use aioperatingsystem.Bignum.Bytes.Api.{bignum_modexp_bytes-value}
use aioperatingsystem.Rsa.{padding_bytes, pad_message, rsa_encrypt_pkcs1}
use aioperatingsystem.Rsa.Accept.{big_modulus}

-- What stands behind the first zero.
behind_zero : List ℕ → List ℕ
behind_zero [] = []
behind_zero (b ∷ s) = elim (b == 0) [ true ↦ s | false ↦ behind_zero s ]

-- The reader of a padded block: the message stands behind the first zero after two bytes.
pub unpad : List ℕ → List ℕ
unpad [] = []
unpad (a ∷ []) = []
unpad (a ∷ b ∷ s) = behind_zero s

behind_nonzero : (b : ℕ) (s : List ℕ) → b ≢ 0 → behind_zero (b ∷ s) ≡ behind_zero s
unfolding behind_zero
behind_nonzero b s h =
    let other : (b == 0) ≡ false = ground (arith, h) in
    ap (λ (t : Bool). elim t [ true ↦ s | false ↦ behind_zero s ]) other

padding_nonzero : (b : ℕ) → (if b == 0 then 0x42 else b) ≢ 0
padding_nonzero b = ground arith

behind_zero-padding_bytes :
    (n i seed : ℕ) (s : List ℕ) → behind_zero (padding_bytes n i seed ++ (0x00 ∷ s)) ≡ s
unfolding behind_zero padding_bytes
behind_zero-padding_bytes zero i seed s = refl
behind_zero-padding_bytes (suc n) i seed s =
    let next = u32 (seed * 1103515245 + 12345 + i) in
    behind_nonzero _ (padding_bytes n (i + 1) next ++ (0x00 ∷ s))
      (padding_nonzero (u8 (next >>> 16)))
    ∙ behind_zero-padding_bytes n (i + 1) next s

length-padding_bytes : (n i seed : ℕ) → length (padding_bytes n i seed) ≡ n
unfolding padding_bytes
length-padding_bytes zero i seed = refl
length-padding_bytes (suc n) i seed = ap suc (length-padding_bytes n (i + 1) _)

padding_bound : (n : ℕ) → (if u8 n == 0 then 0x42 else u8 n) < 256
padding_bound n = ground arith

padding_bytes-IsBytes : (n i seed : ℕ) → IsBytes (padding_bytes n i seed)
unfolding padding_bytes
padding_bytes-IsBytes zero i seed = tt
padding_bytes-IsBytes (suc n) i seed = (padding_bound _, padding_bytes-IsBytes n (i + 1) _)

unpad-pad_message :
    (len seed : ℕ) (message : List ℕ) → unpad (pad_message len seed message) ≡ message
unfolding unpad pad_message
unpad-pad_message len seed message =
    behind_zero-padding_bytes (len - length message - 3) 0 seed message

length-pad_message :
    (len seed : ℕ) (message : List ℕ)
    → length message + 11 ≤ len
    → length (pad_message len seed message) ≡ len
unfolding pad_message
length-pad_message len seed message h = omega (
  arith,
  h,
  length-append (padding_bytes (len - length message - 3) 0 seed) (0x00 ∷ message),
  length-padding_bytes (len - length message - 3) 0 seed,
)

pad_message-IsBytes :
    (len seed : ℕ) (message : List ℕ) → IsBytes message → IsBytes (pad_message len seed message)
unfolding pad_message
pad_message-IsBytes len seed message h = (
  omega arith,
  (
    omega arith,
    IsBytes-append (padding_bytes (len - length message - 3) 0 seed) (0x00 ∷ message)
        (padding_bytes-IsBytes (len - length message - 3) 0 seed) (omega arith, h),
  ),
)

be_value-pad_message :
    (seed first : ℕ) (rest message : List ℕ)
    → IsBytes message
    → length message + 11 ≤ length (first ∷ rest)
    → first ≢ 0
    → be_value (pad_message (length (first ∷ rest)) seed message) < be_value (first ∷ rest)
unfolding pad_message
be_value-pad_message seed first rest message h fits nonzero =
    let len = length (first ∷ rest) in
    let tail = 0x02 ∷ (padding_bytes (len - length message - 3) 0 seed ++ (0x00 ∷ message)) in
    let size : length tail ≡ length rest = omega (
      arith,
      fits,
      length-append (padding_bytes (len - length message - 3) 0 seed) (0x00 ∷ message),
      length-padding_bytes (len - length message - 3) 0 seed,
    ) in
    let below : be_value tail < 256 ^ length rest =
      subst (λ (n : ℕ). be_value tail < 256 ^ n) size
        (be_value-lt tail (pad_message-IsBytes len seed message h).1) in
    omega (
      arith,
      below,
      mul-le-mul_right (256 ^ length rest) (let e : 1 ≤ first = omega (arith, nonzero) in e),
    )

-- For lists of bytes, a modulus of at most 512 bytes whose first byte is not zero, an exponent of at
-- most 512 bytes, a message at least 11 bytes shorter than the modulus, and room for as many bytes as
-- the modulus has: `rsa_encrypt_pkcs1` returns the power of a block modulo the modulus. The block has
-- as many bytes as the modulus and stands for a smaller number, and the message is what stands in it
-- behind the first zero after the two bytes at its start.
pub rsa_encrypt_pkcs1_lem :
    (junk : ℕ → ℕ → Bignum) (seed : ℕ) (exponent message : List ℕ) (first : ℕ) (rest : List ℕ)
    → ((k i : ℕ) → IsWords bignum_words (junk k i))
    → IsBytes exponent
    → IsBytes message
    → IsBytes (first ∷ rest)
    → length exponent ≤ 512
    → length message + 11 ≤ length (first ∷ rest)
    → length (first ∷ rest) ≤ 512
    → first ≢ 0
    → (out block : List ℕ) × (rsa_encrypt_pkcs1 junk seed
          (first ∷ rest)
          exponent
          message
          (length (first ∷ rest))
        ≡ some out)
      × (length block ≡ length (first ∷ rest))
      × (be_value out ≡ be_value block ^ be_value exponent % be_value (first ∷ rest))
      × (be_value block < be_value (first ∷ rest))
      × (unpad block ≡ message)
unfolding rsa_encrypt_pkcs1
rsa_encrypt_pkcs1_lem junk seed exponent message first rest hj he hm hn le fits most nonzero = (
  power.0,
  block,
  returned,
  length-pad_message (length (first ∷ rest)) seed message fits,
  power.2,
  be_value-pad_message seed first rest message hm fits nonzero,
  unpad-pad_message (length (first ∷ rest)) seed message,
)
  where
    block : List ℕ
    block = pad_message (length (first ∷ rest)) seed message

    big : 1 < be_value (first ∷ rest)
    big = big_modulus first rest (omega (arith, fits)) nonzero

    power :
        (out : List ℕ) × (bignum_modexp_bytes junk block exponent
            (first ∷ rest)
            (length (first ∷ rest))
          ≡ some out)
        × (be_value out ≡ be_value block ^ be_value exponent % be_value (first ∷ rest))
    power =
        bignum_modexp_bytes-value junk block exponent first rest hj
          (pad_message-IsBytes (length (first ∷ rest)) seed message hm) he hn
          (omega (arith, length-pad_message (length (first ∷ rest)) seed message fits)) le most
          nonzero big

    returned :
        rsa_encrypt_pkcs1 junk seed (first ∷ rest) exponent message (length (first ∷ rest))
        ≡ some power.0
    returned = ground (arith, power.1)
