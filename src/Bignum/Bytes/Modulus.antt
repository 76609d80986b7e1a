-- ===== src/Bignum/Bytes/Modulus.antt =====
-- What the entry points of bignum.c find out of their modulus and of their operands.
use aioperatingsystem.Common.{
  ℕ, zero, suc, ◌+◌, ◌*◌, ◌%◌, ◌^◌, ◌≤◌, ◌<◌, ◌≡◌, ◌≢◌, refl, ◌∙◌, ap, arith, [], ◌∷◌, List, length,
  false, Bool-cases, inl, inr,
}
use native.Mathlib.Nat.{
  pow-succ', mod-eq_of_lt, mod-lt, le_trans, pow-le-pow_right, mul-le-mul_right,
}
use native.Mathlib.Decide.{dec_le}
use aioperatingsystem.Bignum.{Bignum, bignum_words, bn_is_zero}
use aioperatingsystem.Bignum.Value.{
  radix, value, IsWords, IsWords-mono, value-lt-radix, value-narrow, bn_is_zero_iff,
}
use aioperatingsystem.Bignum.Exp.{bn_sig_words, bn_bit_length, reduce_below}
use aioperatingsystem.Bignum.Exp.Width.{sig_words_cover}
use aioperatingsystem.Bignum.Exp.Loop.{reduce_below_lem}
use aioperatingsystem.Bignum.Bytes.{too_long, bn_from_bytes}
use aioperatingsystem.Bignum.Bytes.FromBytes.{IsBytes, bn_from_bytes-value}
use aioperatingsystem.Bignum.Bytes.ToBytes.{be_value}

radix-bytes : (n : ℕ) → radix n ≡ 256 ^ (n * 4)
radix-bytes zero = refl
radix-bytes (suc n) = omega (
  arith,
  radix-bytes n,
  ap (λ (t : ℕ). 256 ^ t) (four n),
  pow-succ' 256 (suc (suc (suc (n * 4)))),
  pow-succ' 256 (suc (suc (n * 4))),
  pow-succ' 256 (suc (n * 4)),
  pow-succ' 256 (n * 4),
)
  where
    four : (n : ℕ) → suc n * 4 ≡ suc (suc (suc (suc (n * 4))))
    four n = omega arith

-- A number with a first byte that is not zero needs all its bytes.
pub words_of_bytes :
    (b : ℕ) (bs : List ℕ) (words : ℕ)
    → b ≢ 0
    → be_value (b ∷ bs) < radix words
    → length (b ∷ bs) ≤ words * 4
words_of_bytes b bs words nonzero small = elim (dec_le (suc (length bs)) (words * 4)) [
  | yes fits ↦ fits
  | no over ↦
      let more : words * 4 ≤ length bs = omega arith in
      let powers = pow-le-pow_right {n = 256} (omega arith) more in
      let lead = mul-le-mul_right (256 ^ length bs) (let e : 1 ≤ b = omega arith in e) in
      absurd (omega (arith, powers, lead, radix-bytes words))
]

pub be_value-lt : (bs : List ℕ) → IsBytes bs → be_value bs < 256 ^ length bs
be_value-lt [] h = omega arith
be_value-lt (b ∷ bs) h = omega (
  arith,
  be_value-lt bs h.1,
  pow-succ' 256 (length bs),
  mul-le-mul_right (256 ^ length bs) (let e : b + 1 ≤ 256 = omega arith in e),
)

-- The length tests of an entry point, passed.
pub not_too_long : (n : ℕ) → n ≤ 512 → too_long n ≡ false
not_too_long n h = ground arith

pub nonzero_test :
    (m : Bignum) → IsWords bignum_words m → value bignum_words m ≢ 0 → bn_is_zero m ≡ false
nonzero_test m h nonzero = elim (Bool-cases (bn_is_zero m)) [
  | inl e ↦ absurd (nonzero ((bn_is_zero_iff m h).0 e))
  | inr e ↦ e
]

pub power_eq : {b b' e e' n n' : ℕ} → b ≡ b' → e ≡ e' → n ≡ n' → b ^ e % n ≡ b' ^ e' % n'
power_eq p q r = rw (p, q, r)

-- A remainder by the modulus fits in the bytes of the modulus.
pub fits_bytes : (v x n size : ℕ) → 0 < n → n < 256 ^ size → v ≡ x % n → v % 256 ^ size ≡ x % n
fits_bytes v x n size pos lt e = mod-eq_of_lt (omega (arith, e, mod-lt x pos)) ∙ e

-- What the entry points find out of a modulus of at most 512 bytes, the first of which is not zero.
pub record IsModulus (ns : List ℕ) : Type 0 where
  pub bytes : IsBytes ns
  pub short : length ns ≤ 512
  pub big : 1 < be_value ns
  pub tight : (w : ℕ) → be_value ns < radix w → length ns ≤ w * 4

module _ (ns : List ℕ) (h : IsModulus ns) where
  abbrev pub modulus : Bignum
  modulus = bn_from_bytes ns

  abbrev pub width : ℕ
  width = bn_sig_words (bn_bit_length modulus)

  pub modulus-value : value bignum_words modulus ≡ be_value ns
  modulus-value = (bn_from_bytes-value ns h.bytes h.short).1

  pub modulus-IsWords : IsWords bignum_words modulus
  modulus-IsWords = (bn_from_bytes-value ns h.bytes h.short).0

  pub modulus_test : bn_is_zero modulus ≡ false
  modulus_test =
      nonzero_test modulus modulus-IsWords (λ z. absurd (omega (arith, z, modulus-value, h.big)))

  pub width_cover :
      (0 < width) × (width ≤ bignum_words) × (value width modulus ≡ value bignum_words modulus)
  width_cover =
      sig_words_cover modulus modulus-IsWords (λ z. absurd (omega (arith, z, modulus-value, h.big)))

  pub width_room : length ns ≤ width * 4
  width_room = h.tight width (
      rw (← modulus-value, ← width_cover.2)
        (value-lt-radix width modulus
          (IsWords-mono width bignum_words modulus width_cover.1 modulus-IsWords)))

  -- An operand no longer than the modulus is read from the words of the modulus.
  pub operand :
      (bs : List ℕ)
      → IsBytes bs
      → length bs ≤ length ns
      → IsWords bignum_words (bn_from_bytes bs) × (value width (bn_from_bytes bs) ≡ be_value bs)
  operand bs hb le =
      let read = bn_from_bytes-value bs hb (omega (arith, h.short)) in
      let powers : 256 ^ length bs ≤ 256 ^ (width * 4) =
        pow-le-pow_right {n = 256} (omega arith) (le_trans le width_room) in
      (
        read.0,
        value-narrow width bignum_words (bn_from_bytes bs) width_cover.1 read.0
              (omega (arith, read.1, powers, be_value-lt bs hb, radix-bytes width))
            ∙ read.1,
      )

  -- An operand after the reduction loop.
  pub reduced_operand :
      (bs : List ℕ)
      → IsBytes bs
      → length bs ≤ length ns
      → IsWords width (reduce_below modulus width (bn_from_bytes bs))
        × (value width (reduce_below modulus width (bn_from_bytes bs)) ≡ be_value bs % be_value ns)
  reduced_operand bs hb le =
      let read = operand bs hb le in
      let (pos, small, same) = width_cover in
      let m_in = IsWords-mono width bignum_words modulus small modulus-IsWords in
      let mv : value width modulus ≡ be_value ns = same ∙ modulus-value in
      let out =
        reduce_below_lem modulus width m_in (λ z. absurd (omega (arith, z, mv, h.big)))
          (bn_from_bytes bs) (IsWords-mono width bignum_words (bn_from_bytes bs) small read.0) in
      (out.0, out.1 ∙ rw (read.1, mv))
