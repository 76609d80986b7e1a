-- ===== src/Bignum/Exp/Bits.antt =====
-- The bits that `bn_modexp` reads from its exponent make up the exponent.
use aioperatingsystem.Common.{
  ℕ, zero, suc, ◌+◌, ◌-◌, ◌*◌, ◌/◌, ◌%◌, ◌^◌, ◌≤◌, ◌<◌, ◌≡◌, refl, ◌∙◌, ap, sym, subst, arith,
  get_or, ◌!=◌, test_bit, if◌then◌else◌, [], ◌∷◌, Bool,
}
use native.Mathlib.Nat.{
  pow-suc, add-zero, div-div-eq-div-mul, add-mul-div_left, one-le-pow, div-eq_of_lt,
}
use native.Mathlib.Decide.{dec_lt}
use native.Mathlib.Numerals.{add-one}
use aioperatingsystem.Bignum.{Bignum}
use aioperatingsystem.Bignum.Value.{value, IsWords}
use aioperatingsystem.Bignum.Exp.Width.{pow-add}

-- Bit `i` of a bignum, read as `bn_modexp` does.
abbrev pub bit_at : Bignum → ℕ → Bool
bit_at a i = test_bit (get_or a (i / 32) 0) (i % 32)

-- A low word does not feel the words above it.
low_word_bit : (i w v : ℕ) → i < 32 → (w + 2 ^ 32 * v) / 2 ^ i % 2 ≡ w / 2 ^ i % 2
low_word_bit i w v h =
    ap (λ t. t % 2)
      (ap (λ t. (w + t) / 2 ^ i) split
        ∙ add-mul-div_left w (2 * (2 ^ (31 - i) * v)) {y = 2 ^ i} (one-le-pow i 2 (omega arith)))
    ∙ omega arith
  where
    width : 2 ^ 32 ≡ 2 ^ i * 2 * 2 ^ (31 - i)
    width =
        ap (λ (t : ℕ). 2 ^ t) (let e : 32 ≡ suc i + (31 - i) = omega arith in e)
        ∙ pow-add (suc i) (31 - i)
        ∙ ap (λ (t : ℕ). t * 2 ^ (31 - i)) (pow-suc 2 i)

    split : 2 ^ 32 * v ≡ 2 ^ i * (2 * (2 ^ (31 - i) * v))
    split = ap (λ (t : ℕ). t * v) width ∙ omega arith

-- A bit above the low word.
high_word_bit : (i w v : ℕ) → w < 2 ^ 32 → (w + 2 ^ 32 * v) / 2 ^ (32 + i) ≡ v / 2 ^ i
high_word_bit i w v h =
    rw (pow-add 32 i, ← div-div-eq-div-mul)
      (ap (λ t. t / 2 ^ i) (let e : (w + 2 ^ 32 * v) / 2 ^ 32 ≡ v = omega arith in e))

-- Bit `i` of the number is that bit of the word it stands in.
bit_at-value :
    (n i : ℕ) (a : Bignum)
    → IsWords n a
    → i < n * 32
    → value n a / 2 ^ i % 2 ≡ get_or a (i / 32) 0 / 2 ^ (i % 32) % 2
bit_at-value zero i a h lt = absurd (omega arith)
bit_at-value (suc n) i [] h lt = absurd h
bit_at-value (suc n) i (w ∷ ws) h lt = elim (dec_lt i 32) [
  | yes low ↦
      let word : i / 32 ≡ 0 = omega arith in
      let bit : i % 32 ≡ i = omega arith in rw (word, bit) (low_word_bit i w (value n ws) low)
  | no high ↦
      let word : i / 32 ≡ suc ((i - 32) / 32) = omega arith in
      let bit : i % 32 ≡ (i - 32) % 32 = omega arith in
      let above : i ≡ 32 + (i - 32) = omega arith in
      rw (word, bit)
        (ap (λ t. t % 2)
            (ap (λ t. value (suc n) (w ∷ ws) / 2 ^ t) above
              ∙ high_word_bit (i - 32) w (value n ws) h.0)
          ∙ bit_at-value n (i - 32) ws h.1 (omega arith))
]

-- The number that `left` bits from bit `i` on make up, read as `bn_modexp` reads them.
unfoldable pub bits_from : Bignum → ℕ → ℕ → ℕ
bits_from a zero i = 0
bits_from a (suc left) i = (if bit_at a i then 1 else 0) + 2 * bits_from a left (i + 1)

-- The test of a binary digit as that digit.
digit_test : (d : ℕ) → d < 2 → (if d != 0 then 1 else 0) ≡ d
digit_test zero h = refl
digit_test (suc zero) h = refl
digit_test (suc (suc d)) h = absurd (omega arith)

pub bits_from-value :
    (left i n : ℕ) (a : Bignum)
    → IsWords n a
    → i + left ≤ n * 32
    → value n a < 2 ^ (i + left)
    → bits_from a left i ≡ value n a / 2 ^ i
unfolding bits_from
bits_from-value zero i n a h le small =
    sym (div-eq_of_lt (subst (λ t. value n a < 2 ^ t) (add-zero i) small))
bits_from-value (suc left) i n a h le small =
    let shift : i + suc left ≡ i + 1 + left = omega arith in
    let rest =
      bits_from-value left (i + 1) n a h (omega arith)
        (subst (λ t. value n a < 2 ^ t) shift small) in
    let half : value n a / 2 ^ (i + 1) ≡ value n a / 2 ^ i / 2 =
      rw (add-one, pow-suc, ← div-div-eq-div-mul) in
    let digit = get_or a (i / 32) 0 / 2 ^ (i % 32) % 2 in
    omega (arith, rest, half, digit_test digit (omega arith), bit_at-value n i a h (omega arith))
