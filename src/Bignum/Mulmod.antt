-- ===== src/Bignum/Mulmod.antt =====
-- `bn_mulmod_w` multiplies modulo m. With R and A the values of `result` and `base`, and Q the
-- number that the bits of `b` still to come make up, R + A * Q keeps its remainder in every round.
use aioperatingsystem.Common.{
  ℕ, zero, suc, ◌+◌, ◌*◌, ◌/◌, ◌%◌, ◌^◌, ◌≤◌, ◌<◌, ◌≡◌, refl, ◌∙◌, ap, sym, arith, get_or, Bool,
  true, false, if◌then◌else◌, test_bit, [], ◌∷◌,
}
use aioperatingsystem.Common.Modular.{mod_cong_add, mod_cong_mul}
use native.Mathlib.Nat.{mod-eq_of_lt, mod-lt, mod-mod, pow-suc, div-div-eq-div-mul}
use native.Mathlib.Numerals.{add-one}
use aioperatingsystem.Bignum.{
  Bignum, MulState, bn_zero, bignum_words, mul_step, mul_bits, mul_words, bn_mulmod_w,
}
use aioperatingsystem.Bignum.Value.{value, IsWords, IsWords-at, bn_zero-value, bn_zero-IsWords}
use aioperatingsystem.Bignum.Reduce.{add_reduce_lem, double_reduce_lem}

-- One bit, times the base.
abbrev bit_times : Bool → ℕ → ℕ
bit_times b a = if b then a else 0

module _ (m : Bignum) (words : ℕ) where
  -- The loop invariant of `bn_mulmod_w`.
  pub record IsMul (s : MulState) : Type 0 where
    pub result_words : IsWords words s.result
    pub base_words : IsWords words s.base
    pub result_lt : value words s.result < value words m
    pub base_lt : value words s.base < value words m

module _ (junk : ℕ → Bignum) (m : Bignum) (words : ℕ) (hm : IsWords words m) (pos : 0 < words)
    (hj : (i : ℕ) → IsWords words (junk i)) where
  step_lem :
      (i : ℕ) (b : Bool) (s : MulState)
      → IsMul m words s
      → let t = mul_step junk m words i b s in
        IsMul m words t
        × (value words t.result
            ≡ (value words s.result + bit_times b (value words s.base)) % value words m)
        × (value words t.base ≡ (2 * value words s.base) % value words m)
  unfolding mul_step
  step_lem i true s v =
      let add =
        add_reduce_lem m words hm (junk i) s.result s.base (hj i) v.result_words v.base_words
          v.result_lt v.base_lt in
      let double = double_reduce_lem m words hm s.base pos v.base_words v.base_lt in
      (
        record {
          result_words = add.0;
          base_words = double.0;
          result_lt = rw (add.1) (mod-lt _ (omega (arith, v.base_lt)));
          base_lt = rw (double.1) (mod-lt _ (omega (arith, v.base_lt)));
        },
        add.1,
        double.1,
      )
  step_lem i false s v =
      let double = double_reduce_lem m words hm s.base pos v.base_words v.base_lt in
      (
        record {
          result_words = v.result_words;
          base_words = double.0;
          result_lt = v.result_lt;
          base_lt = rw (double.1) (mod-lt _ (omega (arith, v.base_lt)));
        },
        sym (ap (λ t. t % value words m) (omega arith) ∙ mod-eq_of_lt v.result_lt),
        double.1,
      )

-- What one round does to R + A * Q.
round_lem :
    (t : Bool) (r a r' a' q m : ℕ)
    → r' ≡ (r + bit_times t a) % m
    → a' ≡ (2 * a) % m
    → (r' + a' * q) % m ≡ (r + a * (bit_times t 1 + 2 * q)) % m
round_lem t r a r' a' q m er ea =
    mod_cong_add r' (r + bit_times t a) (a' * q) (2 * a * q) m (rw er (mod-mod _ m))
      (mod_cong_mul a' (2 * a) q q m (rw ea (mod-mod _ m)) refl)
    ∙ ap (λ u. u % m) (regroup t)
  where
    regroup : (t : Bool) → r + bit_times t a + 2 * a * q ≡ r + a * (bit_times t 1 + 2 * q)
    regroup true = omega arith
    regroup false = omega arith

-- The lowest bit and the rest of what is left of a word.
bits_left : (w bit : ℕ) → w / 2 ^ bit ≡ bit_times (test_bit w bit) 1 + 2 * (w / 2 ^ (bit + 1))
bits_left w bit = rw (add-one, pow-suc, ← div-div-eq-div-mul) (ground arith)

-- The words of `b` from `i` on.
digits_from : Bignum → ℕ → ℕ → ℕ
digits_from b zero i = 0
digits_from b (suc left) i = get_or b i 0 + 2 ^ 32 * digits_from b left (i + 1)

digits_from-cons :
    (x : ℕ) (xs : Bignum) (n i : ℕ) → digits_from (x ∷ xs) n (suc i) ≡ digits_from xs n i
unfolding digits_from
digits_from-cons x xs zero i = refl
digits_from-cons x xs (suc n) i = rw (add-one, add-one, digits_from-cons x xs n (suc i))

digits_from-value : (n : ℕ) (b : Bignum) → IsWords n b → digits_from b n 0 ≡ value n b
unfolding digits_from
digits_from-value zero b h = refl
digits_from-value (suc n) [] h = absurd h
digits_from-value (suc n) (x ∷ xs) h =
    omega (arith, digits_from-cons x xs n 0, digits_from-value n xs h.1)

module _ (junk : ℕ → Bignum) (m : Bignum) (words : ℕ) (hm : IsWords words m) (pos : 0 < words)
    (hj : (i : ℕ) → IsWords words (junk i)) where
  bits_lem :
      (left word w bit q : ℕ) (s : MulState)
      → IsMul m words s
      → w < 2 ^ 32
      → bit + left ≡ 32
      → let t = mul_bits junk m words left word w bit s in
        IsMul m words t
        × ((value words t.result + value words t.base * q) % value words m
            ≡ (value words s.result + value words s.base * (w / 2 ^ bit + 2 ^ left * q))
              % value words m)
  unfolding mul_bits
  bits_lem zero word w bit q s v hw e =
      let at_end : bit ≡ 32 = omega arith in
      let no_bits : w / 2 ^ bit ≡ 0 = rw at_end (omega arith) in
      (
        v,
        ap (λ (t : ℕ). (value words s.result + value words s.base * t) % value words m)
            (omega (arith, no_bits)),
      )
  bits_lem (suc left) word w bit q s v hw e =
      let step = step_lem junk m words hm pos hj (word * 32 + bit) (test_bit w bit) s v in
      let rest = bits_lem left word w (bit + 1) q _ step.0 hw (omega arith) in
      (
        rest.0,
        rest.1
            ∙ round_lem (test_bit w bit) (value words s.result) (value words s.base) _ _
                (w / 2 ^ (bit + 1) + 2 ^ left * q) (value words m) step.1 step.2
            ∙ ap (λ (t : ℕ). (value words s.result + value words s.base * t) % value words m)
                (omega (arith, bits_left w bit, ap (λ (t : ℕ). t * q) (pow-suc 2 left))),
      )

  words_lem :
      (left n : ℕ) (b : Bignum) (word : ℕ) (s : MulState)
      → IsMul m words s
      → IsWords n b
      → word + left ≤ n
      → let t = mul_words junk m words left b word s in
        IsMul m words t
        × (value words t.result
            ≡ (value words s.result + value words s.base * digits_from b left word) % value words m)
  unfolding mul_words digits_from
  words_lem zero n b word s v hb le =
      (v, sym (ap (λ t. t % value words m) (omega arith) ∙ mod-eq_of_lt v.result_lt))
  words_lem (suc left) n b word s v hb le =
      let bits =
        bits_lem 32 word (get_or b word 0) 0 (digits_from b left (word + 1)) s v
          (IsWords-at n word b hb (omega arith)) (omega arith) in
      let rest = words_lem left n b (word + 1) _ bits.0 hb (omega arith) in
      (
        rest.0,
        rest.1
            ∙ bits.1
            ∙ ap (λ (t : ℕ). (value words s.result + value words s.base * t) % value words m)
                (omega arith),
      )

  -- With the modulus m in `words` words and the first factor below it, `bn_mulmod_w` returns the
  -- product of its factors modulo m, whatever the uninitialised `sum` holds.
  pub bn_mulmod_w-value :
      (a b : Bignum)
      → IsWords words a
      → IsWords words b
      → words ≤ bignum_words
      → value words a < value words m
      → IsWords words (bn_mulmod_w junk m words a b)
        × (value words (bn_mulmod_w junk m words a b)
            ≡ value words a * value words b % value words m)
  unfolding bn_mulmod_w
  bn_mulmod_w-value a b ha hb small lt =
      let zero_value = bn_zero-value words in
      let start : IsMul m words (record { result = bn_zero; base = a }) = record {
        result_words = bn_zero-IsWords words small;
        base_words = ha;
        result_lt = omega (arith, zero_value);
        base_lt = lt;
      } in
      let all = words_lem words words b 0 _ start hb (omega arith) in
      (
        all.0.result_words,
        all.1
            ∙ ap (λ t. t % value words m)
                (omega (
                  arith,
                  zero_value,
                  ap (λ (t : ℕ). value words a * t) (digits_from-value words b hb),
                )),
      )
