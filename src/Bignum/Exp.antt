-- ===== src/Bignum/Exp.antt =====
-- kernel/bignum.c: the width of a modulus, the reduction loop, and `bn_modexp`.
--
-- The loop `while (bn_cmp_w(&b, m, words) >= 0) bn_sub_w(&b, &b, m, words)` takes as fuel the value
-- of its number, which each round lowers by m; the callers have tested that m is not zero.
pub mod Width
pub mod Bits
pub mod Loop
use aioperatingsystem.Common.{
  ℕ, zero, suc, ◌+◌, ◌*◌, ◌/◌, ◌%◌, Bool, true, false, Option, none, some, ltb, ◌!=◌, if◌then◌else◌,
  test_bit, get_or, set,
}
use aioperatingsystem.Bignum.{Bignum, bignum_words, bn_zero, bn_cmp_w, is_ge, bn_sub_w, bn_mulmod_w}
use aioperatingsystem.Bignum.Value.{value}

-- `while (!(w & (1u << bit))) bit--;` for a word that is not zero.
pub high_bit : ℕ → ℕ → ℕ
high_bit w zero = 0
high_bit w (suc bit) = if test_bit w (suc bit) then suc bit else high_bit w bit

-- The loop of `bn_bit_length`, from word `i - 1` down; -1 is `none`.
pub bit_length_from : Bignum → ℕ → Option ℕ
bit_length_from a zero = none
bit_length_from a (suc i) =
    if get_or a i 0 != 0 then some (i * 32 + high_bit (get_or a i 0) 31) else bit_length_from a i

pub bn_bit_length : Bignum → Option ℕ
bn_bit_length a = bit_length_from a bignum_words

pub bn_sig_words : Option ℕ → ℕ
bn_sig_words none = 1
bn_sig_words (some bits) =
    let words = bits / 32 + 1 in if ltb bignum_words words then bignum_words else words

-- The reduction loop, with fuel.
pub reduce_loop : ℕ → Bignum → ℕ → Bignum → Bignum
reduce_loop zero m words b = b
reduce_loop (suc fuel) m words b =
    let rest = reduce_loop fuel m words (bn_sub_w b b m words) in
    if is_ge (bn_cmp_w b m words) then rest else b

pub reduce_below : Bignum → ℕ → Bignum → Bignum
reduce_below m words b = reduce_loop (suc (value words b)) m words b

module _ (junk : ℕ → ℕ → Bignum) (exp m : Bignum) (words top : ℕ) where
  -- The loop over the bits of the exponent, `left` rounds from bit `i`. `junk k` is what the stack
  -- holds in the k-th call of `bn_mulmod_w`.
  pub exp_loop : ℕ → ℕ → Bignum → Bignum → Bignum
  exp_loop zero i result b = result
  exp_loop (suc left) i result b =
      exp_loop left (i + 1)
        (if test_bit (get_or exp (i / 32) 0) (i % 32)
          then bn_mulmod_w (junk (2 * i)) m words result b
          else result)
        (if ltb i top then bn_mulmod_w (junk (2 * i + 1)) m words b b else b)

-- `i <= top_bit` never holds at top_bit = -1.
pub exp_bits : (ℕ → ℕ → Bignum) → Bignum → Bignum → ℕ → Bignum → Bignum → Option ℕ → Bignum
exp_bits junk exp m words result b none = result
exp_bits junk exp m words result b (some top) = exp_loop junk exp m words top (top + 1) 0 result b

pub bn_modexp : (ℕ → ℕ → Bignum) → Bignum → Bignum → Bignum → Bignum
bn_modexp junk base exp m =
    let words = bn_sig_words (bn_bit_length m) in
    exp_bits junk exp m words (set bn_zero 0 1) (reduce_below m words base) (bn_bit_length exp)
