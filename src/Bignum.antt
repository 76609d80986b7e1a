-- ===== src/Bignum.antt =====
-- kernel/bignum.c: unsigned integers of 128 little-endian 32-bit words, and arithmetic modulo a
-- number of that size. A number is the list of its words. A loop over words that carries from the
-- low end to the high end is a recursion along the lists; one that looks at single words goes by
-- index. `words` is the count that bounds the loops.
--
-- A function writes through its `out` pointer: here `out` is the old contents of that struct, and
-- the result is the new. Every loop reads word i of its operands before it writes word i of `out`,
-- and never reads a lower word again, so the calls with `out` equal to an operand are this function
-- at that operand.
pub mod Value
pub mod AddSub
pub mod Compare
pub mod Double
pub mod Reduce
pub mod Leak
pub mod Mulmod
pub mod Exp
pub mod Bytes
mod Tests
use Prim.Native.Nat.{compare, Ordering, bit_or}
use aioperatingsystem.Common.{
  ℕ, zero, suc, ◌+◌, ◌-◌, ◌*◌, ◌/◌, ◌%◌, ◌^◌, Bool, true, false, ◌||◌, not, List, [], ◌∷◌, Option,
  none, some, ltb, leb, ◌==◌, ◌!=◌, if◌then◌else◌, u8, u32, u64, ◌<<<◌, ◌>>>◌, test_bit, get_or,
  set, replicate, length,
}

abbrev pub bignum_words : ℕ
bignum_words = 128

-- `struct bignum`
abbrev pub Bignum : Type 0
Bignum = List ℕ

pub bn_zero : Bignum
bn_zero = replicate bignum_words 0

-- The loop of `bn_cmp_w`, from word `words - 1` down. -1, 0 and 1 are `lt`, `eq` and `gt`.
pub bn_cmp_w : Bignum → Bignum → ℕ → Ordering
bn_cmp_w a b zero = Ordering.eq
bn_cmp_w a b (suc i) =
    if get_or a i 0 != get_or b i 0
    then (if ltb (get_or a i 0) (get_or b i 0) then Ordering.lt else Ordering.gt)
    else bn_cmp_w a b i

unfoldable pub bn_cmp : Bignum → Bignum → Ordering
bn_cmp a b = bn_cmp_w a b bignum_words

-- `bn_cmp_w(a, b, words) >= 0`
abbrev pub is_ge : Ordering → Bool
is_ge Ordering.lt = false
is_ge _ = true

-- The loop that looks for a word that is not zero, with `left` words to go.
pub all_zero_from : Bignum → ℕ → ℕ → Bool
all_zero_from a zero i = true
all_zero_from a (suc left) i = if get_or a i 0 != 0 then false else all_zero_from a left (i + 1)

pub bn_is_zero : Bignum → Bool
bn_is_zero a = all_zero_from a bignum_words 0

-- The loop of `bn_sub_w` with the borrow from the words below. `diff` is an `int64_t`, so the
-- test is on the true difference.
pub sub_from : ℕ → ℕ → Bignum → Bignum → Bignum → Bignum
sub_from zero borrow out a b = out
sub_from (suc n) borrow (o ∷ os) (x ∷ xs) (y ∷ ys) =
    (if ltb x (y + borrow) then x + 2 ^ 32 - y - borrow else x - y - borrow)
    ∷ sub_from n (if ltb x (y + borrow) then 1 else 0) os xs ys
sub_from (suc n) borrow out a b = out

pub bn_sub_w : Bignum → Bignum → Bignum → ℕ → Bignum
bn_sub_w out a b words = sub_from words 0 out a b

unfoldable pub bn_sub : Bignum → Bignum → Bignum → Bignum
bn_sub out a b = bn_sub_w out a b bignum_words

-- The addition loop of `bn_add` and of `bn_mulmod_w`, with the carry from the words below; it
-- gives the final carry too.
pub add_from : ℕ → ℕ → Bignum → Bignum → Bignum → Bignum × ℕ
add_from zero carry out a b = (out, carry)
add_from (suc n) carry (o ∷ os) (x ∷ xs) (y ∷ ys) =
    let s = u64 (x + y + carry) in
    let (rest, last) = add_from n (s >>> 32) os xs ys in (u32 s ∷ rest, last)
add_from (suc n) carry out a b = (out, carry)

unfoldable pub bn_add : Bignum → Bignum → Bignum → Bignum
bn_add out a b = (add_from bignum_words 0 out a b).0

-- The loop of `bn_shl1_w`.
pub shl1_from : ℕ → ℕ → Bignum → Bignum
shl1_from zero carry a = a
shl1_from (suc n) carry [] = []
shl1_from (suc n) carry (x ∷ xs) = bit_or (u32 (x <<< 1)) carry ∷ shl1_from n (x >>> 31) xs

pub bn_shl1_w : Bignum → ℕ → Bignum
bn_shl1_w a words = shl1_from words 0 a

-- The two numbers that `bn_mulmod_w` goes on with.
pub record MulState : Type 0 where
  pub result : Bignum
  pub base : Bignum

-- `if (lost || bn_cmp_w(a, m, words) >= 0) bn_sub_w(a, a, m, words);`
pub reduce_once : Bool → Bignum → ℕ → Bignum → Bignum
reduce_once lost m words a = if lost || is_ge (bn_cmp_w a m words) then bn_sub_w a a m words else a

-- `(b_word & (1u << bit))` holds: result = (result + base) mod m. `junk` is what the struct `sum`,
-- which is not initialised, holds before; its words from `words` on stay.
pub add_reduce : Bignum → Bignum → ℕ → Bignum → Bignum → Bignum
add_reduce junk m words result base =
    let (sum, carry) = add_from words 0 junk result base in
    reduce_once false m words (reduce_once (carry != 0) m words sum)

-- base = (base * 2) mod m
pub double_reduce : Bignum → ℕ → Bignum → Bignum
double_reduce m words base =
    let overflow = test_bit (get_or base (words - 1) 0) 31 in
    reduce_once overflow m words (bn_shl1_w base words)

-- The two loops of `bn_mulmod_w`, over the bits of a word of `b` and over its words. `junk i` is
-- the uninitialised `sum` at bit i of `b`.
module _ (junk : ℕ → Bignum) (m : Bignum) (words : ℕ) where
  pub mul_step : ℕ → Bool → MulState → MulState
  mul_step i set_bit s = record {
    result = if set_bit then add_reduce (junk i) m words s.result s.base else s.result;
    base = double_reduce m words s.base;
  }

  pub mul_bits : ℕ → ℕ → ℕ → ℕ → MulState → MulState
  mul_bits zero word b_word bit s = s
  mul_bits (suc left) word b_word bit s =
      mul_bits left word b_word (bit + 1) (mul_step (word * 32 + bit) (test_bit b_word bit) s)

  pub mul_words : ℕ → Bignum → ℕ → MulState → MulState
  mul_words zero b word s = s
  mul_words (suc left) b word s =
      mul_words left b (word + 1) (mul_bits 32 word (get_or b word 0) 0 s)

  pub bn_mulmod_w : Bignum → Bignum → Bignum
  bn_mulmod_w a b = (mul_words words b 0 (record { result = bn_zero; base = a })).result
