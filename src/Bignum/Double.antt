-- ===== src/Bignum/Double.antt =====
-- `bn_shl1_w` doubles the low words, and the test of the top bit before it tells the bit shifted out.
use Prim.Native.Nat.{bit_or}
use aioperatingsystem.Common.{
  ℕ, zero, suc, ◌+◌, ◌*◌, ◌/◌, ◌%◌, ◌^◌, ◌≤◌, ◌≡◌, ◌∙◌, ap, [], ◌∷◌, arith, get_or,
}
use aioperatingsystem.Common.Bits.{bit_or_fields}
use aioperatingsystem.Bignum.{Bignum, shl1_from}
use aioperatingsystem.Bignum.Value.{radix, value, IsWords}

-- `(x << 1) | carry` for a bit `carry`.
shifted_word : (x c : ℕ) → c ≤ 1 → bit_or (x * 2 % 2 ^ 32) c ≡ x * 2 % 2 ^ 32 + c
shifted_word x c h =
    ap (λ t. bit_or t c) halved ∙ bit_or_fields 1 (x % 2 ^ 31) c (omega arith) ∙ omega arith
  where
    halved : x * 2 % 2 ^ 32 ≡ x % 2 ^ 31 * 2 ^ 1
    halved = omega arith

pub shl1_from-IsWords : (n c : ℕ) (a : Bignum) → IsWords n a → c ≤ 1 → IsWords n (shl1_from n c a)
unfolding shl1_from
shl1_from-IsWords zero c a h hc = tt
shl1_from-IsWords (suc n) c [] h hc = absurd h
shl1_from-IsWords (suc n) c (x ∷ xs) h hc =
    (omega (arith, shifted_word x c hc), shl1_from-IsWords n (x / 2 ^ 31) xs h.1 (omega arith))

pub shl1_from-value :
    (n c : ℕ) (a : Bignum)
    → IsWords (suc n) a
    → c ≤ 1
    → value (suc n) (shl1_from (suc n) c a) + get_or a n 0 / 2 ^ 31 * radix (suc n)
      ≡ 2 * value (suc n) a + c
unfolding shl1_from
shl1_from-value n c [] h hc = absurd h
shl1_from-value zero c (x ∷ xs) h hc = omega (arith, shifted_word x c hc)
shl1_from-value (suc n) c (x ∷ xs) h hc =
    omega (arith, shifted_word x c hc, shl1_from-value n (x / 2 ^ 31) xs h.1 (omega arith))
