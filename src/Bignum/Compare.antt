-- ===== src/Bignum/Compare.antt =====
-- Comparison of the low words is comparison of the numbers.
use Prim.Native.Nat.{compare}
use aioperatingsystem.Common.{ℕ, zero, suc, ◌+◌, ◌*◌, ◌<◌, ◌≡◌, refl, arith, get_or}
use aioperatingsystem.Bignum.{Bignum, bn_cmp_w}
use aioperatingsystem.Bignum.Value.{radix, value, IsWords, IsWords-low, value-lt-radix, value_top}

-- The top digit decides.
compare_top : (x y lo lo' r : ℕ) → lo < r → lo' < r → x < y → lo + x * r < lo' + y * r
compare_top x y lo lo' r h h' lt = grind arith

-- Over words of 32 bits, `bn_cmp_w` compares the numbers that the low words stand for.
pub bn_cmp_w-value :
    (n : ℕ) (a b : Bignum)
    → IsWords n a
    → IsWords n b
    → bn_cmp_w a b n ≡ compare (value n a) (value n b)
unfolding bn_cmp_w
bn_cmp_w-value zero a b ha hb = refl
bn_cmp_w-value (suc n) a b ha hb =
    rw (value_top n a ha, value_top n b hb)
      (ground (
        arith,
        bn_cmp_w-value n a b (IsWords-low n a ha) (IsWords-low n b hb),
        value-lt-radix n a (IsWords-low n a ha),
        value-lt-radix n b (IsWords-low n b hb),
        compare_top (get_or a n 0) (get_or b n 0) (value n a) (value n b) (radix n),
        compare_top (get_or b n 0) (get_or a n 0) (value n b) (value n a) (radix n),
      ))
