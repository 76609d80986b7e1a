-- ===== src/Bignum/AddSub.antt =====
-- Addition and subtraction of the low words, as numbers.
use aioperatingsystem.Common.{ℕ, zero, suc, ◌+◌, ◌*◌, ◌/◌, ◌%◌, ◌^◌, ◌≤◌, ◌≡◌, ◌⊎◌, [], ◌∷◌, arith}
use aioperatingsystem.Bignum.{Bignum, sub_from, add_from}
use aioperatingsystem.Bignum.Value.{radix, value, IsWords}

pub sub_from-IsWords :
    (n c : ℕ) (out a b : Bignum)
    → IsWords n out
    → IsWords n a
    → IsWords n b
    → c ≤ 1
    → IsWords n (sub_from n c out a b)
unfolding sub_from
sub_from-IsWords zero c out a b ho ha hb hc = tt
sub_from-IsWords (suc n) c [] a b ho ha hb hc = absurd ho
sub_from-IsWords (suc n) c (o ∷ os) [] b ho ha hb hc = absurd ha
sub_from-IsWords (suc n) c (o ∷ os) (x ∷ xs) [] ho ha hb hc = absurd hb
sub_from-IsWords (suc n) c (o ∷ os) (x ∷ xs) (y ∷ ys) ho ha hb hc =
    (ground arith, sub_from-IsWords n _ os xs ys ho.1 ha.1 hb.1 (ground arith))

-- Either nothing is borrowed past the top word, or the difference wraps once.
pub sub_from-value :
    (n c : ℕ) (out a b : Bignum)
    → IsWords n out
    → IsWords n a
    → IsWords n b
    → c ≤ 1
    → (value n (sub_from n c out a b) + value n b + c ≡ value n a)
      ⊎ (value n (sub_from n c out a b) + value n b + c ≡ value n a + radix n)
unfolding sub_from
sub_from-value zero c out a b ho ha hb hc = ground arith
sub_from-value (suc n) c [] a b ho ha hb hc = absurd ho
sub_from-value (suc n) c (o ∷ os) [] b ho ha hb hc = absurd ha
sub_from-value (suc n) c (o ∷ os) (x ∷ xs) [] ho ha hb hc = absurd hb
sub_from-value (suc n) c (o ∷ os) (x ∷ xs) (y ∷ ys) ho ha hb hc =
    ground (
      arith,
      sub_from-value n 0 os xs ys ho.1 ha.1 hb.1,
      sub_from-value n 1 os xs ys ho.1 ha.1 hb.1,
    )

pub add_from-IsWords :
    (n c : ℕ) (out a b : Bignum)
    → IsWords n out
    → IsWords n a
    → IsWords n b
    → IsWords n (add_from n c out a b).0
unfolding add_from
add_from-IsWords zero c out a b ho ha hb = tt
add_from-IsWords (suc n) c [] a b ho ha hb = absurd ho
add_from-IsWords (suc n) c (o ∷ os) [] b ho ha hb = absurd ha
add_from-IsWords (suc n) c (o ∷ os) (x ∷ xs) [] ho ha hb = absurd hb
add_from-IsWords (suc n) c (o ∷ os) (x ∷ xs) (y ∷ ys) ho ha hb =
    (omega arith, add_from-IsWords n _ os xs ys ho.1 ha.1 hb.1)

-- The sum is exact with the carry out of the top word, and that carry is a bit.
pub add_from-value :
    (n c : ℕ) (out a b : Bignum)
    → IsWords n out
    → IsWords n a
    → IsWords n b
    → c ≤ 1
    → (value n (add_from n c out a b).0 + (add_from n c out a b).1 * radix n
        ≡ value n a + value n b + c)
      × ((add_from n c out a b).1 ≤ 1)
unfolding add_from
add_from-value zero c out a b ho ha hb hc = (omega arith, hc)
add_from-value (suc n) c [] a b ho ha hb hc = absurd ho
add_from-value (suc n) c (o ∷ os) [] b ho ha hb hc = absurd ha
add_from-value (suc n) c (o ∷ os) (x ∷ xs) [] ho ha hb hc = absurd hb
add_from-value (suc n) c (o ∷ os) (x ∷ xs) (y ∷ ys) ho ha hb hc =
    let rest =
      add_from-value n ((x + y + c) % 2 ^ 64 / 2 ^ 32) os xs ys ho.1 ha.1 hb.1 (omega arith) in
    (omega arith, rest.1)
