-- ===== src/Bignum/Leak.antt =====
-- The struct `sum` of `bn_mulmod_w` is not initialised, and `result = sum` copies all of it.
use aioperatingsystem.Common.{
  ℕ, zero, suc, ◌≤◌, ◌≡◌, ◌!=◌, ◌∙◌, refl, Bool, false, ◌∷◌, get_or, arith,
}
use aioperatingsystem.Bignum.{Bignum, sub_from, bn_sub_w, add_from, reduce_once, add_reduce}

add_from_above :
    (n c i : ℕ) (out a b : Bignum) → n ≤ i → get_or (add_from n c out a b).0 i 0 ≡ get_or out i 0
unfolding add_from
add_from_above zero c i out a b le = refl
add_from_above (suc n) c zero (o ∷ os) (x ∷ xs) (y ∷ ys) le = absurd (omega arith)
add_from_above (suc n) c (suc i) (o ∷ os) (x ∷ xs) (y ∷ ys) le =
    add_from_above n _ i os xs ys (omega arith)
add_from_above (suc n) c i out a b le = refl

sub_from_above :
    (n c i : ℕ) (out a b : Bignum) → n ≤ i → get_or (sub_from n c out a b) i 0 ≡ get_or out i 0
unfolding sub_from
sub_from_above zero c i out a b le = refl
sub_from_above (suc n) c zero (o ∷ os) (x ∷ xs) (y ∷ ys) le = absurd (omega arith)
sub_from_above (suc n) c (suc i) (o ∷ os) (x ∷ xs) (y ∷ ys) le =
    sub_from_above n _ i os xs ys (omega arith)
sub_from_above (suc n) c i out a b le = refl

reduce_once_above :
    (lost : Bool) (m : Bignum) (words i : ℕ) (a : Bignum)
    → words ≤ i
    → get_or (reduce_once lost m words a) i 0 ≡ get_or a i 0
unfolding reduce_once bn_sub_w
reduce_once_above lost m words i a le = ground (arith, sub_from_above words 0 i a a m)

-- After `result = (result + base) mod m` every word from the modulus's width on is the word that the
-- uninitialised `sum` held.
pub add_reduce_leak :
    (m : Bignum) (words i : ℕ) (junk result base : Bignum)
    → words ≤ i
    → get_or (add_reduce junk m words result base) i 0 ≡ get_or junk i 0
unfolding add_reduce
add_reduce_leak m words i junk result base le =
    reduce_once_above false m words i _ le
    ∙ reduce_once_above ((add_from words 0 junk result base).1 != 0) m words i _ le
    ∙ add_from_above words 0 i junk result base le
