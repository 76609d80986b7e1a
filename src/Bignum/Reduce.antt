-- ===== src/Bignum/Reduce.antt =====
-- The two steps of `bn_mulmod_w` keep their result below the modulus and right modulo it.
use aioperatingsystem.Common.{
  ℕ, zero, suc, ◌+◌, ◌-◌, ◌*◌, ◌/◌, ◌%◌, ◌^◌, ◌≤◌, ◌<◌, ◌≡◌, subst, ◌∙◌, ap, sym, ◌⊎◌, inl, inr,
  arith, get_or, Bool, false, if◌then◌else◌, ◌!=◌, test_bit,
}
use native.Mathlib.Nat.{mod-eq_of_lt, mod-eq-sub-mod}
use aioperatingsystem.Bignum.{
  Bignum, sub_from, bn_sub_w, add_from, bn_shl1_w, shl1_from, reduce_once, add_reduce,
  double_reduce,
}
use aioperatingsystem.Bignum.Value.{radix, value, IsWords, IsWords-at, value-lt-radix}
use aioperatingsystem.Bignum.Compare.{bn_cmp_w-value}
use aioperatingsystem.Bignum.AddSub.{
  sub_from-IsWords, sub_from-value, add_from-IsWords, add_from-value,
}
use aioperatingsystem.Bignum.Double.{shl1_from-IsWords, shl1_from-value}

-- A number below twice the modulus, reduced.
reduced : (v s m : ℕ) → v < m → (v ≡ s) ⊎ (v + m ≡ s) → v ≡ s % m
reduced v s m lt (inl e) = sym (ap (λ t. t % m) (sym e) ∙ mod-eq_of_lt lt)
reduced v s m lt (inr e) =
    sym (
      mod-eq-sub-mod {n = s} {m = m} (omega arith)
      ∙ ap (λ t. t % m) (omega arith)
      ∙ mod-eq_of_lt lt)

-- A carry as a number and as a test.
carry_bit : (c v s r : ℕ) → v + c * r ≡ s → c ≤ 1 → s ≡ v + (if c != 0 then r else 0)
carry_bit zero v s r e h = omega arith
carry_bit (suc zero) v s r e h = omega arith
carry_bit (suc (suc c)) v s r e h = absurd (omega arith)

doubled :
    (n : ℕ) (base : Bignum)
    → 0 < n
    → IsWords n base
    → 2 * value n base
      ≡ value n (shl1_from n 0 base) + (if test_bit (get_or base (n - 1) 0) 31 then radix n else 0)
doubled zero base pos h = absurd (omega arith)
doubled (suc n) base pos h =
    let top : suc n - 1 ≡ n = omega arith in
    let bound = IsWords-at (suc n) n base h (omega arith) in
    let bit : get_or base n 0 / 2 ^ 31 % 2 ≡ get_or base n 0 / 2 ^ 31 = omega arith in
    let out = shl1_from (suc n) 0 base in
    rw top (
      subst
        (λ (t : ℕ).
          2 * value (suc n) base ≡ value (suc n) out + (if t != 0 then radix (suc n) else 0))
        (sym bit)
        (carry_bit (get_or base n 0 / 2 ^ 31) _ _ _
          (shl1_from-value n 0 base h (omega arith) ∙ omega arith) (omega arith)))

module _ (m : Bignum) (words : ℕ) (hm : IsWords words m) where
  -- A number below twice the modulus, of which `lost` says whether a 1 left the top word.
  record IsReduced (a : Bignum) (s : ℕ) : Type 0 where
    words_in : IsWords words a
    below : value words a < value words m
    same : (value words a ≡ s) ⊎ (value words a + value words m ≡ s)

  reduce_once-IsReduced :
      (lost : Bool) (a : Bignum) (s : ℕ)
      → IsWords words a
      → s ≡ value words a + (if lost then radix words else 0)
      → s < value words m + value words m
      → IsReduced (reduce_once lost m words a) s
  unfolding reduce_once bn_sub_w
  reduce_once-IsReduced lost a s ha e small =
      let sub_in = sub_from-IsWords words 0 a a m ha ha hm (omega arith) in
      let bound = value-lt-radix words (sub_from words 0 a a m) sub_in in
      let size_a = value-lt-radix words a ha in
      let size_m = value-lt-radix words m hm in
      let sub = sub_from-value words 0 a a m ha ha hm (omega arith) in
      let order = bn_cmp_w-value words a m ha hm in
      record {
        words_in = ground (arith, sub_in);
        below = ground (arith, order, bound, size_a, size_m, sub);
        same = ground (arith, order, bound, size_a, size_m, sub);
      }

  -- `result = (result + base) mod m`
  pub add_reduce_lem :
      (junk a b : Bignum)
      → IsWords words junk
      → IsWords words a
      → IsWords words b
      → value words a < value words m
      → value words b < value words m
      → IsWords words (add_reduce junk m words a b)
        × (value words (add_reduce junk m words a b)
            ≡ (value words a + value words b) % value words m)
  unfolding add_reduce
  add_reduce_lem junk a b hj ha hb la lb =
      let sum = (add_from words 0 junk a b).0 in
      let carry = (add_from words 0 junk a b).1 in
      let exact = add_from-value words 0 junk a b hj ha hb (omega arith) in
      let once =
        reduce_once-IsReduced (carry != 0) sum (value words a + value words b)
          (add_from-IsWords words 0 junk a b hj ha hb)
          (carry_bit carry _ _ _ (omega (arith, exact.0)) exact.1) (omega arith) in
      let first = reduce_once (carry != 0) m words sum in
      let twice =
        reduce_once-IsReduced false first (value words first) once.words_in (omega arith)
          (omega (arith, once.below)) in
      (
        twice.words_in,
        reduced _ _ _ twice.below (omega (arith, once.below, once.same, twice.same, twice.below)),
      )

  -- `base = (base * 2) mod m`
  pub double_reduce_lem :
      (base : Bignum)
      → 0 < words
      → IsWords words base
      → value words base < value words m
      → IsWords words (double_reduce m words base)
        × (value words (double_reduce m words base) ≡ (2 * value words base) % value words m)
  unfolding double_reduce bn_shl1_w
  double_reduce_lem base pos hb lb =
      let overflow = test_bit (get_or base (words - 1) 0) 31 in
      let once =
        reduce_once-IsReduced overflow (shl1_from words 0 base) (2 * value words base)
          (shl1_from-IsWords words 0 base hb (omega arith)) (doubled words base pos hb)
          (omega arith) in
      (once.words_in, reduced _ _ _ once.below once.same)
