-- ===== src/Bignum/Exp/Loop.antt =====
-- Square and multiply: `bn_modexp` raises its base to its exponent modulo m.
use aioperatingsystem.Common.{
  ℕ, zero, suc, ◌+◌, ◌*◌, ◌/◌, ◌%◌, ◌^◌, ◌≤◌, ◌<◌, ◌≡◌, ◌≢◌, refl, ◌∙◌, ap, sym, subst, arith, set,
  Option, none, some, Bool-cases, inl, inr, if◌then◌else◌, Bool, true, false, ltb,
}
use aioperatingsystem.Common.Modular.{mod_cong_mul, mod_cong_pow, pow_double}
use native.Mathlib.Nat.{mod-eq_of_lt, mod-lt, mod-mod, pow-suc, add-mod_right, pow-zero}
use aioperatingsystem.Bignum.{
  Bignum, bignum_words, bn_zero, bn_cmp_w, is_ge, sub_from, bn_sub_w, bn_mulmod_w,
}
use aioperatingsystem.Bignum.Value.{
  value, IsWords, value-lt-radix, IsWords-mono, unit-IsWords, unit-value,
}
use aioperatingsystem.Bignum.AddSub.{sub_from-IsWords, sub_from-value}
use aioperatingsystem.Bignum.Compare.{bn_cmp_w-value}
use aioperatingsystem.Bignum.Mulmod.{bn_mulmod_w-value}
use aioperatingsystem.Bignum.Exp.{
  reduce_loop, reduce_below, exp_loop, exp_bits, bn_bit_length, bn_sig_words, bn_modexp,
  bit_length_from,
}
use aioperatingsystem.Bignum.Exp.Width.{bit_length_from-some, bit_length_from-none, sig_words_cover}
use aioperatingsystem.Bignum.Exp.Bits.{bit_at, bits_from, bits_from-value}

module _ (m : Bignum) (words : ℕ) (hm : IsWords words m) (nonzero : value words m ≢ 0) where
  sub_modulus :
      (b : Bignum)
      → IsWords words b
      → value words m ≤ value words b
      → IsWords words (bn_sub_w b b m words)
        × (value words (bn_sub_w b b m words) + value words m ≡ value words b)
  unfolding bn_sub_w
  sub_modulus b hb le =
      let inside = sub_from-IsWords words 0 b b m hb hb hm (omega arith) in
      (
        inside,
        ground (
          arith,
          value-lt-radix words (sub_from words 0 b b m) inside,
          sub_from-value words 0 b b m hb hb hm (omega arith),
        ),
      )

  -- With fuel above its value the reduction loop ends by its test, at the remainder.
  reduce_loop_lem :
      (fuel : ℕ) (b : Bignum)
      → IsWords words b
      → value words b < fuel
      → IsWords words (reduce_loop fuel m words b)
        × (value words (reduce_loop fuel m words b) ≡ value words b % value words m)
  unfolding reduce_loop
  reduce_loop_lem zero b hb h = absurd (omega arith)
  reduce_loop_lem (suc fuel) b hb h = elim (Bool-cases (is_ge (bn_cmp_w b m words))) [
    | inl ge ↦
        let sub = sub_modulus b hb (ground (arith, bn_cmp_w-value words b m hb hm)) in
        let rest = reduce_loop_lem fuel (bn_sub_w b b m words) sub.0 (omega (arith, sub.1)) in
        rw ge (rest.0, rest.1 ∙ reduced_once _ _ _ sub.1)
    | inr lt ↦ rw lt (hb, sym (mod-eq_of_lt (ground (arith, bn_cmp_w-value words b m hb hm))))
  ]
    where
      reduced_once : (v m s : ℕ) → v + m ≡ s → v % m ≡ s % m
      reduced_once v m s e = sym (add-mod_right v m) ∙ ap (λ t. t % m) e

-- `reduce_below` is the remainder by a modulus that is not zero.
pub reduce_below_lem :
    (m : Bignum) (words : ℕ)
    → IsWords words m
    → value words m ≢ 0
    → (b : Bignum) → IsWords words b
    → IsWords words (reduce_below m words b)
      × (value words (reduce_below m words b) ≡ value words b % value words m)
unfolding reduce_below
reduce_below_lem m words hm nonzero b hb =
    reduce_loop_lem m words hm nonzero (suc (value words b)) b hb (omega arith)

-- What one round does to R * A ^ Q.
round_lem :
    (t : Bool) (r a r' a' q m : ℕ)
    → r' % m ≡ (if t then r * a else r) % m
    → (a' ^ q) % m ≡ (a ^ (2 * q)) % m
    → (r' * a' ^ q) % m ≡ (r * a ^ ((if t then 1 else 0) + 2 * q)) % m
round_lem t r a r' a' q m er ea =
    mod_cong_mul r' (if t then r * a else r) (a' ^ q) (a ^ (2 * q)) m er ea
    ∙ ap (λ u. u % m) (regroup t)
  where
    one_more : (q : ℕ) → 1 + 2 * q ≡ suc (2 * q)
    one_more q = omega arith

    regroup :
        (t : Bool) → (if t then r * a else r) * a ^ (2 * q) ≡ r * a ^ ((if t then 1 else 0) + 2 * q)
    regroup true =
        omega
          (arith, ap (λ (t : ℕ). r * t) (ap (λ (t : ℕ). a ^ t) (one_more q) ∙ pow-suc a (2 * q)))
    regroup false = ap (λ (t : ℕ). r * a ^ t) (let e : 2 * q ≡ 0 + 2 * q = omega arith in e)

last_bit :
    (left i top : ℕ) (exp : Bignum)
    → i + suc left ≡ top + 1
    → ltb i top ≡ false
    → bits_from exp left (i + 1) ≡ 0
unfolding bits_from
last_bit zero i top exp e h = refl
last_bit (suc left) i top exp e h = ground arith

module _ (junk : ℕ → ℕ → Bignum) (exp m : Bignum) (words top : ℕ) (hm : IsWords words m)
    (pos : 0 < words) (small : words ≤ bignum_words)
    (hj : (k i : ℕ) → IsWords words (junk k i)) where
  mul_lem :
      (k : ℕ) (a b : Bignum)
      → IsWords words a
      → IsWords words b
      → value words a < value words m
      → let p = bn_mulmod_w (junk k) m words a b in
        IsWords words p
        × (value words p ≡ value words a * value words b % value words m)
        × (value words p < value words m)
  mul_lem k a b ha hb la =
      let p = bn_mulmod_w-value (junk k) m words hm pos (hj k) a b ha hb small la in
      (p.0, p.1, rw (p.1) (mod-lt _ (omega arith)))

  -- `result` after one round.
  taken_lem :
      (t : Bool) (k : ℕ) (r b : Bignum)
      → IsWords words r
      → IsWords words b
      → value words r < value words m
      → let r' = (if t then bn_mulmod_w (junk k) m words r b else r) in
        IsWords words r'
        × (value words r' < value words m)
        × (value words r' % value words m
            ≡ (if t then value words r * value words b else value words r) % value words m)
  taken_lem true k r b hr hb lr =
      let p = mul_lem k r b hr hb lr in (p.0, p.2, rw (p.1) (mod-mod _ _))
  taken_lem false k r b hr hb lr = (hr, lr, refl)

  -- `b` after one round; the last squaring is left out, where no bit is left.
  squared_lem :
      (t : Bool) (k q : ℕ) (b : Bignum)
      → IsWords words b
      → value words b < value words m
      → (t ≡ false → q ≡ 0)
      → let b' = (if t then bn_mulmod_w (junk k) m words b b else b) in
        IsWords words b'
        × (value words b' < value words m)
        × (value words b' ^ q % value words m ≡ value words b ^ (2 * q) % value words m)
  squared_lem true k q b hb lb last =
      let p = mul_lem k b b hb hb lb in
      (
        p.0,
        p.2,
        mod_cong_pow _ (value words b * value words b) q (value words m) (rw (p.1) (mod-mod _ _))
            ∙ ap (λ t. t % value words m) (pow_double (value words b) q),
      )
  squared_lem false k q b hb lb last =
      (hb, lb, rw (last refl) (ap (λ t. value words b ^ t % value words m) (omega arith)))

  exp_loop_lem :
      (left i : ℕ) (r b : Bignum)
      → i + left ≡ top + 1
      → IsWords words r
      → IsWords words b
      → value words r < value words m
      → value words b < value words m
      → let p = exp_loop junk exp m words top left i r b in
        IsWords words p
        × (value words p ≡ value words r * value words b ^ bits_from exp left i % value words m)
  unfolding exp_loop bits_from
  exp_loop_lem zero i r b e hr hb lr lb =
      (hr, sym (ap (λ t. t % value words m) one ∙ mod-eq_of_lt lr))
    where
      one : value words r * value words b ^ 0 ≡ value words r
      one = rw pow-zero (omega arith)
  exp_loop_lem (suc left) i r b e hr hb lr lb =
      let t = bit_at exp i in
      let q = bits_from exp left (i + 1) in
      let r' = taken_lem t (2 * i) r b hr hb lr in
      let b' = squared_lem (ltb i top) (2 * i + 1) q b hb lb (last_bit left i top exp e) in
      let rest = exp_loop_lem left (i + 1) _ _ (omega arith) r'.0 b'.0 r'.1 b'.1 in
      (rest.0, rest.1 ∙ round_lem t (value words r) (value words b) _ _ q (value words m) r'.2 b'.2)

module _ (junk : ℕ → ℕ → Bignum) (exp m : Bignum) (words : ℕ) (hm : IsWords words m)
    (pos : 0 < words) (small : words ≤ bignum_words) (hj : (k i : ℕ) → IsWords words (junk k i))
    (he : IsWords bignum_words exp) (big : 1 < value words m) where
  exp_bits_lem :
      (b : Bignum) (found : Option ℕ)
      → IsWords words b
      → value words b < value words m
      → bit_length_from exp bignum_words ≡ found
      → let p = exp_bits junk exp m words (set bn_zero 0 1) b found in
        IsWords words p × (value words p ≡ value words b ^ value bignum_words exp % value words m)
  unfolding exp_bits
  exp_bits_lem b none hb lb e = (
    unit-IsWords words small,
    unit-value words pos
        ∙ sym (mod-eq_of_lt big)
        ∙ ap (λ t. t % value words m)
            (sym (rw (bit_length_from-none exp bignum_words he e) (pow-zero (value words b)))),
  )
  exp_bits_lem b (some top) hb lb e =
      let range = bit_length_from-some exp bignum_words top he e in
      let one = unit-value words pos in
      let loop =
        exp_loop_lem junk exp m words top hm pos small hj (top + 1) 0 (set bn_zero 0 1) b
          (omega arith) (unit-IsWords words small) hb (rw one big) lb in
      (
        loop.0,
        loop.1
            ∙ ap (λ t. t % value words m)
                (all_bits _ _ _ _ one (
                  bits_from-value (top + 1) 0 bignum_words exp he
                    (bit_bound top bignum_words range.0)
                    (subst (λ t. value bignum_words exp < 2 ^ t) (top_plus top) range.2))),
      )
    where
      top_plus : (t : ℕ) → t + 1 ≡ 0 + (t + 1)
      top_plus t = omega arith

      bit_bound : (t n : ℕ) → t / 32 < n → 0 + (t + 1) ≤ n * 32
      bit_bound t n h = omega arith

      all_bits : (r v q e : ℕ) → r ≡ 1 → q ≡ e / 2 ^ 0 → r * v ^ q ≡ v ^ e
      all_bits r v q e hr hq =
          rw (hr, hq) (ap (λ t. 1 * v ^ t) (let z : e / 2 ^ 0 ≡ e = omega arith in z) ∙ omega arith)

-- For a modulus above 1, `bn_modexp` returns the power of its base, of which it reads the words
-- that the modulus has, modulo the modulus; and it does so whatever the stack holds.
pub bn_modexp-value :
    (junk : ℕ → ℕ → Bignum) (base exp m : Bignum)
    → IsWords bignum_words base
    → IsWords bignum_words exp
    → IsWords bignum_words m
    → ((k i : ℕ) → IsWords bignum_words (junk k i))
    → 1 < value bignum_words m
    → let words = bn_sig_words (bn_bit_length m) in
      IsWords words (bn_modexp junk base exp m)
      × (value words (bn_modexp junk base exp m)
          ≡ value words base ^ value bignum_words exp % value bignum_words m)
unfolding bn_modexp
bn_modexp-value junk base exp m hb he hm hj big =
    let words = bn_sig_words (bn_bit_length m) in
    let (pos, small, same) = sig_words_cover m hm (λ z. absurd (omega (arith, z))) in
    let narrow =
      λ (a : Bignum) (h : IsWords bignum_words a). IsWords-mono words bignum_words a small h in
    let wide : 1 < value words m = rw same big in
    let start =
      reduce_below_lem m words (narrow m hm) (λ z. absurd (omega arith)) base (narrow base hb) in
    let power =
      exp_bits_lem junk exp m words (narrow m hm) pos small (λ k i. narrow (junk k i) (hj k i)) he
        wide _ (bn_bit_length exp) start.0 (rw (start.1) (mod-lt _ (omega arith)))
        (unfold bn_bit_length in refl) in
    (
      power.0,
      power.1
          ∙ mod_cong_pow _ _ (value bignum_words exp) (value words m) (rw (start.1) (mod-mod _ _))
          ∙ ap (λ t. value words base ^ value bignum_words exp % t) same,
    )
