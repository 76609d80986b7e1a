-- ===== src/Bignum/Exp/Width.antt =====
-- `bn_sig_words` covers a modulus, and `bn_bit_length` finds its top bit.
use aioperatingsystem.Common.{
  ℕ, zero, suc, ◌+◌, ◌*◌, ◌/◌, ◌%◌, ◌^◌, ◌≤◌, ◌<◌, ◌≡◌, ◌≢◌, refl, ◌∙◌, ap, sym, arith, get_or,
  none, some, ◌!=◌, test_bit, Bool-cases, inl, inr, if◌then◌else◌, ltb, false, Option-cases,
}
use native.Mathlib.Nat.{pow-suc, mul_assoc, add-zero, add-suc}
use aioperatingsystem.Bignum.{Bignum, bignum_words}
use aioperatingsystem.Bignum.Value.{
  radix, value, IsWords, IsWords-low, IsWords-at, value-lt-radix, value_top, radix-pos,
}
use aioperatingsystem.Bignum.Exp.{high_bit, bit_length_from, bn_bit_length, bn_sig_words}

high_bit-le : (w k : ℕ) → high_bit w k ≤ k
unfolding high_bit
high_bit-le w zero = omega arith
high_bit-le w (suc k) = ground (arith, high_bit-le w k)

-- No bit above the one found is set.
high_bit-bound : (w k : ℕ) → w < 2 ^ suc k → w < 2 ^ suc (high_bit w k)
unfolding high_bit
high_bit-bound w zero h = h
high_bit-bound w (suc k) h = elim (Bool-cases (test_bit w (suc k))) [
  | inl e ↦ rw e h
  | inr e ↦ rw e (high_bit-bound w k (clear_top (ground arith)))
]
  where
    clear_top : w / 2 ^ suc k % 2 ≡ 0 → w < 2 ^ suc k
    clear_top z = grind (arith, pow-suc 2 (suc k))

pub pow-add : (a b : ℕ) → 2 ^ (a + b) ≡ 2 ^ a * 2 ^ b
pow-add a zero = rw (add-zero) (omega arith)
pow-add a (suc b) =
    ap (λ t. 2 ^ t) (add-suc a b)
    ∙ pow-suc 2 (a + b)
    ∙ ap (λ (t : ℕ). t * 2) (pow-add a b)
    ∙ mul_assoc (2 ^ a) (2 ^ b) 2
    ∙ ap (λ (t : ℕ). 2 ^ a * t) (sym (pow-suc 2 b))

pub radix-pow : (n : ℕ) → radix n ≡ 2 ^ (n * 32)
radix-pow zero = refl
radix-pow (suc n) =
    omega (arith, radix-pow n, pow-add 32 (n * 32), ap (λ (t : ℕ). 2 ^ t) (regroup n))
  where
    regroup : (n : ℕ) → suc n * 32 ≡ 32 + n * 32
    regroup n = omega arith

-- A number whose top word is `w`, and the top bit of that is bit `k`.
top_word_bound :
    (v r w i k : ℕ) → v < r → r ≡ 2 ^ (i * 32) → w < 2 ^ suc k → v + w * r < 2 ^ (i * 32 + k + 1)
top_word_bound v r w i k hv hr hw = rw (split) (grind (arith, product))
  where
    split : 2 ^ (i * 32 + k + 1) ≡ r * 2 ^ suc k
    split =
        ap (λ (t : ℕ). 2 ^ t) (omega arith)
        ∙ pow-add (i * 32) (suc k)
        ∙ ap (λ (t : ℕ). t * 2 ^ suc k) (sym hr)

    product : (w + 1) * r ≤ r * 2 ^ suc k
    product = grind arith

nonzero_top : (r w : ℕ) → 0 < r → w ≢ 0 → w * r ≢ 0
nonzero_top r w hr hw = grind arith

-- What the search for the top bit finds, from word k - 1 down.
pub bit_length_from-some :
    (a : Bignum) (k n : ℕ)
    → IsWords k a
    → bit_length_from a k ≡ some n
    → (n / 32 < k)
      × (value k a ≡ value (n / 32 + 1) a)
      × (value k a < 2 ^ (n + 1))
      × (value k a ≢ 0)
unfolding bit_length_from
bit_length_from-some a zero n h e = absurd (ground arith)
bit_length_from-some a (suc i) n h e = elim (Bool-cases (get_or a i 0 != 0)) [
  | inl nonzero ↦
      let w = get_or a i 0 in
      let found : i * 32 + high_bit w 31 ≡ n = ground arith in
      let top = high_bit-le w 31 in
      let word : n / 32 ≡ i = omega arith in
      let bound =
        top_word_bound (value i a) (radix i) w i (high_bit w 31)
          (value-lt-radix i a (IsWords-low i a h)) (radix-pow i)
          (high_bit-bound w 31 (IsWords-at (suc i) i a h (omega arith))) in
      (
        omega arith,
        ap (λ (t : ℕ). value t a) (let e : suc i ≡ n / 32 + 1 = omega arith in e),
        rw (value_top i a h, ← found) bound,
        λ z. nonzero_top (radix i) w (radix-pos i) (ground arith) (omega (arith, value_top i a h)),
      )
  | inr clear ↦
      let rest = bit_length_from-some a i n (IsWords-low i a h) (ground arith) in
      let same : value (suc i) a ≡ value i a = rw (value_top i a h) (ground arith) in
      rw same (omega arith, rest.1, rest.2, rest.3)
]

pub bit_length_from-none :
    (a : Bignum) (k : ℕ) → IsWords k a → bit_length_from a k ≡ none → value k a ≡ 0
unfolding bit_length_from
bit_length_from-none a zero h e = refl
bit_length_from-none a (suc i) h e =
    rw (value_top i a h) (ground (arith, bit_length_from-none a i (IsWords-low i a h)))

covered :
    (k w : ℕ) (m : Bignum)
    → w ≤ k
    → value w m ≡ value k m
    → 0 < w
    → let words = (if ltb k w then k else w) in
      (0 < words) × (words ≤ k) × (value words m ≡ value k m)
covered k w m le e pos = let fits : ltb k w ≡ false = ground arith in rw fits (pos, le, e)

-- The words that `bn_sig_words` counts hold all of a modulus that is not zero.
pub sig_words_cover :
    (m : Bignum)
    → IsWords bignum_words m
    → value bignum_words m ≢ 0
    → let words = bn_sig_words (bn_bit_length m) in
      (0 < words) × (words ≤ bignum_words) × (value words m ≡ value bignum_words m)
unfolding bn_bit_length bn_sig_words
sig_words_cover m h nonzero = elim (Option-cases (bit_length_from m bignum_words)) [
  | inl e ↦ absurd (nonzero (bit_length_from-none m bignum_words h e))
  | inr (n, e) ↦
      let found = bit_length_from-some m bignum_words n h e in
      rw e
        (covered bignum_words (n / 32 + 1) m (omega (arith, found.0)) (sym found.1) (omega arith))
]
