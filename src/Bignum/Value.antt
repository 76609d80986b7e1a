-- ===== src/Bignum/Value.antt =====
-- The number that the low words of a bignum stand for.
use aioperatingsystem.Common.{
  ℕ, zero, suc, ◌+◌, ◌*◌, ◌^◌, ◌<◌, ◌≤◌, ◌≡◌, ◌↔◌, refl, [], ◌∷◌, true, get_or, set, replicate,
  arith,
}
use native.Mathlib.Numerals.{add-one}
use aioperatingsystem.Bignum.{Bignum, bignum_words, bn_zero, all_zero_from, bn_is_zero}

-- 2 ^ (32 * n)
abbrev pub radix : ℕ → ℕ
radix zero = 1
radix (suc n) = 2 ^ 32 * radix n

abbrev pub value : ℕ → Bignum → ℕ
value zero a = 0
value (suc n) [] = 0
value (suc n) (w ∷ ws) = w + 2 ^ 32 * value n ws

-- The first `n` words are there, and are of 32 bits.
abbrev pub IsWords : ℕ → Bignum → Type 0
IsWords zero a = Unit {0}
IsWords (suc n) [] = ⊥
IsWords (suc n) (w ∷ ws) = (w < 2 ^ 32) × IsWords n ws

pub value-lt-radix : (n : ℕ) (a : Bignum) → IsWords n a → value n a < radix n
value-lt-radix zero a h = omega arith
value-lt-radix (suc n) [] h = absurd h
value-lt-radix (suc n) (w ∷ ws) h = omega (arith, value-lt-radix n ws h.1)

-- Seen from the top word.
pub value_top :
    (n : ℕ) (a : Bignum) → IsWords (suc n) a → value (suc n) a ≡ value n a + get_or a n 0 * radix n
value_top zero (w ∷ ws) h = omega arith
value_top (suc n) (w ∷ []) h = absurd h.1
value_top (suc n) (w ∷ v ∷ ws) h = omega (arith, value_top n (v ∷ ws) h.1)
value_top n [] h = absurd h

pub IsWords-low : (n : ℕ) (a : Bignum) → IsWords (suc n) a → IsWords n a
IsWords-low zero a h = tt
IsWords-low (suc n) [] h = absurd h
IsWords-low (suc n) (w ∷ ws) h = (h.0, IsWords-low n ws h.1)

pub IsWords-at : (n i : ℕ) (a : Bignum) → IsWords n a → i < n → get_or a i 0 < 2 ^ 32
IsWords-at zero i a h lt = absurd (omega arith)
IsWords-at (suc n) i [] h lt = absurd h
IsWords-at (suc n) zero (w ∷ ws) h lt = h.0
IsWords-at (suc n) (suc i) (w ∷ ws) h lt = IsWords-at n i ws h.1 (omega arith)

value-replicate : (n k : ℕ) → value n (replicate k 0) ≡ 0
value-replicate zero k = refl
value-replicate (suc n) zero = refl
value-replicate (suc n) (suc k) = omega (arith, value-replicate n k)

IsWords-replicate : (n k w : ℕ) → w < 2 ^ 32 → n ≤ k → IsWords n (replicate k w)
IsWords-replicate zero k w h le = tt
IsWords-replicate (suc n) zero w h le = absurd (omega arith)
IsWords-replicate (suc n) (suc k) w h le = (h, IsWords-replicate n k w h (omega arith))

pub bn_zero-value : (n : ℕ) → value n bn_zero ≡ 0
unfolding bn_zero
bn_zero-value n = value-replicate n bignum_words

pub bn_zero-IsWords : (n : ℕ) → n ≤ bignum_words → IsWords n bn_zero
unfolding bn_zero
bn_zero-IsWords n h = IsWords-replicate n bignum_words 0 (omega arith) h

pub radix-pos : (n : ℕ) → 0 < radix n
radix-pos zero = omega arith
radix-pos (suc n) = omega (arith, radix-pos n)

-- The constant 1 of `bn_modexp`, as `bn_zero` and one write make it.
pub unit-IsWords : (n : ℕ) → n ≤ bignum_words → IsWords n (set bn_zero 0 1)
unfolding bn_zero
unit-IsWords zero le = tt
unit-IsWords (suc n) le = (omega arith, IsWords-replicate n 127 0 (omega arith) (omega arith))

pub unit-value : (n : ℕ) → 0 < n → value n (set bn_zero 0 1) ≡ 1
unfolding bn_zero
unit-value zero pos = absurd (omega arith)
unit-value (suc n) pos = omega (arith, value-replicate n 127)

pub IsWords-mono : (n k : ℕ) (a : Bignum) → n ≤ k → IsWords k a → IsWords n a
IsWords-mono zero k a le h = tt
IsWords-mono (suc n) zero a le h = absurd (omega arith)
IsWords-mono (suc n) (suc k) [] le h = h
IsWords-mono (suc n) (suc k) (w ∷ ws) le h = (h.0, IsWords-mono n k ws (omega arith) h.1)

get_or-replicate : (k i : ℕ) → get_or {A = ℕ} (replicate k 0) i 0 ≡ 0
get_or-replicate zero i = refl
get_or-replicate (suc k) zero = refl
get_or-replicate (suc k) (suc i) = get_or-replicate k i

pub bn_zero-at : (i : ℕ) → get_or bn_zero i 0 ≡ 0
unfolding bn_zero
bn_zero-at i = get_or-replicate bignum_words i

-- A number that fits in fewer words is read from those.
pub value-narrow :
    (n k : ℕ) (a : Bignum) → n ≤ k → IsWords k a → value k a < radix n → value n a ≡ value k a
value-narrow zero k a le h small = omega arith
value-narrow (suc n) zero a le h small = absurd (omega arith)
value-narrow (suc n) (suc k) [] le h small = absurd h
value-narrow (suc n) (suc k) (w ∷ ws) le h small =
    omega (arith, value-narrow n k ws (omega arith) h.1 (omega arith))

all_zero_from-cons :
    (x : ℕ) (xs : Bignum) (n i : ℕ) → all_zero_from (x ∷ xs) n (suc i) ≡ all_zero_from xs n i
unfolding all_zero_from
all_zero_from-cons x xs zero i = refl
all_zero_from-cons x xs (suc n) i = rw (add-one, add-one, all_zero_from-cons x xs n (suc i))

all_zero_from-value :
    (n : ℕ) (a : Bignum) → IsWords n a → (all_zero_from a n 0 ≡ true) ↔ (value n a ≡ 0)
unfolding all_zero_from
all_zero_from-value zero a h = (λ _. refl, λ _. refl)
all_zero_from-value (suc n) [] h = absurd h
all_zero_from-value (suc n) (w ∷ ws) h =
    ground (arith, all_zero_from-cons w ws n 0, all_zero_from-value n ws h.1)

-- `bn_is_zero` decides whether the number is 0.
pub bn_is_zero_iff :
    (a : Bignum) → IsWords bignum_words a → (bn_is_zero a ≡ true) ↔ (value bignum_words a ≡ 0)
unfolding bn_is_zero
bn_is_zero_iff a h = all_zero_from-value bignum_words a h
