-- ===== src/Bignum/Bytes/ToBytes.antt =====
-- `bn_to_bytes` writes the number, modulo 256 to the number of bytes.
use aioperatingsystem.Common.{
  ℕ, zero, suc, ◌+◌, ◌*◌, ◌/◌, ◌%◌, ◌^◌, ◌≤◌, ◌<◌, ◌≡◌, refl, ◌∙◌, ap, sym, arith, get_or, [], ◌∷◌,
  List, length, ltb, true,
}
use native.Mathlib.Nat.{
  pow-succ', div-div-eq-div-mul, div-add-mod', add-mul-mod_self_right, mod-eq_of_lt, mod-lt,
  one-le-pow,
}
use aioperatingsystem.Bignum.{Bignum, bignum_words}
use aioperatingsystem.Bignum.Value.{value, IsWords}
use aioperatingsystem.Bignum.Bytes.{byte_of, bn_to_bytes}

-- The number that big-endian bytes stand for.
abbrev pub be_value : List ℕ → ℕ
be_value [] = 0
be_value (b ∷ bs) = b * 256 ^ length bs + be_value bs

pub length-bn_to_bytes : (a : Bignum) (n : ℕ) → length (bn_to_bytes a n) ≡ n
unfolding bn_to_bytes
length-bn_to_bytes a zero = refl
length-bn_to_bytes a (suc n) = ap suc (length-bn_to_bytes a n)

-- Bytes past the low word.
skip_word :
    (w v k : ℕ) → w < 2 ^ 32 → (w + 2 ^ 32 * v) / 256 ^ suc (suc (suc (suc k))) ≡ v / 256 ^ k
skip_word w v k h =
    rw (four, ← div-div-eq-div-mul)
      (ap (λ t. t / 256 ^ k) (let e : (w + 2 ^ 32 * v) / 2 ^ 32 ≡ v = omega arith in e))
  where
    four : 256 ^ suc (suc (suc (suc k))) ≡ 2 ^ 32 * 256 ^ k
    four = omega (
      arith,
      pow-succ' 256 (suc (suc (suc k))),
      pow-succ' 256 (suc (suc k)),
      pow-succ' 256 (suc k),
      pow-succ' 256 k,
    )

byte_at-value :
    (n pos : ℕ) (a : Bignum)
    → IsWords n a
    → pos < n * 4
    → value n a / 256 ^ pos % 256 ≡ get_or a (pos / 4) 0 / 2 ^ (pos % 4 * 8) % 256
byte_at-value zero pos a h lt = absurd (omega arith)
byte_at-value (suc n) pos [] h lt = absurd h
byte_at-value (suc n) zero (w ∷ ws) h lt = omega arith
byte_at-value (suc n) (suc zero) (w ∷ ws) h lt = omega arith
byte_at-value (suc n) (suc (suc zero)) (w ∷ ws) h lt = omega arith
byte_at-value (suc n) (suc (suc (suc zero))) (w ∷ ws) h lt = omega arith
byte_at-value (suc n) (suc (suc (suc (suc k)))) (w ∷ ws) h lt =
    let word : suc (suc (suc (suc k))) / 4 ≡ suc (k / 4) = omega arith in
    let bit : suc (suc (suc (suc k))) % 4 ≡ k % 4 = omega arith in
    rw (word, bit, skip_word w (value n ws) k h.0) (byte_at-value n k ws h.1 (omega arith))

-- One more digit of a remainder.
mod_digit : (v p : ℕ) → 0 < p → v / p % 256 * p + v % p ≡ v % (256 * p)
mod_digit v p pos =
    let r = v / p % 256 * p + v % p in
    let small : r < 256 * p = grind (arith, mod-lt v pos) in
    let whole : v ≡ r + v / p / 256 * (256 * p) =
      omega (arith, div-add-mod' v p, ap (λ (t : ℕ). t * p) (div-add-mod' (v / p) 256)) in
    sym (
      ap (λ t. t % (256 * p)) whole
      ∙ add-mul-mod_self_right r (v / p / 256) (256 * p)
      ∙ mod-eq_of_lt small)

pub bn_to_bytes-value :
    (a : Bignum) (words n : ℕ)
    → IsWords words a
    → words ≤ bignum_words
    → n ≤ words * 4
    → be_value (bn_to_bytes a n) ≡ value words a % 256 ^ n
unfolding bn_to_bytes byte_of
bn_to_bytes-value a words zero h small le = omega arith
bn_to_bytes-value a words (suc n) h small le =
    let inside : ltb (n / 4) bignum_words ≡ true = ground arith in
    let rest = bn_to_bytes-value a words n h small (omega arith) in
    let digit = byte_at-value words n a h (omega arith) in
    rw (inside, length-bn_to_bytes a n, rest, ← digit)
      (mod_digit (value words a) (256 ^ n) (one-le-pow n 256 (omega arith))
        ∙ ap (λ t. value words a % t) (sym (pow-succ' 256 n)))
