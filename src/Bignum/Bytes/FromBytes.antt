-- ===== src/Bignum/Bytes/FromBytes.antt =====
-- `bn_from_bytes` reads the number that the bytes stand for.
use Prim.Native.Nat.{bit_or}
use mathlib.Core.List.{reverse, reverse-cons}
use aioperatingsystem.Common.{
  ℕ, zero, suc, ◌+◌, ◌*◌, ◌%◌, ◌^◌, ◌≤◌, ◌<◌, ◌≡◌, refl, ◌∙◌, ap, arith, get_or, set, [], ◌∷◌, ◌++◌,
  List, length, length-append, ltb, lt→ltb, true, false, ◌==◌, ==_iff, All, get_or-set_self,
  get_or-set_ne,
}
use aioperatingsystem.Common.Bits.{bit_or_low_field}
use native.Mathlib.Nat.{pow-succ', mod-eq_of_lt, one-le-pow, pow-le-pow_right, mul-le-mul_right}
use native.Mathlib.Decide.{dec_lt}
use native.Mathlib.Numerals.{add-one}
use aioperatingsystem.Bignum.Exp.Width.{pow-add}
use aioperatingsystem.Bignum.{Bignum, bignum_words, bn_zero}
use aioperatingsystem.Bignum.Value.{
  radix, value, IsWords, bn_zero-value, bn_zero-IsWords, bn_zero-at,
}
use aioperatingsystem.Bignum.Bytes.{from_bytes_loop, bn_from_bytes}
use aioperatingsystem.Bignum.Bytes.ToBytes.{be_value}

abbrev pub IsBytes : List ℕ → Type 0
IsBytes = All (λ b. b < 256)

-- The number that little-endian bytes stand for.
abbrev le_value : List ℕ → ℕ
le_value [] = 0
le_value (b ∷ bs) = b + 256 * le_value bs

le_value-append :
    (bs : List ℕ) (b : ℕ) → le_value (bs ++ (b ∷ [])) ≡ le_value bs + b * 256 ^ length bs
le_value-append [] b = omega arith
le_value-append (c ∷ bs) b =
    omega (arith, le_value-append bs b, ap (λ (t : ℕ). b * t) (pow-succ' 256 (length bs)))

length-reverse : (bs : List ℕ) → length (reverse bs) ≡ length bs
length-reverse [] = refl
length-reverse (b ∷ bs) =
    rw reverse-cons (omega (arith, length-append (reverse bs) (b ∷ []), length-reverse bs))

le_value-reverse : (bs : List ℕ) → le_value (reverse bs) ≡ be_value bs
le_value-reverse [] = refl
le_value-reverse (b ∷ bs) =
    rw (reverse-cons, le_value-append, length-reverse bs, le_value-reverse bs) (omega arith)

pub IsBytes-append : (xs ys : List ℕ) → IsBytes xs → IsBytes ys → IsBytes (xs ++ ys)
IsBytes-append [] ys h k = k
IsBytes-append (x ∷ xs) ys h k = (h.0, IsBytes-append xs ys h.1 k)

reverse-IsBytes : (bs : List ℕ) → IsBytes bs → IsBytes (reverse bs)
reverse-IsBytes [] h = h
reverse-IsBytes (b ∷ bs) h =
    rw reverse-cons (IsBytes-append (reverse bs) (b ∷ []) (reverse-IsBytes bs h.1) (h.0, tt))

set-IsWords : (n i v : ℕ) (a : Bignum) → IsWords n a → v < 2 ^ 32 → IsWords n (set a i v)
set-IsWords zero i v a h lt = tt
set-IsWords (suc n) i v [] h lt = h
set-IsWords (suc n) zero v (w ∷ ws) h lt = (lt, h.1)
set-IsWords (suc n) (suc i) v (w ∷ ws) h lt = (h.0, set-IsWords n i v ws h.1 lt)

set-value :
    (n i v : ℕ) (a : Bignum)
    → IsWords n a
    → i < n
    → value n (set a i v) + get_or a i 0 * radix i ≡ value n a + v * radix i
set-value zero i v a h lt = absurd (omega arith)
set-value (suc n) i v [] h lt = absurd h
set-value (suc n) zero v (w ∷ ws) h lt = omega arith
set-value (suc n) (suc i) v (w ∷ ws) h lt = omega (arith, set-value n i v ws h.1 (omega arith))

IsWords-length : (n : ℕ) (a : Bignum) → IsWords n a → n ≤ length a
IsWords-length zero a h = omega arith
IsWords-length (suc n) [] h = absurd h
IsWords-length (suc n) (w ∷ ws) h = omega (arith, IsWords-length n ws h.1)

-- What `bn_from_bytes` has read so far: word `i` is filled up to bit `k`, the words above are zero.
record IsFilled (n i k : ℕ) (a : Bignum) : Type 0 where
  words_in : IsWords n a
  low : get_or a i 0 < 2 ^ k
  clear : (j : ℕ) → i < j → get_or a j 0 ≡ 0

-- One write.
write_byte :
    (n i k byte : ℕ) (a : Bignum)
    → IsFilled n i k a
    → i < n
    → byte * 2 ^ k + 2 ^ k ≤ 2 ^ 32
    → let b = set a i (bit_or (get_or a i 0) (byte * 2 ^ k % 2 ^ 32)) in
      IsWords n b
      × (get_or b i 0 ≡ get_or a i 0 + byte * 2 ^ k)
      × ((j : ℕ) → i < j → get_or b j 0 ≡ 0)
      × (value n b ≡ value n a + byte * 2 ^ k * radix i)
write_byte n i k byte a f lt fits =
    let v = get_or a i 0 + byte * 2 ^ k in
    let joined : bit_or (get_or a i 0) (byte * 2 ^ k % 2 ^ 32) ≡ v =
      ap (bit_or (get_or a i 0)) (mod-eq_of_lt (below (one-le-pow k 2 (omega arith))))
      ∙ bit_or_low_field k byte (get_or a i 0) f.low in
    rw joined (
      set-IsWords n i v a f.words_in (omega (arith, f.low)),
      get_or-set_self a i v 0 (omega (arith, IsWords-length n a f.words_in)),
      λ j h. get_or-set_ne a i j v 0 (λ e. absurd (omega arith)) ∙ f.clear j h,
      omega (arith, set-value n i v a f.words_in lt),
    )
  where
    below : 1 ≤ 2 ^ k → byte * 2 ^ k < 2 ^ 32
    below p = omega arith

byte_fits : (b p : ℕ) → b < 256 → p ≤ 2 ^ 24 → b * p + p ≤ 2 ^ 32
byte_fits b p h le = omega (arith, mul-le-mul_right p (let e : b + 1 ≤ 256 = omega arith in e))

field_fits : (g b p : ℕ) → g < p → b < 256 → g + b * p < p * 256
field_fits g b p lt h = omega (arith, mul-le-mul_right p (let e : b + 1 ≤ 256 = omega arith in e))

inside_word : (k : ℕ) → k < 24 → (k + 8 == 32) ≡ false
inside_word k h = ground arith

-- The next byte of the same word, and the first of the next word.
more_bytes :
    (v' v b l p q r : ℕ)
    → v' ≡ v + b * p * r
    → q ≡ p * 256
    → v' + l * q * r ≡ v + (b + 256 * l) * p * r
more_bytes v' v b l p q r e eq = rw (e, eq) (omega arith)

word_step :
    (v' v b l p i : ℕ)
    → v' ≡ v + b * p * radix i
    → p ≡ 2 ^ 24
    → v' + l * 2 ^ 0 * radix (i + 1) ≡ v + (b + 256 * l) * p * radix i
word_step v' v b l p i e eq = rw (e, eq, add-one) (omega arith)

-- The loop, with the bytes of a word already read written out as the bit it stands at.
loop_lem :
    (n s i k : ℕ) (bytes : List ℕ) (a : Bignum)
    → k ≡ s * 8
    → s < 4
    → n ≡ bignum_words
    → IsFilled n i k a
    → IsBytes bytes
    → i * 4 + s + length bytes ≤ n * 4
    → IsWords n (from_bytes_loop bytes i k a)
      × (value n (from_bytes_loop bytes i k a) ≡ value n a + le_value bytes * 2 ^ k * radix i)
unfolding from_bytes_loop
loop_lem n s i k [] a ek es en f hb le = (f.words_in, omega arith)
loop_lem n s i k (byte ∷ bytes) a ek es en f hb le =
    let inside : ltb i bignum_words ≡ true = lt→ltb i bignum_words (omega arith) in
    let next : 2 ^ (k + 8) ≡ 2 ^ k * 256 = pow-add k 8 in
    let room : 2 ^ k ≤ 2 ^ 24 =
      pow-le-pow_right {n = 2} (omega arith) {i = k} {j = 24} (omega arith) in
    let w = write_byte n i k byte a f (omega arith) (byte_fits byte (2 ^ k) hb.0 room) in
    elim (dec_lt s 3) [
      | yes more ↦
          let same : (k + 8 == 32) ≡ false = inside_word k (omega arith) in
          let rest =
            loop_lem n (s + 1) i (k + 8) bytes _ (omega arith) (omega arith) en
              (record {
                words_in = w.0;
                low = rw (w.1, next) (field_fits _ byte (2 ^ k) f.low hb.0);
                clear = w.2;
              })
              hb.1 (omega arith) in
          rw (inside, same) (rest.0, rest.1 ∙ more_bytes _ _ byte _ (2 ^ k) _ _ (w.3) next)
      | no last ↦
          let same : (k + 8 == 32) ≡ true = (==_iff (k + 8) 32).1 (omega arith) in
          let rest =
            loop_lem n 0 (i + 1) 0 bytes _ (omega arith) (omega arith) en
              (record {
                words_in = w.0;
                low = rw (w.2 (i + 1) (omega arith)) (omega arith);
                clear = λ j h. w.2 j (omega arith);
              })
              hb.1 (omega arith) in
          rw (inside, same)
            (
              rest.0,
              rest.1
                  ∙ word_step _ _ byte _ (2 ^ k) i (w.3)
                      (ap (λ t. 2 ^ t) (let e : k ≡ 24 = omega arith in e)),
            )
    ]

-- Up to 512 bytes, `bn_from_bytes` gives the number that they stand for.
pub bn_from_bytes-value :
    (bytes : List ℕ)
    → IsBytes bytes
    → length bytes ≤ bignum_words * 4
    → IsWords bignum_words (bn_from_bytes bytes)
      × (value bignum_words (bn_from_bytes bytes) ≡ be_value bytes)
unfolding bn_from_bytes
bn_from_bytes-value bytes hb le =
    let none_yet = bn_zero-value bignum_words in
    let all =
      loop_lem bignum_words 0 0 0 (reverse bytes) bn_zero (omega arith) (omega arith) refl
        (record {
          words_in = bn_zero-IsWords bignum_words (omega arith);
          low = omega (arith, bn_zero-at 0);
          clear = λ j h. bn_zero-at j;
        })
        (reverse-IsBytes bytes hb) (rw (length-reverse bytes) (omega arith)) in
    (all.0, all.1 ∙ omega (arith, none_yet, le_value-reverse bytes))
