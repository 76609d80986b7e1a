-- ===== src/Bignum/Bytes/Api.antt =====
-- The entry points of bignum.c on byte buffers, as numbers.
use aioperatingsystem.Common.{
  ℕ, ◌*◌, ◌%◌, ◌^◌, ◌≤◌, ◌<◌, ◌≡◌, ◌≢◌, ◌∙◌, arith, ◌∷◌, List, length, some,
}
use aioperatingsystem.Common.Modular.{mod_cong_mul}
use native.Mathlib.Nat.{mod-lt, mod-mod, le_trans}
use aioperatingsystem.Bignum.{Bignum, bignum_words, bn_mulmod_w}
use aioperatingsystem.Bignum.Value.{value, IsWords, IsWords-mono}
use aioperatingsystem.Bignum.Mulmod.{bn_mulmod_w-value}
use aioperatingsystem.Bignum.Exp.{bn_modexp, reduce_below}
use aioperatingsystem.Bignum.Exp.Loop.{bn_modexp-value}
use aioperatingsystem.Bignum.Bytes.{
  bn_from_bytes, bn_to_bytes, bignum_modexp_bytes, bignum_mulmod_bytes,
}
use aioperatingsystem.Bignum.Bytes.FromBytes.{IsBytes, bn_from_bytes-value}
use aioperatingsystem.Bignum.Bytes.ToBytes.{be_value, bn_to_bytes-value}
use aioperatingsystem.Bignum.Bytes.Modulus.{
  not_too_long, be_value-lt, power_eq, fits_bytes, words_of_bytes, IsModulus, modulus, width,
  modulus-value, modulus-IsWords, modulus_test, width_cover, width_room, operand, reduced_operand,
}

-- For a modulus above 1 whose first byte is not zero, of at most 512 bytes, a message no longer than
-- it and an exponent of at most 512 bytes, `bignum_modexp_bytes` returns as many bytes as the
-- modulus has, and they stand for the message raised to the exponent modulo the modulus, whatever
-- the uninitialised stack holds.
pub bignum_modexp_bytes-value :
    (junk : ℕ → ℕ → Bignum) (message exponent : List ℕ) (first : ℕ) (rest : List ℕ)
    → ((k i : ℕ) → IsWords bignum_words (junk k i))
    → IsBytes message
    → IsBytes exponent
    → IsBytes (first ∷ rest)
    → length message ≤ length (first ∷ rest)
    → length exponent ≤ 512
    → length (first ∷ rest) ≤ 512
    → first ≢ 0
    → 1 < be_value (first ∷ rest)
    → (out : List ℕ) × (bignum_modexp_bytes junk message exponent
          (first ∷ rest)
          (length (first ∷ rest))
        ≡ some out)
      × (be_value out ≡ be_value message ^ be_value exponent % be_value (first ∷ rest))
unfolding bignum_modexp_bytes
bignum_modexp_bytes-value junk message exponent first rest hj hm he hn lm le ln nonzero big =
    let ns = first ∷ rest in
    let size = length ns in
    let h : IsModulus ns = record {
      bytes = hn;
      short = ln;
      big = big;
      tight = λ w. words_of_bytes first rest w nonzero;
    } in
    let base = operand ns h message hm lm in
    let exp = bn_from_bytes-value exponent he le in
    let power =
      bn_modexp-value junk (bn_from_bytes message) (bn_from_bytes exponent) (modulus ns h) base.0
        exp.0 (modulus-IsWords ns h) hj (rw (modulus-value ns h) big) in
    (
      bn_to_bytes (bn_modexp junk (bn_from_bytes message) (bn_from_bytes exponent) (modulus ns h))
          size,
      rw (
        not_too_long (length message) (le_trans lm ln),
        not_too_long (length exponent) le,
        not_too_long size ln,
        modulus_test ns h,
      ),
      bn_to_bytes-value _ (width ns h) size power.0 (width_cover ns h).1 (width_room ns h)
          ∙ fits_bytes _ _ _ size (le_trans (omega arith) big) (be_value-lt ns hn)
              (power.1 ∙ power_eq base.1 exp.1 (modulus-value ns h)),
    )

-- Under the same conditions on the modulus, and for factors no longer than it, `bignum_mulmod_bytes`
-- returns the bytes of the product modulo the modulus.
pub bignum_mulmod_bytes-value :
    (junk : ℕ → Bignum) (a b : List ℕ) (first : ℕ) (rest : List ℕ)
    → ((i : ℕ) → IsWords bignum_words (junk i))
    → IsBytes a
    → IsBytes b
    → IsBytes (first ∷ rest)
    → length a ≤ length (first ∷ rest)
    → length b ≤ length (first ∷ rest)
    → length (first ∷ rest) ≤ 512
    → first ≢ 0
    → 1 < be_value (first ∷ rest)
    → (out : List ℕ) × (bignum_mulmod_bytes junk a b (first ∷ rest) (length (first ∷ rest))
        ≡ some out)
      × (be_value out ≡ be_value a * be_value b % be_value (first ∷ rest))
unfolding bignum_mulmod_bytes
bignum_mulmod_bytes-value junk a b first rest hj ha hb hn la lb ln nonzero big =
    let ns = first ∷ rest in
    let size = length ns in
    let h : IsModulus ns = record {
      bytes = hn;
      short = ln;
      big = big;
      tight = λ w. words_of_bytes first rest w nonzero;
    } in
    let words = width ns h in
    let (pos, small, same) = width_cover ns h in
    let m = modulus ns h in
    let hm = IsWords-mono words bignum_words m small (modulus-IsWords ns h) in
    let mv : value words m ≡ be_value ns = same ∙ modulus-value ns h in
    let x = reduced_operand ns h a ha la in
    let y = reduced_operand ns h b hb lb in
    let product =
      bn_mulmod_w-value (λ i. junk i) m words hm pos
        (λ i. IsWords-mono words bignum_words (junk i) small (hj i)) _ _ x.0 y.0 small
        (rw (x.1, mv) (mod-lt (be_value a) (le_trans (omega arith) big))) in
    (
      bn_to_bytes
          (bn_mulmod_w junk m words (reduce_below m words (bn_from_bytes a))
            (reduce_below m words (bn_from_bytes b)))
          size,
      rw (
        not_too_long (length a) (le_trans la ln),
        not_too_long (length b) (le_trans lb ln),
        not_too_long size ln,
        modulus_test ns h,
      ),
      bn_to_bytes-value _ words size product.0 small (width_room ns h)
          ∙ fits_bytes _ _ _ size (le_trans (omega arith) big) (be_value-lt ns hn) (
              product.1
              ∙ rw mv (
                  mod_cong_mul _ _ _ _ (be_value ns) (rw (x.1) (mod-mod _ _))
                    (rw (y.1) (mod-mod _ _)))),
    )
