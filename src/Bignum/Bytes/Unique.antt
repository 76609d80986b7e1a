-- ===== src/Bignum/Bytes/Unique.antt =====
-- kernel/bignum.c: what `bn_to_bytes` writes are bytes, and the bytes of a number are the only ones.
use aioperatingsystem.Common.{
  ℕ, zero, suc, ◌+◌, ◌*◌, ◌^◌, ◌<◌, ◌≤◌, ◌≡◌, some, ap, ap₂, refl, sym, subst, ◌∙◌, lt_or_le, inl,
  inr, List, [], ◌∷◌, length, arith,
}
use native.Mathlib.Nat.{mul-le-mul_right}
use aioperatingsystem.Bignum.{Bignum}
use aioperatingsystem.Bignum.Bytes.{byte_of, bn_to_bytes, bn_from_bytes, bignum_modexp_bytes}
use aioperatingsystem.Bignum.Exp.{bn_modexp}
use aioperatingsystem.Bignum.Bytes.FromBytes.{IsBytes}
use aioperatingsystem.Bignum.Bytes.ToBytes.{be_value, length-bn_to_bytes}
use aioperatingsystem.Bignum.Bytes.Modulus.{be_value-lt}

byte_of-bound : (a : Bignum) (pos : ℕ) → byte_of a pos < 256
unfolding byte_of
byte_of-bound a pos = ground (arith)

pub bn_to_bytes-IsBytes : (a : Bignum) (n : ℕ) → IsBytes (bn_to_bytes a n)
unfolding bn_to_bytes
bn_to_bytes-IsBytes a zero = tt
bn_to_bytes-IsBytes a (suc n) = (byte_of-bound a n, bn_to_bytes-IsBytes a n)

digit_le : (p x y v w : ℕ) → v < p → w < p → x * p + v ≡ y * p + w → x ≤ y
digit_le p x y v w hv hw e = elim (lt_or_le y x) [
  | inl above ↦
      absurd (omega (arith, mul-le-mul_right p (let more : suc y ≤ x = omega arith in more)))
  | inr below ↦ below
]

digit_cancel : (p x y v w : ℕ) → v < p → w < p → x * p + v ≡ y * p + w → x ≡ y
digit_cancel p x y v w hv hw e =
    omega (arith, digit_le p x y v w hv hw e, digit_le p y x w v hw hv (sym e))

-- Two lists of bytes of one length that stand for one number are the same.
pub be_value-cancel :
    (a b : List ℕ) → IsBytes a → IsBytes b → length a ≡ length b → be_value a ≡ be_value b → a ≡ b
be_value-cancel [] [] ha hb l h = refl
be_value-cancel [] (y ∷ b) ha hb l h = absurd (omega (arith, l))
be_value-cancel (x ∷ a) [] ha hb l h = absurd (omega (arith, l))
be_value-cancel (x ∷ a) (y ∷ b) ha hb l h =
    let same : length a ≡ length b = omega (arith, l) in
    let bound : be_value b < 256 ^ length a =
      subst (λ (n : ℕ). be_value b < 256 ^ n) (sym same) (be_value-lt b hb.1) in
    let e : x * 256 ^ length a + be_value a ≡ y * 256 ^ length a + be_value b =
      h ∙ ap (λ (n : ℕ). y * 256 ^ n + be_value b) (sym same) in
    let digit =
      digit_cancel (256 ^ length a) x y (be_value a) (be_value b) (be_value-lt a ha.1) bound e in
    ap₂ (λ (t : ℕ) (ts : List ℕ). t ∷ ts) digit
      (be_value-cancel a b ha.1 hb.1 same
        (omega (arith, e, ap (λ (t : ℕ). t * 256 ^ length a) digit)))

-- What `bignum_modexp_bytes` returns are as many bytes as the caller asks for.
pub bignum_modexp_bytes-IsBytes :
    (junk : ℕ → ℕ → Bignum) (message exponent modulus : List ℕ) (out_len : ℕ) (out : List ℕ)
    → bignum_modexp_bytes junk message exponent modulus out_len ≡ some out
    → IsBytes out × (length out ≡ out_len)
unfolding bignum_modexp_bytes
bignum_modexp_bytes-IsBytes junk message exponent modulus out_len out h = (
  subst IsBytes written (bn_to_bytes-IsBytes power out_len),
  ap length (sym written) ∙ length-bn_to_bytes power out_len,
)
  where
    power : Bignum
    power = bn_modexp junk (bn_from_bytes message) (bn_from_bytes exponent) (bn_from_bytes modulus)

    written : bn_to_bytes power out_len ≡ out
    written = ground (arith, h)
