-- ===== src/Fat16/Words.antt =====
-- Little-endian 16-bit words in a buffer of kernel/fat16.c.
use aioperatingsystem.Common.{
  ℕ, ◌+◌, ◌/◌, ◌^◌, ◌<◌, ◌≡◌, sym, ◌∙◌, ap₂, ◌≢◌, List, arith, length, get_or, set, length-set,
  get_or-set_self, get_or-set_ne, u8, ◌<<<◌,
}
use aioperatingsystem.Common.Bits.{bit_or_low_field}
use Prim.Native.Nat.{bit_or}
use aioperatingsystem.Fat16.{le16, put_le16}

pub length-put_le16 : (buf : List ℕ) (o value : ℕ) → length (put_le16 buf o value) ≡ length buf
length-put_le16 buf o value =
    length-set (set buf o (u8 value)) (o + 1) (u8 (value / 2 ^ 8)) ∙ length-set buf o (u8 value)

pub le16-put_le16 :
    (buf : List ℕ) (o value : ℕ)
    → o + 1 < length buf
    → value < 2 ^ 16
    → le16 (put_le16 buf o value) o ≡ value
le16-put_le16 buf o value fits small =
    let low : get_or (put_le16 buf o value) o 0 ≡ u8 value =
      get_or-set_ne (set buf o (u8 value)) (o + 1) o (u8 (value / 2 ^ 8)) 0 (λ e. omega arith)
      ∙ get_or-set_self buf o (u8 value) 0 (omega arith) in
    let high : get_or (put_le16 buf o value) (o + 1) 0 ≡ u8 (value / 2 ^ 8) =
      get_or-set_self (set buf o (u8 value)) (o + 1) (u8 (value / 2 ^ 8)) 0
        (omega (arith, length-set buf o (u8 value))) in
    ap₂ (λ (a b : ℕ). bit_or a (b <<< 8)) low high
    ∙ bit_or_low_field 8 (u8 (value / 2 ^ 8)) (u8 value) (omega arith)
    ∙ omega arith

pub le16-put_le16_ne :
    (buf : List ℕ) (o p value : ℕ)
    → p ≢ o
    → p + 1 ≢ o
    → o + 1 ≢ p
    → le16 (put_le16 buf o value) p ≡ le16 buf p
le16-put_le16_ne buf o p value ne after before =
    ap₂ (λ (a b : ℕ). bit_or a (b <<< 8)) (byte p (λ e. ne (sym e)) before)
      (byte (p + 1) (λ e. after (sym e)) (λ e. ne (omega arith)))
  where
    byte : (q : ℕ) → o ≢ q → o + 1 ≢ q → get_or (put_le16 buf o value) q 0 ≡ get_or buf q 0
    byte q at_o at_next =
        get_or-set_ne (set buf o (u8 value)) (o + 1) q (u8 (value / 2 ^ 8)) 0 at_next
        ∙ get_or-set_ne buf o q (u8 value) 0 at_o
