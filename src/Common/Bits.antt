-- ===== src/Common/Bits.antt =====
-- `|` of C on fields of bits that do not overlap is a sum, at every width.
use Prim.Native.Nat.{
  ℕ, zero, suc, ◌+◌, ◌*◌, ◌/◌, ◌^◌, ◌%◌, ◌≤◌, ◌<◌, max, bit_or, digits, bit_or-bitwise,
}
use mathlib.Core.Path.{◌≡◌, refl, ap, ◌∙◌}
use native.Mathlib.Nat.{pow-suc}
use native.Mathlib.Omega.{arith}

-- What `bit_or` stands for, with a bound `n` on the digits of `a`.
abbrev or_digits : ℕ → ℕ → ℕ → ℕ
or_digits n a b = digits (λ y. y) max n a b

double_field : (q k : ℕ) → q * 2 ^ suc k ≡ q * 2 ^ k + q * 2 ^ k
double_field q k = omega (arith, ap (λ (t : ℕ). q * t) (pow-suc 2 k))

or_digits_lem : (n k q a r : ℕ) → a ≡ q * 2 ^ k → a ≤ n → r < 2 ^ k → or_digits n a r ≡ a + r
or_digits_lem zero k q a r e below fits = omega arith
or_digits_lem (suc n) k q zero r e below fits = omega arith
or_digits_lem (suc n) zero q (suc a) r e below fits = omega (
  arith,
  or_digits_lem n zero (suc a / 2) (suc a / 2) (r / 2) (omega arith) (omega arith) (omega arith),
)
or_digits_lem (suc n) (suc k) q (suc a) r e below fits = omega (
  arith,
  double_field q k,
  or_digits_lem n k q (suc a / 2) (r / 2) (omega (arith, double_field q k)) (omega arith)
      (omega (arith, pow-suc 2 k)),
)

pub bit_or_fields : (k q r : ℕ) → r < 2 ^ k → bit_or (q * 2 ^ k) r ≡ q * 2 ^ k + r
bit_or_fields k q r fits =
    bit_or-bitwise (q * 2 ^ k) r
    ∙ or_digits_lem (q * 2 ^ k) k q (q * 2 ^ k) r refl (omega arith) fits

-- The same with the low field first.
or_digits_low : (n k q r : ℕ) → r ≤ n → r < 2 ^ k → or_digits n r (q * 2 ^ k) ≡ r + q * 2 ^ k
or_digits_low zero k q r below fits = omega arith
or_digits_low (suc n) k q zero below fits = omega arith
or_digits_low (suc n) zero q (suc r) below fits = absurd (omega arith)
or_digits_low (suc n) (suc k) q (suc r) below fits =
    let half : q * 2 ^ suc k / 2 ≡ q * 2 ^ k = omega (arith, double_field q k) in
    let rest = or_digits_low n k q (suc r / 2) (omega arith) (omega (arith, pow-suc 2 k)) in
    ap (λ t. or_digits n (suc r / 2) t * 2 + max (suc r % 2) (q * 2 ^ suc k % 2)) half
    ∙ omega (arith, double_field q k, rest)

pub bit_or_low_field : (k q r : ℕ) → r < 2 ^ k → bit_or r (q * 2 ^ k) ≡ r + q * 2 ^ k
bit_or_low_field k q r fits =
    bit_or-bitwise r (q * 2 ^ k) ∙ or_digits_low r k q r (omega arith) fits
