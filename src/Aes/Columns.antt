-- ===== src/Aes/Columns.antt =====
-- kernel/aes.c: the columns of a state as functions of four bytes.
use aioperatingsystem.Common.{ℕ, ◌<◌, ◌≡◌, sym, ap, ◌∙◌, arith}
use Prim.Native.Nat.{bit_xor}
use aioperatingsystem.Common.Xor.{xor_zero_left, xor_zero_right, xor_exchange, xor_bound}
use aioperatingsystem.Aes.{
  Cell, gf_mul, xor4, mix0, mix1, mix2, mix3, unmix0, unmix1, unmix2, unmix3,
}
use aioperatingsystem.Aes.Field.{
  IsLinear, once, times_two, times_three, times_nine, times_eleven, times_thirteen, times_fourteen,
}

-- Four bytes.
abbrev pub AreBytes : (a0 a1 a2 a3 : ℕ) → Type 0
AreBytes a0 a1 a2 a3 = (a0 < 256) × (a1 < 256) × (a2 < 256) × (a3 < 256)

-- A function of a column that goes through `^`.
pub record IsAdditive (f : Cell) : Type 0 where
  pub bound : (a0 a1 a2 a3 : ℕ) → AreBytes a0 a1 a2 a3 → f a0 a1 a2 a3 < 256
  pub sum :
      (a0 a1 a2 a3 b0 b1 b2 b3 : ℕ)
      → AreBytes a0 a1 a2 a3
      → AreBytes b0 b1 b2 b3
      → f (bit_xor a0 b0) (bit_xor a1 b1) (bit_xor a2 b2) (bit_xor a3 b3)
        ≡ bit_xor (f a0 a1 a2 a3) (f b0 b1 b2 b3)

xor4_exchange :
    (a0 a1 a2 a3 b0 b1 b2 b3 : ℕ)
    → xor4 (bit_xor a0 b0) (bit_xor a1 b1) (bit_xor a2 b2) (bit_xor a3 b3)
      ≡ bit_xor (xor4 a0 a1 a2 a3) (xor4 b0 b1 b2 b3)
xor4_exchange a0 a1 a2 a3 b0 b1 b2 b3 =
    ap (λ (t : ℕ). bit_xor (bit_xor t (bit_xor a2 b2)) (bit_xor a3 b3)) (xor_exchange a0 b0 a1 b1)
    ∙ ap (λ (t : ℕ). bit_xor t (bit_xor a3 b3)) (xor_exchange (bit_xor a0 a1) (bit_xor b0 b1) a2 b2)
    ∙ xor_exchange (bit_xor (bit_xor a0 a1) a2) (bit_xor (bit_xor b0 b1) b2) a3 b3

xor4_bound : (a0 a1 a2 a3 : ℕ) → AreBytes a0 a1 a2 a3 → xor4 a0 a1 a2 a3 < 256
xor4_bound a0 a1 a2 a3 (h0, h1, h2, h3) =
    xor_bound 8 (bit_xor (bit_xor a0 a1) a2) a3
      (xor_bound 8 (bit_xor a0 a1) a2 (xor_bound 8 a0 a1 h0 h1) h2) h3

ap4 :
    (f : Cell) {a0 a1 a2 a3 b0 b1 b2 b3 : ℕ}
    → a0 ≡ b0
    → a1 ≡ b1
    → a2 ≡ b2
    → a3 ≡ b3
    → f a0 a1 a2 a3 ≡ f b0 b1 b2 b3
ap4 f p q r s = λ i. f (p i) (q i) (r i) (s i)

xor4-IsAdditive :
    (g0 g1 g2 g3 : ℕ → ℕ)
    → IsLinear g0
    → IsLinear g1
    → IsLinear g2
    → IsLinear g3
    → IsAdditive (λ a0 a1 a2 a3. xor4 (g0 a0) (g1 a1) (g2 a2) (g3 a3))
xor4-IsAdditive g0 g1 g2 g3 l0 l1 l2 l3 = record {
  bound = λ a0 a1 a2 a3 (h0, h1, h2, h3).
      xor4_bound (g0 a0) (g1 a1) (g2 a2) (g3 a3)
        (l0.bound a0 h0, l1.bound a1 h1, l2.bound a2 h2, l3.bound a3 h3);
  sum = λ a0 a1 a2 a3 b0 b1 b2 b3 (h0, h1, h2, h3) (k0, k1, k2, k3).
      ap4 xor4 (l0.sum a0 b0 h0 k0) (l1.sum a1 b1 h1 k1) (l2.sum a2 b2 h2 k2) (l3.sum a3 b3 h3 k3)
      ∙ xor4_exchange (g0 a0) (g1 a1) (g2 a2) (g3 a3) (g0 b0) (g1 b1) (g2 b2) (g3 b3);
}

pub mix0-IsAdditive : IsAdditive mix0
unfolding mix0
mix0-IsAdditive =
    xor4-IsAdditive (λ x. gf_mul x 2) (λ x. gf_mul x 3) (λ x. x) (λ x. x) times_two times_three once
      once

pub mix1-IsAdditive : IsAdditive mix1
unfolding mix1
mix1-IsAdditive =
    xor4-IsAdditive (λ x. x) (λ x. gf_mul x 2) (λ x. gf_mul x 3) (λ x. x) once times_two times_three
      once

pub mix2-IsAdditive : IsAdditive mix2
unfolding mix2
mix2-IsAdditive =
    xor4-IsAdditive (λ x. x) (λ x. x) (λ x. gf_mul x 2) (λ x. gf_mul x 3) once once times_two
      times_three

pub mix3-IsAdditive : IsAdditive mix3
unfolding mix3
mix3-IsAdditive =
    xor4-IsAdditive (λ x. gf_mul x 3) (λ x. x) (λ x. x) (λ x. gf_mul x 2) times_three once once
      times_two

pub unmix0-IsAdditive : IsAdditive unmix0
unfolding unmix0
unmix0-IsAdditive =
    xor4-IsAdditive (λ x. gf_mul x 14) (λ x. gf_mul x 11) (λ x. gf_mul x 13) (λ x. gf_mul x 9)
      times_fourteen times_eleven times_thirteen times_nine

pub unmix1-IsAdditive : IsAdditive unmix1
unfolding unmix1
unmix1-IsAdditive =
    xor4-IsAdditive (λ x. gf_mul x 9) (λ x. gf_mul x 14) (λ x. gf_mul x 11) (λ x. gf_mul x 13)
      times_nine times_fourteen times_eleven times_thirteen

pub unmix2-IsAdditive : IsAdditive unmix2
unfolding unmix2
unmix2-IsAdditive =
    xor4-IsAdditive (λ x. gf_mul x 13) (λ x. gf_mul x 9) (λ x. gf_mul x 14) (λ x. gf_mul x 11)
      times_thirteen times_nine times_fourteen times_eleven

pub unmix3-IsAdditive : IsAdditive unmix3
unfolding unmix3
unmix3-IsAdditive =
    xor4-IsAdditive (λ x. gf_mul x 11) (λ x. gf_mul x 13) (λ x. gf_mul x 9) (λ x. gf_mul x 14)
      times_eleven times_thirteen times_nine times_fourteen

-- One byte of the mixed column, put back.
abbrev pub after_mix : Cell → Cell
after_mix u a0 a1 a2 a3 =
    u (mix0 a0 a1 a2 a3) (mix1 a0 a1 a2 a3) (mix2 a0 a1 a2 a3) (mix3 a0 a1 a2 a3)

pub after_mix-IsAdditive : (u : Cell) → IsAdditive u → IsAdditive (after_mix u)
after_mix-IsAdditive u l = record {
  bound = λ a0 a1 a2 a3 h.
      l.bound (mix0 a0 a1 a2 a3) (mix1 a0 a1 a2 a3) (mix2 a0 a1 a2 a3) (mix3 a0 a1 a2 a3)
        (mixed a0 a1 a2 a3 h);
  sum = λ a0 a1 a2 a3 b0 b1 b2 b3 h k.
      ap4 u (mix0-IsAdditive.sum a0 a1 a2 a3 b0 b1 b2 b3 h k)
        (mix1-IsAdditive.sum a0 a1 a2 a3 b0 b1 b2 b3 h k)
        (mix2-IsAdditive.sum a0 a1 a2 a3 b0 b1 b2 b3 h k)
        (mix3-IsAdditive.sum a0 a1 a2 a3 b0 b1 b2 b3 h k)
      ∙ l.sum (mix0 a0 a1 a2 a3) (mix1 a0 a1 a2 a3) (mix2 a0 a1 a2 a3) (mix3 a0 a1 a2 a3)
          (mix0 b0 b1 b2 b3) (mix1 b0 b1 b2 b3) (mix2 b0 b1 b2 b3) (mix3 b0 b1 b2 b3)
          (mixed a0 a1 a2 a3 h) (mixed b0 b1 b2 b3 k);
}
  where
    mixed :
        (a0 a1 a2 a3 : ℕ)
        → AreBytes a0 a1 a2 a3
        → AreBytes (mix0 a0 a1 a2 a3) (mix1 a0 a1 a2 a3) (mix2 a0 a1 a2 a3) (mix3 a0 a1 a2 a3)
    mixed a0 a1 a2 a3 h = (
      mix0-IsAdditive.bound a0 a1 a2 a3 h,
      mix1-IsAdditive.bound a0 a1 a2 a3 h,
      mix2-IsAdditive.bound a0 a1 a2 a3 h,
      mix3-IsAdditive.bound a0 a1 a2 a3 h,
    )

-- An additive function is known from its values on columns with one byte.
pub split_cell :
    (f : Cell)
    → IsAdditive f
    → (a0 a1 a2 a3 : ℕ) → AreBytes a0 a1 a2 a3
    → f a0 a1 a2 a3 ≡ xor4 (f a0 0 0 0) (f 0 a1 0 0) (f 0 0 a2 0) (f 0 0 0 a3)
split_cell f l a0 a1 a2 a3 (h0, h1, h2, h3) =
    let byte_zero : 0 < 256 = omega arith in
    sym (
      ap (λ (t : ℕ). bit_xor (bit_xor t (f 0 0 a2 0)) (f 0 0 0 a3))
        (sym (
            l.sum a0 0 0 0 0 a1 0 0 (h0, byte_zero, byte_zero, byte_zero)
              (byte_zero, h1, byte_zero, byte_zero))
          ∙ ap4 f (xor_zero_right a0) (xor_zero_left a1) (xor_zero_left 0) (xor_zero_left 0))
      ∙ ap (λ (t : ℕ). bit_xor t (f 0 0 0 a3))
          (sym (
              l.sum a0 a1 0 0 0 0 a2 0 (h0, h1, byte_zero, byte_zero)
                (byte_zero, byte_zero, h2, byte_zero))
            ∙ ap4 f (xor_zero_right a0) (xor_zero_right a1) (xor_zero_left a2) (xor_zero_left 0))
      ∙ sym
          (l.sum a0 a1 a2 0 0 0 0 a3 (h0, h1, h2, byte_zero) (byte_zero, byte_zero, byte_zero, h3))
      ∙ ap4 f (xor_zero_right a0) (xor_zero_right a1) (xor_zero_right a2) (xor_zero_left a3))
