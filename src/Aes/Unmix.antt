-- ===== src/Aes/Unmix.antt =====
-- kernel/aes.c: a column that is mixed and mixed back, by running the code on every byte.
use aioperatingsystem.Common.{
  ℕ, ◌<◌, ◌≡◌, refl, ap, ◌∙◌, Bool, true, ◌==◌, ==_iff, all_below, all_below-get,
}
use Prim.Native.Nat.{bit_xor}
use aioperatingsystem.Common.Xor.{xor_zero_left, xor_zero_right}
use aioperatingsystem.Aes.{
  Cell, gf_mul, gf_mul_loop, xor4, mix0, mix1, mix2, mix3, unmix0, unmix1, unmix2, unmix3,
}
use aioperatingsystem.Aes.Columns.{
  AreBytes, IsAdditive, after_mix, after_mix-IsAdditive, split_cell, unmix0-IsAdditive,
  unmix1-IsAdditive, unmix2-IsAdditive, unmix3-IsAdditive,
}

-- The test that a function gives the wanted value on each byte.
abbrev table_is : (f g : ℕ → ℕ) → ℕ → Bool
table_is f g x = f x == g x

read_table : (f g : ℕ → ℕ) → all_below (table_is f g) 256 ≡ true → (x : ℕ) → x < 256 → f x ≡ g x
read_table f g h x b = (==_iff (f x) (g x)).0 (all_below-get (table_is f g) 256 h x b)

abbrev zero_map : ℕ → ℕ
zero_map x = 0

-- An additive function that is the given one on each byte alone is their sum.
cell_lem :
    (f : Cell) (g0 g1 g2 g3 : ℕ → ℕ)
    → IsAdditive f
    → all_below (table_is (λ x. f x 0 0 0) g0) 256 ≡ true
    → all_below (table_is (λ x. f 0 x 0 0) g1) 256 ≡ true
    → all_below (table_is (λ x. f 0 0 x 0) g2) 256 ≡ true
    → all_below (table_is (λ x. f 0 0 0 x) g3) 256 ≡ true
    → (a0 a1 a2 a3 : ℕ) → AreBytes a0 a1 a2 a3
    → f a0 a1 a2 a3 ≡ xor4 (g0 a0) (g1 a1) (g2 a2) (g3 a3)
cell_lem f g0 g1 g2 g3 l t0 t1 t2 t3 a0 a1 a2 a3 (h0, h1, h2, h3) =
    let p = read_table (λ x. f x 0 0 0) g0 t0 a0 h0 in
    let q = read_table (λ x. f 0 x 0 0) g1 t1 a1 h1 in
    let r = read_table (λ x. f 0 0 x 0) g2 t2 a2 h2 in
    let s = read_table (λ x. f 0 0 0 x) g3 t3 a3 h3 in
    split_cell f l a0 a1 a2 a3 (h0, h1, h2, h3) ∙ (λ i. xor4 (p i) (q i) (r i) (s i))

pub unmix0_lem : (a0 a1 a2 a3 : ℕ) → AreBytes a0 a1 a2 a3 → after_mix unmix0 a0 a1 a2 a3 ≡ a0
unfolding gf_mul gf_mul_loop mix0 mix1 mix2 mix3 unmix0
unmix0_lem a0 a1 a2 a3 h =
    cell_lem (after_mix unmix0) (λ x. x) zero_map zero_map zero_map
      (after_mix-IsAdditive unmix0 unmix0-IsAdditive) refl refl refl refl a0 a1 a2 a3 h
    ∙ xor_zero_right (bit_xor (bit_xor a0 0) 0)
    ∙ xor_zero_right (bit_xor a0 0)
    ∙ xor_zero_right a0

pub unmix1_lem : (a0 a1 a2 a3 : ℕ) → AreBytes a0 a1 a2 a3 → after_mix unmix1 a0 a1 a2 a3 ≡ a1
unfolding gf_mul gf_mul_loop mix0 mix1 mix2 mix3 unmix1
unmix1_lem a0 a1 a2 a3 h =
    cell_lem (after_mix unmix1) zero_map (λ x. x) zero_map zero_map
      (after_mix-IsAdditive unmix1 unmix1-IsAdditive) refl refl refl refl a0 a1 a2 a3 h
    ∙ xor_zero_right (bit_xor (bit_xor 0 a1) 0)
    ∙ xor_zero_right (bit_xor 0 a1)
    ∙ xor_zero_left a1

pub unmix2_lem : (a0 a1 a2 a3 : ℕ) → AreBytes a0 a1 a2 a3 → after_mix unmix2 a0 a1 a2 a3 ≡ a2
unfolding gf_mul gf_mul_loop mix0 mix1 mix2 mix3 unmix2
unmix2_lem a0 a1 a2 a3 h =
    cell_lem (after_mix unmix2) zero_map zero_map (λ x. x) zero_map
      (after_mix-IsAdditive unmix2 unmix2-IsAdditive) refl refl refl refl a0 a1 a2 a3 h
    ∙ xor_zero_right (bit_xor (bit_xor 0 0) a2)
    ∙ ap (λ (t : ℕ). bit_xor t a2) (xor_zero_left 0)
    ∙ xor_zero_left a2

pub unmix3_lem : (a0 a1 a2 a3 : ℕ) → AreBytes a0 a1 a2 a3 → after_mix unmix3 a0 a1 a2 a3 ≡ a3
unfolding gf_mul gf_mul_loop mix0 mix1 mix2 mix3 unmix3
unmix3_lem a0 a1 a2 a3 h =
    cell_lem (after_mix unmix3) zero_map zero_map zero_map (λ x. x)
      (after_mix-IsAdditive unmix3 unmix3-IsAdditive) refl refl refl refl a0 a1 a2 a3 h
    ∙ ap (λ (t : ℕ). bit_xor t a3) (ap (λ (t : ℕ). bit_xor t 0) (xor_zero_left 0) ∙ xor_zero_left 0)
    ∙ xor_zero_left a3
