-- ===== src/Aes/Field.antt =====
-- kernel/aes.c: multiplication in GF(2^8) by a constant, on sums of bytes.
use aioperatingsystem.Common.{
  ℕ, zero, suc, ◌+◌, ◌/◌, ◌%◌, ◌<◌, ◌≡◌, refl, sym, ap, ap₂, ◌∙◌, List, [], ◌∷◌, Bool, true, ◌&&◌,
  ◌==◌, ltb, ltb→lt, ==_iff, all_below, all_below-get, &&-left, &&-right, arith,
}
use Prim.Native.Nat.{bit_xor}
use aioperatingsystem.Common.Xor.{
  xor_half, xor_last, xor_zero_left, xor_zero_right, xor_exchange, xor_bound, xor_self,
}
use aioperatingsystem.Aes.{gf_mul, gf_mul_loop}

-- The digit `d` as a factor of `v`.
abbrev scale : (d v : ℕ) → ℕ
scale zero v = 0
scale (suc d) v = v

-- The linear function that takes the powers of two to the given values.
linear : List ℕ → ℕ → ℕ
linear [] a = 0
linear (v ∷ vs) a = bit_xor (scale (a % 2) v) (linear vs (a / 2))

scale_xor : (x y v : ℕ) → x < 2 → y < 2 → scale ((x + y) % 2) v ≡ bit_xor (scale x v) (scale y v)
scale_xor zero zero v p q = sym (xor_zero_left 0)
scale_xor zero (suc zero) v p q = sym (xor_zero_left v)
scale_xor (suc zero) zero v p q = sym (xor_zero_right v)
scale_xor (suc zero) (suc zero) v p q = sym (xor_self v)
scale_xor zero (suc (suc y)) v p q = absurd (omega arith)
scale_xor (suc zero) (suc (suc y)) v p q = absurd (omega arith)
scale_xor (suc (suc x)) y v p q = absurd (omega arith)

digit_sum : (a b : ℕ) → bit_xor a b % 2 ≡ (a % 2 + b % 2) % 2
digit_sum a b = omega (arith, xor_last a b)

linear-xor : (vs : List ℕ) (a b : ℕ) → linear vs (bit_xor a b) ≡ bit_xor (linear vs a) (linear vs b)
unfolding linear
linear-xor [] a b = sym (xor_zero_left 0)
linear-xor (v ∷ vs) a b =
    ap₂ bit_xor
      (ap (λ (t : ℕ). scale t v) (digit_sum a b)
        ∙ scale_xor (a % 2) (b % 2) v (omega arith) (omega arith))
      (ap (linear vs) (xor_half a b) ∙ linear-xor vs (a / 2) (b / 2))
    ∙ xor_exchange (scale (a % 2) v) (scale (b % 2) v) (linear vs (a / 2)) (linear vs (b / 2))

-- The multiples of the powers of two by `c`.
abbrev multiples : ℕ → List ℕ
multiples c =
    gf_mul 1 c
    ∷ gf_mul 2 c
    ∷ gf_mul 4 c
    ∷ gf_mul 8 c
    ∷ gf_mul 16 c
    ∷ gf_mul 32 c
    ∷ gf_mul 64 c
    ∷ gf_mul 128 c
    ∷ []

abbrev agrees : (c x : ℕ) → Bool
agrees c x = (gf_mul x c == linear (multiples c) x) && ltb (gf_mul x c) 256

agrees-table : (c x : ℕ) → agrees c x ≡ true → gf_mul x c ≡ linear (multiples c) x
agrees-table c x h =
    (==_iff (gf_mul x c) (linear (multiples c) x)).0
      (&&-left (gf_mul x c == linear (multiples c) x) (ltb (gf_mul x c) 256) h)

agrees-bound : (c x : ℕ) → agrees c x ≡ true → gf_mul x c < 256
agrees-bound c x h =
    ltb→lt (gf_mul x c) 256
      (&&-right (gf_mul x c == linear (multiples c) x) (ltb (gf_mul x c) 256) h)

-- A map of bytes that goes through `^`.
pub record IsLinear (g : ℕ → ℕ) : Type 0 where
  pub bound : (x : ℕ) → x < 256 → g x < 256
  pub sum : (x y : ℕ) → x < 256 → y < 256 → g (bit_xor x y) ≡ bit_xor (g x) (g y)

gf_mul-IsLinear : (c : ℕ) → all_below (agrees c) 256 ≡ true → IsLinear (λ x. gf_mul x c)
gf_mul-IsLinear c l = record {
  bound = λ x h. agrees-bound c x (all_below-get (agrees c) 256 l x h);
  sum = λ x y p q.
      agrees-table c (bit_xor x y)
        (all_below-get (agrees c) 256 l (bit_xor x y) (xor_bound 8 x y p q))
      ∙ linear-xor (multiples c) x y
      ∙ sym (
          ap₂ bit_xor (agrees-table c x (all_below-get (agrees c) 256 l x p))
            (agrees-table c y (all_below-get (agrees c) 256 l y q)));
}

pub once : IsLinear (λ x. x)
once = record { bound = λ x h. h; sum = λ x y p q. refl }

pub times_two : IsLinear (λ x. gf_mul x 2)
unfolding gf_mul gf_mul_loop linear
times_two = gf_mul-IsLinear 2 refl

pub times_three : IsLinear (λ x. gf_mul x 3)
unfolding gf_mul gf_mul_loop linear
times_three = gf_mul-IsLinear 3 refl

pub times_nine : IsLinear (λ x. gf_mul x 9)
unfolding gf_mul gf_mul_loop linear
times_nine = gf_mul-IsLinear 9 refl

pub times_eleven : IsLinear (λ x. gf_mul x 11)
unfolding gf_mul gf_mul_loop linear
times_eleven = gf_mul-IsLinear 11 refl

pub times_thirteen : IsLinear (λ x. gf_mul x 13)
unfolding gf_mul gf_mul_loop linear
times_thirteen = gf_mul-IsLinear 13 refl

pub times_fourteen : IsLinear (λ x. gf_mul x 14)
unfolding gf_mul gf_mul_loop linear
times_fourteen = gf_mul-IsLinear 14 refl
