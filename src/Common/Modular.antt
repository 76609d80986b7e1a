-- ===== src/Common/Modular.antt =====
-- Remainders by a variable modulus: sums and products may be reduced first.
use Prim.Native.Nat.{ℕ, ◌+◌, ◌*◌, ◌/◌, ◌%◌, ◌^◌, zero, suc}
use mathlib.Core.Path.{◌≡◌, sym, ap, ◌∙◌}
use native.Mathlib.Nat.{
  mod-add-mod, add-mod-mod, add-mul-mod_self_right, div-add-mod', pow-zero, pow-suc,
}
use native.Mathlib.Omega.{arith}

pub mul-mod_left_reduced : (a b m : ℕ) → (a % m * b) % m ≡ a * b % m
mul-mod_left_reduced a b m = sym (ap (λ t. t % m) split ∙ add-mul-mod_self_right _ (a / m * b) m)
  where
    split : a * b ≡ a % m * b + a / m * b * m
    split = omega (arith, ap (λ (t : ℕ). t * b) (div-add-mod' a m))

pub mul-mod_right_reduced : (a b m : ℕ) → (a * (b % m)) % m ≡ a * b % m
mul-mod_right_reduced a b m =
    ap (λ t. t % m) (omega arith) ∙ mul-mod_left_reduced b a m ∙ ap (λ t. t % m) (omega arith)

pub mod_cong_add : (a a' b b' m : ℕ) → a % m ≡ a' % m → b % m ≡ b' % m → (a + b) % m ≡ (a' + b') % m
mod_cong_add a a' b b' m p q =
    sym (mod-add-mod a m b)
    ∙ ap (λ t. (t + b) % m) p
    ∙ mod-add-mod a' m b
    ∙ sym (add-mod-mod a' b m)
    ∙ ap (λ t. (a' + t) % m) q
    ∙ add-mod-mod a' b' m

pub mod_cong_mul : (a a' b b' m : ℕ) → a % m ≡ a' % m → b % m ≡ b' % m → a * b % m ≡ a' * b' % m
mod_cong_mul a a' b b' m p q =
    sym (mul-mod_left_reduced a b m)
    ∙ ap (λ t. t * b % m) p
    ∙ mul-mod_left_reduced a' b m
    ∙ sym (mul-mod_right_reduced a' b m)
    ∙ ap (λ t. a' * t % m) q
    ∙ mul-mod_right_reduced a' b' m

pub mod_cong_pow : (a a' n m : ℕ) → a % m ≡ a' % m → a ^ n % m ≡ a' ^ n % m
mod_cong_pow a a' zero m e = rw (pow-zero, pow-zero)
mod_cong_pow a a' (suc n) m e =
    rw (pow-suc, pow-suc) (mod_cong_mul (a ^ n) (a' ^ n) a a' m (mod_cong_pow a a' n m e) e)

pub pow_double : (a q : ℕ) → (a * a) ^ q ≡ a ^ (2 * q)
pow_double a zero = rw (pow-zero, let e : 2 * 0 ≡ 0 = omega arith in e, pow-zero)
pow_double a (suc q) =
    pow-suc (a * a) q
    ∙ ap (λ (t : ℕ). t * (a * a)) (pow_double a q)
    ∙ omega (arith, pow-suc a (2 * q), ap (λ (t : ℕ). t * a) (pow-suc a (2 * q)))
    ∙ sym (pow-suc a (suc (2 * q)))
    ∙ ap (λ (t : ℕ). a ^ t) (omega arith)
