-- ===== src/Printf/Digits.antt =====
-- The digits that kernel/printf.c writes, read back.
use aioperatingsystem.Common.{
  ℕ, zero, suc, ◌+◌, ◌-◌, ◌*◌, ◌/◌, ◌%◌, ◌^◌, ◌<◌, ◌≡◌, refl, sym, ◌∙◌, ap, ◌⊎◌, inl, inr, Bool,
  true, false, ◌&&◌, List, [], ◌∷◌, arith, ltb, leb, ◌==◌, if◌then◌else◌, all_below-get, ==_iff,
  Bool-cases, subst,
}
use native.Mathlib.Nat.{pow-suc}
use aioperatingsystem.Printf.{digit, digit_loop, print_uint64}

-- The value of a digit, of either case.
abbrev pub digit_value : ℕ → ℕ
digit_value c = if leb c b'9' then c - b'0' else (if leb c b'F' then c - 55 else c - 87)

-- The number that a list of digits continues `acc` with.
unfoldable pub read : (base acc : ℕ) → List ℕ → ℕ
read base acc [] = acc
read base acc (c ∷ cs) = read base (acc * base + digit_value c) cs

abbrev pub IsBase : ℕ → Type 0
IsBase base = (base ≡ 10) ⊎ (base ≡ 16)

abbrev digit_ok : ℕ → Bool
digit_ok d = (digit_value (digit true d) == d) && (digit_value (digit false d) == d)

digit_value-digit : (upper : Bool) (d : ℕ) → d < 16 → digit_value (digit upper d) ≡ d
digit_value-digit upper d h =
    let both =
      split (digit_value (digit true d)) (digit_value (digit false d)) d
        (all_below-get digit_ok 16 refl d h) in
    pick upper both.0 both.1
  where
    split : (a b c : ℕ) → ((a == c) && (b == c)) ≡ true → (a ≡ c) × (b ≡ c)
    split a b c e = ground arith

    pick :
        (u : Bool)
        → digit_value (digit true d) ≡ d
        → digit_value (digit false d) ≡ d
        → digit_value (digit u d) ≡ d
    pick true p q = p
    pick false p q = q

division :
    (v base x : ℕ)
    → IsBase base
    → (v / base * base + v % base ≡ v) × (v % base < 16) × (v < 2 * x → v / base < x)
division v base x (inl e) =
    subst (λ (b : ℕ). (v / b * b + v % b ≡ v) × (v % b < 16) × (v < 2 * x → v / b < x)) (sym e)
      (omega arith, omega arith, λ h. omega arith)
division v base x (inr e) =
    subst (λ (b : ℕ). (v / b * b + v % b ≡ v) × (v % b < 16) × (v < 2 * x → v / b < x)) (sym e)
      (omega arith, omega arith, λ h. omega arith)

double : (fuel : ℕ) → 2 ^ suc fuel ≡ 2 * 2 ^ fuel
double fuel = pow-suc 2 fuel ∙ omega arith

not_positive : (v : ℕ) → ltb 0 v ≡ false → v ≡ 0
not_positive v h = ground arith

digit_loop_lem :
    (fuel v base : ℕ) (upper : Bool) (buf : List ℕ)
    → IsBase base
    → v < 2 ^ fuel
    → read base 0 (digit_loop fuel v base upper buf) ≡ read base v buf
unfolding digit_loop
digit_loop_lem zero v base upper buf b h = ap (λ (t : ℕ). read base t buf) (omega arith)
digit_loop_lem (suc fuel) v base upper buf b h = elim (Bool-cases (ltb 0 v)) [
  | inl more ↦
      let parts = division v base (2 ^ fuel) b in
      let value : digit_value (digit upper (v % base)) ≡ v % base =
        digit_value-digit upper (v % base) parts.1 in
      rw more (
        digit_loop_lem fuel (v / base) base upper (digit upper (v % base) ∷ buf) b
          (parts.2 (omega (arith, h, double fuel)))
        ∙ unfold read in
          ap (λ (t : ℕ). read base (v / base * base + t) buf) value
          ∙ ap (λ (t : ℕ). read base t buf) parts.0)
  | inr stop ↦ rw stop (ap (λ (t : ℕ). read base t buf) (sym (not_positive v stop)))
]

-- The digits that are printed for a 64-bit number, in base 10 or 16 and in either case, read back as
-- that number.
pub read-print_uint64 :
    (v base : ℕ) (upper : Bool)
    → IsBase base
    → v < 2 ^ 64
    → read base 0 (print_uint64 v base upper) ≡ v
unfolding print_uint64 read
read-print_uint64 v base upper b h = elim (Bool-cases (v == 0)) [
  | inl zero_value ↦
      let start : 0 * base + 0 ≡ 0 = omega arith in
      rw zero_value (start ∙ sym ((==_iff v 0).0 zero_value))
  | inr more ↦ rw more (digit_loop_lem 64 v base upper [] b h)
]
