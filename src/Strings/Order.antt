-- ===== src/Strings/Order.antt =====
-- kernel/string.c: the order that `strcmp` decides, and `strncmp` as `strcmp` of what stands in front.
use aioperatingsystem.Common.{
  ℕ, zero, suc, ◌<◌, ◌≡◌, ◌≢◌, ◌⊎◌, ◌↔◌, inl, inr, refl, ap, ap₂, sym, List, [], ◌∷◌, Bool, true,
  false, arith, All, take, drop, length, get_or, ◌==◌, if◌then◌else◌, Bool-cases, ==_iff,
}
use aioperatingsystem.Common.Integers.{ℤ, pos, sub_nat, lt_int}
use aioperatingsystem.Strings.{strcmp, strncmp}

-- The order of a dictionary.
abbrev pub Precedes : (a b : List ℕ) → Type 0
Precedes [] [] = ⊥
Precedes [] (d ∷ b) = Unit {0}
Precedes (c ∷ a) [] = ⊥
Precedes (c ∷ a) (d ∷ b) = (c < d) ⊎ ((c ≡ d) × Precedes a b)

abbrev pub is_negative : ℤ → Bool
is_negative z = lt_int z (pos 0)

-- How a difference answers.
abbrev pub Answers : ℤ → List ℕ → List ℕ → Type 0
Answers z a b = ((z ≡ pos 0) ↔ (a ≡ b)) × ((is_negative z ≡ true) ↔ Precedes a b)

difference_zero : (c d : ℕ) → c ≢ d → sub_nat c d ≢ pos 0
difference_zero c d h e = ground (arith, h, e)

difference_negative : (c d : ℕ) → (is_negative (sub_nat c d) ≡ true) ↔ (c < d)
difference_negative c d = ground arith

same_head : (z : ℤ) (c d : ℕ) (a b : List ℕ) → c ≡ d → Answers z a b → Answers z (c ∷ a) (d ∷ b)
same_head z c d a b e (equal, before) = (
  (λ h. ap₂ (λ (x : ℕ) (xs : List ℕ). x ∷ xs) e (equal.0 h), λ h. equal.1 (ap (drop 1) h)),
  (
    λ h. inr (e, before.0 h),
    elim [ inl lt ↦ absurd (omega (arith, e, lt)) | inr (e', p) ↦ before.1 p ],
  ),
)

other_head : (c d : ℕ) (a b : List ℕ) → c ≢ d → Answers (sub_nat c d) (c ∷ a) (d ∷ b)
other_head c d a b ne = (
  (λ h. absurd (difference_zero c d ne h), λ h. absurd (ne (ap (λ (s : List ℕ). get_or s 0 0) h))),
  (
    λ h. inl ((difference_negative c d).0 h),
    elim [ inl lt ↦ (difference_negative c d).1 lt | inr (e, p) ↦ absurd (ne e) ],
  ),
)

-- For texts without a zero: `strcmp` is 0 exactly where they are the same, and negative exactly where the
-- first comes before the second in the order of a dictionary.
pub strcmp_lem : (a b : List ℕ) → All (λ c. c ≢ 0) a → All (λ c. c ≢ 0) b → Answers (strcmp a b) a b
unfolding strcmp
strcmp_lem [] [] ha hb = ((λ e. refl, λ e. refl), (λ e. absurd (ground (arith, e)), λ e. absurd e))
strcmp_lem [] (d ∷ b) ha hb = (
  (
    λ h. absurd (difference_zero 0 d (λ e. hb.0 (sym e)) h),
    λ h. absurd (omega (arith, ap length h)),
  ),
  (λ h. tt, λ h. (difference_negative 0 d).1 (omega (arith, hb.0))),
)
strcmp_lem (c ∷ a) [] ha hb = (
  (λ h. absurd (difference_zero c 0 ha.0 h), λ h. absurd (omega (arith, ap length h))),
  (λ h. absurd (omega (arith, (difference_negative c 0).0 h)), λ h. absurd h),
)
strcmp_lem (c ∷ a) (d ∷ b) ha hb = elim (Bool-cases (c == d)) [
  | inl same ↦
      rw same (same_head (strcmp a b) c d a b ((==_iff c d).0 same) (strcmp_lem a b ha.1 hb.1))
  | inr other ↦ rw other (other_head c d a b (differs c d other))
]
  where
    differs : (c d : ℕ) → (c == d) ≡ false → c ≢ d
    differs c d h = ground (arith, h)

-- `strncmp` is `strcmp` of the first `n` bytes.
pub strncmp-strcmp : (a b : List ℕ) (n : ℕ) → strncmp a b n ≡ strcmp (take n a) (take n b)
unfolding strcmp strncmp
strncmp-strcmp a b zero = refl
strncmp-strcmp [] [] (suc n) = refl
strncmp-strcmp [] (d ∷ b) (suc n) = refl
strncmp-strcmp (c ∷ a) [] (suc n) = refl
strncmp-strcmp (c ∷ a) (d ∷ b) (suc n) =
    ap (λ (t : ℤ). if c == d then t else sub_nat c d) (strncmp-strcmp a b n)
