-- ===== src/Rsa/Verify.antt =====
-- kernel/rsa.c: which decoded blocks a signature is accepted for.
use aioperatingsystem.Common.{
  ℕ, zero, suc, ◌-◌, ◌≡◌, refl, ap, ap₂, ◌∙◌, List, [], ◌∷◌, ◌++◌, Bool, true, false, ◌&&◌, &&-left,
  &&-right, ◌==◌, ==_iff, length, length-append, length-replicate, replicate, arith,
}
use aioperatingsystem.Rsa.{sha256_digestinfo_prefix, starts_as, skip_ff, check_rest, check_decoded}

-- The block that RFC 8017 asks for, of `len` bytes.
abbrev pub encoded : (len : ℕ) → (hash : List ℕ) → List ℕ
encoded len hash =
    0x00 ∷ 0x01 ∷ (replicate (len - 54) 0xFF ++ (0x00 ∷ (sha256_digestinfo_prefix ++ hash)))

starts_as-eq : (a b : List ℕ) → length a ≡ length b → starts_as a b ≡ true → a ≡ b
unfolding starts_as
starts_as-eq [] [] l h = refl
starts_as-eq [] (d ∷ b) l h = absurd (omega (arith, l))
starts_as-eq (c ∷ a) [] l h = absurd (omega (arith, l))
starts_as-eq (c ∷ a) (d ∷ b) l h =
    ap₂ (λ (x : ℕ) (xs : List ℕ). x ∷ xs) ((==_iff c d).0 (&&-left (c == d) (starts_as a b) h))
      (starts_as-eq a b (omega (arith, l)) (&&-right (c == d) (starts_as a b) h))

same_number : (n : ℕ) → (n == n) ≡ true
same_number n = (==_iff n n).1 refl

starts_as_self : (a : List ℕ) → starts_as a a ≡ true
unfolding starts_as
starts_as_self [] = refl
starts_as_self (c ∷ a) = ap₂ (λ (x y : Bool). x && y) (same_number c) (starts_as_self a)

-- The bytes that are skipped.
skip_ff_lem : (s : List ℕ) → (k : ℕ) × (s ≡ replicate k 0xFF ++ skip_ff s)
unfolding skip_ff
skip_ff_lem [] = (0, refl)
skip_ff_lem (b ∷ s) = by_test (b == 0xFF) refl (skip_ff_lem s)
  where
    by_test :
        (t : Bool)
        → (b == 0xFF) ≡ t
        → (k : ℕ) × (s ≡ replicate k 0xFF ++ skip_ff s)
        → (k : ℕ) × (b ∷ s ≡ replicate k 0xFF ++ elim t [ true ↦ skip_ff s | false ↦ b ∷ s ])
    by_test true e (k, h) = (suc k, ap₂ (λ (x : ℕ) (xs : List ℕ). x ∷ xs) ((==_iff b 0xFF).0 e) h)
    by_test false e r = (0, refl)

skip_ff-replicate : (k : ℕ) (s : List ℕ) → skip_ff (replicate k 0xFF ++ (0x00 ∷ s)) ≡ 0x00 ∷ s
unfolding skip_ff
skip_ff-replicate zero s = refl
skip_ff-replicate (suc k) s = skip_ff-replicate k s

pub check_encoded :
    (len : ℕ) (hash : List ℕ) → length hash ≡ 32 → check_decoded hash (encoded len hash) ≡ true
unfolding check_decoded check_rest
check_encoded len hash h =
    ap (check_rest hash) (skip_ff-replicate (len - 54) (sha256_digestinfo_prefix ++ hash))
    ∙ ap₂ (λ (x y : Bool). x && y)
        ((==_iff (length (sha256_digestinfo_prefix ++ hash)) 51).1 (omega (arith, h)))
        (starts_as_self (sha256_digestinfo_prefix ++ hash))

check_rest_lem :
    (hash s : List ℕ)
    → length hash ≡ 32
    → check_rest hash s ≡ true
    → s ≡ 0x00 ∷ (sha256_digestinfo_prefix ++ hash)
unfolding check_rest
check_rest_lem hash [] l h = absurd (ground (arith, h))
check_rest_lem hash (b ∷ s) l h =
    ap₂ (λ (x : ℕ) (xs : List ℕ). x ∷ xs) ((==_iff b 0x00).0 (&&-left _ _ h))
      (starts_as-eq s (sha256_digestinfo_prefix ++ hash)
        (omega (arith, l, (==_iff (length s) 51).0 (&&-left _ _ (&&-right (b == 0x00) _ h))))
        (&&-right _ _ (&&-right _ _ h)))

pub check_decoded_lem :
    (hash decoded : List ℕ)
    → length hash ≡ 32
    → check_decoded hash decoded ≡ true
    → decoded ≡ encoded (length decoded) hash
unfolding check_decoded
check_decoded_lem hash [] l h = absurd (ground (arith, h))
check_decoded_lem hash (a ∷ []) l h = absurd (ground (arith, h))
check_decoded_lem hash (a ∷ b ∷ s) l h =
    let skipped = skip_ff_lem s in
    let rest : skip_ff s ≡ 0x00 ∷ (sha256_digestinfo_prefix ++ hash) =
      check_rest_lem hash (skip_ff s) l (&&-right _ _ (&&-right _ _ h)) in
    let split : s ≡ replicate skipped.0 0xFF ++ (0x00 ∷ (sha256_digestinfo_prefix ++ hash)) =
      skipped.1 ∙ ap (λ (t : List ℕ). replicate skipped.0 0xFF ++ t) rest in
    let count : skipped.0 ≡ suc (suc (length s)) - 54 = omega (
      arith,
      l,
      ap length split,
      length-append (replicate skipped.0 0xFF) (0x00 ∷ (sha256_digestinfo_prefix ++ hash)),
      length-replicate {A = ℕ} skipped.0 0xFF,
    ) in
    (λ i.
      (==_iff a 0x00).0 (&&-left _ _ h) i
      ∷ (==_iff b 0x01).0 (&&-left _ _ (&&-right _ _ h)) i
      ∷ (split
            ∙ ap (λ (k : ℕ). replicate k 0xFF ++ (0x00 ∷ (sha256_digestinfo_prefix ++ hash))) count)
          i)
