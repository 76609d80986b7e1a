-- ===== src/Hmac/Prf.antt =====
-- kernel/hmac.c against P_hash of RFC 5246, section 5.
use aioperatingsystem.Common.{
  ℕ, zero, suc, ◌-◌, ◌*◌, ◌≤◌, ◌≡◌, sym, ◌∙◌, ap, ap₂, min, List, [], ◌∷◌, ◌++◌, arith, length,
  take, ◌==◌, Bool-cases, inl, inr, ==_iff, false,
}
use aioperatingsystem.Sha256.{length-sha256}
use aioperatingsystem.Hmac.{hmac_sha256, prf_loop, tls_prf}

-- HMAC(secret, A(i) + seed), HMAC(secret, A(i+1) + seed), ... with A(i+1) = HMAC(secret, A(i)).
unfoldable pub p_hash : (chunks : ℕ) → (secret seed a : List ℕ) → List ℕ
p_hash zero secret seed a = []
p_hash (suc chunks) secret seed a =
    hmac_sha256 secret (a ++ seed) ++ p_hash chunks secret seed (hmac_sha256 secret a)

length-hmac_sha256 : (key bytes : List ℕ) → length (hmac_sha256 key bytes) ≡ 32
unfolding hmac_sha256
length-hmac_sha256 key bytes = length-sha256 _

take-append :
    (n : ℕ) (xs ys : List ℕ)
    → take n (xs ++ ys) ≡ take (min n (length xs)) xs ++ take (n - length xs) ys
take-append zero xs ys =
    sym (ap₂ (λ (a b : ℕ). take a xs ++ take b ys) (min_zero (length xs)) (zero_sub (length xs)))
  where
    min_zero : (m : ℕ) → min 0 m ≡ 0
    min_zero m = omega arith

    zero_sub : (m : ℕ) → 0 - m ≡ 0
    zero_sub m = omega arith
take-append (suc n) [] ys =
    sym (ap₂ (λ (a b : ℕ). take {A = ℕ} a [] ++ take b ys) (min_nil n) (sub_nil n))
  where
    min_nil : (m : ℕ) → min (suc m) 0 ≡ 0
    min_nil m = omega arith

    sub_nil : (m : ℕ) → suc m - 0 ≡ suc m
    sub_nil m = omega arith
take-append (suc n) (x ∷ xs) ys =
    ap (λ t. x ∷ t) (take-append n xs ys)
    ∙ sym (
        ap₂ (λ (a b : ℕ). take a (x ∷ xs) ++ take b ys) (min_suc n (length xs))
          (sub_suc n (length xs)))
  where
    min_suc : (a b : ℕ) → min (suc a) (suc b) ≡ suc (min a b)
    min_suc a b = omega arith

    sub_suc : (a b : ℕ) → suc a - suc b ≡ a - b
    sub_suc a b = omega arith

prf_loop_lem :
    (fuel chunks : ℕ) (secret seed a : List ℕ) (left : ℕ)
    → left ≤ fuel
    → left ≤ 32 * chunks
    → prf_loop fuel secret seed a left ≡ take left (p_hash chunks secret seed a)
unfolding prf_loop p_hash
prf_loop_lem zero chunks secret seed a left enough short =
    sym (ap (λ (t : ℕ). take t (p_hash chunks secret seed a)) (nothing left enough))
  where
    nothing : (k : ℕ) → k ≤ 0 → k ≡ 0
    nothing k h = omega arith
prf_loop_lem (suc fuel) zero secret seed a left enough short =
    let none : left ≡ 0 = omega arith in
    ap (λ (t : ℕ). prf_loop (suc fuel) secret seed a t) none
    ∙ sym (ap (λ (t : ℕ). take {A = ℕ} t []) none)
prf_loop_lem (suc fuel) (suc chunks) secret seed a left enough short =
    elim (Bool-cases (left == 0)) [
      | inl none ↦ rw none (
          sym (ap (λ (t : ℕ). take t (p_hash (suc chunks) secret seed a)) ((==_iff left 0).0 none)))
      | inr more ↦
          let chunk = hmac_sha256 secret (a ++ seed) in
          let next = hmac_sha256 secret a in
          let size = length-hmac_sha256 secret (a ++ seed) in
          rw more (
            ap (λ t. take (min left 32) chunk ++ t)
              (prf_loop_lem fuel chunks secret seed next (left - min left 32)
                (smaller left fuel more enough) (omega arith))
            ∙ ap (λ (t : ℕ). take (min left 32) chunk ++ take t (p_hash chunks secret seed next))
                (rest left)
            ∙ sym (
                take-append left chunk (p_hash chunks secret seed next)
                ∙ ap
                    (λ (t : ℕ).
                      take (min left t) chunk ++ take (left - t) (p_hash chunks secret seed next))
                    size))
    ]
  where
    smaller : (k f : ℕ) → (k == 0) ≡ false → k ≤ suc f → k - min k 32 ≤ f
    smaller k f h l = ground arith

    rest : (k : ℕ) → k - min k 32 ≡ k - 32
    rest k = omega arith

-- For every number of bytes asked for, the key expansion gives the first bytes of P_hash over the label
-- and the seed, however many chunks beyond those needed P_hash is run for.
pub tls_prf_lem :
    (secret label seed : List ℕ) (out_len chunks : ℕ)
    → out_len ≤ 32 * chunks
    → tls_prf secret label seed out_len
      ≡ take out_len (p_hash chunks secret (label ++ seed) (hmac_sha256 secret (label ++ seed)))
unfolding tls_prf
tls_prf_lem secret label seed out_len chunks short =
    prf_loop_lem out_len chunks secret (label ++ seed) (hmac_sha256 secret (label ++ seed)) out_len
      (omega arith) short
