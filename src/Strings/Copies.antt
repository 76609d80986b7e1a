-- ===== src/Strings/Copies.antt =====
-- kernel/string.c: `strcpy` is `memcpy` of a text with its zero.
use aioperatingsystem.Common.{
  ℕ, zero, suc, ◌+◌, ◌≤◌, ◌<◌, ◌≡◌, ◌≢◌, ◌⊎◌, refl, ◌∙◌, ap, sym, List, false, some, arith, ◌==◌,
  get_or, set, get_or-set_ne,
}
use aioperatingsystem.Strings.{memcpy, strcpy}

-- A text of `n` bytes that are not zero, and a zero.
pub record IsTerminated (m : List ℕ) (str n : ℕ) : Type 0 where
  pub going : (i : ℕ) → i < n → get_or m (str + i) 0 ≢ 0
  pub ends : get_or m (str + n) 0 ≡ 0

-- Writing before the text, or behind its zero.
IsTerminated-set :
    (m : List ℕ) (src n dst c : ℕ)
    → IsTerminated m src (suc n)
    → (dst ≤ src) ⊎ (src + suc n < dst)
    → IsTerminated (set m dst c) (src + 1) n
IsTerminated-set m src n dst c text out = record {
  going = λ i lt e.
      text.going (suc i) (omega arith)
        (ap (λ (t : ℕ). get_or m t 0) (at i) ∙ sym (kept i (omega arith)) ∙ e);
  ends = kept n (omega arith) ∙ ap (λ (t : ℕ). get_or m t 0) (sym (at n)) ∙ text.ends;
}
  where
    at : (i : ℕ) → src + suc i ≡ src + 1 + i
    at i = omega arith

    kept : (i : ℕ) → i < suc n → get_or (set m dst c) (src + 1 + i) 0 ≡ get_or m (src + 1 + i) 0
    kept i lt = get_or-set_ne m dst (src + 1 + i) c 0 (λ e. omega (arith, out, e))

not_zero : (a : ℕ) → a ≢ 0 → (a == 0) ≡ false
not_zero a h = ground arith

-- For a text of `n` bytes and a destination at or before it, or behind its zero, `strcpy` ends in `n + 1`
-- rounds, and it leaves the store as `memcpy` of `n + 1` bytes does.
pub strcpy-memcpy :
    (n : ℕ) (m : List ℕ) (dst src : ℕ)
    → IsTerminated m src n
    → (dst ≤ src) ⊎ (src + n < dst)
    → strcpy (suc n) m dst src ≡ some (memcpy m dst src (suc n))
unfolding strcpy memcpy
strcpy-memcpy zero m dst src text out =
    let e : get_or m src 0 ≡ 0 =
      ap (λ (t : ℕ). get_or m t 0) (let e : src ≡ src + 0 = omega arith in e) ∙ text.ends in
    rw e refl
strcpy-memcpy (suc n) m dst src text out =
    let going : (get_or m src 0 == 0) ≡ false = not_zero (get_or m src 0) (λ e.
      text.going 0 (omega arith)
        (ap (λ (t : ℕ). get_or m t 0) (let e' : src + 0 ≡ src = omega arith in e') ∙ e)) in
    rw going (
      strcpy-memcpy n (set m dst (get_or m src 0)) (dst + 1) (src + 1)
        (IsTerminated-set m src n dst (get_or m src 0) text out) (omega (arith, out)))
