-- ===== src/Strings/Move.antt =====
-- What the loops of kernel/string.c leave in memory, overlapping ranges included.
use aioperatingsystem.Common.{
  ℕ, zero, suc, ◌+◌, ◌≤◌, ◌<◌, ◌≡◌, refl, sym, ◌∙◌, ap, ◌⊎◌, inl, inr, false, List, arith, ltb,
  get_or, set, length, length-set, get_or-set_self, get_or-set_ne, Bool-cases, ltb→lt,
}
use aioperatingsystem.Strings.{memcpy, copy_down, memmove}

-- The range at `dst` holds what `src` held in `m`, and nothing else has changed.
abbrev pub IsCopied : List ℕ → List ℕ → ℕ → ℕ → ℕ → Type 0
IsCopied m r dst src n =
    ((k : ℕ) → k < n → get_or r (dst + k) 0 ≡ get_or m (src + k) 0)
    × ((i : ℕ) → (i < dst) ⊎ (dst + n ≤ i) → get_or r i 0 ≡ get_or m i 0)

further : (i d n : ℕ) → (i < d) ⊎ (d + suc n ≤ i) → (i < d + 1) ⊎ (d + 1 + n ≤ i)
further i d n (inl h) = inl (omega arith)
further i d n (inr h) = inr (omega arith)

away : (i d n : ℕ) → (i < d) ⊎ (d + suc n ≤ i) → d ≡ i → ⊥
away i d n (inl h) e = omega arith
away i d n (inr h) e = omega arith

away_top : (i d n : ℕ) → (i < d) ⊎ (d + suc n ≤ i) → d + n ≡ i → ⊥
away_top i d n (inl h) e = omega arith
away_top i d n (inr h) e = omega arith

lower : (i d n : ℕ) → (i < d) ⊎ (d + suc n ≤ i) → (i < d) ⊎ (d + n ≤ i)
lower i d n (inl h) = inl h
lower i d n (inr h) = inr (omega arith)

abbrev get0 : List ℕ → ℕ → ℕ
get0 m i = get_or m i 0

memcpy_lem :
    (n dst src : ℕ) (m : List ℕ)
    → dst < src
    → src + n ≤ length m
    → IsCopied m (memcpy m dst src n) dst src n
unfolding memcpy
memcpy_lem zero dst src m below fits = (λ k h. absurd (omega arith), λ i h. refl)
memcpy_lem (suc n) dst src m below fits =
    let m' = set m dst (get0 m src) in
    let rest =
      memcpy_lem n (dst + 1) (src + 1) m' (omega arith)
        (omega (arith, length-set m dst (get0 m src))) in
    (
      λ k h. inside k h (memcpy m' (dst + 1) (src + 1) n) rest.0 rest.1,
      λ i h. rest.1 i (further i dst n h) ∙ get_or-set_ne m dst i (get0 m src) 0 (away i dst n h),
    )
  where
    inside :
        (k : ℕ)
        → k < suc n
        → (r : List ℕ)
        → ((j : ℕ)
            → j < n
            → get_or r (dst + 1 + j) 0 ≡ get_or (set m dst (get0 m src)) (src + 1 + j) 0)
        → ((i : ℕ)
            → (i < dst + 1) ⊎ (dst + 1 + n ≤ i)
            → get_or r i 0 ≡ get_or (set m dst (get0 m src)) i 0)
        → get_or r (dst + k) 0 ≡ get_or m (src + k) 0
    inside zero h r later outside =
        ap (λ (t : ℕ). get0 r t) (to dst)
        ∙ outside dst (inl (omega arith))
        ∙ get_or-set_self m dst (get0 m src) 0 (omega (arith, below, fits))
        ∙ ap (λ (t : ℕ). get0 m t) (sym (to src))
      where
        to : (a : ℕ) → a + 0 ≡ a
        to a = omega arith
    inside (suc j) h r later outside =
        ap (λ (t : ℕ). get0 r t) (over dst j)
        ∙ later j (omega arith)
        ∙ get_or-set_ne m dst (src + 1 + j) (get0 m src) 0 (λ e. omega (arith, e, below))
        ∙ ap (λ (t : ℕ). get0 m t) (sym (over src j))
      where
        over : (a b : ℕ) → a + suc b ≡ a + 1 + b
        over a b = omega arith

last_or_before : (k n : ℕ) → k < suc n → (k ≡ n) ⊎ (k < n)
last_or_before k n h = omega arith

copy_down_lem :
    (n dst src : ℕ) (m : List ℕ)
    → src < dst
    → dst + n ≤ length m
    → IsCopied m (copy_down m dst src n) dst src n
unfolding copy_down
copy_down_lem zero dst src m below fits = (λ k h. absurd (omega arith), λ i h. refl)
copy_down_lem (suc n) dst src m below fits =
    let v = get0 m (src + n) in
    let m' = set m (dst + n) v in
    let rest = copy_down_lem n dst src m' below (omega (arith, length-set m (dst + n) v)) in
    (
      λ k h. elim (last_or_before k n h) [
        | inl top ↦
            ap (λ (t : ℕ). get0 (copy_down m' dst src n) (dst + t)) top
            ∙ rest.1 (dst + n) (inr (omega arith))
            ∙ get_or-set_self m (dst + n) v 0 (omega (arith, fits))
            ∙ ap (λ (t : ℕ). get0 m (src + t)) (sym top)
        | inr under ↦
            rest.0 k under
            ∙ get_or-set_ne m (dst + n) (src + k) v 0 (λ e. omega (arith, e, below, under))
      ],
      λ i h. rest.1 i (lower i dst n h) ∙ get_or-set_ne m (dst + n) i v 0 (away_top i dst n h),
    )

same_place : (dst src n : ℕ) (m : List ℕ) → dst ≡ src → IsCopied m m dst src n
same_place dst src n m e = (λ k h. ap (λ (t : ℕ). get0 m (t + k)) e, λ i h. refl)

-- Moving `n` bytes between two ranges of one store, however they overlap: the destination then holds
-- what the source held before, and every other byte is as it was.
pub memmove_lem :
    (n dst src : ℕ) (m : List ℕ)
    → dst + n ≤ length m
    → src + n ≤ length m
    → IsCopied m (memmove m dst src n) dst src n
unfolding memmove
memmove_lem n dst src m dst_fits src_fits = elim (Bool-cases (ltb dst src)) [
  | inl up ↦ rw up (memcpy_lem n dst src m (ltb→lt dst src up) src_fits)
  | inr not_up ↦ rw not_up (elim (Bool-cases (ltb src dst)) [
    | inl down ↦ rw down (copy_down_lem n dst src m (ltb→lt src dst down) dst_fits)
    | inr same ↦ rw same (same_place dst src n m (equal dst src not_up same))
  ])
]
  where
    equal : (a b : ℕ) → ltb a b ≡ false → ltb b a ≡ false → a ≡ b
    equal a b h g = ground arith
