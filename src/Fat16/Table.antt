-- ===== src/Fat16/Table.antt =====
-- The file allocation table of kernel/fat16.c: the search for a free cluster.
use aioperatingsystem.Common.{
  ℕ, zero, suc, ◌+◌, ◌-◌, ◌≤◌, ◌<◌, ◌≡◌, refl, sym, ap, ◌≢◌, ◌⊎◌, inl, inr, Option, none, some,
  arith, min, ◌==◌, u16, lt_or_le, ==_iff, false, Bool-cases, subst,
}
use aioperatingsystem.Fat16.{Volume, fat_read_entry, scan_free, take_cluster, fat_find_free_cluster}

-- `d` is free, among the `n` clusters from `c` on.
abbrev IsFreeIn : Volume → ℕ → ℕ → ℕ → Type 0
IsFreeIn v c n d = (c ≤ d) × (d < c + n) × (fat_read_entry v d ≡ 0)

abbrev AllUsed : Volume → ℕ → ℕ → Type 0
AllUsed v c n = (i : ℕ) → c ≤ i → i < c + n → fat_read_entry v i ≢ 0

abbrev Scanned : Volume → ℕ → ℕ → Option ℕ → Type 0
Scanned v c n none = AllUsed v c n
Scanned v c n (some d) = IsFreeIn v c n d

c_or_later : (a b : ℕ) → a ≤ b → (a ≡ b) ⊎ (a + 1 ≤ b)
c_or_later a b h = omega arith

used_from :
    (v : Volume) (c n : ℕ) → fat_read_entry v c ≢ 0 → AllUsed v (c + 1) n → AllUsed v c (suc n)
used_from v c n used rest i ge lt e = elim (c_or_later c i ge) [
  | inl same ↦ used (subst (λ (t : ℕ). fat_read_entry v t ≡ 0) (sym same) e)
  | inr later ↦ rest i later (omega arith) e
]

skip_used :
    (v : Volume) (c n : ℕ) (o : Option ℕ)
    → fat_read_entry v c ≢ 0
    → Scanned v (c + 1) n o
    → Scanned v c (suc n) o
skip_used v c n none used rest = used_from v c n used rest
skip_used v c n (some d) used rest = (omega (arith, rest.0), omega (arith, rest.1), rest.2)

is_zero_lem : (a : ℕ) → a ≡ 0 → (a == 0) ≡ false → ⊥
is_zero_lem a e h = ground arith

scan_free_lem : (v : Volume) (c n : ℕ) → Scanned v c n (scan_free v c n)
unfolding scan_free
scan_free_lem v c zero = λ i ge lt e. absurd (omega arith)
scan_free_lem v c (suc n) = elim (Bool-cases (fat_read_entry v c == 0)) [
  | inl free ↦ rw free ((omega arith, omega arith, (==_iff (fat_read_entry v c) 0).0 free))
  | inr used ↦ rw used (
      skip_used v c n (scan_free v (c + 1) n) (λ e. is_zero_lem (fat_read_entry v c) e used)
        (scan_free_lem v (c + 1) n))
]

abbrev pub last_cluster : Volume → ℕ
last_cluster v = u16 (v.total_clusters + 2)

-- What a search of the whole table finds.
abbrev pub SearchResult : Volume → ℕ × Volume → Type 0
SearchResult v r =
    ((r.0 ≡ 0) × (r.1 ≡ v) × ((i : ℕ) → 2 ≤ i → i < last_cluster v → fat_read_entry v i ≢ 0))
    ⊎ ((2 ≤ r.0)
        × (r.0 < last_cluster v)
        × (fat_read_entry v r.0 ≡ 0)
        × (r.1 ≡ record v { next_free_cluster_hint = r.0 + 1 }))

take_cluster_lem :
    (v : Volume) (c n : ℕ) (o : Option ℕ) (other : ℕ × Volume)
    → 2 ≤ c
    → c + n ≤ last_cluster v
    → Scanned v c n o
    → (AllUsed v c n → SearchResult v other)
    → SearchResult v (take_cluster v o other)
take_cluster_lem v c n none other low high scanned rest = rest scanned
take_cluster_lem v c n (some d) other low high scanned rest = inr (
  omega (arith, scanned.0),
  omega (arith, scanned.1),
  scanned.2,
  ap (λ (t : ℕ). record v { next_free_cluster_hint = t }) (omega (arith, scanned.1)),
)

all_used :
    (v : Volume) (hint last : ℕ)
    → AllUsed v hint (last - hint)
    → AllUsed v 2 (min hint last - 2)
    → (i : ℕ) → 2 ≤ i
    → i < last
    → fat_read_entry v i ≢ 0
all_used v hint last high low i ge lt = elim (lt_or_le i hint) [
  | inl below ↦ low i ge (omega arith)
  | inr above ↦ high i above (omega arith)
]

-- On a volume whose search hint is a data cluster, the next-fit search returns a free data cluster
-- and moves the hint just past it; it returns 0 and changes nothing exactly where no data cluster is
-- free.
pub fat_find_free_cluster_lem :
    (v : Volume)
    → 2 ≤ v.next_free_cluster_hint
    → v.next_free_cluster_hint ≤ last_cluster v
    → SearchResult v (fat_find_free_cluster v)
unfolding fat_find_free_cluster
fat_find_free_cluster_lem v low high =
    let hint = v.next_free_cluster_hint in
    let last = last_cluster v in
    take_cluster_lem v hint (last - hint) (scan_free v hint (last - hint)) _ low (omega arith)
      (scan_free_lem v hint (last - hint))
      (λ used_high.
        take_cluster_lem v 2 (min hint last - 2) (scan_free v 2 (min hint last - 2)) _ (omega arith)
          (omega arith) (scan_free_lem v 2 (min hint last - 2))
          (λ used_low. inl (refl, refl, all_used v hint last used_high used_low)))
