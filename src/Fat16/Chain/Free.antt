-- ===== src/Fat16/Chain/Free.antt =====
-- Freeing a cluster chain, in kernel/fat16.c.
use aioperatingsystem.Common.{
  ℕ, ◌*◌, ◌/◌, ◌<◌, ◌≡◌, ◌≢◌, refl, sym, ◌∙◌, ap, subst, Bool, true, false, ◌||◌, List, [], ◌∷◌,
  some, arith, ◌==◌, if◌then◌else◌, length, All,
}
use aioperatingsystem.Fat16.{Volume, sector_size, fat_read_entry, fat_write_entry}
use aioperatingsystem.Fat16.Chain.{in_chain, free_cluster_chain}
use aioperatingsystem.Fat16.Copies.{IsFat, fat_write_entry-IsFat}
use aioperatingsystem.Fat16.Entry.{fat_write_entry-read}

abbrev pub InTable : Volume → ℕ → Type 0
InTable v c = c * 2 / sector_size < v.bpb.sectors_per_fat

-- The clusters that the links of the table name from `c` to the end mark, none of them twice.
abbrev pub IsChain : Volume → ℕ → List ℕ → Type 0
IsChain v c [] = in_chain c ≡ false
IsChain v c (d ∷ ds) =
    (d ≡ c)
    × (in_chain c ≡ true)
    × InTable v c
    × All (λ e. e ≢ c) ds
    × IsChain v (fat_read_entry v c) ds

abbrev pub is_member : ℕ → List ℕ → Bool
is_member d [] = false
is_member d (c ∷ cs) = (d == c) || is_member d cs

not_same : (a b : ℕ) → a ≢ b → (a == b) ≡ false
not_same a b h = ground arith

-- The table without the entry of `c`.
entry_kept :
    (v : Volume) (c d : ℕ)
    → IsFat v
    → InTable v c
    → InTable v d
    → fat_read_entry (fat_write_entry v c 0).1 d ≡ (if d == c then 0 else fat_read_entry v d)
entry_kept v c d fat here there = (fat_write_entry-read v c d 0 fat here there (omega arith)).1

after_free :
    (ds : List ℕ) (v : Volume) (c n : ℕ)
    → IsFat v
    → InTable v c
    → All (λ e. e ≢ c) ds
    → IsChain v n ds
    → IsChain (fat_write_entry v c 0).1 n ds
after_free [] v c n fat here ne h = h
after_free (d ∷ ds) v c n fat here ne (same, going, there, once, links) =
    let differs : n ≢ c = λ e. ne.0 (same ∙ e) in
    let kept : fat_read_entry (fat_write_entry v c 0).1 n ≡ fat_read_entry v n =
      entry_kept v c n fat here there
      ∙ ap (λ b. if b then 0 else fat_read_entry v n) (not_same n c differs) in
    let spf = (fat_write_entry-IsFat v c 0 fat here).1 in
    (
      same,
      going,
      subst (λ (t : ℕ). n * 2 / sector_size < t) (sym spf) there,
      once,
      subst (λ (t : ℕ). IsChain (fat_write_entry v c 0).1 t ds) (sym kept)
          (after_free ds v c (fat_read_entry v n) fat here ne.1 links),
    )

either_way :
    (a b : Bool) (x : ℕ) → (if b then 0 else (if a then 0 else x)) ≡ (if a || b then 0 else x)
either_way true true x = refl
either_way true false x = refl
either_way false true x = refl
either_way false false x = refl

-- On a disk every sector of which can be read and written and holds 512 bytes, with a copy of the table
-- at least and all copies in sectors with numbers below 2 ^ 32: freeing a chain of clusters in the table,
-- none twice, ends within a round for each of them; every cluster of the chain is free after it, every
-- other entry of the table is as it was, and the disk is still as it was taken to be.
pub free_cluster_chain_lem :
    (cs : List ℕ) (v : Volume) (c : ℕ)
    → IsFat v
    → IsChain v c cs
    → (w : Volume) × (free_cluster_chain (length cs) v c ≡ some w)
      × IsFat w
      × ((d : ℕ)
          → InTable v d
          → fat_read_entry w d ≡ (if is_member d cs then 0 else fat_read_entry v d))
unfolding free_cluster_chain
free_cluster_chain_lem [] v c fat ends = (v, rw ends refl, fat, λ d h. refl)
free_cluster_chain_lem (b ∷ cs) v c fat (same, going, here, once, links) =
    let v1 = (fat_write_entry v c 0).1 in
    let after = fat_write_entry-IsFat v c 0 fat here in
    let (w, run, fat', freed) =
      free_cluster_chain_lem cs v1 (fat_read_entry v c) after.0
        (after_free cs v c (fat_read_entry v c) fat here once links) in
    (
      w,
      rw going run,
      fat',
      λ d there.
          freed d (subst (λ (t : ℕ). d * 2 / sector_size < t) (sym after.1) there)
          ∙ ap (λ (t : ℕ). if is_member d cs then 0 else t) (entry_kept v c d fat here there)
          ∙ either_way (d == c) (is_member d cs) (fat_read_entry v d)
          ∙ ap (λ (t : ℕ). if (d == t) || is_member d cs then 0 else fat_read_entry v d) (sym same),
    )
