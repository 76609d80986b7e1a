-- ===== src/Fat16/Extend.antt =====
-- kernel/fat16.c: extending a chain by a cluster, on a disk every sector of which can be read and written.
use aioperatingsystem.Common.{
  ℕ, ◌+◌, ◌≤◌, ◌<◌, ◌≡◌, ◌≢◌, ◌⊎◌, refl, sym, ◌∙◌, ap, ap₂, subst, inl, inr, true, false, List,
  arith, leb, ◌==◌, if◌then◌else◌,
}
use aioperatingsystem.Fat16.{
  Volume, eoc_min, cluster_to_lba, read_sector, fat_read_entry, fat_write_entry,
  fat_find_free_cluster,
}
use aioperatingsystem.Fat16.Copies.{with_sectors}
use aioperatingsystem.Fat16.Table.{last_cluster, fat_find_free_cluster_lem}
use aioperatingsystem.Fat16.Chain.{zero_sectors, link_cluster, extend_with, extend_cluster_chain}
use aioperatingsystem.Fat16.Sectors.{AllWhole, zero_sectors_lem}
use aioperatingsystem.Fat16.Clusters.{
  IsVolume, IsData, changed-IsVolume, with_sectors-IsVolume, data_lba, data_lba-bound,
  cluster_to_lba_lem, TableReads, same_table, set_entry, table_write,
}

-- The cluster that is extended: none, or a data cluster.
abbrev pub IsLast : Volume → ℕ → Type 0
IsLast v last = (last ≡ 0) ⊎ IsData v last

set_entry_none :
    (f : ℕ → ℕ) (v : Volume) (last c d : ℕ) → last ≡ 0 → IsData v d → set_entry f last c d ≡ f d
set_entry_none f v last c d none there = ground (arith, none, there)

link_cluster_lem :
    (v : Volume) (last c : ℕ)
    → IsVolume v
    → IsLast v last
    → IsData v c
    → (s : ℕ → List ℕ) × (link_cluster v last c ≡ (true, with_sectors v s))
      × AllWhole s
      × TableReads v s (set_entry (fat_read_entry v) last c)
      × ((l : ℕ) → v.data_start_lba ≤ l → s l ≡ v.sectors l)
link_cluster_lem v last c h (inl none) here =
    let skipped : leb 2 last ≡ false = ground (arith, none) in
    (
      v.sectors,
      rw skipped refl,
      h.fat.whole,
      λ d there. sym (set_entry_none (fat_read_entry v) v last c d none there),
      λ l ge. refl,
    )
link_cluster_lem v last c h (inr last_here) here =
    let taken : leb 2 last ≡ true = ground (arith, last_here) in
    let (s, run, whole, table, kept) =
      table_write v last c h last_here (omega (arith, here, h.in_range)) in
    (s, rw taken run, whole, table, kept)

abbrev pub with_hint : Volume → (ℕ → List ℕ) → ℕ → Volume
with_hint v s hint = record v { sectors = s; next_free_cluster_hint = hint }

-- A cluster that was free is the new end of the chain, and nothing else is changed but its sectors.
abbrev pub Extended : Volume → ℕ → ℕ × Volume → Type 0
Extended v last r =
    (c : ℕ) × (s : ℕ → List ℕ) × (hint : ℕ) × (r ≡ (c, with_hint v s hint))
    × IsVolume (with_hint v s hint)
    × IsData v c
    × (fat_read_entry v c ≡ 0)
    × ((d : ℕ)
        → IsData v d
        → fat_read_entry (with_hint v s hint) d
          ≡ set_entry (set_entry (fat_read_entry v) c eoc_min) last c d)
    × ((l : ℕ)
        → v.data_start_lba ≤ l
        → (l < data_lba v c) ⊎ (data_lba v c + v.bpb.sectors_per_cluster ≤ l)
        → s l ≡ v.sectors l)

abbrev pub AllTaken : Volume → Type 0
AllTaken v = (i : ℕ) → IsData v i → fat_read_entry v i ≢ 0

-- The steps that succeed, one after the other.
run_of_steps :
    (v v1 v2 v3 : Volume) (last c : ℕ)
    → (c == 0) ≡ false
    → fat_write_entry v c eoc_min ≡ (true, v1)
    → link_cluster v1 last c ≡ (true, v2)
    → zero_sectors v2 (cluster_to_lba v2 c) v2.bpb.sectors_per_cluster ≡ (true, v3)
    → extend_with (c, v) last ≡ (c, v3)
run_of_steps v v1 v2 v3 last c nonzero ended linked zeroed =
    rw (nonzero, ended, linked, zeroed) refl

taken_cluster :
    (v : Volume) (last c : ℕ)
    → IsVolume v
    → IsLast v last
    → IsData v c
    → fat_read_entry v c ≡ 0
    → Extended v last (extend_with (c, with_hint v v.sectors (c + 1)) last)
unfolding fat_read_entry read_sector
taken_cluster v last c h is_last here free =
    let v0 = with_hint v v.sectors (c + 1) in
    let h0 =
      changed-IsVolume v v.sectors (c + 1) h h.fat.whole (omega arith) (omega (arith, here)) in
    let (s1, run1, whole1, table1, kept1) = table_write v0 c eoc_min h0 here (omega arith) in
    let v1 = with_sectors v0 s1 in
    let h1 = with_sectors-IsVolume v0 s1 h0 whole1 in
    let (s2, run2, whole2, table2, kept2) = link_cluster_lem v1 last c h1 is_last here in
    let v2 = with_sectors v1 s2 in
    let h2 = with_sectors-IsVolume v1 s2 h1 whole2 in
    let at : cluster_to_lba v2 c ≡ data_lba v c = cluster_to_lba_lem v2 c h2 here in
    let (s3, run3, whole3, same3) =
      zero_sectors_lem v.bpb.sectors_per_cluster (data_lba v c) v2 h2.fat
        (omega (arith, data_lba-bound v c h here)) in
    let nonzero : (c == 0) ≡ false = ground (arith, here) in
    (
      c,
      s3,
      c + 1,
      run_of_steps v0 v1 v2 (with_sectors v2 s3) last c nonzero run1 run2
          (ap (λ (t : ℕ). zero_sectors v2 t v.bpb.sectors_per_cluster) at ∙ run3),
      with_sectors-IsVolume v2 s3 h2 whole3,
      here,
      free,
      λ d there.
          same_table v2 s3 h2 (λ l below. same3 l (inl (omega arith))) d there
          ∙ table2 d there
          ∙ ap (λ (t : ℕ). if d == last then c else t) (table1 d there),
      λ l ge out. same3 l out ∙ kept2 l ge ∙ kept1 l ge,
    )

pub extend_cluster_chain_lem :
    (v : Volume) (last : ℕ)
    → IsVolume v
    → IsLast v last
    → ((extend_cluster_chain v last ≡ (0, v)) × AllTaken v)
      ⊎ Extended v last (extend_cluster_chain v last)
unfolding extend_cluster_chain
extend_cluster_chain_lem v last h is_last =
    let all : last_cluster v ≡ v.total_clusters + 2 = omega (arith, h.in_range) in
    elim (fat_find_free_cluster_lem v h.hint_low (omega (arith, h.hint_high, all))) [
      | inl (none, same, used) ↦ inl (
        ap (λ (r : ℕ × Volume). extend_with r last)
            (ap₂ (λ (c : ℕ) (w : Volume). (c, w)) none same),
        λ i there. used i there.0 (omega (arith, there, all)),
      )
      | inr (low, high, free, at) ↦
          let found = fat_find_free_cluster v in
          inr (
            subst (λ (r : ℕ × Volume). Extended v last (extend_with r last))
              (ap (λ (w : Volume). (found.0, w)) (sym at))
              (taken_cluster v last found.0 h is_last (omega arith, omega (arith, high, all)) free))
    ]
