-- ===== src/Fat16/Clusters.antt =====
-- kernel/fat16.c: where the clusters of a volume stand, and what extending a chain changes.
use aioperatingsystem.Common.{
  ℕ, suc, ◌+◌, ◌-◌, ◌*◌, ◌/◌, ◌%◌, ◌^◌, ◌≤◌, ◌<◌, ◌≡◌, ◌≢◌, ◌⊎◌, sym, ◌∙◌, ap, inl, inr, Bool, true,
  List, arith, u16, u32, sub_u32, ◌==◌, if◌then◌else◌, lt_or_le,
}
use native.Mathlib.Nat.{mul-le-mul_right}
use aioperatingsystem.Fat16.{
  Volume, sector_size, eoc_min, le16, cluster_to_lba, fat_read_entry, fat_write_entry,
}
use aioperatingsystem.Fat16.Copies.{IsFat, with_sectors, fat_write_entry_lem}
use aioperatingsystem.Fat16.Entry.{fat_read_entry_lem, fat_write_entry-read}
use aioperatingsystem.Fat16.Sectors.{AllWhole}

-- A table that has an entry for every data cluster and stands below the data, and numbers that do not wrap.
pub record IsVolume (v : Volume) : Type 0 where
  pub fat : IsFat v
  pub below_data : v.fat_start_lba + v.bpb.num_fats * v.bpb.sectors_per_fat ≤ v.data_start_lba
  pub in_table : v.total_clusters + 2 ≤ v.bpb.sectors_per_fat * 256
  pub in_range : v.total_clusters + 2 ≤ eoc_min
  pub addressable : v.data_start_lba + v.total_clusters * v.bpb.sectors_per_cluster < 2 ^ 32
  pub hint_low : 2 ≤ v.next_free_cluster_hint
  pub hint_high : v.next_free_cluster_hint ≤ v.total_clusters + 2
  pub some_sector : 1 ≤ v.bpb.sectors_per_cluster

abbrev pub IsData : Volume → ℕ → Type 0
IsData v c = (2 ≤ c) × (c < v.total_clusters + 2)

pub changed-IsVolume :
    (v : Volume) (s : ℕ → List ℕ) (hint : ℕ)
    → IsVolume v
    → AllWhole s
    → 2 ≤ hint
    → hint ≤ v.total_clusters + 2
    → IsVolume (record v { sectors = s; next_free_cluster_hint = hint })
changed-IsVolume v s hint h whole low high = record {
  fat = record {
    some_copy = h.fat.some_copy;
    addressable = h.fat.addressable;
    can_read = h.fat.can_read;
    can_write = h.fat.can_write;
    whole = whole;
  };
  below_data = h.below_data;
  in_table = h.in_table;
  in_range = h.in_range;
  addressable = h.addressable;
  hint_low = low;
  hint_high = high;
  some_sector = h.some_sector;
}

pub with_sectors-IsVolume :
    (v : Volume) (s : ℕ → List ℕ) → IsVolume v → AllWhole s → IsVolume (with_sectors v s)
with_sectors-IsVolume v s h whole =
    changed-IsVolume v s v.next_free_cluster_hint h whole h.hint_low h.hint_high

-- The first sector of a data cluster.
abbrev pub data_lba : Volume → ℕ → ℕ
data_lba v c = v.data_start_lba + (c - 2) * v.bpb.sectors_per_cluster

pub data_lba-bound :
    (v : Volume) (c : ℕ)
    → IsVolume v
    → IsData v c
    → data_lba v c + v.bpb.sectors_per_cluster < 2 ^ 32
data_lba-bound v c h here = omega (
  arith,
  h.addressable,
  mul-le-mul_right v.bpb.sectors_per_cluster
      (let e : suc (c - 2) ≤ v.total_clusters = omega (arith, here) in e),
)

pub cluster_to_lba_lem :
    (v : Volume) (c : ℕ) → IsVolume v → IsData v c → cluster_to_lba v c ≡ data_lba v c
unfolding cluster_to_lba
cluster_to_lba_lem v c h here =
    let bound = data_lba-bound v c h here in
    let back : sub_u32 c 2 ≡ c - 2 = omega (arith, here, h.in_range) in
    rw back (let e : u32 (data_lba v c) ≡ data_lba v c = omega (arith, bound) in e)

-- The sectors of two clusters are different.
pub other_cluster :
    (v : Volume) (c d k : ℕ)
    → IsData v c
    → IsData v d
    → d ≢ c
    → k < v.bpb.sectors_per_cluster
    → (data_lba v d + k < data_lba v c)
      ⊎ (data_lba v c + v.bpb.sectors_per_cluster ≤ data_lba v d + k)
other_cluster v c d k hc hd ne small = elim (lt_or_le d c) [
  | inl before ↦ inl (
      omega (
        arith,
        mul-le-mul_right v.bpb.sectors_per_cluster
            (let e : suc (d - 2) ≤ c - 2 = omega (arith, hc, hd, before) in e),
      ))
  | inr behind ↦ inr (
      omega (
        arith,
        mul-le-mul_right v.bpb.sectors_per_cluster
            (let e : suc (c - 2) ≤ d - 2 = omega (arith, hc, hd, behind, ne) in e),
      ))
]

-- What the data clusters' entries of the table read as in the sectors `s`.
abbrev pub TableReads : Volume → (ℕ → List ℕ) → (ℕ → ℕ) → Type 0
TableReads v s f = (d : ℕ) → IsData v d → fat_read_entry (with_sectors v s) d ≡ f d

-- A table below the data does not see a change of the data.
pub same_table :
    (v : Volume) (s : ℕ → List ℕ)
    → IsVolume v
    → ((l : ℕ) → l < v.data_start_lba → s l ≡ v.sectors l)
    → TableReads v s (fat_read_entry v)
same_table v s h same d here =
    let inside : v.fat_start_lba + d * 2 / 512 < v.data_start_lba = omega (
      arith,
      here,
      h.in_table,
      h.below_data,
      h.fat.some_copy,
      mul-le-mul_right v.bpb.sectors_per_fat h.fat.some_copy,
    ) in
    let small : v.fat_start_lba + d * 2 / 512 < 2 ^ 32 = omega (arith, inside, h.addressable) in
    fat_read_entry_lem v s d h.fat small
    ∙ ap (λ (b : List ℕ). u16 (le16 b (d * 2 % 512))) (same (v.fat_start_lba + d * 2 / 512) inside)
    ∙ sym (fat_read_entry_lem v v.sectors d h.fat small)

-- One entry of the table.
abbrev pub set_entry : (ℕ → ℕ) → (c value : ℕ) → ℕ → ℕ
set_entry f c value d = if d == c then value else f d

pub table_write :
    (v : Volume) (c value : ℕ)
    → IsVolume v
    → IsData v c
    → value < 2 ^ 16
    → (s : ℕ → List ℕ) × (fat_write_entry v c value ≡ (true, with_sectors v s))
      × AllWhole s
      × TableReads v s (set_entry (fat_read_entry v) c value)
      × ((l : ℕ) → v.data_start_lba ≤ l → s l ≡ v.sectors l)
table_write v c value h here small =
    let inside : c * 2 / sector_size < v.bpb.sectors_per_fat = omega (arith, here, h.in_table) in
    let (s, run, first, same, beyond) = fat_write_entry_lem v c value h.fat inside in
    (
      s,
      run,
      λ l. same l ∙ h.fat.whole l,
      λ d there.
          ap (λ (r : Bool × Volume). fat_read_entry r.1 d) (sym run)
          ∙ (fat_write_entry-read v c d value h.fat inside (omega (arith, there, h.in_table))
              small).1,
      λ l ge. beyond l (omega (arith, ge, h.below_data)),
    )
