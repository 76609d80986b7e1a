-- ===== src/Fat16.antt =====
-- kernel/fat16.c: the volume, its sectors and its file allocation table.
--
-- The disk under the driver is a map from sector numbers to 512 bytes, with the sectors that cannot
-- be read or written; ata.c is not modelled. A function of the code that returns `bool` and changes
-- the volume returns both, and what it wrote before it failed stays written.
pub mod Table
pub mod Words
pub mod Copies
pub mod Entry
pub mod Names
pub mod Boot
pub mod Dir
pub mod Chain
pub mod Slot
pub mod Files
pub mod Sectors
pub mod Clusters
pub mod Extend
pub mod Written
pub mod Contents
pub mod ReadBack
mod Tests
use aioperatingsystem.Common.{
  ℕ, zero, suc, ◌+◌, ◌-◌, ◌*◌, ◌/◌, ◌%◌, min, Bool, true, false, List, Option, none, some, ltb,
  ◌==◌, if◌then◌else◌, get_or, set, u8, u16, u32, sub_u32, ◌<<<◌, ◌>>>◌,
}
use Prim.Native.Nat.{bit_or}

abbrev pub sector_size : ℕ
sector_size = 512

abbrev pub eoc_min : ℕ
eoc_min = 0xfff8

abbrev pub bad_cluster : ℕ
bad_cluster = 0xfff7

abbrev pub free_cluster : ℕ
free_cluster = 0

-- The packed boot sector structure.
pub record Bpb : Type 0 where
  pub jmp : List ℕ
  pub oem : List ℕ
  pub bytes_per_sector : ℕ
  pub sectors_per_cluster : ℕ
  pub reserved_sector_count : ℕ
  pub num_fats : ℕ
  pub root_entry_count : ℕ
  pub total_sectors_16 : ℕ
  pub media_type : ℕ
  pub sectors_per_fat : ℕ
  pub sectors_per_track : ℕ
  pub num_heads : ℕ
  pub hidden_sectors : ℕ
  pub total_sectors_32 : ℕ
  pub drive_number : ℕ
  pub reserved1 : ℕ
  pub boot_signature : ℕ
  pub volume_id : ℕ
  pub volume_label : List ℕ
  pub fs_type : List ℕ

-- The disk, and the driver's static variables.
pub record Volume : Type 0 where
  pub present : Bool
  pub sectors : ℕ → List ℕ
  pub readable : ℕ → Bool
  pub writable : ℕ → Bool
  pub bpb : Bpb
  pub mounted : Bool
  pub fat_start_lba : ℕ
  pub root_dir_start_lba : ℕ
  pub root_dir_sectors : ℕ
  pub data_start_lba : ℕ
  pub total_clusters : ℕ
  pub next_free_cluster_hint : ℕ

pub read_sector : Volume → ℕ → Option (List ℕ)
read_sector v lba = if v.readable lba then some (v.sectors lba) else none

abbrev pub put_sector : (ℕ → List ℕ) → ℕ → List ℕ → ℕ → List ℕ
put_sector sectors lba buf l = if l == lba then buf else sectors l

pub write_sector : Volume → ℕ → List ℕ → Bool × Volume
write_sector v lba buf =
    if v.writable lba
    then (true, record v { sectors = put_sector v.sectors lba buf })
    else (false, v)

-- `if (!step) return false;` and what comes after it.
abbrev pub and_then : Bool × Volume → (Volume → Bool × Volume) → Bool × Volume
and_then (false, v) rest = (false, v)
and_then (true, v) rest = rest v

abbrev pub with_sector {ℓ} : {A : Type ℓ} → Option (List ℕ) → A → (List ℕ → A) → A
with_sector none failed rest = failed
with_sector (some buf) failed rest = rest buf

unfoldable pub cluster_to_lba : Volume → ℕ → ℕ
cluster_to_lba v cluster = u32 (v.data_start_lba + sub_u32 cluster 2 * v.bpb.sectors_per_cluster)

abbrev pub le16 : List ℕ → ℕ → ℕ
le16 buf offset = bit_or (get_or buf offset 0) (get_or buf (offset + 1) 0 <<< 8)

abbrev pub put_le16 : List ℕ → ℕ → ℕ → List ℕ
put_le16 buf offset value = set (set buf offset (u8 value)) (offset + 1) (u8 (value >>> 8))

pub fat_read_entry : Volume → ℕ → ℕ
fat_read_entry v cluster =
    let fat_offset = cluster * 2 in
    with_sector (read_sector v (u32 (v.fat_start_lba + fat_offset / sector_size))) bad_cluster
      (λ buf. u16 (le16 buf (fat_offset % sector_size)))

-- The copies that are left, from `fat_index` on.
pub write_copies : Volume → ℕ → ℕ → ℕ → ℕ → Bool × Volume
write_copies v zero fat_index cluster value = (true, v)
write_copies v (suc left) fat_index cluster value =
    let fat_offset = cluster * 2 in
    let sector =
      u32 (v.fat_start_lba + fat_index * v.bpb.sectors_per_fat + fat_offset / sector_size) in
    with_sector (read_sector v sector) (false, v)
      (λ buf.
        and_then (write_sector v sector (put_le16 buf (fat_offset % sector_size) value))
          (λ v'. write_copies v' left (fat_index + 1) cluster value))

pub fat_write_entry : Volume → ℕ → ℕ → Bool × Volume
fat_write_entry v cluster value = write_copies v v.bpb.num_fats 0 cluster value

-- The first free cluster of the `n` from `c` on.
pub scan_free : Volume → ℕ → ℕ → Option ℕ
scan_free v c zero = none
scan_free v c (suc n) =
    let rest = scan_free v (c + 1) n in if fat_read_entry v c == free_cluster then some c else rest

-- What the search returns when it ends in `c`, and the hint it leaves.
abbrev pub take_cluster : Volume → Option ℕ → ℕ × Volume → ℕ × Volume
take_cluster v none other = other
take_cluster v (some c) other = (c, record v { next_free_cluster_hint = u16 (c + 1) })

-- Next fit: from the hint to the end, then from 2 to the hint.
pub fat_find_free_cluster : Volume → ℕ × Volume
fat_find_free_cluster v =
    let last = u16 (v.total_clusters + 2) in
    let hint = v.next_free_cluster_hint in
    take_cluster v (scan_free v hint (last - hint))
      (take_cluster v (scan_free v 2 (min hint last - 2)) (0, v))
