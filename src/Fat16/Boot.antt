-- ===== src/Fat16/Boot.antt =====
-- Mounting and formatting of kernel/fat16.c, and the bytes of the boot sector.
use aioperatingsystem.Common.{
  ℕ, zero, suc, ◌+◌, ◌-◌, ◌*◌, ◌/◌, ◌%◌, ◌^◌, Bool, true, false, ◌&&◌, List, [], ◌∷◌, ◌++◌, ltb,
  leb, ◌==◌, if◌then◌else◌, get_or, take, drop, replicate, u8, u16, u32, sub_u32,
}
use Prim.Native.Nat.{bit_or}
use aioperatingsystem.Fat16.{
  Bpb, Volume, sector_size, le16, read_sector, write_sector, and_then, with_sector, fat_write_entry,
}

abbrev pub le32 : List ℕ → ℕ → ℕ
le32 buf offset = le16 buf offset + le16 buf (offset + 2) * 2 ^ 16

-- `memcpy(&bpb, sector0, sizeof(bpb))`.
unfoldable pub bpb_of_bytes : List ℕ → Bpb
bpb_of_bytes s = record {
  jmp = take 3 s;
  oem = take 8 (drop 3 s);
  bytes_per_sector = le16 s 11;
  sectors_per_cluster = get_or s 13 0;
  reserved_sector_count = le16 s 14;
  num_fats = get_or s 16 0;
  root_entry_count = le16 s 17;
  total_sectors_16 = le16 s 19;
  media_type = get_or s 21 0;
  sectors_per_fat = le16 s 22;
  sectors_per_track = le16 s 24;
  num_heads = le16 s 26;
  hidden_sectors = le32 s 28;
  total_sectors_32 = le32 s 32;
  drive_number = get_or s 36 0;
  reserved1 = get_or s 37 0;
  boot_signature = get_or s 38 0;
  volume_id = le32 s 39;
  volume_label = take 11 (drop 43 s);
  fs_type = take 8 (drop 54 s);
}

abbrev pub bytes16 : ℕ → List ℕ
bytes16 n = u8 n ∷ u8 (n / 256) ∷ []

abbrev pub bytes32 : ℕ → List ℕ
bytes32 n = bytes16 (n % 2 ^ 16) ++ bytes16 (n / 2 ^ 16)

-- `memcpy(sector0, &bpb, sizeof(bpb))`.
unfoldable pub bpb_bytes : Bpb → List ℕ
bpb_bytes b =
    b.jmp
    ++ b.oem
    ++ bytes16 b.bytes_per_sector
    ++ (b.sectors_per_cluster ∷ bytes16 b.reserved_sector_count)
    ++ (b.num_fats ∷ bytes16 b.root_entry_count)
    ++ bytes16 b.total_sectors_16
    ++ (b.media_type ∷ bytes16 b.sectors_per_fat)
    ++ bytes16 b.sectors_per_track
    ++ bytes16 b.num_heads
    ++ bytes32 b.hidden_sectors
    ++ bytes32 b.total_sectors_32
    ++ (b.drive_number ∷ b.reserved1 ∷ b.boot_signature ∷ bytes32 b.volume_id)
    ++ b.volume_label
    ++ b.fs_type

-- The sectors of the root directory.
abbrev pub root_sectors_of : Bpb → ℕ
root_sectors_of b = (b.root_entry_count * 32 + sector_size - 1) / sector_size

-- The conditions on the boot sector.
unfoldable pub boot_sector_ok : List ℕ → Bpb → Bool
boot_sector_ok s b =
    (get_or s 510 0 == 0x55)
    && (get_or s 511 0 == 0xaa)
    && (b.bytes_per_sector == sector_size)
    && ltb 0 b.sectors_per_fat
    && leb 1 b.num_fats
    && leb b.num_fats 2

-- Division by zero sectors for a cluster is avoided.
abbrev pub clusters_of : ℕ → ℕ → ℕ
clusters_of data_sectors zero = 0
clusters_of data_sectors (suc n) = data_sectors / suc n

-- The layout that follows from the parameters, once they are accepted.
unfoldable pub laid_out : Volume → Bpb → Volume
laid_out v b =
    let fat_start = b.reserved_sector_count in
    let root_sectors = root_sectors_of b in
    let root_start = fat_start + b.num_fats * b.sectors_per_fat in
    let data_start = root_start + root_sectors in
    let total = if b.total_sectors_16 == 0 then b.total_sectors_32 else b.total_sectors_16 in
    record v {
      bpb = b;
      fat_start_lba = fat_start;
      root_dir_sectors = root_sectors;
      root_dir_start_lba = root_start;
      data_start_lba = data_start;
      total_clusters = clusters_of (sub_u32 total data_start) b.sectors_per_cluster;
      next_free_cluster_hint = 2;
      mounted = true;
    }

unfoldable pub fat16_mount : Volume → Bool × Volume
fat16_mount v =
    if v.present
    then with_sector (read_sector v 0) (false, v)
        (λ s.
          let b = bpb_of_bytes s in
          if boot_sector_ok s b
          then (true, laid_out v b)
          else (false, record v { bpb = b; mounted = false }))
    else (false, v)

unfoldable pub fat16_is_mounted : Volume → Bool
fat16_is_mounted v = v.mounted

-- The clusters' share of the disk, 4 sectors each, after a FAT of `fat_size` sectors.
unfoldable pub fat_size_pass : (disk_sectors fats fat_size : ℕ) → ℕ
fat_size_pass disk_sectors fats fat_size =
    let data_sectors = sub_u32 (sub_u32 (sub_u32 disk_sectors 1) 32) (fats * fat_size) in
    u32 (u32 ((data_sectors / 4 + 2) * 2) + sector_size - 1) / sector_size

-- The estimate without FATs, and three passes of correction.
unfoldable pub fat_size_of : ℕ → ℕ
fat_size_of disk_sectors =
    let pass = fat_size_pass disk_sectors 2 in pass (pass (pass (fat_size_pass disk_sectors 0 0)))

unfoldable pub format_bpb : ℕ → Bpb
format_bpb disk_sectors = record {
  jmp = 0xeb ∷ 0x3c ∷ 0x90 ∷ [];
  oem = b'A' ∷ b'U' ∷ b'R' ∷ b'O' ∷ b'R' ∷ b'A' ∷ b'O' ∷ b'S' ∷ [];
  bytes_per_sector = sector_size;
  sectors_per_cluster = 4;
  reserved_sector_count = 1;
  num_fats = 2;
  root_entry_count = 512;
  total_sectors_16 = if ltb 0xffff disk_sectors then 0 else disk_sectors;
  media_type = 0xf8;
  sectors_per_fat = u16 (fat_size_of disk_sectors);
  sectors_per_track = 63;
  num_heads = 16;
  hidden_sectors = 0;
  total_sectors_32 = if ltb 0xffff disk_sectors then disk_sectors else 0;
  drive_number = 0x80;
  reserved1 = 0;
  boot_signature = 0x29;
  volume_id = 0xa5a5a5a5;
  volume_label = b'A' ∷ b'U' ∷ b'R' ∷ b'O' ∷ b'R' ∷ b'A' ∷ b'O' ∷ b'S' ∷ 32 ∷ 32 ∷ 32 ∷ [];
  fs_type = b'F' ∷ b'A' ∷ b'T' ∷ b'1' ∷ b'6' ∷ 32 ∷ 32 ∷ 32 ∷ [];
}

unfoldable pub boot_sector : Bpb → List ℕ
boot_sector b = bpb_bytes b ++ replicate 448 0 ++ (0x55 ∷ 0xaa ∷ [])

-- `n` sectors of zeros from `lba` on.
unfoldable pub blank : Volume → (lba n : ℕ) → Bool × Volume
blank v lba zero = (true, v)
blank v lba (suc n) =
    and_then (write_sector v (u32 lba) (replicate 512 0)) (λ v'. blank v' (lba + 1) n)

-- The static variables after the boot sector is written; `mounted` and the hint keep their values.
unfoldable pub format_layout : Volume → Bpb → ℕ → Volume
format_layout v b disk_sectors =
    let root_start = b.reserved_sector_count + b.num_fats * b.sectors_per_fat in
    let data_start = root_start + root_sectors_of b in
    record v {
      fat_start_lba = b.reserved_sector_count;
      root_dir_sectors = root_sectors_of b;
      root_dir_start_lba = root_start;
      data_start_lba = data_start;
      total_clusters = sub_u32 disk_sectors data_start / 4;
    }

-- The reserved entries; whether they could be written is not looked at.
unfoldable pub finish_format : Volume → Volume
finish_format v =
    let v1 = (fat_write_entry v 0 (bit_or 0xff00 v.bpb.media_type)).1 in
    record (fat_write_entry v1 1 0xffff).1 { next_free_cluster_hint = 2; mounted = true }

unfoldable pub fat16_format : Volume → ℕ → Bool × Volume
fat16_format v disk_sectors =
    if v.present
    then (let b = format_bpb disk_sectors in
        and_then (write_sector (record v { bpb = b }) 0 (boot_sector b)) (λ v1.
          let w = format_layout v1 b disk_sectors in
          and_then (blank w w.fat_start_lba (b.num_fats * b.sectors_per_fat)) (λ v2.
            and_then (blank v2 v2.root_dir_start_lba v2.root_dir_sectors)
              (λ v3. (true, finish_format v3)))))
    else (false, v)
