-- ===== src/Fat16/Tests.antt =====
-- Runs of the FAT16 driver on a small formatted disk.
use aioperatingsystem.Common.{
  ◌∷◌, [], length, ◌∙◌, set, length-set, some, List, ℕ, ◌≡◌, refl, true, arith, replicate,
  length-replicate, ◌⊎◌, if◌then◌else◌, ◌==◌,
}
use aioperatingsystem.Fat16.{
  read_sector, Volume, fat_read_entry, fat_write_entry, fat_find_free_cluster,
}
use aioperatingsystem.Fat16.Boot.{format_bpb}
use aioperatingsystem.Fat16.Table.{SearchResult, fat_find_free_cluster_lem}
use aioperatingsystem.Fat16.Chain.{free_cluster_chain}
use aioperatingsystem.Fat16.Chain.Free.{IsChain, InTable, is_member, free_cluster_chain_lem}
use aioperatingsystem.Fat16.Copies.{IsFat}
use aioperatingsystem.Fat16.Files.{no_room, written, clusters_needed, write_clusters}
use aioperatingsystem.Fat16.Clusters.{IsVolume}
use aioperatingsystem.Fat16.Extend.{AllTaken}
use aioperatingsystem.Fat16.ReadBack.{ReadsBack, write_clusters-fat16_read_file}
use aioperatingsystem.Fat16.Entry.{fat_write_entry-read}

abbrev blank_disk : Volume
blank_disk = record {
  present = true;
  sectors = λ lba. replicate 512 0;
  readable = λ lba. true;
  writable = λ lba. true;
  bpb = record (format_bpb 2000) { num_fats = 2; sectors_per_fat = 2 };
  mounted = true;
  fat_start_lba = 1;
  root_dir_start_lba = 5;
  root_dir_sectors = 32;
  data_start_lba = 37;
  total_clusters = 490;
  next_free_cluster_hint = 2;
}

blank_disk-IsFat : IsFat blank_disk
blank_disk-IsFat = record {
  some_copy = omega arith;
  addressable = omega arith;
  can_read = λ lba. refl;
  can_write = λ lba. refl;
  whole = λ lba. length-replicate {A = ℕ} 512 0;
}

blank_disk-IsVolume : IsVolume blank_disk
unfolding format_bpb
blank_disk-IsVolume = record {
  fat = blank_disk-IsFat;
  below_data = omega arith;
  in_table = omega arith;
  in_range = omega arith;
  addressable = omega arith;
  hint_low = omega arith;
  hint_high = omega arith;
  some_sector = omega arith;
}

-- A file of 700 bytes.
abbrev seven_hundred : List ℕ
seven_hundred = replicate 700 7

write_clusters-fat16_read_file_example :
    let n = clusters_needed blank_disk (length seven_hundred) in
    ((f : ℕ) × (w : Volume) × (write_clusters blank_disk n 0 0 seven_hundred ≡ (no_room f, w))
      × AllTaken w)
    ⊎ ((f : ℕ) × (w : Volume) × (write_clusters blank_disk n 0 0 seven_hundred ≡ (written f, w))
        × ReadsBack blank_disk f seven_hundred n w)
unfolding format_bpb
write_clusters-fat16_read_file_example =
    write_clusters-fat16_read_file blank_disk seven_hundred blank_disk-IsVolume refl
      (omega (arith, length-replicate {A = ℕ} 700 7))

fat_write_entry-read_example :
    let r = fat_write_entry blank_disk 5 0xfff8 in
    (r.0 ≡ true) × (fat_read_entry r.1 6 ≡ (if 6 == 5 then 0xfff8 else fat_read_entry blank_disk 6))
fat_write_entry-read_example =
    fat_write_entry-read blank_disk 5 6 0xfff8 blank_disk-IsFat (omega arith) (omega arith)
      (omega arith)

fat_find_free_cluster_lem_example : SearchResult blank_disk (fat_find_free_cluster blank_disk)
fat_find_free_cluster_lem_example = fat_find_free_cluster_lem blank_disk (omega arith) (omega arith)

-- The same disk with a chain from cluster 5 to cluster 6.
abbrev table_sector : List ℕ
table_sector = set (set (set (replicate 512 0) 10 6) 12 0xf8) 13 0xff

length-table_sector : length table_sector ≡ 512
length-table_sector =
    length-set {A = ℕ} (set (set (replicate 512 0) 10 6) 12 0xf8) 13 0xff
    ∙ length-set {A = ℕ} (set (replicate 512 0) 10 6) 12 0xf8
    ∙ length-set {A = ℕ} (replicate 512 0) 10 6
    ∙ length-replicate {A = ℕ} 512 0

abbrev chain_disk : Volume
chain_disk = record blank_disk { sectors = λ lba. table_sector }

chain_disk-IsFat : IsFat chain_disk
chain_disk-IsFat = record {
  some_copy = omega arith;
  addressable = omega arith;
  can_read = λ lba. refl;
  can_write = λ lba. refl;
  whole = λ lba. length-table_sector;
}

five-IsChain : IsChain chain_disk 5 (5 ∷ 6 ∷ [])
unfolding fat_read_entry read_sector
five-IsChain = (
  refl,
  refl,
  omega arith,
  ((λ (e : 6 ≡ 5). omega arith), tt),
  (refl, refl, omega arith, tt, refl),
)

free_cluster_chain_lem_example :
    (w : Volume) × (free_cluster_chain 2 chain_disk 5 ≡ some w)
    × IsFat w
    × ((d : ℕ)
        → InTable chain_disk d
        → fat_read_entry w d
          ≡ (if is_member d (5 ∷ 6 ∷ []) then 0 else fat_read_entry chain_disk d))
free_cluster_chain_lem_example =
    free_cluster_chain_lem (5 ∷ 6 ∷ []) chain_disk 5 chain_disk-IsFat five-IsChain
