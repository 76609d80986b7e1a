-- ===== src/Fat16/Chain.antt =====
-- Cluster chains of kernel/fat16.c: freeing and extending.
pub mod Free
use aioperatingsystem.Common.{
  ℕ, zero, suc, ◌+◌, Bool, true, false, ◌&&◌, List, Option, none, some, ltb, leb, ◌==◌,
  if◌then◌else◌, replicate, u32,
}
use aioperatingsystem.Fat16.{
  Volume, sector_size, eoc_min, free_cluster, fat_read_entry, fat_write_entry,
  fat_find_free_cluster, cluster_to_lba, write_sector, and_then,
}

abbrev pub in_chain : ℕ → Bool
in_chain cluster = leb 2 cluster && ltb cluster eoc_min

-- `none` is that the fuel did not suffice. Whether a write failed is not looked at.
pub free_cluster_chain : ℕ → Volume → ℕ → Option Volume
free_cluster_chain zero v cluster = if in_chain cluster then none else some v
free_cluster_chain (suc fuel) v cluster =
    let rest =
      free_cluster_chain fuel (fat_write_entry v cluster free_cluster).1
        (fat_read_entry v cluster) in
    if in_chain cluster then rest else some v

abbrev pub zero_sector : List ℕ
zero_sector = replicate sector_size 0

-- `n` sectors from `lba` on are written with zeros.
unfoldable pub zero_sectors : Volume → ℕ → ℕ → Bool × Volume
zero_sectors v lba zero = (true, v)
zero_sectors v lba (suc n) =
    and_then (write_sector v (u32 lba) zero_sector) (λ v'. zero_sectors v' (lba + 1) n)

-- The number that is returned: 0 where a step failed.
abbrev pub cluster_or_zero : ℕ → Bool × Volume → ℕ × Volume
cluster_or_zero cluster (false, v) = (0, v)
cluster_or_zero cluster (true, v) = (cluster, v)

abbrev pub link_cluster : Volume → ℕ → ℕ → Bool × Volume
link_cluster v last_cluster new_cluster =
    if leb 2 last_cluster then fat_write_entry v last_cluster new_cluster else (true, v)

abbrev pub extend_with : ℕ × Volume → ℕ → ℕ × Volume
extend_with (new_cluster, v) last_cluster =
    if new_cluster == 0
    then (0, v)
    else cluster_or_zero new_cluster (
        and_then (fat_write_entry v new_cluster eoc_min) (λ v'.
          and_then (link_cluster v' last_cluster new_cluster)
            (λ v''. zero_sectors v'' (cluster_to_lba v'' new_cluster) v''.bpb.sectors_per_cluster)))

unfoldable pub extend_cluster_chain : Volume → ℕ → ℕ × Volume
extend_cluster_chain v last_cluster = extend_with (fat_find_free_cluster v) last_cluster
