-- ===== src/Fat16/Files.antt =====
-- Creating, deleting, reading and writing of kernel/fat16.c. An outer `none` is that the fuel for a
-- loop over sectors or clusters did not suffice.
use aioperatingsystem.Common.{
  ℕ, zero, suc, ◌+◌, ◌-◌, ◌*◌, ◌/◌, ◌%◌, min, Bool, true, false, ◌&&◌, ◌||◌, List, [], ◌∷◌, ◌++◌,
  Option, none, some, ltb, leb, ◌==◌, if◌then◌else◌, set, take, drop, length, replicate, u32,
}
use aioperatingsystem.Fat16.{
  Volume, sector_size, read_sector, write_sector, and_then, with_sector, cluster_to_lba,
  fat_read_entry,
}
use aioperatingsystem.Fat16.Names.{name_to_83}
use aioperatingsystem.Fat16.Chain.{in_chain, zero_sector, free_cluster_chain, extend_cluster_chain}
use aioperatingsystem.Fat16.Dir.{
  Dirent, attr_directory, attr_archive, first_cluster_lo, set_first_cluster_lo, set_file_size,
}
use aioperatingsystem.Fat16.Slot.{
  DirentSlot, SlotResult, failed, exists_at, free_at, find_or_alloc_slot, put_bytes,
  write_dirent_slot,
}

-- What a call that loops returns.
abbrev pub FileOutcome : Type 0
FileOutcome = Option (Bool × Volume)

abbrev pub slot_result :
    Option (SlotResult × Volume) → (SlotResult → Volume → FileOutcome) → FileOutcome
slot_result none use_slot = none
slot_result (some (r, v)) use_slot = use_slot r v

-- A zeroed entry with its name and attribute.
abbrev pub new_dirent : List ℕ → ℕ → Dirent
new_dirent name11 attr = set (put_bytes (replicate 32 0) 0 name11) 11 attr

abbrev pub add_directory : ℕ × Volume → DirentSlot → Dirent → Bool × Volume
add_directory (new_cluster, v) slot entry =
    if new_cluster == 0
    then (false, v)
    else write_dirent_slot v slot (set_first_cluster_lo entry new_cluster)

abbrev pub add_entry : Volume → DirentSlot → Option (List ℕ) → Bool → Bool × Volume
add_entry v slot none as_directory = (false, v)
add_entry v slot (some name11) true =
    add_directory (extend_cluster_chain v 0) slot (new_dirent name11 attr_directory)
add_entry v slot (some name11) false = write_dirent_slot v slot (new_dirent name11 attr_archive)

abbrev pub create_at : List ℕ → Bool → SlotResult → Volume → FileOutcome
create_at name as_directory failed v = some (false, v)
create_at name as_directory (exists_at slot e) v = some (true, v)
create_at name as_directory (free_at slot) v =
    some (add_entry v slot (name_to_83 name) as_directory)

unfoldable pub fat16_create : (fuel : ℕ) → Volume → ℕ → List ℕ → Bool → FileOutcome
fat16_create fuel v dir_cluster name as_directory =
    if v.mounted
    then slot_result (find_or_alloc_slot fuel v dir_cluster name) (create_at name as_directory)
    else some (false, v)

unfoldable pub mark_deleted : Volume → DirentSlot → Bool × Volume
mark_deleted v slot =
    with_sector (read_sector v slot.sector_lba) (false, v)
      (λ buf. write_sector v slot.sector_lba (set buf (slot.index_in_sector * 32) 0xe5))

abbrev pub then_mark : Option Volume → DirentSlot → FileOutcome
then_mark none slot = none
then_mark (some v) slot = some (mark_deleted v slot)

abbrev pub free_chain_of : (fuel : ℕ) → Volume → Dirent → Option Volume
free_chain_of fuel v e =
    if first_cluster_lo e == 0 then some v else free_cluster_chain fuel v (first_cluster_lo e)

abbrev pub delete_at : (fuel : ℕ) → SlotResult → Volume → FileOutcome
delete_at fuel failed v = some (false, v)
delete_at fuel (exists_at slot e) v = then_mark (free_chain_of fuel v e) slot
delete_at fuel (free_at slot) v = some (false, v)

unfoldable pub fat16_delete : (fuel : ℕ) → Volume → ℕ → List ℕ → FileOutcome
fat16_delete fuel v dir_cluster name =
    if v.mounted
    then slot_result (find_or_alloc_slot fuel v dir_cluster name) (delete_at fuel)
    else some (false, v)

-- The cluster `n` links on from `cluster`; `none` is the end of the chain.
unfoldable pub nth_cluster : Volume → ℕ → ℕ → Option ℕ
nth_cluster v zero cluster = some cluster
nth_cluster v (suc n) cluster =
    let next = fat_read_entry v cluster in
    let rest = nth_cluster v n next in if in_chain next then rest else none

abbrev pub next_bytes : List ℕ → List ℕ × Bool → List ℕ × Bool
next_bytes chunk (bytes, ok) = (chunk ++ bytes, ok)

-- The bytes of the `n` sectors from `lba` on, at most `left`, and whether every read succeeded.
unfoldable pub read_sectors : Volume → (lba n byte_in_sector left : ℕ) → List ℕ × Bool
read_sectors v lba zero byte_in_sector left = ([], true)
read_sectors v lba (suc n) byte_in_sector left =
    let chunk = min (sector_size - byte_in_sector) left in
    let rest = read_sectors v (lba + 1) n 0 (left - chunk) in
    if left == 0
    then ([], true)
    else with_sector (read_sector v (u32 lba)) ([], false)
        (λ buf. next_bytes (take chunk (drop byte_in_sector buf)) rest)

abbrev pub more_bytes : List ℕ × Bool → (List ℕ → Option (List ℕ)) → Option (List ℕ)
more_bytes (bytes, false) rest = some bytes
more_bytes (bytes, true) rest = rest bytes

abbrev pub prefixed : List ℕ → Option (List ℕ) → Option (List ℕ)
prefixed bytes none = none
prefixed bytes (some rest) = some (bytes ++ rest)

-- The loop over clusters, with the bytes that are still wanted.
unfoldable pub read_clusters :
    (fuel : ℕ) → Volume → (cluster offset_in_cluster left : ℕ) → Option (List ℕ)
read_clusters zero v cluster offset_in_cluster left =
    if ltb 0 left && in_chain cluster then none else some []
read_clusters (suc fuel) v cluster offset_in_cluster left =
    let sector_in_cluster = offset_in_cluster / sector_size in
    let got =
      read_sectors v (cluster_to_lba v cluster + sector_in_cluster)
        (v.bpb.sectors_per_cluster - sector_in_cluster) (offset_in_cluster % sector_size) left in
    let rest = read_clusters fuel v (fat_read_entry v cluster) 0 (left - length got.0) in
    if ltb 0 left && in_chain cluster
    then more_bytes got (λ bytes. prefixed bytes rest)
    else some []

abbrev pub read_from :
    (fuel : ℕ) → Volume → Option ℕ → (offset_in_cluster left : ℕ) → Option (List ℕ)
read_from fuel v none offset_in_cluster left = some []
read_from fuel v (some cluster) offset_in_cluster left =
    read_clusters fuel v cluster offset_in_cluster left

-- The bytes that are read into `out`; their number is what the code returns.
unfoldable pub fat16_read_file :
    (fuel : ℕ) → Volume → (first_cluster file_size offset max_len : ℕ) → Option (List ℕ)
fat16_read_file fuel v first_cluster file_size offset max_len =
    if not_mounted v || ltb first_cluster 2
    then some []
    else (if leb file_size offset
        then some []
        else (let cluster_size = v.bpb.sectors_per_cluster * sector_size in
            read_from fuel v (nth_cluster v (offset / cluster_size) first_cluster)
              (offset % cluster_size) (min (file_size - offset) max_len)))
  where
    not_mounted : Volume → Bool
    not_mounted w = if w.mounted then false else true

-- `buf` with `data` at its start, in a sector of zeros.
abbrev pub padded_sector : List ℕ → List ℕ
padded_sector chunk = put_bytes zero_sector 0 chunk

-- The sectors of one cluster, at most `n`, that `data` fills.
unfoldable pub write_sectors : Volume → (lba n : ℕ) → List ℕ → Bool × Volume
write_sectors v lba zero bytes = (true, v)
write_sectors v lba (suc n) [] = (true, v)
write_sectors v lba (suc n) (b ∷ bytes) =
    and_then (write_sector v (u32 lba) (padded_sector (take sector_size (b ∷ bytes))))
      (λ v'. write_sectors v' (lba + 1) n (drop sector_size (b ∷ bytes)))

-- How the loop over the clusters of a new chain ends.
pub data WriteResult : Type 0 where
  no_room : (first_cluster : ℕ) → WriteResult
  write_failed : WriteResult
  written : (first_cluster : ℕ) → WriteResult

abbrev pub cluster_of : ℕ × Volume → (ℕ → Volume → WriteResult × Volume) → ℕ → WriteResult × Volume
cluster_of (new_cluster, v) go first_cluster =
    if new_cluster == 0 then (no_room first_cluster, v) else go new_cluster v

abbrev pub after_write : Bool × Volume → (Volume → WriteResult × Volume) → WriteResult × Volume
after_write (false, v) rest = (write_failed, v)
after_write (true, v) rest = rest v

-- `n` clusters are still needed for `bytes`.
unfoldable pub write_clusters :
    Volume → (n first_cluster last_cluster : ℕ) → List ℕ → WriteResult × Volume
write_clusters v zero first_cluster last_cluster bytes = (written first_cluster, v)
write_clusters v (suc n) first_cluster last_cluster bytes =
    let cluster_size = v.bpb.sectors_per_cluster * sector_size in
    cluster_of (extend_cluster_chain v last_cluster)
      (λ new_cluster v'.
        after_write
          (write_sectors v' (cluster_to_lba v' new_cluster) v'.bpb.sectors_per_cluster
            (take cluster_size bytes))
          (λ v''.
            write_clusters v'' n (if first_cluster == 0 then new_cluster else first_cluster)
              new_cluster (drop cluster_size bytes)))
      first_cluster

-- The entry that is written for a name that is not there yet.
abbrev pub entry_for : SlotResult → Option (List ℕ) → Option (DirentSlot × Dirent)
entry_for failed name11 = none
entry_for (exists_at slot e) name11 = some (slot, e)
entry_for (free_at slot) none = none
entry_for (free_at slot) (some name11) = some (slot, new_dirent name11 attr_archive)

-- Division by a cluster of no sectors traps in the code; it gives 0 here.
abbrev pub clusters_needed : Volume → ℕ → ℕ
clusters_needed v len =
    let cluster_size = v.bpb.sectors_per_cluster * sector_size in
    if len == 0 then 0 else u32 (len + cluster_size - 1) / cluster_size

abbrev pub end_write :
    (fuel : ℕ) → DirentSlot → Dirent → (len : ℕ) → WriteResult × Volume → FileOutcome
end_write fuel slot e len (no_room first_cluster, v) =
    if first_cluster == 0
    then some (false, v)
    else failed_after (free_cluster_chain fuel v first_cluster)
  where
    failed_after : Option Volume → FileOutcome
    failed_after none = none
    failed_after (some w) = some (false, w)
end_write fuel slot e len (write_failed, v) = some (false, v)
end_write fuel slot e len (written first_cluster, v) =
    some (write_dirent_slot v slot (set_file_size (set_first_cluster_lo e first_cluster) len))

abbrev pub write_chain : (fuel : ℕ) → DirentSlot → Dirent → List ℕ → Option Volume → FileOutcome
write_chain fuel slot e bytes none = none
write_chain fuel slot e bytes (some v) =
    end_write fuel slot e (length bytes)
      (write_clusters v (clusters_needed v (length bytes)) 0 0 bytes)

abbrev pub write_entry : (fuel : ℕ) → Option (DirentSlot × Dirent) → List ℕ → Volume → FileOutcome
write_entry fuel none bytes v = some (false, v)
write_entry fuel (some (slot, e)) bytes v = write_chain fuel slot e bytes (free_chain_of fuel v e)

unfoldable pub fat16_write_file : (fuel : ℕ) → Volume → ℕ → List ℕ → List ℕ → FileOutcome
fat16_write_file fuel v dir_cluster name bytes =
    if v.mounted
    then slot_result (find_or_alloc_slot fuel v dir_cluster name)
        (λ r v'. write_entry fuel (entry_for r (name_to_83 name)) bytes v')
    else some (false, v)
