-- ===== src/Fat16/Slot.antt =====
-- Slots of kernel/fat16.c: finding an entry or a place for it, and writing it.
use aioperatingsystem.Common.{
  ℕ, zero, suc, ◌+◌, ◌*◌, Bool, false, List, [], ◌∷◌, Option, none, some, ◌==◌, if◌then◌else◌,
  get_or, set,
}
use aioperatingsystem.Fat16.{Volume, read_sector, write_sector, with_sector, cluster_to_lba}
use aioperatingsystem.Fat16.Names.{name_to_83}
use aioperatingsystem.Fat16.Chain.{extend_cluster_chain}
use aioperatingsystem.Fat16.Dir.{
  Dirent, DirCursor, dirent_name, is_long_name, dirents, sector_entries, dir_cursor_init,
  dir_cursor_next_sector, same_bytes,
}

-- `struct dirent_slot`.
pub record DirentSlot : Type 0 where
  pub sector_lba : ℕ
  pub index_in_sector : ℕ

-- What `find_or_alloc_slot` tells its caller.
pub data SlotResult : Type 0 where
  failed : SlotResult
  exists_at : DirentSlot → Dirent → SlotResult
  free_at : DirentSlot → SlotResult

-- How one sector leaves the search: ended, or going on with the free slot that is remembered.
pub data SectorResult : Type 0 where
  ended : SlotResult → SectorResult
  searching : Option DirentSlot → SectorResult

-- The first free slot that was seen is kept.
abbrev pub remember : Option DirentSlot → ℕ → ℕ → DirentSlot
remember none lba i = record { sector_lba = lba; index_in_sector = i }
remember (some slot) lba i = slot

unfoldable pub search_entries :
    (target11 : List ℕ) → (lba i : ℕ) → Option DirentSlot → List Dirent → SectorResult
search_entries target11 lba i free_slot [] = searching free_slot
search_entries target11 lba i free_slot (e ∷ es) =
    let first = get_or e 0 0 in
    if first == 0
    then ended (free_at (remember free_slot lba i))
    else (let deleted = search_entries target11 lba (i + 1) (some (remember free_slot lba i)) es in
        let rest = search_entries target11 lba (i + 1) free_slot es in
        if first == 0xe5
        then deleted
        else (if is_long_name e
            then rest
            else (if same_bytes (dirent_name e) target11
                then ended (exists_at (record { sector_lba = lba; index_in_sector = i }) e)
                else rest)))

-- What is done after the last sector: a subdirectory grows.
abbrev pub grown : ℕ × Volume → SlotResult × Volume
grown (new_cluster, v) =
    if new_cluster == 0
    then (failed, v)
    else (free_at (record { sector_lba = cluster_to_lba v new_cluster; index_in_sector = 0 }), v)

unfoldable pub ran_off : Volume → (dir_cluster last_cluster : ℕ) → SlotResult × Volume
ran_off v dir_cluster last_cluster =
    if dir_cluster == 0 then (failed, v) else grown (extend_cluster_chain v last_cluster)

abbrev pub slot_next :
    SectorResult
    → Volume
    → (Option DirentSlot → Option (SlotResult × Volume))
    → Option (SlotResult × Volume)
slot_next (ended r) v rest = some (r, v)
slot_next (searching free_slot) v rest = rest free_slot

abbrev pub slot_sector :
    Option (List ℕ × ℕ)
    → SlotResult × Volume
    → (List ℕ → ℕ → Option (SlotResult × Volume))
    → Option (SlotResult × Volume)
slot_sector none off rest = some off
slot_sector (some (buf, lba)) off rest = rest buf lba

-- The loop over sectors; `current` is `cluster_of_current_sector`.
unfoldable pub search_sectors :
    (fuel : ℕ)
    → Volume
    → (target11 : List ℕ) → (dir_cluster : ℕ) → DirCursor
    → (current : ℕ) → Option DirentSlot
    → Option (SlotResult × Volume)
search_sectors zero v target11 dir_cluster cur current free_slot = none
search_sectors (suc fuel) v target11 dir_cluster cur current free_slot =
    let next = dir_cursor_next_sector v cur in
    let here = if cur.is_root then current else cur.cluster in
    slot_sector next.0 (ran_off v dir_cluster current) (λ buf lba.
      slot_next (search_entries target11 lba 0 free_slot (dirents sector_entries buf)) v
        (λ free_slot'. search_sectors fuel v target11 dir_cluster next.1 here free_slot'))

abbrev pub slot_named : (fuel : ℕ) → Volume → ℕ → Option (List ℕ) → Option (SlotResult × Volume)
slot_named fuel v dir_cluster none = some (failed, v)
slot_named fuel v dir_cluster (some target11) =
    search_sectors fuel v target11 dir_cluster (dir_cursor_init dir_cluster) dir_cluster none

unfoldable pub find_or_alloc_slot : (fuel : ℕ) → Volume → ℕ → List ℕ → Option (SlotResult × Volume)
find_or_alloc_slot fuel v dir_cluster name = slot_named fuel v dir_cluster (name_to_83 name)

-- `memcpy(&buf[offset], bytes, length(bytes))`.
unfoldable pub put_bytes : List ℕ → ℕ → List ℕ → List ℕ
put_bytes buf offset [] = buf
put_bytes buf offset (b ∷ bytes) = put_bytes (set buf offset b) (offset + 1) bytes

unfoldable pub write_dirent_slot : Volume → DirentSlot → Dirent → Bool × Volume
write_dirent_slot v slot entry =
    with_sector (read_sector v slot.sector_lba) (false, v)
      (λ buf. write_sector v slot.sector_lba (put_bytes buf (slot.index_in_sector * 32) entry))
