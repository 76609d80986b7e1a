-- ===== src/Fat16/Dir.antt =====
-- Directories of kernel/fat16.c: the 32 bytes of an entry, the cursor over a directory's sectors, and
-- the walk that listing and lookup share.
use aioperatingsystem.Common.{
  ℕ, zero, suc, ◌+◌, ◌*◌, ◌%◌, ◌/◌, ◌^◌, Bool, true, false, ◌&&◌, ◌||◌, List, [], ◌∷◌, ◌++◌, Option,
  none, some, ltb, leb, ◌==◌, if◌then◌else◌, get_or, take, drop, u32, test_bit,
}
use Prim.Native.Nat.{bit_and}
use aioperatingsystem.Fat16.{
  Volume, sector_size, eoc_min, le16, put_le16, read_sector, fat_read_entry, cluster_to_lba,
}
use aioperatingsystem.Fat16.Names.{name_to_83, name_from_83}

abbrev pub attr_long_name : ℕ
attr_long_name = 0x0f

abbrev pub attr_directory : ℕ
attr_directory = 0x10

abbrev pub attr_archive : ℕ
attr_archive = 0x20

-- A `struct fat16_dirent` is its 32 bytes.
abbrev pub Dirent : Type 0
Dirent = List ℕ

abbrev pub dirent_name : Dirent → List ℕ
dirent_name e = take 11 e

abbrev pub dirent_attr : Dirent → ℕ
dirent_attr e = get_or e 11 0

abbrev pub first_cluster_lo : Dirent → ℕ
first_cluster_lo e = le16 e 26

abbrev pub file_size : Dirent → ℕ
file_size e = le16 e 28 + le16 e 30 * 2 ^ 16

abbrev pub set_first_cluster_lo : Dirent → ℕ → Dirent
set_first_cluster_lo e cluster = put_le16 e 26 cluster

abbrev pub set_file_size : Dirent → ℕ → Dirent
set_file_size e size = put_le16 (put_le16 e 28 (size % 2 ^ 16)) 30 (size / 2 ^ 16)

-- The entries of a sector: `n` records of 32 bytes.
unfoldable pub dirents : ℕ → List ℕ → List Dirent
dirents zero buf = []
dirents (suc n) buf = take 32 buf ∷ dirents n (drop 32 buf)

abbrev pub sector_entries : ℕ
sector_entries = sector_size / 32

abbrev pub is_long_name : Dirent → Bool
is_long_name e = bit_and (dirent_attr e) attr_long_name == attr_long_name

-- `struct dir_cursor`.
pub record DirCursor : Type 0 where
  pub is_root : Bool
  pub sector_index : ℕ
  pub cluster : ℕ
  pub sector_in_cluster : ℕ

abbrev pub dir_cursor_init_root : DirCursor
dir_cursor_init_root = record {
  is_root = true;
  sector_index = 0;
  cluster = 0;
  sector_in_cluster = 0;
}

-- The code leaves `sector_index` as it was; it is not read for a subdirectory.
abbrev pub dir_cursor_init_cluster : ℕ → DirCursor
dir_cursor_init_cluster first = record {
  is_root = false;
  sector_index = 0;
  cluster = first;
  sector_in_cluster = 0;
}

abbrev pub dir_cursor_init : ℕ → DirCursor
dir_cursor_init dir_cluster =
    if dir_cluster == 0 then dir_cursor_init_root else dir_cursor_init_cluster dir_cluster

abbrev pub located : Option (List ℕ) → ℕ → Option (List ℕ × ℕ)
located none lba = none
located (some buf) lba = some (buf, lba)

-- The cursor after the sector of a subdirectory.
unfoldable pub advance : Volume → DirCursor → DirCursor
advance v cur =
    if leb v.bpb.sectors_per_cluster (cur.sector_in_cluster + 1)
    then record cur { sector_in_cluster = 0; cluster = fat_read_entry v cur.cluster }
    else record cur { sector_in_cluster = cur.sector_in_cluster + 1 }

-- The sector with its number, where the code returns true, and the cursor after it.
unfoldable pub dir_cursor_next_sector : Volume → DirCursor → Option (List ℕ × ℕ) × DirCursor
dir_cursor_next_sector v cur =
    if cur.is_root
    then (if leb v.root_dir_sectors cur.sector_index
        then (none, cur)
        else (let lba = u32 (v.root_dir_start_lba + cur.sector_index) in
            (located (read_sector v lba) lba, record cur { sector_index = cur.sector_index + 1 })))
    else (if ltb cur.cluster 2 || leb eoc_min cur.cluster
        then (none, cur)
        else (let lba = u32 (cluster_to_lba v cur.cluster + cur.sector_in_cluster) in
            (located (read_sector v lba) lba, advance v cur)))

-- `struct fat16_entry`, what the callers see.
pub record Entry : Type 0 where
  pub name : List ℕ
  pub is_dir : Bool
  pub size : ℕ
  pub first_cluster : ℕ

-- The string that a buffer holds: the bytes before the first NUL.
pub c_string : List ℕ → List ℕ
c_string [] = []
c_string (c ∷ cs) = let rest = c_string cs in if c == 0 then [] else c ∷ rest

unfoldable pub entry_of : Dirent → Entry
entry_of e = record {
  name = c_string (name_from_83 (dirent_name e));
  is_dir = test_bit (dirent_attr e) 4;
  size = file_size e;
  first_cluster = first_cluster_lo e;
}

module _ {ℓ} {A : Type ℓ} where
  -- A callback's answer: go on (true) or stop, with the data it changed.
  abbrev go_on : Bool × A → (A → Bool × A) → Bool × A
  go_on (false, a) rest = (false, a)
  go_on (true, a) rest = rest a

  -- The entries of one sector. The answer is whether the walk goes on to the next.
  pub walk_entries : (Entry → A → Bool × A) → List Dirent → A → Bool × A
  walk_entries cb [] a = (true, a)
  walk_entries cb (e ∷ es) a =
      let first = get_or e 0 0 in
      if first == 0
      then (false, a)
      else (let skipped = walk_entries cb es a in
          if first == 0xe5 || is_long_name e || test_bit (dirent_attr e) 3
          then skipped
          else go_on (cb (entry_of e) a) (λ a'. walk_entries cb es a'))

  abbrev after_sector : Bool × A → (A → Option A) → Option A
  after_sector (false, a) rest = some a
  after_sector (true, a) rest = rest a

  abbrev each_sector : Option (List ℕ × ℕ) → A → (List ℕ → Option A) → Option A
  each_sector none a rest = some a
  each_sector (some (buf, lba)) a rest = rest buf

  -- The sectors from the cursor on; `none` is that the fuel did not suffice.
  pub walk_sectors : (fuel : ℕ) → Volume → (Entry → A → Bool × A) → DirCursor → A → Option A
  walk_sectors zero v cb cur a = none
  walk_sectors (suc fuel) v cb cur a =
      let next = dir_cursor_next_sector v cur in
      each_sector next.0 a (λ buf.
        after_sector (walk_entries cb (dirents sector_entries buf) a)
          (λ a'. walk_sectors fuel v cb next.1 a'))

  pub walk_directory : (fuel : ℕ) → Volume → ℕ → (Entry → A → Bool × A) → A → Option A
  walk_directory fuel v dir_cluster cb a = walk_sectors fuel v cb (dir_cursor_init dir_cluster) a

-- `fat16_list` with the callback that collects what it is given.
abbrev pub list_trampoline : Entry → List (List ℕ × Bool × ℕ) → Bool × List (List ℕ × Bool × ℕ)
list_trampoline entry seen = (true, seen ++ ((entry.name, entry.is_dir, entry.size) ∷ []))

unfoldable pub fat16_list : (fuel : ℕ) → Volume → ℕ → Option (List (List ℕ × Bool × ℕ))
fat16_list fuel v dir_cluster =
    if v.mounted then walk_directory fuel v dir_cluster list_trampoline [] else some []

unfoldable pub same_bytes : List ℕ → List ℕ → Bool
same_bytes [] [] = true
same_bytes [] (b ∷ bs) = false
same_bytes (a ∷ as') [] = false
same_bytes (a ∷ as') (b ∷ bs) = (a == b) && same_bytes as' bs

abbrev pub matches : Option (List ℕ) → List ℕ → Bool
matches none target11 = false
matches (some entry11) target11 = same_bytes entry11 target11

unfoldable pub find_trampoline : List ℕ → Entry → Option Entry → Bool × Option Entry
find_trampoline target11 entry found =
    if matches (name_to_83 entry.name) target11 then (false, some entry) else (true, found)

abbrev pub find_named : ℕ → Volume → ℕ → Option (List ℕ) → Option (Option Entry)
find_named fuel v dir_cluster none = some none
find_named fuel v dir_cluster (some target11) =
    walk_directory fuel v dir_cluster (find_trampoline target11) none

-- The outer `none` is that the fuel did not suffice, the inner one that no entry has the name.
unfoldable pub find_in_dir : (fuel : ℕ) → Volume → ℕ → List ℕ → Option (Option Entry)
find_in_dir fuel v dir_cluster name = find_named fuel v dir_cluster (name_to_83 name)

unfoldable pub fat16_stat : (fuel : ℕ) → Volume → ℕ → List ℕ → Option (Option Entry)
fat16_stat fuel v dir_cluster name =
    if v.mounted then find_in_dir fuel v dir_cluster name else some none
