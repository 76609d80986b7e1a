-- ===== src/Fat16/Entry.antt =====
-- Reading an entry of the allocation table after writing one, in kernel/fat16.c.
use aioperatingsystem.Common.{
  ℕ, ◌+◌, ◌-◌, ◌*◌, ◌/◌, ◌%◌, ◌^◌, ◌<◌, ◌≡◌, refl, sym, ◌∙◌, ap, subst, ◌≢◌, ◌⊎◌, inl, inr, Bool,
  true, false, List, arith, u16, u32, ◌==◌, if◌then◌else◌, Bool-cases, ==_iff,
}
use aioperatingsystem.Fat16.{
  Volume, sector_size, le16, put_le16, read_sector, fat_read_entry, fat_write_entry,
}
use aioperatingsystem.Fat16.Words.{le16-put_le16, le16-put_le16_ne}
use aioperatingsystem.Fat16.Copies.{
  IsFat, with_sectors, put_sector_ne, put_sector_at, entry_sector, split_copies, first_written,
  fat_write_entry_lem,
}

same_entry : (b : ℕ) → (b * 2 / 512 * 512 + b * 2 % 512 ≡ b * 2) × (b * 2 % 512 + 1 < 512)
same_entry b = (omega arith, omega arith)

-- Two clusters whose entries share a sector stand apart in it.
apart :
    (c d : ℕ)
    → d ≢ c
    → d * 2 / 512 ≡ c * 2 / 512
    → (d * 2 % 512 ≢ c * 2 % 512)
      × (d * 2 % 512 + 1 ≢ c * 2 % 512)
      × (c * 2 % 512 + 1 ≢ d * 2 % 512)
apart c d ne e = (λ h. ne (omega arith), λ h. omega arith, λ h. omega arith)

-- What a read of the entry of `d` sees in the sectors `s`.
abbrev pub seen_entry : Volume → (ℕ → List ℕ) → ℕ → ℕ
seen_entry v s d = u16 (le16 (s (v.fat_start_lba + d * 2 / sector_size)) (d * 2 % sector_size))

pub fat_read_entry_lem :
    (v : Volume) (s : ℕ → List ℕ) (d : ℕ)
    → IsFat v
    → v.fat_start_lba + d * 2 / sector_size < 2 ^ 32
    → fat_read_entry (with_sectors v s) d ≡ seen_entry v s d
unfolding fat_read_entry read_sector
fat_read_entry_lem v s d fat small =
    let e : u32 (v.fat_start_lba + d * 2 / sector_size) ≡ v.fat_start_lba + d * 2 / sector_size =
      omega arith in
    rw (e, fat.can_read (v.fat_start_lba + d * 2 / sector_size)) refl

first_sector : (v : Volume) (c : ℕ) → v.fat_start_lba + c * 2 / sector_size ≡ entry_sector v 0 c
first_sector v c = omega arith

seen_same :
    (v : Volume) (c value : ℕ)
    → IsFat v
    → value < 2 ^ 16
    → seen_entry v (first_written v c value) c ≡ value
seen_same v c value fat small =
    let buf = v.sectors (entry_sector v 0 c) in
    let word : le16 (put_le16 buf (c * 2 % 512) value) (c * 2 % 512) ≡ value =
      le16-put_le16 buf (c * 2 % 512) value
        (omega (arith, fat.whole (entry_sector v 0 c), (same_entry c).1)) small in
    ap (λ (b : List ℕ). u16 (le16 b (c * 2 % 512)))
      (put_sector_at v.sectors (entry_sector v 0 c) (v.fat_start_lba + c * 2 / sector_size)
        (put_le16 buf (c * 2 % 512) value) (first_sector v c))
    ∙ ap (λ (t : ℕ). u16 t) word
    ∙ omega arith

seen_other :
    (v : Volume) (c d value : ℕ)
    → d ≢ c
    → seen_entry v (first_written v c value) d ≡ seen_entry v v.sectors d
seen_other v c d value ne = elim (same_or_not (d * 2 / 512) (c * 2 / 512)) [
  | inl same ↦
      let at : v.fat_start_lba + d * 2 / sector_size ≡ entry_sector v 0 c = omega (arith, same) in
      let off = apart c d ne same in
      ap (λ (b : List ℕ). u16 (le16 b (d * 2 % 512)))
        (put_sector_at v.sectors (entry_sector v 0 c) (v.fat_start_lba + d * 2 / sector_size) _ at)
      ∙ ap (λ (t : ℕ). u16 t)
          (le16-put_le16_ne (v.sectors (entry_sector v 0 c)) (c * 2 % 512) (d * 2 % 512) value off.0
            off.1 off.2)
      ∙ ap (λ (l : ℕ). u16 (le16 (v.sectors l) (d * 2 % 512))) (sym at)
  | inr other ↦
      ap (λ (b : List ℕ). u16 (le16 b (d * 2 % 512)))
        (put_sector_ne v.sectors (entry_sector v 0 c) (v.fat_start_lba + d * 2 / sector_size) _
          (λ e. other (omega arith)))
]
  where
    same_or_not : (a b : ℕ) → (a ≡ b) ⊎ (a ≢ b)
    same_or_not a b = omega arith

seen_after :
    (v : Volume) (c d value : ℕ)
    → IsFat v
    → value < 2 ^ 16
    → seen_entry v (first_written v c value) d
      ≡ (if d == c then value else seen_entry v v.sectors d)
seen_after v c d value fat small = elim (Bool-cases (d == c)) [
  | inl same ↦ rw same (
      subst (λ (t : ℕ). seen_entry v (first_written v c value) t ≡ value)
        (sym ((==_iff d c).0 same)) (seen_same v c value fat small))
  | inr other ↦ rw other (seen_other v c d value (differs d c other))
]
  where
    differs : (a b : ℕ) → (a == b) ≡ false → a ≢ b
    differs a b h = ground arith

-- On a disk every sector of which can be read and written and holds 512 bytes, with a copy of the table
-- at least and all copies in sectors with numbers below 2 ^ 32: writing the entry of a cluster of the table
-- succeeds, after it that entry reads as the value of 16 bits, and every other entry of the table reads as
-- before.
pub fat_write_entry-read :
    (v : Volume) (c d value : ℕ)
    → IsFat v
    → c * 2 / sector_size < v.bpb.sectors_per_fat
    → d * 2 / sector_size < v.bpb.sectors_per_fat
    → value < 2 ^ 16
    → let r = fat_write_entry v c value in
      (r.0 ≡ true) × (fat_read_entry r.1 d ≡ (if d == c then value else fat_read_entry v d))
fat_write_entry-read v c d value fat inside inside' small =
    let (w, run, first, same, beyond) = fat_write_entry_lem v c value fat inside in
    let fits : v.fat_start_lba + d * 2 / sector_size < 2 ^ 32 = omega (
      arith,
      inside',
      fat.addressable,
      fat.some_copy,
      split_copies 0 (v.bpb.num_fats - 1) v.bpb.num_fats v.bpb.sectors_per_fat
          (omega (arith, fat.some_copy)),
    ) in
    let before : fat_read_entry v d ≡ seen_entry v v.sectors d =
      fat_read_entry_lem v v.sectors d fat fits in
    (
      ap (λ (r : Bool × Volume). r.0) run,
      ap (λ (r : Bool × Volume). fat_read_entry r.1 d) run
          ∙ fat_read_entry_lem v w d fat fits
          ∙ ap (λ (b : List ℕ). u16 (le16 b (d * 2 % 512)))
              (first (v.fat_start_lba + d * 2 / sector_size) (omega arith))
          ∙ seen_after v c d value fat small
          ∙ ap (λ (t : ℕ). if d == c then value else t) (sym before),
    )
