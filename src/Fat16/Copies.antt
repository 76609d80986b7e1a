-- ===== src/Fat16/Copies.antt =====
-- Writing the copies of an entry of the allocation table, in kernel/fat16.c.
use aioperatingsystem.Common.{
  ℕ, zero, suc, ◌+◌, ◌-◌, ◌*◌, ◌/◌, ◌%◌, ◌^◌, ◌≤◌, ◌<◌, ◌≡◌, refl, sym, ◌∙◌, ap, subst, ◌≢◌, inl,
  inr, Bool, true, List, arith, length, u32, ◌==◌, Bool-cases, ==_iff,
}
use aioperatingsystem.Fat16.{
  Volume, sector_size, put_le16, put_sector, read_sector, write_sector, write_copies,
  fat_write_entry,
}
use aioperatingsystem.Fat16.Words.{length-put_le16}

-- At least one copy of the table, on a disk every sector of which can be read and written and holds 512
-- bytes.
pub record IsFat (v : Volume) : Type 0 where
  pub some_copy : 1 ≤ v.bpb.num_fats
  pub addressable : v.fat_start_lba + v.bpb.num_fats * v.bpb.sectors_per_fat < 2 ^ 32
  pub can_read : (lba : ℕ) → v.readable lba ≡ true
  pub can_write : (lba : ℕ) → v.writable lba ≡ true
  pub whole : (lba : ℕ) → length (v.sectors lba) ≡ 512

abbrev pub with_sectors : Volume → (ℕ → List ℕ) → Volume
with_sectors v s = record v { sectors = s }

pub put_sector_ne :
    (s : ℕ → List ℕ) (lba l : ℕ) (buf : List ℕ) → l ≢ lba → put_sector s lba buf l ≡ s l
put_sector_ne s lba l buf ne = ground arith

pub put_sector_at :
    (s : ℕ → List ℕ) (lba l : ℕ) (buf : List ℕ) → l ≡ lba → put_sector s lba buf l ≡ buf
put_sector_at s lba l buf e = ground arith

abbrev pub entry_sector : Volume → ℕ → ℕ → ℕ
entry_sector v i c = v.fat_start_lba + i * v.bpb.sectors_per_fat + c * 2 / sector_size

abbrev pub written : Volume → (ℕ → List ℕ) → ℕ → ℕ → ℕ → ℕ → List ℕ
written v s i c value =
    put_sector s (entry_sector v i c)
      (put_le16 (s (entry_sector v i c)) (c * 2 % sector_size) value)

length-put_sector :
    (s : ℕ → List ℕ) (lba l : ℕ) (buf : List ℕ)
    → length buf ≡ length (s lba)
    → length (put_sector s lba buf l) ≡ length (s l)
length-put_sector s lba l buf e = elim (Bool-cases (l == lba)) [
  | inl same ↦ rw same (e ∙ ap (λ (t : ℕ). length (s t)) (sym ((==_iff l lba).0 same)))
  | inr other ↦ rw other refl
]

length-written :
    (v : Volume) (s : ℕ → List ℕ) (i c value lba : ℕ)
    → length (written v s i c value lba) ≡ length (s lba)
length-written v s i c value lba =
    length-put_sector s (entry_sector v i c) lba _
      (length-put_le16 (s (entry_sector v i c)) (c * 2 % sector_size) value)

copies_step :
    (v : Volume) (s : ℕ → List ℕ) (left i c value : ℕ)
    → IsFat v
    → entry_sector v i c < 2 ^ 32
    → write_copies (with_sectors v s) (suc left) i c value
      ≡ write_copies (with_sectors v (written v s i c value)) left (i + 1) c value
unfolding write_copies read_sector write_sector
copies_step v s left i c value fat fits =
    let small : u32 (entry_sector v i c) ≡ entry_sector v i c = omega arith in
    rw (small, fat.can_read (entry_sector v i c), fat.can_write (entry_sector v i c)) refl

pub split_copies : (i left n spf : ℕ) → i + suc left ≡ n → n * spf ≡ i * spf + spf + left * spf
split_copies i left n spf e = ap (λ (t : ℕ). t * spf) (sym e) ∙ omega arith

copies_lem :
    (v : Volume) (s : ℕ → List ℕ) (left i c value : ℕ)
    → IsFat v
    → (c * 2 / sector_size < v.bpb.sectors_per_fat)
    → i + left ≡ v.bpb.num_fats
    → (w : ℕ → List ℕ) × (write_copies (with_sectors v s) left i c value ≡ (true, with_sectors v w))
      × ((lba : ℕ) → lba < v.fat_start_lba + i * v.bpb.sectors_per_fat → w lba ≡ s lba)
      × ((lba : ℕ) → length (w lba) ≡ length (s lba))
      × ((lba : ℕ) → v.fat_start_lba + v.bpb.num_fats * v.bpb.sectors_per_fat ≤ lba → w lba ≡ s lba)
copies_lem v s zero i c value fat inside e =
    (s, unfold write_copies in refl, λ lba h. refl, λ lba. refl, λ lba h. refl)
copies_lem v s (suc left) i c value fat inside e =
    let rest = copies_lem v (written v s i c value) left (i + 1) c value fat inside (omega arith) in
    (
      rest.0,
      copies_step v s left i c value fat (
            omega (
              arith,
              inside,
              fat.addressable,
              split_copies i left v.bpb.num_fats v.bpb.sectors_per_fat e,
            ))
          ∙ rest.1,
      λ lba h.
          rest.2 lba (omega arith)
          ∙ put_sector_ne s (entry_sector v i c) lba _ (λ same. omega arith),
      λ lba. rest.3 lba ∙ length-written v s i c value lba,
      λ lba h.
          rest.4 lba h
          ∙ put_sector_ne s (entry_sector v i c) lba _ (λ same.
            omega (arith, h, inside, split_copies i left v.bpb.num_fats v.bpb.sectors_per_fat e)),
    )

abbrev pub first_written : Volume → ℕ → ℕ → ℕ → List ℕ
first_written v c value = written v v.sectors 0 c value

pub fat_write_entry_lem :
    (v : Volume) (c value : ℕ)
    → IsFat v
    → c * 2 / sector_size < v.bpb.sectors_per_fat
    → (w : ℕ → List ℕ) × (fat_write_entry v c value ≡ (true, with_sectors v w))
      × ((lba : ℕ)
          → lba < v.fat_start_lba + v.bpb.sectors_per_fat
          → w lba ≡ first_written v c value lba)
      × ((lba : ℕ) → length (w lba) ≡ length (v.sectors lba))
      × ((lba : ℕ)
          → v.fat_start_lba + v.bpb.num_fats * v.bpb.sectors_per_fat ≤ lba
          → w lba ≡ v.sectors lba)
unfolding fat_write_entry
fat_write_entry_lem v c value fat inside =
    let n = v.bpb.num_fats - 1 in
    let some_copy : v.bpb.num_fats ≡ suc n = omega (arith, fat.some_copy) in
    let rest =
      copies_lem v (first_written v c value) n 1 c value fat inside
        (omega (arith, fat.some_copy)) in
    (
      rest.0,
      ap (λ (t : ℕ). write_copies v t 0 c value) some_copy
          ∙ copies_step v v.sectors n 0 c value fat (
              omega (
                arith,
                inside,
                fat.addressable,
                fat.some_copy,
                split_copies 0 n v.bpb.num_fats v.bpb.sectors_per_fat (omega arith),
              ))
          ∙ rest.1,
      λ lba h. rest.2 lba (omega arith),
      λ lba. rest.3 lba ∙ length-written v v.sectors 0 c value lba,
      λ lba h.
          rest.4 lba h
          ∙ put_sector_ne v.sectors (entry_sector v 0 c) lba _ (λ same. omega (
            arith,
            h,
            inside,
            fat.some_copy,
            split_copies 0 n v.bpb.num_fats v.bpb.sectors_per_fat (omega arith),
          )),
    )

-- Writing an entry of the table keeps the disk as it has to be.
pub fat_write_entry-IsFat :
    (v : Volume) (c value : ℕ)
    → IsFat v
    → c * 2 / sector_size < v.bpb.sectors_per_fat
    → let w = (fat_write_entry v c value).1 in
      IsFat w × (w.bpb.sectors_per_fat ≡ v.bpb.sectors_per_fat)
fat_write_entry-IsFat v c value fat inside =
    let (w, run, first, same, beyond) = fat_write_entry_lem v c value fat inside in
    let after : IsFat (with_sectors v w) = record {
      some_copy = fat.some_copy;
      addressable = fat.addressable;
      can_read = fat.can_read;
      can_write = fat.can_write;
      whole = λ lba. same lba ∙ fat.whole lba;
    } in
    subst (λ (r : Bool × Volume). IsFat r.1 × (r.1.bpb.sectors_per_fat ≡ v.bpb.sectors_per_fat))
      (sym run) (after, refl)
