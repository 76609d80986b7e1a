-- ===== src/Fat16/Sectors.antt =====
-- kernel/fat16.c: the sectors that a file's bytes are written to, and what is read from them.
use aioperatingsystem.Common.{
  ℕ, zero, suc, ◌+◌, ◌-◌, ◌*◌, ◌^◌, ◌≤◌, ◌<◌, ◌≡◌, ◌⊎◌, refl, sym, ◌∙◌, ap, ap₂, subst, Bool, true,
  false, List, [], ◌∷◌, ◌++◌, arith, min, length, length-replicate, set, length-set, take, drop,
  length-take, length-drop, take-take, drop-take, take_add, take_all, u32, ◌==◌, if◌then◌else◌,
}
use aioperatingsystem.Fat16.{Volume, put_sector, read_sector, write_sector}
use aioperatingsystem.Fat16.Copies.{IsFat, with_sectors, put_sector_ne, put_sector_at}
use aioperatingsystem.Fat16.Chain.{zero_sector, zero_sectors}
use aioperatingsystem.Fat16.Slot.{put_bytes}
use aioperatingsystem.Fat16.Files.{padded_sector, read_sectors, write_sectors}

length-put_bytes :
    (buf : List ℕ) (o : ℕ) (bytes : List ℕ) → length (put_bytes buf o bytes) ≡ length buf
unfolding put_bytes
length-put_bytes buf o [] = refl
length-put_bytes buf o (b ∷ bytes) =
    length-put_bytes (set buf o b) (o + 1) bytes ∙ length-set buf o b

put_bytes-cons :
    (x : ℕ) (buf : List ℕ) (o : ℕ) (bytes : List ℕ)
    → put_bytes (x ∷ buf) (suc o) bytes ≡ x ∷ put_bytes buf o bytes
unfolding put_bytes
put_bytes-cons x buf o [] = refl
put_bytes-cons x buf o (b ∷ bytes) =
    ap (λ (t : ℕ). put_bytes (x ∷ set buf o b) t bytes)
      (let e : suc o + 1 ≡ suc (o + 1) = omega arith in e)
    ∙ put_bytes-cons x (set buf o b) (o + 1) bytes

take-put_bytes :
    (buf bytes : List ℕ)
    → length bytes ≤ length buf
    → take (length bytes) (put_bytes buf 0 bytes) ≡ bytes
unfolding put_bytes
take-put_bytes buf [] h = refl
take-put_bytes [] (b ∷ bytes) h = absurd (omega arith)
take-put_bytes (x ∷ buf) (b ∷ bytes) h =
    ap (take (suc (length bytes))) (put_bytes-cons b buf 0 bytes)
    ∙ ap (λ (t : List ℕ). b ∷ t) (take-put_bytes buf bytes (omega (arith, h)))

length-padded_sector : (bytes : List ℕ) → length (padded_sector bytes) ≡ 512
length-padded_sector bytes = length-put_bytes zero_sector 0 bytes ∙ length-replicate {A = ℕ} 512 0

-- The sectors other than the `n` from `lba` on are the same.
abbrev pub SameOutside : (s t : ℕ → List ℕ) → (lba n : ℕ) → Type 0
SameOutside s t lba n = (l : ℕ) → (l < lba) ⊎ (lba + n ≤ l) → t l ≡ s l

abbrev pub AllWhole : (ℕ → List ℕ) → Type 0
AllWhole s = (l : ℕ) → length (s l) ≡ 512

-- The `n` sectors from `lba` on hold the bytes, as far as these go.
abbrev pub Holds : (ℕ → List ℕ) → (lba n : ℕ) → List ℕ → Type 0
Holds s lba zero bytes = Unit {0}
Holds s lba (suc n) bytes =
    (0 < length bytes → s lba ≡ padded_sector (take 512 bytes))
    × Holds s (lba + 1) n (drop 512 bytes)

pub Holds-same :
    (s t : ℕ → List ℕ) (lba n : ℕ) (bytes : List ℕ)
    → ((l : ℕ) → lba ≤ l → l < lba + n → t l ≡ s l)
    → Holds s lba n bytes
    → Holds t lba n bytes
Holds-same s t lba zero bytes same h = tt
Holds-same s t lba (suc n) bytes same (first, rest) = (
  λ some_left. same lba (omega arith) (omega arith) ∙ first some_left,
  Holds-same s t (lba + 1) n (drop 512 bytes) (λ l ge lt. same l (omega arith) (omega arith)) rest,
)

Holds-nil : (s : ℕ → List ℕ) (lba n : ℕ) → Holds s lba n []
Holds-nil s lba zero = tt
Holds-nil s lba (suc n) = (λ some_left. absurd (omega arith), Holds-nil s (lba + 1) n)

-- Bytes past the last sector do not count.
pub Holds-take :
    (s : ℕ → List ℕ) (lba n : ℕ) (bytes : List ℕ)
    → Holds s lba n (take (n * 512) bytes)
    → Holds s lba n bytes
Holds-take s lba zero bytes h = tt
Holds-take s lba (suc n) bytes (first, rest) = (
  λ some_left.
      first (omega (arith, some_left, length-take (suc n * 512) bytes))
      ∙ ap (λ (t : List ℕ). padded_sector t) (take-take 512 (suc n * 512) bytes (omega arith)),
  Holds-take s (lba + 1) n (drop 512 bytes) (
      subst (λ (t : List ℕ). Holds s (lba + 1) n t)
        (drop-take 512 (n * 512) (suc n * 512) bytes (omega arith)) rest),
)

-- One sector of a disk that can be written.
one_sector :
    (v : Volume) (lba : ℕ) (buf : List ℕ)
    → IsFat v
    → lba < 2 ^ 32
    → write_sector v (u32 lba) buf ≡ (true, with_sectors v (put_sector v.sectors lba buf))
unfolding write_sector
one_sector v lba buf fat small =
    let e : u32 lba ≡ lba = omega arith in rw (e, fat.can_write lba) refl

put_sector-AllWhole :
    (s : ℕ → List ℕ) (lba : ℕ) (buf : List ℕ)
    → AllWhole s
    → length buf ≡ 512
    → AllWhole (put_sector s lba buf)
put_sector-AllWhole s lba buf whole e l =
    elim (l == lba) as (λ (b : Bool). length (if b then buf else s l) ≡ 512) [
      | true ↦ e
      | false ↦ whole l
    ]

pub with_sectors-IsFat :
    (v : Volume) (s : ℕ → List ℕ) → IsFat v → AllWhole s → IsFat (with_sectors v s)
with_sectors-IsFat v s fat whole = record {
  some_copy = fat.some_copy;
  addressable = fat.addressable;
  can_read = fat.can_read;
  can_write = fat.can_write;
  whole = whole;
}

pub zero_sectors_lem :
    (n lba : ℕ) (v : Volume)
    → IsFat v
    → lba + n ≤ 2 ^ 32
    → (s : ℕ → List ℕ) × (zero_sectors v lba n ≡ (true, with_sectors v s))
      × AllWhole s
      × SameOutside v.sectors s lba n
unfolding zero_sectors
zero_sectors_lem zero lba v fat small = (v.sectors, refl, fat.whole, λ l h. refl)
zero_sectors_lem (suc n) lba v fat small =
    let s1 = put_sector v.sectors lba zero_sector in
    let whole1 : AllWhole s1 =
      put_sector-AllWhole v.sectors lba zero_sector fat.whole (length-replicate {A = ℕ} 512 0) in
    let (s, run, whole, same) =
      zero_sectors_lem n (lba + 1) (with_sectors v s1) (with_sectors-IsFat v s1 fat whole1)
        (omega arith) in
    (
      s,
      rw (one_sector v lba zero_sector fat (omega arith)) run,
      whole,
      λ l h.
          same l (omega (arith, h))
          ∙ put_sector_ne v.sectors lba l zero_sector (λ e. omega (arith, h)),
    )

pub write_sectors_lem :
    (n lba : ℕ) (bytes : List ℕ) (v : Volume)
    → IsFat v
    → lba + n ≤ 2 ^ 32
    → (s : ℕ → List ℕ) × (write_sectors v lba n bytes ≡ (true, with_sectors v s))
      × AllWhole s
      × SameOutside v.sectors s lba n
      × Holds s lba n bytes
unfolding write_sectors
write_sectors_lem zero lba bytes v fat small = (v.sectors, refl, fat.whole, λ l h. refl, tt)
write_sectors_lem (suc n) lba [] v fat small =
    (v.sectors, refl, fat.whole, λ l h. refl, Holds-nil v.sectors lba (suc n))
write_sectors_lem (suc n) lba (b ∷ bytes) v fat small =
    let buf = padded_sector (take 512 (b ∷ bytes)) in
    let s1 = put_sector v.sectors lba buf in
    let whole1 : AllWhole s1 =
      put_sector-AllWhole v.sectors lba buf fat.whole
        (length-padded_sector (take 512 (b ∷ bytes))) in
    let (s, run, whole, same, holds) =
      write_sectors_lem n (lba + 1) (drop 512 (b ∷ bytes)) (with_sectors v s1)
        (with_sectors-IsFat v s1 fat whole1) (omega arith) in
    (
      s,
      rw (one_sector v lba buf fat (omega arith)) run,
      whole,
      λ l h. same l (omega (arith, h)) ∙ put_sector_ne v.sectors lba l buf (λ e. omega (arith, h)),
      (λ some_left. same lba (omega arith) ∙ put_sector_at v.sectors lba lba buf refl, holds),
    )

-- The bytes in sectors are read back.
pub read_sectors_lem :
    (n lba : ℕ) (bytes : List ℕ) (v : Volume)
    → IsFat v
    → lba + n ≤ 2 ^ 32
    → Holds v.sectors lba n bytes
    → read_sectors v lba n 0 (length bytes) ≡ (take (n * 512) bytes, true)
unfolding read_sectors read_sector
read_sectors_lem zero lba bytes v fat small h = refl
read_sectors_lem (suc n) lba [] v fat small h =
    ap (λ (t : List ℕ). (t, true)) (sym (take_all (suc n * 512) [] (omega arith)))
read_sectors_lem (suc n) lba (b ∷ bytes) v fat small (first, rest) =
    let bs = b ∷ bytes in
    let e : u32 lba ≡ lba = omega arith in
    let going : (length bs == 0) ≡ false = ground arith in
    let chunk : min 512 (length bs) ≡ length (take 512 bs) = sym (length-take 512 bs) in
    let left : length bs - min 512 (length bs) ≡ length (drop 512 bs) =
      omega (arith, length-drop 512 bs) in
    let more = read_sectors_lem n (lba + 1) (drop 512 bs) v fat (omega arith) rest in
    let front : take (length (take 512 bs)) (padded_sector (take 512 bs)) ≡ take 512 bs =
      take-put_bytes zero_sector (take 512 bs)
        (omega (arith, length-take 512 bs, length-replicate {A = ℕ} 512 0)) in
    rw (e, fat.can_read lba, first (omega arith), going)
      (ap₂ (λ (k : ℕ) (r : List ℕ × Bool). (take k (padded_sector (take 512 bs)) ++ r.0, r.1)) chunk
          (ap (read_sectors v (lba + 1) n 0) left ∙ more)
        ∙ ap (λ (t : List ℕ). (t ++ take (n * 512) (drop 512 bs), true)) front
        ∙ ap (λ (t : List ℕ). (t, true)) (take_add 512 (n * 512) (suc n * 512) bs (omega arith)))
