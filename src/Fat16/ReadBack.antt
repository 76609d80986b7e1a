-- ===== src/Fat16/ReadBack.antt =====
-- kernel/fat16.c: the contents of a file are read back.
use aioperatingsystem.Common.{
  ℕ, ◌+◌, ◌-◌, ◌*◌, ◌/◌, ◌^◌, ◌≤◌, ◌<◌, ◌≡◌, ◌⊎◌, refl, sym, ◌∙◌, ap, ap₂, subst, inl, inr, true,
  false, some, List, [], ◌∷◌, arith, min, leb, ltb, length, length-take, length-drop, take, drop,
  take-append-drop, All, ◌==◌, u32,
}
use native.Mathlib.Nat.{div-add-mod', mod-lt, zero-div, zero-mod}
use aioperatingsystem.Fat16.{Volume, cluster_to_lba, fat_read_entry}
use aioperatingsystem.Fat16.Chain.Free.{IsChain}
use aioperatingsystem.Fat16.Files.{
  no_room, written, write_clusters, clusters_needed, nth_cluster, read_from, read_sectors,
  read_clusters, fat16_read_file,
}
use aioperatingsystem.Fat16.Sectors.{read_sectors_lem}
use aioperatingsystem.Fat16.Clusters.{
  IsVolume, IsData, data_lba, data_lba-bound, cluster_to_lba_lem,
}
use aioperatingsystem.Fat16.Extend.{with_hint, AllTaken}
use aioperatingsystem.Fat16.Written.{All-map, HoldsClusters, start_of, Stored}
use aioperatingsystem.Fat16.Contents.{write_clusters_lem}

-- The clusters of a chain that hold the bytes are read one after the other.
read_clusters_lem :
    (cs : List ℕ) (c : ℕ) (bytes : List ℕ) (v : Volume)
    → IsVolume v
    → IsChain v c cs
    → All (IsData v) cs
    → HoldsClusters v v.sectors cs bytes
    → length bytes ≤ length cs * (v.bpb.sectors_per_cluster * 512)
    → read_clusters (length cs) v c 0 (length bytes) ≡ some bytes
unfolding read_clusters
read_clusters_lem [] c [] v h chain here holds fits = refl
read_clusters_lem [] c (b ∷ bytes) v h chain here holds fits = absurd (omega (arith, fits))
read_clusters_lem (d ∷ cs) c [] v h chain here holds fits = refl
read_clusters_lem (d ∷ cs) c (b ∷ bytes) v h (same, going, inside, once, links) (d_here, here)
      (first, rest) fits =
    let bs = b ∷ bytes in
    let spc = v.bpb.sectors_per_cluster in
    let c_here : IsData v c = subst (IsData v) same d_here in
    let at : cluster_to_lba v c + 0 ≡ data_lba v d =
      (let e : cluster_to_lba v c + 0 ≡ cluster_to_lba v c = omega arith in e)
      ∙ cluster_to_lba_lem v c h c_here
      ∙ ap (data_lba v) (sym same) in
    let got : read_sectors v (cluster_to_lba v c + 0) (spc - 0) 0 (length bs)
        ≡ (take (spc * 512) bs, true) =
      ap₂ (λ (l n : ℕ). read_sectors v l n 0 (length bs)) at
        (let e : spc - 0 ≡ spc = omega arith in e)
      ∙ read_sectors_lem spc (data_lba v d) bs v h.fat (omega (arith, data_lba-bound v d h d_here))
          first in
    let left : length bs - length (take (spc * 512) bs) ≡ length (drop (spc * 512) bs) =
      omega (arith, length-take (spc * 512) bs, length-drop (spc * 512) bs) in
    let more =
      read_clusters_lem cs (fat_read_entry v c) (drop (spc * 512) bs) v h links here rest
        (omega (arith, fits, length-drop (spc * 512) bs)) in
    let some_left : ltb 0 (length bs) ≡ true = ground arith in
    rw (going, got, left, more, some_left)
      (ap (λ (t : List ℕ). some t) (take-append-drop (spc * 512) bs))

rounded_up : (a b : ℕ) → 1 ≤ b → a ≤ (a + b - 1) / b * b
rounded_up a b h = omega (arith, div-add-mod' (a + b - 1) b, mod-lt (a + b - 1) h)

clusters_needed_lem :
    (v : Volume) (bytes : List ℕ)
    → 1 ≤ v.bpb.sectors_per_cluster
    → length bytes + v.bpb.sectors_per_cluster * 512 < 2 ^ 32
    → length bytes ≤ clusters_needed v (length bytes) * (v.bpb.sectors_per_cluster * 512)
clusters_needed_lem v [] some_sector small = omega arith
clusters_needed_lem v (b ∷ bytes) some_sector small =
    let len = length (b ∷ bytes) in
    let size = v.bpb.sectors_per_cluster * 512 in
    let going : (len == 0) ≡ false = ground arith in
    let e : u32 (len + size - 1) ≡ len + size - 1 = omega (arith, small) in
    rw (going, e) (rounded_up len size (omega (arith, some_sector)))

-- Reading from the start.
read_from_start :
    (v : Volume) (fuel f : ℕ) (bytes : List ℕ)
    → v.mounted ≡ true
    → 2 ≤ f
    → 0 < length bytes
    → read_clusters fuel v f 0 (length bytes) ≡ some bytes
    → fat16_read_file fuel v f (length bytes) 0 (length bytes) ≡ some bytes
unfolding fat16_read_file nth_cluster
read_from_start v fuel f bytes mounted real some_left read =
    let real_cluster : ltb f 2 ≡ false = ground (arith, real) in
    let not_empty : leb (length bytes) 0 ≡ false = ground (arith, some_left) in
    let size = v.bpb.sectors_per_cluster * 512 in
    let all : min (length bytes - 0) (length bytes) ≡ length bytes = omega arith in
    let unmount = sym mounted in
    rw (mounted, real_cluster, not_empty)
      ((λ i.
          let w : Volume = record v { mounted = unmount i } in
          read_from fuel w (nth_cluster w (zero-div size i) f) (zero-mod size i) (all i))
        ∙ read)

-- The volume `w` has the bytes in a file that begins at `f`, in clusters that were free in `v`.
abbrev pub ReadsBack : Volume → ℕ → List ℕ → ℕ → Volume → Type 0
ReadsBack v f bytes fuel w =
    (cs : List ℕ) × (length cs ≡ fuel)
    × Stored v 0 bytes cs w
    × (fat16_read_file fuel w f (length bytes) 0 (length bytes) ≡ some bytes)

read_nothing :
    (v : Volume) (fuel f : ℕ) → v.mounted ≡ true → fat16_read_file fuel v f 0 0 0 ≡ some []
unfolding fat16_read_file
read_nothing v fuel f mounted = ground (arith, mounted)

-- The layout of the volume is the same.
HoldsClusters_moved :
    (v : Volume) (s : ℕ → List ℕ) (hint : ℕ) (cs bytes : List ℕ)
    → HoldsClusters v s cs bytes
    → HoldsClusters (with_hint v s hint) s cs bytes
HoldsClusters_moved v s hint [] bytes h = tt
HoldsClusters_moved v s hint (c ∷ cs) bytes (here, rest) =
    (here, HoldsClusters_moved v s hint cs (drop (v.bpb.sectors_per_cluster * 512) bytes) rest)

reads_back :
    (v : Volume) (bytes cs : List ℕ) (s : ℕ → List ℕ) (hint n : ℕ)
    → v.mounted ≡ true
    → length cs ≡ n
    → length bytes ≤ n * (v.bpb.sectors_per_cluster * 512)
    → Stored v 0 bytes cs (with_hint v s hint)
    → fat16_read_file n (with_hint v s hint) (start_of 0 cs) (length bytes) 0 (length bytes)
      ≡ some bytes
reads_back v [] cs s hint n mounted count fits stored =
    read_nothing (with_hint v s hint) n (start_of 0 cs) mounted
reads_back v (b ∷ bytes) [] s hint n mounted count fits stored =
    absurd (omega (arith, fits, count, ap (λ (t : ℕ). t * (v.bpb.sectors_per_cluster * 512)) count))
reads_back v (b ∷ bytes) (c ∷ cs) s hint n mounted count fits stored =
    let here = All-map (c ∷ cs) (λ d p. p.0) stored.fresh in
    read_from_start (with_hint v s hint) n c (b ∷ bytes) mounted here.0.0 (omega arith) (
      subst
        (λ (k : ℕ).
          read_clusters k (with_hint v s hint) c 0 (length (b ∷ bytes)) ≡ some (b ∷ bytes))
        count
        (read_clusters_lem (c ∷ cs) c (b ∷ bytes) (with_hint v s hint) stored.volume stored.chain
          here (HoldsClusters_moved v s hint (c ∷ cs) (b ∷ bytes) stored.contents)
          (subst (λ (k : ℕ). length (b ∷ bytes) ≤ k * (v.bpb.sectors_per_cluster * 512)) (sym count)
            fits)))

-- On a volume that is laid out as it has to be, is mounted, and every sector of which can be read and written,
-- for bytes whose number does not wrap when it is rounded up to clusters, the loop of `fat16_write_file`
-- over a new chain ends in one of two ways. Either no data cluster is free any more; or it returns the
-- first cluster of a chain of as many clusters as the bytes need, `fat16_read_file` then returns the
-- bytes, the volume is laid out as before, the clusters of the chain were free, and all others that were
-- in use have their entries of the table and their sectors as before.
pub write_clusters-fat16_read_file :
    (v : Volume) (bytes : List ℕ)
    → IsVolume v
    → v.mounted ≡ true
    → length bytes + v.bpb.sectors_per_cluster * 512 < 2 ^ 32
    → let n = clusters_needed v (length bytes) in
      ((f : ℕ) × (w : Volume) × (write_clusters v n 0 0 bytes ≡ (no_room f, w)) × AllTaken w)
      ⊎ ((f : ℕ) × (w : Volume) × (write_clusters v n 0 0 bytes ≡ (written f, w))
          × ReadsBack v f bytes n w)
write_clusters-fat16_read_file v bytes h mounted small =
    let n = clusters_needed v (length bytes) in
    elim (write_clusters_lem n 0 0 bytes v h (inl refl) (λ there. omega (arith, there))) [
      | inl full ↦ inl full
      | inr (cs, s, hint, run, count, stored) ↦ inr (
        start_of 0 cs,
        with_hint v s hint,
        run,
        (
          cs,
          count,
          stored,
          reads_back v bytes cs s hint n mounted count
              (clusters_needed_lem v bytes h.some_sector small) stored,
        ),
      )
    ]
